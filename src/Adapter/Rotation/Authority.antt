-- ===== src/Adapter/Rotation/Authority.antt =====
-- Authority, once lost, and the order of generations and epochs.
use agent_wharf.Prelude.{
  ℕ, ◌+◌, ◌≤◌, ◌<◌, String, ◌≡◌, refl, ◌⊎◌, inl, inr, ◌≢◌, Bool, true, false, ◌||◌, Option, none,
  some, List, [], ◌∷◌, arith, eq_iff, eq_refl, ok, done, is_ok, Option-cases,
}
use agent_wharf.Adapter.Credential.{SessionCredential, validate}
use agent_wharf.Adapter.Rotation.{
  CredentialRotation, PendingRotation, Receipt, RecoveryPermit, RotationStatus, Call,
  activate_pending, repeated, activate_authorized, prepares, acknowledges, activates, retries,
  reconnects, receipts, permits, authorizes, loses, revokes, ends, recovery_window, authority,
  authorize, prepare, possession_ack, activate, retry_activation, reconnect, active_receipt,
  recovery_permit, step, run,
}
use agent_wharf.Adapter.Rotation.Invariant.{
  generation_of, Newer, Inv, authorize-Inv, activate_authorized-Inv, step-Inv, if_authorized-keeps,
}

-- The lineage can grant nothing any more.
abbrev pub Lost : CredentialRotation → Type 0
Lost r = (r.revoked || r.terminal || r.authority_lost) ≡ true

-- The calls that ask for authority; the others only give it up.
abbrev pub asks : Call → Bool
asks loses = false
asks revokes = false
asks ends = false
asks _ = true

authority-Lost : (r : CredentialRotation) → Lost r → is_ok (authority r) ≡ false
unfolding authority
authority-Lost r l = ground arith

pub step-Lost : (c : Call) (r : CredentialRotation) → Lost r → Lost (step c r).1
unfolding step prepare possession_ack activate retry_activation reconnect active_receipt
    recovery_permit
step-Lost (prepares now later id none) r l = l
step-Lost (prepares now later id (some c)) r l = ground arith
step-Lost (acknowledges now later id e) r l = ground arith
step-Lost (activates now later last a) r l = ground arith
step-Lost (retries now id) r l = ground arith
step-Lost (reconnects now e g) r l = ground arith
step-Lost (receipts now) r l = ground arith
step-Lost (permits now later last) r l = ground arith
step-Lost (authorizes now) r l = ground arith
step-Lost loses r l = ground arith
step-Lost revokes r l = ground arith
step-Lost ends r l = ground arith

pub step_refused :
    (c : Call) (r : CredentialRotation) → Lost r → asks c ≡ true → (step c r).0 ≡ false
unfolding step prepare possession_ack activate retry_activation reconnect active_receipt
    recovery_permit
step_refused (prepares now later id none) r l a = refl
step_refused (prepares now later id (some c)) r l a = ground arith
step_refused (acknowledges now later id e) r l a = ground arith
step_refused (activates now later last a) r l _ = ground arith
step_refused (retries now id) r l a = ground arith
step_refused (reconnects now e g) r l a = ground arith
step_refused (receipts now) r l a = ground arith
step_refused (permits now later last) r l a = ground arith
step_refused (authorizes now) r l a = ground arith
step_refused loses r l a = cc
step_refused revokes r l a = cc
step_refused ends r l a = cc

pub run-Lost : (cs : List Call) (r : CredentialRotation) → Lost r → Lost (run cs r)
unfolding run
run-Lost [] r l = l
run-Lost (c ∷ cs) r l = run-Lost cs (step c r).1 (step-Lost c r l)

-- A lineage that is revoked, terminal or has lost its authority is never restored: after any further
-- calls, a reconnect included, every call that asks for authority is refused.
pub Lost-forever :
    (r : CredentialRotation) (cs : List Call) (c : Call)
    → Lost r
    → asks c ≡ true
    → Lost (run cs r) × ((step c (run cs r)).0 ≡ false)
Lost-forever r cs c l a = (run-Lost cs r l, step_refused c (run cs r) (run-Lost cs r l) a)

-- From one state to a later one: the epoch never falls, nor does the generation of the active
-- credential, unless the lineage has given its credentials up.
pub record Grows (r q : CredentialRotation) : Type 0 where
  pub epochs : r.epoch ≤ q.epoch
  pub generations :
      (generation_of r.active ≤ generation_of q.active) ⊎ ((q.revoked || q.terminal) ≡ true)
  pub final : ((r.revoked || r.terminal) ≡ false) ⊎ ((q.revoked || q.terminal) ≡ true)

authorize-Grows : (now : ℕ) (r : CredentialRotation) → Grows r (authorize now r).1
unfolding authorize
authorize-Grows now r = ground arith

Grows-refl : (r : CredentialRotation) → Grows r r
Grows-refl r = ground arith

Grows-trans : {r q s : CredentialRotation} → Grows r q → Grows q s → Grows r s
Grows-trans g h = ground arith

activate_pending-Grows :
    (later last : ℕ) (a : Receipt) (r : CredentialRotation) (p : Option PendingRotation)
    → Newer p (generation_of r.active)
    → Grows r (activate_pending later last a r p).1
unfolding activate_pending
activate_pending-Grows later last a r none n = Grows-refl r
activate_pending-Grows later last a r (some p) n = ground arith

activate_authorized-Grows :
    (later last : ℕ) (a : Receipt) (r : CredentialRotation)
    → Inv r
    → Grows r (activate_authorized later last a r).1
activate_authorized-Grows later last a r v = elim (Option-cases (repeated a r)) [
  | inl e ↦ rw (e, activate_authorized) (activate_pending-Grows later last a r r.pending v.newer)
  | inr (o, e) ↦ rw (e, activate_authorized) (Grows-refl r)
]

activate-Grows :
    (now later last : ℕ) (a : Receipt) (r : CredentialRotation)
    → Inv r
    → Grows r (activate now later last a r).1
unfolding activate
activate-Grows now later last a r v =
    (if_authorized-keeps (λ q. Inv q × Grows r q) now r (activate_authorized later last a)
      (authorize-Inv now r v, authorize-Grows now r)
      λ q h. (
        activate_authorized-Inv later last a q h.0,
        Grows-trans h.1 (activate_authorized-Grows later last a q h.0),
      )).1

step-Grows : (c : Call) (r : CredentialRotation) → Inv r → Grows r (step c r).1
unfolding step prepare possession_ack retry_activation reconnect active_receipt recovery_permit
step-Grows (prepares now later id none) r v = Grows-refl r
step-Grows (prepares now later id (some c)) r v = ground arith
step-Grows (acknowledges now later id e) r v = ground arith
step-Grows (activates now later last a) r v = activate-Grows now later last a r v
step-Grows (retries now id) r v = ground arith
step-Grows (reconnects now e g) r v = ground arith
step-Grows (receipts now) r v = ground arith
step-Grows (permits now later last) r v = ground arith
step-Grows (authorizes now) r v = ground arith
step-Grows loses r v = ground arith
step-Grows revokes r v = ground arith
step-Grows ends r v = ground arith

run-Grows : (cs : List Call) (r : CredentialRotation) → Inv r → Grows r (run cs r)
unfolding run
run-Grows [] r v = Grows-refl r
run-Grows (c ∷ cs) r v = Grows-trans (step-Grows c r v) (run-Grows cs (step c r).1 (step-Inv c r v))

-- Over any history of calls on a lineage that satisfies the invariant the epoch never falls, nor does
-- the generation of the active credential unless the lineage ends revoked or terminal; and a lineage
-- that is revoked or terminal stays so.
pub run_monotone :
    (r : CredentialRotation) (cs : List Call)
    → Inv r
    → (r.epoch ≤ (run cs r).epoch)
      × ((generation_of r.active ≤ generation_of (run cs r).active)
          ⊎ (((run cs r).revoked || (run cs r).terminal) ≡ true))
      × (((r.revoked || r.terminal) ≡ false) ⊎ (((run cs r).revoked || (run cs r).terminal) ≡ true))
run_monotone r cs v = let g = run-Grows cs r v in (g.epochs, g.generations, g.final)

-- A permit for recovery names the prior credential, of a lower generation than the active one, within
-- the recovery window and before that credential expires.
pub recovery_permit_sound :
    (now later last : ℕ) (r : CredentialRotation) (p : RecoveryPermit)
    → Inv r
    → (recovery_permit now later last r).0 ≡ ok p
    → (c : SessionCredential) × (r.prior ≡ some c)
      × (p.generation ≡ c.metadata.generation)
      × (p.generation < generation_of r.active)
      × (later ≤ r.prior_recovery_until)
      × (last < c.metadata.expires_at)
unfolding recovery_permit
recovery_permit_sound now later last r p v h = elim (Option-cases r.prior) [
  | inl e ↦ absurd (ground arith)
  | inr (c, e) ↦ (c, e, ground arith, ground arith, ground arith, ground arith)
]

-- The states and the receipt of one rotation.
abbrev pub prepared : CredentialRotation → String → SessionCredential → CredentialRotation
prepared r id c = record r { pending = some (record { id = id; credential = c }) }

abbrev pub rotated :
    ℕ → CredentialRotation → String → SessionCredential → SessionCredential → CredentialRotation
rotated now r id old c = record r {
  active = some c;
  prior = some old;
  pending = none;
  active_rotation_id = id;
  prior_recovery_until = now + recovery_window;
}

abbrev pub receipt : CredentialRotation → String → SessionCredential → RotationStatus → Receipt
receipt r id c status = record {
  rotation_id = id;
  session_id = r.session_id;
  epoch = r.epoch;
  generation = c.metadata.generation;
  status = status;
}

module _ (now : ℕ) (id : String) (old c : SessionCredential) (r : CredentialRotation)
    (a : is_ok (authority r) ≡ true) where
  prepare_flow :
      r.active ≡ some old
      → r.pending ≡ none
      → is_ok (validate (some c) r.session_id now) ≡ true
      → old.metadata.generation < c.metadata.generation
      → id ≢ ""
      → prepare now now id (some c) r ≡ (done, prepared r id c)
  unfolding prepare authority validate
  prepare_flow e p v g n = ground (arith, eq_iff id "")

  possession_flow :
      r.active ≡ some old
      → now < old.metadata.expires_at
      → is_ok (validate (some c) r.session_id now) ≡ true
      → possession_ack now now id r.epoch (prepared r id c)
        ≡ (ok (receipt r id c RotationStatus.pending), prepared r id c)
  unfolding possession_ack authority validate
  possession_flow e t v = ground (arith, eq_refl id)

  activate_flow :
      r.active ≡ some old
      → now < old.metadata.expires_at
      → is_ok (validate (some c) r.session_id now) ≡ true
      → activate now now now (receipt r id c RotationStatus.pending) (prepared r id c)
        ≡ (done, rotated now r id old c)
  unfolding activate authority validate
  activate_flow e t v = ground (arith, eq_refl id, eq_refl r.session_id)

  retry_flow :
      is_ok (validate (some c) r.session_id now) ≡ true
      → retry_activation now id (rotated now r id old c)
        ≡ (ok (receipt r id c RotationStatus.active), rotated now r id old c)
  unfolding retry_activation authority validate
  retry_flow v = ground (arith, eq_refl id)

  repeat_flow :
      is_ok (validate (some c) r.session_id now) ≡ true
      → id ≢ ""
      → activate now now now (receipt r id c RotationStatus.active) (rotated now r id old c)
        ≡ (done, rotated now r id old c)
  unfolding activate authority validate
  repeat_flow v n = ground (arith, eq_refl id, eq_refl r.session_id, eq_iff id "")

-- The whole rotation, for a lineage with authority, an unexpired active credential and nothing
-- pending, and a valid credential of a higher generation, at times before either expires: `Prepare`
-- succeeds, the receipt of `PossessionAck` activates the new credential and leaves the old one for
-- recovery, and afterwards `RetryActivation` returns a receipt whose activation is granted again and
-- changes nothing.
pub rotate_flow :
    (now : ℕ) (id : String) (old c : SessionCredential) (r : CredentialRotation)
    → is_ok (authority r) ≡ true
    → r.active ≡ some old
    → r.pending ≡ none
    → now < old.metadata.expires_at
    → is_ok (validate (some c) r.session_id now) ≡ true
    → old.metadata.generation < c.metadata.generation
    → id ≢ ""
    → (prepare now now id (some c) r ≡ (done, prepared r id c))
      × (possession_ack now now id r.epoch (prepared r id c)
          ≡ (ok (receipt r id c RotationStatus.pending), prepared r id c))
      × (activate now now now (receipt r id c RotationStatus.pending) (prepared r id c)
          ≡ (done, rotated now r id old c))
      × (retry_activation now id (rotated now r id old c)
          ≡ (ok (receipt r id c RotationStatus.active), rotated now r id old c))
      × (activate now now now (receipt r id c RotationStatus.active) (rotated now r id old c)
          ≡ (done, rotated now r id old c))
rotate_flow now id old c r a e p t v g n = (
  prepare_flow now id old c r a e p v g n,
  possession_flow now id old c r a e t v,
  activate_flow now id old c r a e t v,
  retry_flow now id old c r a v,
  repeat_flow now id old c r a v n,
)
