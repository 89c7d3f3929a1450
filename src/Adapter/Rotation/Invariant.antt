-- ===== src/Adapter/Rotation/Invariant.antt =====
-- The lineage invariant, and what no history of calls can undo.
use agent_wharf.Prelude.{
  ℕ, ◌≤◌, ◌<◌, String, ◌≡◌, refl, ◌⊎◌, inl, inr, ◌≢◌, true, ◌||◌, Option, none, some, List, [], ◌∷◌,
  arith, Result, Outcome, ok, err, Option-cases,
}
use agent_wharf.Adapter.Credential.{CredentialError, SessionCredential, metadata_or_zero, validate}
use agent_wharf.Adapter.Rotation.{
  CredentialRotation, PendingRotation, Receipt, Call, if_authorized, activate_pending, repeated,
  activate_authorized, prepares, acknowledges, activates, retries, reconnects, receipts, permits,
  authorizes, loses, revokes, ends, new_credential_rotation, authorize, prepare, possession_ack,
  activate, retry_activation, reconnect, active_receipt, recovery_permit, step, run,
}

abbrev pub generation_of : Option SessionCredential → ℕ
generation_of c = (metadata_or_zero c).generation

-- The pending and the prior credential against the active one.
abbrev pub Newer : Option PendingRotation → ℕ → Type 0
Newer none g = Unit
Newer (some p) g = g < p.credential.metadata.generation

abbrev pub Older : Option SessionCredential → ℕ → Type 0
Older none g = Unit
Older (some c) g = c.metadata.generation < g

-- While the lineage is neither revoked nor terminal it has an active credential; what is pending has
-- a higher generation than that, and what can still recover has a lower one.
pub record Inv (r : CredentialRotation) : Type 0 where
  pub held : (r.active ≢ none) ⊎ ((r.revoked || r.terminal) ≡ true)
  pub newer : Newer r.pending (generation_of r.active)
  pub older : Older r.prior (generation_of r.active)
  pub counted : 1 ≤ r.epoch

new-Inv :
    (now : ℕ) (s : String) (c : Option SessionCredential) (e : ℕ) (r : CredentialRotation)
    → new_credential_rotation now s c e ≡ ok r
    → Inv r
unfolding new_credential_rotation validate
new-Inv now s none e r h = cc
new-Inv now s (some c) e r h = ground arith

-- A guarded method keeps what `authorize` and the rest of the method keep.
pub if_authorized-keeps :
    {A : Type 0} (P : CredentialRotation → Type 0) (now : ℕ) (r : CredentialRotation)
    (rest : CredentialRotation → Result CredentialError A × CredentialRotation)
    → P (authorize now r).1
    → ((q : CredentialRotation) → P q → P (rest q).1)
    → P (if_authorized now r rest).1
if_authorized-keeps P now r rest h k = split (authorize now r).0 refl
  where
    split : (o : Outcome CredentialError) → (authorize now r).0 ≡ o → P (if_authorized now r rest).1
    split (ok _) e = rw (e, if_authorized) (k (authorize now r).1 h)
    split (err _) e = rw (e, if_authorized) h

pub authorize-Inv : (now : ℕ) (r : CredentialRotation) → Inv r → Inv (authorize now r).1
unfolding authorize
authorize-Inv now r v = ground arith

activate_pending-Inv :
    (later last : ℕ) (a : Receipt) (r : CredentialRotation) (p : Option PendingRotation)
    → Inv r
    → Newer p (generation_of r.active)
    → Inv (activate_pending later last a r p).1
unfolding activate_pending
activate_pending-Inv later last a r none v n = v
activate_pending-Inv later last a r (some p) v n = split r.active refl
  where
    split :
        (c : Option SessionCredential)
        → r.active ≡ c
        → Inv (activate_pending later last a r (some p)).1
    split none e = ground arith
    split (some c) e = ground arith

pub activate_authorized-Inv :
    (later last : ℕ) (a : Receipt) (r : CredentialRotation)
    → Inv r
    → Inv (activate_authorized later last a r).1
activate_authorized-Inv later last a r v = elim (Option-cases (repeated a r)) [
  | inl e ↦ rw (e, activate_authorized) (activate_pending-Inv later last a r r.pending v v.newer)
  | inr (o, e) ↦ rw (e, activate_authorized) v
]

activate-Inv :
    (now later last : ℕ) (a : Receipt) (r : CredentialRotation)
    → Inv r
    → Inv (activate now later last a r).1
unfolding activate
activate-Inv now later last a r v =
    if_authorized-keeps Inv now r (activate_authorized later last a) (authorize-Inv now r v)
      (activate_authorized-Inv later last a)

-- Every call keeps the invariant of the lineage.
pub step-Inv : (c : Call) (r : CredentialRotation) → Inv r → Inv (step c r).1
unfolding step prepare possession_ack retry_activation reconnect active_receipt recovery_permit
step-Inv (prepares now later id none) r v = v
step-Inv (prepares now later id (some c)) r v = ground arith
step-Inv (acknowledges now later id e) r v = ground arith
step-Inv (activates now later last a) r v = activate-Inv now later last a r v
step-Inv (retries now id) r v = ground arith
step-Inv (reconnects now e g) r v = ground arith
step-Inv (receipts now) r v = ground arith
step-Inv (permits now later last) r v = ground arith
step-Inv (authorizes now) r v = ground arith
step-Inv loses r v = ground arith
step-Inv revokes r v = ground arith
step-Inv ends r v = ground arith

run-Inv : (cs : List Call) (r : CredentialRotation) → Inv r → Inv (run cs r)
unfolding run
run-Inv [] r v = v
run-Inv (c ∷ cs) r v = run-Inv cs (step c r).1 (step-Inv c r v)

-- Whatever calls are made on a new lineage, at whatever times, it satisfies the invariant.
pub run-new-Inv :
    (now : ℕ) (s : String) (c : Option SessionCredential) (e : ℕ) (r : CredentialRotation)
    (cs : List Call)
    → new_credential_rotation now s c e ≡ ok r
    → Inv (run cs r)
run-new-Inv now s c e r cs h = run-Inv cs r (new-Inv now s c e r h)
