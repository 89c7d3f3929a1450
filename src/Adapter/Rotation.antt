-- ===== src/Adapter/Rotation.antt =====
-- adapter/core/reconnect.go: `CredentialRotation`, one Session's credential lineage.
-- A method takes the value of each `time.Now()` it makes, in order, and returns the new state: the
-- mutex makes it one step. The receiver is not nil; `Adapter.Worker` has the nil case.
use agent_wharf.Prelude.{
  ℕ, ◌+◌, String, Bool, true, false, ◌||◌, ◌&&◌, not, Option, none, some, str_eq, ltb, leb, ◌==◌,
  if◌then◌else◌, Result, Outcome, ok, err, done, is_ok, List, [], ◌∷◌,
}
use agent_wharf.Adapter.Credential.{
  CredentialError, SessionCredential, SessionCredentialMetadata, after, metadata_of,
  metadata_or_zero, validate, same_credential_metadata, session_credential_expired,
  rotation_unavailable, rotation_conflict, rotation_stale, authority_lost, recovery_required,
  credential_terminal,
}
pub mod Invariant
pub mod Authority
mod Tests

pub data RotationStatus : Type 0 where
  pending active recovery revoked terminal : RotationStatus
  other : String → RotationStatus

abbrev pub is_pending_status : RotationStatus → Bool
is_pending_status RotationStatus.pending = true
is_pending_status _ = false

abbrev pub is_active_status : RotationStatus → Bool
is_active_status RotationStatus.active = true
is_active_status _ = false

pub record Receipt : Type 0 where
  pub rotation_id : String
  pub session_id : String
  pub epoch : ℕ
  pub generation : ℕ
  pub status : RotationStatus

pub record RecoveryPermit : Type 0 where
  pub session_id : String
  pub epoch : ℕ
  pub generation : ℕ

pub record PendingRotation : Type 0 where
  pub id : String
  pub credential : SessionCredential

pub record CredentialRotation : Type 0 where
  pub session_id : String
  pub epoch : ℕ
  pub active : Option SessionCredential
  pub prior : Option SessionCredential
  pub pending : Option PendingRotation
  pub active_rotation_id : String
  pub prior_recovery_until : ℕ
  pub revoked : Bool
  pub terminal : Bool
  pub authority_lost : Bool

-- `30 * time.Second`
abbrev pub recovery_window : ℕ
recovery_window = 30_000_000_000

-- `NewCredentialRotation`
pub new_credential_rotation :
    ℕ → String → Option SessionCredential → ℕ → Result CredentialError CredentialRotation
new_credential_rotation now session_id none epoch = err rotation_unavailable
new_credential_rotation now session_id (some initial) epoch =
    if str_eq session_id "" || ltb epoch 1
    then err rotation_unavailable
    else elim (validate (some initial) session_id now) [
      | err e ↦ err e
      | ok _ ↦ ok (record {
        session_id = session_id;
        epoch = epoch;
        active = some initial;
        prior = none;
        pending = none;
        active_rotation_id = "";
        prior_recovery_until = 0;
        revoked = false;
        terminal = false;
        authority_lost = false;
      })
    ]

-- `authorityLocked`
unfoldable pub authority : CredentialRotation → Outcome CredentialError
authority r =
    if r.revoked
    then err CredentialError.authority_lost
    else if r.terminal
    then err credential_terminal
    else if r.authority_lost
    then err CredentialError.authority_lost
    else done

-- `authorizeLocked`: an expired credential loses the authority.
unfoldable pub authorize : ℕ → CredentialRotation → Outcome CredentialError × CredentialRotation
unfolding authority
authorize now r = elim (authority r) [
  | err e ↦ (err e, r)
  | ok _ ↦ elim r.active [
    | none ↦ (err recovery_required, r)
    | some c ↦
        (if not (after c.metadata.expires_at now)
          then (err session_credential_expired, record r { authority_lost = true })
          else (done, r))
  ]
]

-- `validCredentialLocked`
abbrev pub valid_credential : Option SessionCredential → ℕ → Outcome CredentialError
valid_credential none now = err recovery_required
valid_credential (some c) now =
    if not (after c.metadata.expires_at now) then err session_credential_expired else done

-- Lines 99 to 101 of `Prepare`: a pending credential that has expired is dropped.
abbrev pub drop_expired : ℕ → Option PendingRotation → Option PendingRotation
drop_expired now none = none
drop_expired now (some p) =
    if not (after p.credential.metadata.expires_at now) then none else some p

-- Lines 102 to 114 of `Prepare`.
prepare_pending :
    String
    → SessionCredential
    → CredentialRotation
    → Option PendingRotation
    → Outcome CredentialError × CredentialRotation
prepare_pending rotation_id credential r (some p) =
    let r' = record r { pending = some p } in
    if str_eq p.id rotation_id && same_credential_metadata p.credential.metadata credential.metadata
    then (done, r')
    else (err rotation_conflict, r')
prepare_pending rotation_id credential r none =
    if leb credential.metadata.generation (metadata_or_zero r.active).generation
    then (err rotation_stale, record r { pending = none })
    else (done, record r { pending = some (record { id = rotation_id; credential = credential }) })

-- `Prepare`, with its two readings of the clock.
unfoldable pub prepare :
    ℕ
    → ℕ
    → String
    → Option SessionCredential
    → CredentialRotation
    → Outcome CredentialError × CredentialRotation
unfolding prepare_pending authority validate
prepare now later rotation_id none r = (err rotation_unavailable, r)
prepare now later rotation_id (some credential) r =
    if str_eq rotation_id ""
    then (err rotation_unavailable, r)
    else elim (validate (some credential) r.session_id now) [
      | err e ↦ (err e, r)
      | ok _ ↦ elim (authority r) [
        | err e ↦ (err e, r)
        | ok _ ↦ prepare_pending rotation_id credential r (drop_expired later r.pending)
      ]
    ]

-- `if err := r.authorizeLocked(time.Now()); err != nil { return err }`, before the rest of a method.
abbrev pub if_authorized :
    {A : Type 0}
    → ℕ
    → CredentialRotation
    → (CredentialRotation → Result CredentialError A × CredentialRotation)
    → Result CredentialError A × CredentialRotation
if_authorized now r rest =
    let (o, r') = authorize now r in elim o [ err e ↦ (err e, r') | ok _ ↦ rest r' ]

-- Lines 126 to 136 of `PossessionAck`.
possession_pending :
    ℕ → String → ℕ → CredentialRotation → Option PendingRotation → Result CredentialError Receipt
possession_pending later rotation_id accepted_epoch r none = err rotation_stale
possession_pending later rotation_id accepted_epoch r (some p) =
    if not (str_eq p.id rotation_id)
    then err rotation_stale
    else if not (accepted_epoch == r.epoch)
    then err rotation_stale
    else elim (valid_credential (some p.credential) later) [
      | err e ↦ err e
      | ok _ ↦ ok (record {
        rotation_id = rotation_id;
        session_id = r.session_id;
        epoch = r.epoch;
        generation = p.credential.metadata.generation;
        status = RotationStatus.pending;
      })
    ]

-- `PossessionAck`, with its two readings of the clock.
unfoldable pub possession_ack :
    ℕ → ℕ → String → ℕ → CredentialRotation → Result CredentialError Receipt × CredentialRotation
unfolding possession_pending authorize
possession_ack now later rotation_id accepted_epoch r =
    if_authorized now r
      λ r'. (possession_pending later rotation_id accepted_epoch r' r'.pending, r')

-- Lines 148 to 157 of `Activate`: `some` when the receipt repeats the current activation.
repeated : Receipt → CredentialRotation → Option (Outcome CredentialError)
repeated receipt r =
    if not (str_eq receipt.rotation_id "")
      && str_eq r.active_rotation_id receipt.rotation_id
      && is_active_status receipt.status
    then some (elim r.active [
      | none ↦ err rotation_stale
      | some c ↦
          (if not (str_eq receipt.session_id r.session_id) || not (receipt.epoch == r.epoch)
            then err rotation_stale
            else if not (receipt.generation == c.metadata.generation)
            then err rotation_stale
            else done)
    ])
    else none

-- Lines 158 to 173 of `Activate`; `last` is the clock's reading for the recovery window.
activate_pending :
    ℕ
    → ℕ
    → Receipt
    → CredentialRotation
    → Option PendingRotation
    → Outcome CredentialError × CredentialRotation
activate_pending later last receipt r none = (err rotation_stale, r)
activate_pending later last receipt r (some p) =
    if not (str_eq receipt.rotation_id p.id)
      || not (str_eq receipt.session_id r.session_id)
      || not (receipt.epoch == r.epoch)
      || not (is_pending_status receipt.status)
    then (err rotation_stale, r)
    else elim (valid_credential (some p.credential) later) [
      | err e ↦ (err e, r)
      | ok _ ↦
          (if not (p.credential.metadata.generation == receipt.generation)
            then (err rotation_stale, r)
            else (
              done,
              record r {
                prior = r.active;
                prior_recovery_until = last + recovery_window;
                active = some p.credential;
                pending = none;
                active_rotation_id = receipt.rotation_id;
              },
            ))
    ]

-- Lines 148 to 173 of `Activate`.
abbrev activate_authorized :
    ℕ → ℕ → Receipt → CredentialRotation → Outcome CredentialError × CredentialRotation
activate_authorized later last receipt r = elim (repeated receipt r) [
  | some answer ↦ (answer, r)
  | none ↦ activate_pending later last receipt r r.pending
]

-- `Activate`, with its three readings of the clock.
unfoldable pub activate :
    ℕ → ℕ → ℕ → Receipt → CredentialRotation → Outcome CredentialError × CredentialRotation
unfolding repeated activate_pending authorize
activate now later last receipt r = if_authorized now r (activate_authorized later last receipt)

-- `RetryActivation`
unfoldable pub retry_activation :
    ℕ → String → CredentialRotation → Result CredentialError Receipt × CredentialRotation
unfolding authorize
retry_activation now rotation_id r = if_authorized now r λ r'. (
  if not (str_eq r'.active_rotation_id rotation_id) then err rotation_stale else elim r'.active [
    | none ↦ err rotation_stale
    | some c ↦ ok (record {
      rotation_id = rotation_id;
      session_id = r'.session_id;
      epoch = r'.epoch;
      generation = c.metadata.generation;
      status = RotationStatus.active;
    })
  ],
  r',
)

-- `Reconnect`
unfoldable pub reconnect :
    ℕ → ℕ → ℕ → CredentialRotation → Outcome CredentialError × CredentialRotation
unfolding authorize
reconnect now epoch generation r =
    if ltb epoch 1 || ltb generation 1
    then (err rotation_unavailable, r)
    else if_authorized now r λ r'.
      if not (generation == (metadata_or_zero r'.active).generation) || leb epoch r'.epoch
      then (err rotation_stale, r')
      else (done, record r' { epoch = epoch; authority_lost = false })

-- `ActiveReceipt`
unfoldable pub active_receipt :
    ℕ → CredentialRotation → Result CredentialError Receipt × CredentialRotation
unfolding authorize
active_receipt now r = if_authorized now r λ r'. (
  ok (record {
    rotation_id = "";
    session_id = r'.session_id;
    epoch = r'.epoch;
    generation = (metadata_or_zero r'.active).generation;
    status = RotationStatus.active;
  }),
  r',
)

-- `RecoveryPermit`, with its three readings of the clock.
unfoldable pub recovery_permit :
    ℕ → ℕ → ℕ → CredentialRotation → Result CredentialError RecoveryPermit × CredentialRotation
unfolding authorize
recovery_permit now later last r = if_authorized now r λ r'. (
  elim r'.prior [
    | none ↦ err recovery_required
    | some c ↦
        (if after later r'.prior_recovery_until
          then err recovery_required
          else elim (valid_credential (some c) last) [
            | err e ↦ err e
            | ok _ ↦ ok (record {
              session_id = r'.session_id;
              epoch = r'.epoch;
              generation = c.metadata.generation;
            })
          ])
  ],
  r',
)

-- `withAuthorized`: `ok` carries what the guarded function returned.
unfoldable pub with_authorized :
    {A : Type 0} → ℕ → A → CredentialRotation → Result CredentialError A × CredentialRotation
unfolding authorize
with_authorized now fn r = if_authorized now r λ r'. (ok fn, r')

-- `MarkAuthorityLost`
abbrev pub mark_authority_lost : CredentialRotation → CredentialRotation
mark_authority_lost r = record r { authority_lost = true; pending = none }

-- `Revoke`
abbrev pub revoke : CredentialRotation → CredentialRotation
revoke r = record r { revoked = true; pending = none; active = none; prior = none }

-- `Terminal`
abbrev pub end_lineage : CredentialRotation → CredentialRotation
end_lineage r = record r { terminal = true; pending = none; active = none; prior = none }

-- The calls on one rotation, each with its readings of the clock.
pub data Call : Type 0 where
  prepares : ℕ → ℕ → String → Option SessionCredential → Call
  acknowledges : ℕ → ℕ → String → ℕ → Call
  activates : ℕ → ℕ → ℕ → Receipt → Call
  retries : ℕ → String → Call
  reconnects : ℕ → ℕ → ℕ → Call
  receipts : ℕ → Call
  permits : ℕ → ℕ → ℕ → Call
  authorizes : ℕ → Call
  loses revokes ends : Call

-- The state after a call, and whether the call was granted.
unfoldable pub step : Call → CredentialRotation → Bool × CredentialRotation
unfolding authorize
step (prepares now later id c) r = let (o, r') = prepare now later id c r in (is_ok o, r')
step (acknowledges now later id e) r =
    let (o, r') = possession_ack now later id e r in (is_ok o, r')
step (activates now later last a) r = let (o, r') = activate now later last a r in (is_ok o, r')
step (retries now id) r = let (o, r') = retry_activation now id r in (is_ok o, r')
step (reconnects now e g) r = let (o, r') = reconnect now e g r in (is_ok o, r')
step (receipts now) r = let (o, r') = active_receipt now r in (is_ok o, r')
step (permits now later last) r = let (o, r') = recovery_permit now later last r in (is_ok o, r')
step (authorizes now) r = let (o, r') = authorize now r in (is_ok o, r')
step loses r = (true, mark_authority_lost r)
step revokes r = (true, revoke r)
step ends r = (true, end_lineage r)

unfoldable pub run : List Call → CredentialRotation → CredentialRotation
run [] r = r
run (c ∷ cs) r = run cs (step c r).1
