-- ===== src/Adapter/Worker.antt =====
-- adapter/core/session_worker.go: `SessionWorker`, the owner of one Session, with the receipts that it
-- asks the durable store for (`SessionWorkerDurableReceipts`).
-- What the store, the provider and the publisher answer to a call is an argument of it, and the calls
-- that the worker makes of them are recorded in order. A Go error is its text.
use agent_wharf.Prelude.{
  ℕ, suc, String, Bool, true, false, Option, none, some, List, Result, Outcome, ok, err,
}
use agent_wharf.Adapter.Credential.{
  CredentialError, SessionCredential, session_credential_required, rotation_unavailable, validate,
}
use agent_wharf.Adapter.Rotation.{
  CredentialRotation, Receipt, RecoveryPermit, authorize, prepare, possession_ack, activate,
  retry_activation, reconnect, recovery_permit, mark_authority_lost, revoke, end_lineage,
}
pub mod Commands
pub mod Proposals
pub mod Histories
pub mod Start
pub mod Stopping
mod Tests

pub data RoutingStatus : Type 0 where
  accepted rejected duplicate : RoutingStatus
  other : String → RoutingStatus

-- `CommandRoutingReceipt`
pub record Routing : Type 0 where
  pub command_id : String
  pub status : RoutingStatus
  pub reason : String

pub data LedgerStatus : Type 0 where
  pending completed outcome_unknown : LedgerStatus
  other : String → LedgerStatus

-- `LedgerOperationReceipt`; every guard treats a negative version like 0.
pub record LedgerOperation : Type 0 where
  pub operation_id : String
  pub version : ℕ
  pub status : LedgerStatus

-- `EventProposalReceipt`; `accepted` says that its status is `EventProposalAccepted`.
pub record EventProposal : Type 0 where
  pub proposal_id : String
  pub seq : ℕ
  pub accepted : Bool

pub data CommandOutcome : Type 0 where
  completed outcome_unknown : CommandOutcome

-- `SessionWorkerCommand`
pub record Command : Type 0 where
  pub command_id : String
  pub kind : String
  pub session_id : String

pub data WorkerError : Type 0 where
  credential : CredentialError → WorkerError
  durable_receipt_required invalid_durable_receipt unsupported_command : WorkerError
  -- the store's error, wrapped
  store_failed publish_failed : String → WorkerError
  -- `ErrUnsafeCommandReplay`: the command is left as outcome_unknown, or even that has failed
  unsafe_replay unsettled_replay : WorkerError

-- What the worker asks of its surroundings: `PrepareCommand`, the provider's side effect,
-- `FinalizeCommand`, `CommitEventProposal` and the publication of a sequence number.
pub data Effect : Type 0 where
  prepared applied : Command → Effect
  finalized : Command → LedgerOperation → CommandOutcome → Effect
  committed : String → Effect
  published : String → ℕ → Effect

-- `SessionWorker`, with what commands and proposals use of it. `receipts` says that they are not nil;
-- `commands` is what was done under `commandMu`, and `proposals` what was done under `proposalMu`.
pub record Worker : Type 0 where
  pub session_id : String
  pub receipts : Bool
  pub credential : Option SessionCredential
  pub rotation : Option CredentialRotation
  -- the counter of `AdapterMetrics`, unless it is nil
  pub receipt_failures : Option ℕ
  pub commands : List Effect
  pub proposals : List Effect

-- `recordReceiptFailure`
abbrev pub count_up : Option ℕ → Option ℕ
count_up none = none
count_up (some n) = some (suc n)

abbrev pub record_receipt_failure : Worker → Worker
record_receipt_failure w = record w { receipt_failures = count_up w.receipt_failures }

-- A method of the rotation, on the worker that holds it.
abbrev pub on_rotation :
    {A : Type 0}
    → (CredentialRotation → Result CredentialError A × CredentialRotation)
    → Option Worker
    → Result CredentialError A × Option Worker
on_rotation f none = (err rotation_unavailable, none)
on_rotation f (some w) = elim w.rotation [
  | none ↦ (err rotation_unavailable, some w)
  | some r ↦ let (o, r') = f r in (o, some (record w { rotation = some r' }))
]

-- `PrepareCredentialRotation`
abbrev pub prepare_credential_rotation :
    ℕ
    → ℕ
    → String
    → Option SessionCredential
    → Option Worker
    → Outcome CredentialError × Option Worker
prepare_credential_rotation now later id c = on_rotation (prepare now later id c)

-- `AcknowledgeCredentialPossession`
abbrev pub acknowledge_credential_possession :
    ℕ → ℕ → String → ℕ → Option Worker → Result CredentialError Receipt × Option Worker
acknowledge_credential_possession now later id epoch =
    on_rotation (possession_ack now later id epoch)

-- `ActivateCredentialRotation`
abbrev pub activate_credential_rotation :
    ℕ → ℕ → ℕ → Receipt → Option Worker → Outcome CredentialError × Option Worker
activate_credential_rotation now later last receipt = on_rotation (activate now later last receipt)

-- `RetryCredentialActivation`
abbrev pub retry_credential_activation :
    ℕ → String → Option Worker → Result CredentialError Receipt × Option Worker
retry_credential_activation now id = on_rotation (retry_activation now id)

-- `ReconnectCredential`
abbrev pub reconnect_credential :
    ℕ → ℕ → ℕ → Option Worker → Outcome CredentialError × Option Worker
reconnect_credential now epoch generation = on_rotation (reconnect now epoch generation)

-- `CredentialRecoveryPermit`
abbrev pub credential_recovery_permit :
    ℕ → ℕ → ℕ → Option Worker → Result CredentialError RecoveryPermit × Option Worker
credential_recovery_permit now later last = on_rotation (recovery_permit now later last)

abbrev on_held_rotation : (CredentialRotation → CredentialRotation) → Option Worker → Option Worker
on_held_rotation f none = none
on_held_rotation f (some w) =
    some (record w { rotation = elim w.rotation [ none ↦ none | some r ↦ some (f r) ] })

-- `MarkCredentialAuthorityLost`
abbrev pub mark_credential_authority_lost : Option Worker → Option Worker
mark_credential_authority_lost = on_held_rotation mark_authority_lost

-- `RevokeCredential`
abbrev pub revoke_credential : Option Worker → Option Worker
revoke_credential = on_held_rotation revoke

-- `TerminalCredential`
abbrev pub terminal_credential : Option Worker → Option Worker
terminal_credential = on_held_rotation end_lineage

-- `validateActiveCredential`; the worker is not nil.
unfoldable pub validate_active_credential : ℕ → Worker → Outcome CredentialError × Worker
unfolding authorize validate
validate_active_credential now w = elim w.rotation [
  | some r ↦ let (o, r') = authorize now r in (o, record w { rotation = some r' })
  | none ↦ elim w.credential [
    | none ↦ (err session_credential_required, w)
    | some c ↦ (validate (some c) w.session_id now, w)
  ]
]
