-- ===== src/Adapter/Worker/Proposals.antt =====
-- adapter/core/session_worker.go: `ProposeEvent`.
use agent_wharf.Prelude.{
  ℕ, String, Bool, false, ◌&&◌, not, Option, none, some, List, [], ◌∷◌, ◌++◌, str_eq, ltb,
  if◌then◌else◌, Result, Outcome, ok, err, done,
}
use agent_wharf.Adapter.Rotation.{CredentialRotation, Call, with_authorized, run as run_rotation}
use agent_wharf.Adapter.Worker.{
  EventProposal, Effect, committed, published, Worker, WorkerError, credential,
  durable_receipt_required, invalid_durable_receipt, store_failed, publish_failed,
  record_receipt_failure, validate_active_credential,
}
use agent_wharf.Adapter.Worker.Commands.{check_credential}
pub mod Publication

-- What one proposal meets: the clock at the two checks, the calls of others in between, and the
-- answers of `CommitEventProposal` and of `publish` (`none` if it is nil).
pub record ProposalWorld : Type 0 where
  pub checked : ℕ
  pub between : List Call
  pub guarded : ℕ
  pub commits : EventProposal × Outcome String
  pub publishes : Option (ℕ → Outcome String)

-- `EventProposalReceipt{}`
abbrev pub no_proposal : EventProposal
no_proposal = record { proposal_id = ""; seq = 0; accepted = false }

abbrev pub log_proposal : Effect → Worker → Worker
log_proposal e w = record w { proposals = w.proposals ++ e ∷ [] }

-- Line 621 of `ProposeEvent`.
abbrev pub valid_proposal : String → EventProposal → Bool
valid_proposal proposal_id receipt =
    str_eq receipt.proposal_id proposal_id && not (ltb receipt.seq 1) && receipt.accepted

-- Lines 621 to 628 of `ProposeEvent`.
unfoldable pub publish_committed :
    (ℕ → Outcome String) → String → EventProposal → Worker → Outcome WorkerError × Worker
publish_committed publish proposal_id receipt w =
    if not (valid_proposal proposal_id receipt)
    then (err invalid_durable_receipt, record_receipt_failure w)
    else (let w' = log_proposal (published proposal_id receipt.seq) w in
        elim (publish receipt.seq) [ err e ↦ (err (publish_failed e), w') | ok _ ↦ (done, w') ])

-- `commitAndPublish`; the receipt is the one that `ProposeEvent` returns.
unfoldable pub commit_and_publish :
    ProposalWorld
    → (ℕ → Outcome String)
    → String
    → Worker
    → EventProposal × Outcome WorkerError × Worker
unfolding publish_committed
commit_and_publish world publish proposal_id w =
    let w' = log_proposal (committed proposal_id) w in
    let (receipt, o) = world.commits in
    elim o [
      | err e ↦ (receipt, err (store_failed e), record_receipt_failure w')
      | ok _ ↦
          (let (result, w'') = publish_committed publish proposal_id receipt w' in
            (receipt, result, w''))
    ]

-- Lines 630 to 635 of `ProposeEvent`.
unfoldable pub propose_authorized :
    ProposalWorld
    → (ℕ → Outcome String)
    → String
    → CredentialRotation
    → Worker
    → EventProposal × Outcome WorkerError × Worker
unfolding commit_and_publish with_authorized
propose_authorized world publish proposal_id r w =
    let (o, r') =
      with_authorized world.guarded (commit_and_publish world publish proposal_id w) r in
    elim o [
      | err e ↦ (no_proposal, err (credential e), record w { rotation = some r' })
      | ok (receipt, result, w') ↦ (receipt, result, record w' { rotation = some r' })
    ]

-- Lines 630 to 639 of `ProposeEvent`.
unfoldable pub propose_guarded :
    ProposalWorld
    → (ℕ → Outcome String)
    → String
    → Worker
    → EventProposal × Outcome WorkerError × Worker
unfolding propose_authorized commit_and_publish run_rotation
propose_guarded world publish proposal_id w = elim w.rotation [
  | some r ↦ propose_authorized world publish proposal_id (run_rotation world.between r) w
  | none ↦ commit_and_publish world publish proposal_id w
]

-- `ProposeEvent`; the worker is not nil.
unfoldable pub propose_event :
    ProposalWorld → String → Worker → EventProposal × Outcome WorkerError × Worker
unfolding propose_guarded validate_active_credential
propose_event world proposal_id w = elim world.publishes [
  | none ↦ (no_proposal, err durable_receipt_required, w)
  | some publish ↦
      (if not w.receipts
        then (no_proposal, err durable_receipt_required, w)
        else if str_eq proposal_id ""
        then (no_proposal, err invalid_durable_receipt, w)
        else (let (o, w') = check_credential world.checked w in
            elim o [
              | err e ↦ (no_proposal, err (credential e), w')
              | ok _ ↦ propose_guarded world publish proposal_id w'
            ]))
]
