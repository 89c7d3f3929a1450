-- ===== src/Adapter/Worker/Commands.antt =====
-- adapter/core/session_worker.go: `RouteCommand`, `DeliverCommand` and what they call.
use agent_wharf.Prelude.{
  ℕ, String, Bool, true, false, ◌&&◌, ◌||◌, not, Option, none, some, List, [], ◌∷◌, ◌++◌, str_eq,
  ltb, if◌then◌else◌, Result, Outcome, ok, err, done, is_ok,
}
use agent_wharf.Adapter.Credential.{
  CredentialError, session_credential_required, session_credential_mismatch,
  session_credential_expired, rotation_unavailable, authority_lost, recovery_required,
  credential_terminal,
}
use agent_wharf.Adapter.Rotation.{CredentialRotation, Call, with_authorized, run as run_rotation}
use agent_wharf.Adapter.Worker.{
  Routing, RoutingStatus, LedgerOperation, LedgerStatus, Command, CommandOutcome, Effect, prepared,
  applied, finalized, Worker, WorkerError, credential, durable_receipt_required,
  invalid_durable_receipt, unsupported_command, store_failed, unsafe_replay, unsettled_replay,
  record_receipt_failure, validate_active_credential,
}
pub mod Settling
pub mod Delivery

-- What one delivery meets: the clock at the two checks of the credential, the calls that others make
-- on the rotation in between, and the answers of `PrepareCommand`, of `apply` (`none` if it is nil)
-- and of `FinalizeCommand` for either outcome.
pub record CommandWorld : Type 0 where
  pub checked : ℕ
  pub between : List Call
  pub guarded : ℕ
  pub prepares : Result String (Routing × LedgerOperation)
  pub applies : Option (Outcome String)
  pub completes : Outcome String
  pub settles : Outcome String

-- `CommandRoutingReceipt{}`
abbrev pub no_routing : Routing
no_routing = record { command_id = ""; status = RoutingStatus.other ""; reason = "" }

-- `supportedSessionWorkerCommand`
abbrev pub supported_session_worker_command : String → Bool
supported_session_worker_command kind =
    str_eq kind "session.send"
    || str_eq kind "permission.respond"
    || str_eq kind "session.interrupt"
    || str_eq kind "session.stop"
    || str_eq kind "session.settings.change"

-- `validCommandRoutingStatus`
abbrev pub valid_command_routing_status : RoutingStatus → Bool
valid_command_routing_status RoutingStatus.accepted = true
valid_command_routing_status RoutingStatus.rejected = true
valid_command_routing_status RoutingStatus.duplicate = true
valid_command_routing_status (RoutingStatus.other _) = false

abbrev pub is_accepted : RoutingStatus → Bool
is_accepted RoutingStatus.accepted = true
is_accepted _ = false

abbrev pub is_pending : LedgerStatus → Bool
is_pending LedgerStatus.pending = true
is_pending _ = false

-- `isCredentialFenceError`
abbrev pub is_credential_fence_error : WorkerError → Bool
is_credential_fence_error (credential authority_lost) = true
is_credential_fence_error (credential credential_terminal) = true
is_credential_fence_error (credential session_credential_expired) = true
is_credential_fence_error (credential rotation_unavailable) = true
is_credential_fence_error (credential recovery_required) = true
is_credential_fence_error _ = false

abbrev pub log_command : Effect → Worker → Worker
log_command e w = record w { commands = w.commands ++ e ∷ [] }

-- `finalizeCommandUnknown`
unfoldable pub finalize_command_unknown :
    CommandWorld → Command → LedgerOperation → Worker → Outcome WorkerError × Worker
finalize_command_unknown world command operation w =
    let w' = log_command (finalized command operation CommandOutcome.outcome_unknown) w in
    elim world.settles [
      | err _ ↦ (err unsettled_replay, record_receipt_failure w')
      | ok _ ↦ (err unsafe_replay, w')
    ]

-- `execute` of `DeliverCommand`, for the answer of `apply`.
unfoldable pub execute :
    CommandWorld
    → Outcome String
    → Command
    → LedgerOperation
    → Worker
    → Outcome WorkerError × Worker
unfolding finalize_command_unknown
execute world (err _) command operation w =
    finalize_command_unknown world command operation (log_command (applied command) w)
execute world (ok _) command operation w =
    let w' =
      log_command (finalized command operation CommandOutcome.completed)
        (log_command (applied command) w) in
    elim world.completes [
      | err _ ↦ finalize_command_unknown world command operation (record_receipt_failure w')
      | ok _ ↦ (done, w')
    ]

-- Lines 578 to 583 of `DeliverCommand`: what it does with an error under the rotation.
unfoldable pub after_guard :
    CommandWorld → Command → LedgerOperation → WorkerError → Worker → Outcome WorkerError × Worker
unfolding finalize_command_unknown
after_guard world command operation e w =
    if is_credential_fence_error e
    then finalize_command_unknown world command operation w
    else (err e, w)

-- Lines 577 to 585 of `DeliverCommand`: the guarded function runs while the rotation is held.
unfoldable pub execute_authorized :
    CommandWorld
    → Outcome String
    → Command
    → LedgerOperation
    → CredentialRotation
    → Worker
    → Outcome WorkerError × Worker
unfolding execute after_guard with_authorized
execute_authorized world applies command operation r w =
    let (o, r') = with_authorized world.guarded (execute world applies command operation w) r in
    elim o [
      | err e ↦ after_guard world command operation (credential e) (record w { rotation = some r' })
      | ok (result, w') ↦ elim result [
        | err e ↦ after_guard world command operation e (record w' { rotation = some r' })
        | ok _ ↦ (done, record w' { rotation = some r' })
      ]
    ]

-- Lines 577 to 589 of `DeliverCommand`, with what others did to the rotation since the first check.
unfoldable pub execute_guarded :
    CommandWorld
    → Outcome String
    → Command
    → LedgerOperation
    → Worker
    → Outcome WorkerError × Worker
unfolding execute_authorized execute run_rotation
execute_guarded world applies command operation w = elim w.rotation [
  | some r ↦ execute_authorized world applies command operation (run_rotation world.between r) w
  | none ↦ execute world applies command operation w
]

-- Line 556 of `DeliverCommand`.
abbrev pub valid_routing : Command → Routing → Bool
valid_routing command routing =
    str_eq routing.command_id command.command_id && valid_command_routing_status routing.status

-- Line 563 of `DeliverCommand`.
abbrev pub pending_operation : LedgerOperation → Bool
pending_operation operation =
    not (str_eq operation.operation_id "")
    && not (ltb operation.version 1)
    && is_pending operation.status

-- Lines 556 to 589 of `DeliverCommand`: the two receipts are checked before anything is done.
unfoldable pub deliver_prepared :
    CommandWorld
    → Outcome String
    → Command
    → Routing
    → LedgerOperation
    → Worker
    → Routing × Outcome WorkerError × Worker
unfolding execute_guarded
deliver_prepared world applies command routing operation w =
    if not (valid_routing command routing)
    then (no_routing, err invalid_durable_receipt, record_receipt_failure w)
    else if not (is_accepted routing.status)
    then (routing, done, w)
    else if not (pending_operation operation)
    then (no_routing, err invalid_durable_receipt, record_receipt_failure w)
    else (let (o, w') = execute_guarded world applies command operation w in (routing, o, w'))

-- Lines 549 to 589 of `DeliverCommand`.
unfoldable pub deliver_checked :
    CommandWorld → Outcome String → Command → Worker → Routing × Outcome WorkerError × Worker
unfolding deliver_prepared
deliver_checked world applies command w =
    let w' = log_command (prepared command) w in
    elim world.prepares [
      | err e ↦ (no_routing, err (store_failed e), record_receipt_failure w')
      | ok (routing, operation) ↦ deliver_prepared world applies command routing operation w'
    ]

abbrev pub holds_credential : Worker → Bool
holds_credential w = elim w.rotation [
  | some _ ↦ true
  | none ↦ elim w.credential [ some _ ↦ true | none ↦ false ]
]

-- `if w.credential != nil || w.rotation != nil { w.validateActiveCredential() … }`
abbrev pub check_credential : ℕ → Worker → Outcome CredentialError × Worker
check_credential now w = if holds_credential w then validate_active_credential now w else (done, w)

-- Lines 537 to 589 of `DeliverCommand`.
unfoldable pub deliver_valid :
    CommandWorld → Outcome String → Command → Worker → Routing × Outcome WorkerError × Worker
unfolding deliver_checked validate_active_credential
deliver_valid world applies command w =
    let (o, w') = check_credential world.checked w in
    elim o [
      | err e ↦ (no_routing, err (credential e), w')
      | ok _ ↦
          (if not (supported_session_worker_command command.kind)
            then (no_routing, err unsupported_command, w')
            else deliver_checked world applies command w')
    ]

-- `command.SessionID != "" && command.SessionID != w.sessionID`
abbrev pub foreign : Command → Worker → Bool
foreign command w =
    not (str_eq command.session_id "") && not (str_eq command.session_id w.session_id)

-- `DeliverCommand`; the worker is not nil.
unfoldable pub deliver_command :
    CommandWorld → Command → Worker → Routing × Outcome WorkerError × Worker
unfolding deliver_valid
deliver_command world command w = elim world.applies [
  | none ↦ (no_routing, err durable_receipt_required, w)
  | some applies ↦
      (if not w.receipts
        then (no_routing, err durable_receipt_required, w)
        else if str_eq command.command_id ""
        then (no_routing, err invalid_durable_receipt, w)
        else if foreign command w
        then (no_routing, err (credential session_credential_mismatch), w)
        else deliver_valid world applies command w)
]

-- The rotation after calls of others.
abbrev pub meanwhile : List Call → Worker → Worker
meanwhile calls w = record w {
  rotation = elim w.rotation [ none ↦ none | some r ↦ some (run_rotation calls r) ];
}

-- `RouteCommand`, with its own reading of the clock and the calls of others before the delivery's
-- check; the worker is not nil.
unfoldable pub route_command :
    ℕ → List Call → CommandWorld → Command → Worker → Routing × Outcome WorkerError × Worker
unfolding deliver_command validate_active_credential
route_command now calls world command w =
    if not (holds_credential w)
    then (no_routing, err (credential session_credential_required), w)
    else (let (o, w') = validate_active_credential now w in
        elim o [
          | err e ↦ (no_routing, err (credential e), w')
          | ok _ ↦
              (if foreign command w
                then (no_routing, err (credential session_credential_mismatch), w')
                else deliver_command world (record command { session_id = w.session_id })
                    (meanwhile calls w'))
        ])
