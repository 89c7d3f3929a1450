-- ===== src/Adapter/Worker/Tests.antt =====
-- Commands and proposals of one worker.
use agent_wharf.Prelude.{◌≡◌, refl, true, false, none, some, [], ◌∷◌, ok, done}
use agent_wharf.Adapter.Credential.{SessionCredential}
use agent_wharf.Adapter.Rotation.{
  CredentialRotation, authority, authorize, with_authorized, loses, authorizes, run, step,
}
use agent_wharf.Adapter.Worker.{
  Routing, RoutingStatus, LedgerOperation, LedgerStatus, Command, CommandOutcome, EventProposal,
  prepared, applied, finalized, Worker, validate_active_credential,
}
use agent_wharf.Adapter.Worker.Commands.{
  CommandWorld, deliver_command, deliver_valid, deliver_checked, deliver_prepared, execute_guarded,
  execute_authorized, execute, after_guard, finalize_command_unknown,
}
use agent_wharf.Adapter.Worker.Commands.Delivery.{Refusal, Adds, Authorized, deliver_command-Adds}
use agent_wharf.Adapter.Worker.Proposals.{ProposalWorld, propose_event}
use agent_wharf.Adapter.Worker.Proposals.Publication.{
  Refusal as ProposalRefusal, Adds as ProposalAdds, Granted, propose_event-Adds,
}
use agent_wharf.Adapter.Worker.Commands.{check_credential}
use agent_wharf.Adapter.Worker.Histories.{
  Silent, delivers, proposes, run_worker, worker_step, lost_worker-Silent,
}

abbrev bearer : SessionCredential
bearer = record {
  bearer = "b";
  metadata = record {
    session_id = "s1";
    lineage = record { kind = "attach"; attach_id = "a"; jti = "j" };
    generation = 1;
    expires_at = 1_000;
  };
}

abbrev lineage : CredentialRotation
lineage = record {
  session_id = "s1";
  epoch = 1;
  active = some bearer;
  prior = none;
  pending = none;
  active_rotation_id = "";
  prior_recovery_until = 0;
  revoked = false;
  terminal = false;
  authority_lost = false;
}

abbrev worker : Worker
worker = record {
  session_id = "s1";
  receipts = true;
  credential = some bearer;
  rotation = some lineage;
  receipt_failures = some 0;
  commands = [];
  proposals = [];
}

abbrev lost_worker : Worker
lost_worker = record worker { rotation = some (record lineage { authority_lost = true }) }

abbrev command : Command
command = record { command_id = "c1"; kind = "session.send"; session_id = "s1" }

abbrev operation : LedgerOperation
operation = record { operation_id = "o1"; version = 1; status = LedgerStatus.pending }

abbrev routing : Routing
routing = record { command_id = "c1"; status = RoutingStatus.accepted; reason = "" }

abbrev world : CommandWorld
world = record {
  checked = 10;
  between = authorizes 11 ∷ [];
  guarded = 12;
  prepares = ok (routing, operation);
  applies = some done;
  completes = done;
  settles = done;
}

abbrev proposal : EventProposal
proposal = record { proposal_id = "e1"; seq = 7; accepted = true }

abbrev proposing : ProposalWorld
proposing = record {
  checked = 10;
  between = [];
  guarded = 12;
  commits = (proposal, done);
  publishes = some (λ _. done);
}

delivers_once :
    (deliver_command world command worker).2.commands
    ≡ prepared command ∷ applied command ∷ finalized command operation CommandOutcome.completed ∷ []
unfolding deliver_command deliver_valid deliver_checked deliver_prepared execute_guarded
    execute_authorized execute authorize authority with_authorized validate_active_credential run
    step
delivers_once = refl

-- The authority is lost after the receipt: the command is fenced.
fences :
    (deliver_command (record world { between = loses ∷ [] }) command worker).2.commands
    ≡ prepared command ∷ finalized command operation CommandOutcome.outcome_unknown ∷ []
unfolding deliver_command deliver_valid deliver_checked deliver_prepared execute_guarded
    execute_authorized execute after_guard finalize_command_unknown authorize with_authorized
    validate_active_credential authority run step
fences = refl

deliver_command-Adds_example :
    Adds world command
      (Authorized world worker)
      (Refusal world command worker)
      worker
      (deliver_command world command worker)
deliver_command-Adds_example = deliver_command-Adds world command worker

propose_event-Adds_example :
    ProposalAdds proposing
      (Granted proposing (check_credential proposing.checked worker).1.rotation)
      (ProposalRefusal proposing
        (Granted proposing (check_credential proposing.checked worker).1.rotation)
        "e1"
        worker)
      "e1"
      worker
      (propose_event proposing "e1" worker)
propose_event-Adds_example = propose_event-Adds proposing "e1" worker

lost_worker-Silent_example :
    Silent lost_worker (run_worker (proposes proposing "e1" ∷ []) lost_worker)
    × ((worker_step
          (delivers world command)
          (run_worker (proposes proposing "e1" ∷ []) lost_worker)).0
        ≡ false)
lost_worker-Silent_example =
    lost_worker-Silent (proposes proposing "e1" ∷ []) (delivers world command) lost_worker refl refl
