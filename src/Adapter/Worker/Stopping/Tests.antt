-- ===== src/Adapter/Worker/Stopping/Tests.antt =====
-- Stops of one worker.
use agent_wharf.Prelude.{◌≡◌, refl, true, false, err, done, [], ◌∷◌}
use agent_wharf.Adapter.Worker.Stopping.{
  StopAnswers, Stopper, stops_provider, quiesces, quarantines, stop, stop_once, stop_now,
  quiesce_owner, quarantine,
}

abbrev fine : StopAnswers
fine = record { provider = done; observed = true; quiesce = done; release = done }

abbrev restless : StopAnswers
restless = record fine { quiesce = err "process tree is not empty" }

abbrev stopper : Stopper
stopper = record {
  ownership = true;
  lease = true;
  stopped = false;
  stop_result = done;
  effects = [];
}

quarantined : (stop restless stopper).1.effects ≡ stops_provider ∷ quiesces ∷ quarantines ∷ []
unfolding stop stop_once stop_now quiesce_owner quarantine
quarantined = refl
