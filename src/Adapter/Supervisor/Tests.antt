-- ===== src/Adapter/Supervisor/Tests.antt =====
-- Runs of the supervisor.
use agent_wharf.Prelude.{
  suc, ◌+◌, ◌≤◌, ◌≡◌, refl, true, false, none, some, List, [], ◌∷◌, ok, done, length, pos,
}
use agent_wharf.Adapter.Supervisor.{
  ProcessConfig, ProcessSupervisor, Child, Machine, watching, sleeping, returned, limit_exceeded,
  Action, launches, confirms, dies, observes, decides, stops, wakes, begin, step, step_at, run,
  launch, decide, emit, settle_stop, StopWorld, sent, expires, stop_child, wait_child, kill_child,
  stopped_event, new_process_supervisor, normalize_process_config,
}
use agent_wharf.Adapter.Supervisor.Limits.{
  restart_limit, crashes, children_bounded, crash_loop_ends,
}
use agent_wharf.Adapter.Supervisor.Stopping.{stop_is_final, stop_in_backoff_forgotten}

abbrev idle : ProcessSupervisor
idle = record { events = []; current = none; stopping = false }

abbrev given : ProcessConfig
given = record {
  command_path = "codex";
  max_restarts = pos 0;
  backoff = pos 0;
  grace_period = pos 5;
  admits = false;
}

abbrev config : ProcessConfig
config = record given { max_restarts = pos 3; backoff = pos 100_000_000 }

configured : new_process_supervisor given true ≡ ok (config, idle)
unfolding new_process_supervisor normalize_process_config
configured = refl

abbrev crashed : List Action
crashed = launches (ok 7) ∷ confirms ∷ dies (some "exit 1") ∷ observes ∷ decides ∷ []

children_bounded_example :
    (length (run config crashed (begin idle)).children ≤ 4)
    × (length (run config crashed (begin idle)).alive ≤ 1)
children_bounded_example = children_bounded config idle crashed

crash_loop_ends_example :
    ((run config (crashes (suc (restart_limit config)) 7 "exit 1") (begin idle)).position
      ≡ returned (limit_exceeded "exit 1"))
    × (length (run config (crashes (suc (restart_limit config)) 7 "exit 1") (begin idle)).children
        ≡ restart_limit config + 1)
crash_loop_ends_example = crash_loop_ends config idle 7 "exit 1"

abbrev stubborn : StopWorld
stubborn = record {
  interrupt = sent;
  first = λ _. expires;
  kill = done;
  last = some (some "killed");
}

abbrev child : Child
child = record { attempt = 1; pid = 7 }

killed : stop_child config stubborn child ≡ ok (stopped_event child (some "killed") true)
unfolding stop_child wait_child kill_child
killed = refl

abbrev serving : Machine
serving = record (begin idle) {
  supervisor = record idle { current = some child };
  position = watching child 0;
  children = child ∷ [];
  alive = child ∷ [];
}

stop_is_final_example : (run config (stops ∷ crashed) serving).children ≡ child ∷ []
stop_is_final_example = stop_is_final config crashed serving tt

abbrev resting : Machine
resting = run config crashed (begin idle)

rests : resting.position ≡ sleeping 1 1
unfolding run step_at launch decide emit
rests = refl

childless : resting.supervisor.current ≡ none
unfolding run step_at launch decide emit
childless = refl

stop_in_backoff_forgotten_example :
    ((settle_stop config stubborn
        (step config stops resting).supervisor.current
        (step config stops resting).supervisor).0
      ≡ done)
    × ((run config (stops ∷ wakes ∷ launches (ok 8) ∷ []) resting).children
        ≡ record { attempt = 2; pid = 8 } ∷ resting.children)
    × ((run config (stops ∷ wakes ∷ launches (ok 8) ∷ []) resting).supervisor.stopping ≡ false)
stop_in_backoff_forgotten_example =
    stop_in_backoff_forgotten config stubborn 1 1 8 resting rests childless
