-- ===== src/Adapter/State/Tests.antt =====
-- Runs of the state machine.
use agent_wharf.Prelude.{◌≡◌, refl, ◌≢◌, ◌↔◌, List, [], ◌∷◌, some, ok, err}
use agent_wharf.Adapter.State.{
  StateMachine, starting, ready, busy, waiting_permission, ended, invalid_transition, user_stop,
  transition, apply, new_state_machine,
}
use agent_wharf.Adapter.State.Legal.{
  Edge, Call, moves, ends, run, call, transition-Edge, run_terminal,
}

abbrev new : StateMachine
new = record { state = starting }

abbrev over : StateMachine
over = record { state = ended }

boot_run : (transition (some new) ready "").1 ≡ some (record { state = ready })
unfolding transition
boot_run = refl

skipped : (transition (some new) busy "").0 ≡ err invalid_transition
unfolding transition
skipped = refl

transition-Edge_example :
    (transition (some new) ready "up" ≡ apply new ready "up") ↔ Edge starting ready "up"
transition-Edge_example = transition-Edge new ready "up"

run_terminal_example : run (some over) (moves ready "" ∷ ends user_stop ∷ []) ≡ some over
run_terminal_example = run_terminal over (moves ready "" ∷ ends user_stop ∷ []) refl

abbrev asking : List Call
asking = moves ready "" ∷ moves busy "" ∷ moves waiting_permission "" ∷ []

created : new_state_machine starting ≡ ok new
unfolding new_state_machine
created = refl

asked : run (some new) asking ≡ some (record { state = waiting_permission })
unfolding run call transition
asked = refl

starting_not_busy : starting ≢ busy
starting_not_busy e = cc

starting_not_waiting : starting ≢ waiting_permission
starting_not_waiting e = cc
