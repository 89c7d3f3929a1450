-- ===== src/Adapter/State.antt =====
-- adapter/core/state.go: the session state machine.
-- Go's string types `SessionState` and `EndReason` are the named constants and `other` for any
-- other string. A method that writes `m.state` returns the new machine; `none` is a nil receiver.
use agent_wharf.Prelude.{
  String, Bool, true, false, ◌||◌, Option, none, some, str_eq, if◌then◌else◌, not, Result, ok, err,
}
pub mod Legal
mod Tests

pub data SessionState : Type 0 where
  starting ready busy waiting_permission recovering ended error : SessionState
  other : String → SessionState

pub data EndReason : Type 0 where
  user_stop provider_exit crash timeout : EndReason
  other : String → EndReason

pub data StateError : Type 0 where
  invalid_state invalid_reason invalid_transition terminal_state : StateError

pub record Transition : Type 0 where
  pub from : SessionState
  pub to : SessionState
  pub reason : String

pub record StateMachine : Type 0 where
  pub state : SessionState

-- `string(reason)`
abbrev pub text : EndReason → String
text user_stop = "user_stop"
text provider_exit = "provider_exit"
text crash = "crash"
text timeout = "timeout"
text (EndReason.other s) = s

abbrev pub valid_state : SessionState → Bool
valid_state (SessionState.other _) = false
valid_state _ = true

abbrev pub is_ended : SessionState → Bool
is_ended ended = true
is_ended _ = false

abbrev pub is_error : SessionState → Bool
is_error error = true
is_error _ = false

abbrev pub terminal_state_test : SessionState → Bool
terminal_state_test s = is_ended s || is_error s

-- `Transition.Terminal`
abbrev pub is_terminal : Transition → Bool
is_terminal t = is_ended t.to || is_error t.to

abbrev pub legal_transition : SessionState → SessionState → Bool
legal_transition starting ready = true
legal_transition ready busy = true
legal_transition ready recovering = true
legal_transition busy ready = true
legal_transition busy waiting_permission = true
legal_transition busy recovering = true
legal_transition waiting_permission busy = true
legal_transition waiting_permission ready = true
legal_transition recovering ready = true
legal_transition _ _ = false

abbrev pub valid_end_reason : EndReason → Bool
valid_end_reason (EndReason.other _) = false
valid_end_reason _ = true

pub new_state_machine : SessionState → Result StateError StateMachine
new_state_machine initial =
    if not (valid_state initial)
    then err invalid_state
    else if terminal_state_test initial
    then err terminal_state
    else ok (record { state = initial })

-- `apply`: the transition made, and the machine after it.
abbrev pub apply :
    StateMachine → SessionState → String → Result StateError Transition × Option StateMachine
apply m to reason =
    (ok (record { from = m.state; to = to; reason = reason }), some (record m { state = to }))

-- `StateMachine.Transition`
pub transition :
    Option StateMachine → SessionState → String → Result StateError Transition × Option StateMachine
transition none to reason = (err invalid_state, none)
transition (some m) to reason =
    if not (valid_state m.state)
    then (err invalid_state, some m)
    else if terminal_state_test m.state
    then (err terminal_state, some m)
    else if not (valid_state to)
    then (err invalid_state, some m)
    else if is_ended to || is_error to
    then (if str_eq reason "" then (err invalid_reason, some m) else apply m to reason)
    else if not (legal_transition m.state to)
    then (err invalid_transition, some m)
    else apply m to reason

-- `StateMachine.End`
pub end_session :
    Option StateMachine → EndReason → Result StateError Transition × Option StateMachine
end_session m reason =
    if not (valid_end_reason reason)
    then (err invalid_reason, m)
    else transition m ended (text reason)

-- `StateMachine.Error`
pub fail_session : Option StateMachine → String → Result StateError Transition × Option StateMachine
fail_session m reason =
    if str_eq reason "" then (err invalid_reason, m) else transition m error reason
