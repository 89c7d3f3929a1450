-- ===== src/Adapter/State/Legal.antt =====
-- The machine against the graph of its states, over single calls and over any history of calls.
use agent_wharf.Prelude.{
  ℕ, suc, ◌≤◌, Option-cases, String, ◌≡◌, refl, ◌≢◌, Bool, true, false, ◌⊎◌, inl, inr, Option, none,
  some, List, [], ◌∷◌, arith, eq_iff, ◌↔◌, Result, ok, err, is_ok,
}
use agent_wharf.Adapter.State.{
  SessionState, EndReason, StateError, Transition, StateMachine, starting, ready, busy,
  waiting_permission, recovering, ended, error, valid_state, terminal_state_test, legal_transition,
  apply, transition, end_session, fail_session, new_state_machine,
}

-- The moves that a session may make, with the reason that is given.
pub data Edge : SessionState → SessionState → String → Type 0 where
  boot : {r : String} → Edge starting ready r
  work : {r : String} → Edge ready busy r
  drop : {r : String} → Edge ready recovering r
  finish : {r : String} → Edge busy ready r
  ask : {r : String} → Edge busy waiting_permission r
  drop_busy : {r : String} → Edge busy recovering r
  answer : {r : String} → Edge waiting_permission busy r
  dismiss : {r : String} → Edge waiting_permission ready r
  recover : {r : String} → Edge recovering ready r
  stop :
      {s : SessionState} {r : String}
      → valid_state s ≡ true
      → terminal_state_test s ≡ false
      → r ≢ ""
      → Edge s ended r
  fail :
      {s : SessionState} {r : String}
      → valid_state s ≡ true
      → terminal_state_test s ≡ false
      → r ≢ ""
      → Edge s error r

Edge_of_legal : (s to : SessionState) {r : String} → legal_transition s to ≡ true → Edge s to r
Edge_of_legal starting ready h = boot
Edge_of_legal ready busy h = work
Edge_of_legal ready recovering h = drop
Edge_of_legal busy ready h = finish
Edge_of_legal busy waiting_permission h = ask
Edge_of_legal busy recovering h = drop_busy
Edge_of_legal waiting_permission busy h = answer
Edge_of_legal waiting_permission ready h = dismiss
Edge_of_legal recovering ready h = recover
Edge_of_legal _ _ h = cc

Edge_of_transition :
    (m : StateMachine) (to : SessionState) (r : String)
    → is_ok (transition (some m) to r).0 ≡ true
    → Edge m.state to r
unfolding transition
Edge_of_transition m ended r h = stop (ground arith) (ground arith) (ground (arith, eq_iff r ""))
Edge_of_transition m error r h = fail (ground arith) (ground arith) (ground (arith, eq_iff r ""))
Edge_of_transition m to r h = Edge_of_legal m.state to (ground arith)

transition_of_Edge :
    (s to : SessionState) (r : String)
    → Edge s to r
    → transition (some (record { state = s })) to r ≡ apply (record { state = s }) to r
unfolding transition
transition_of_Edge _ _ r boot = refl
transition_of_Edge _ _ r work = refl
transition_of_Edge _ _ r drop = refl
transition_of_Edge _ _ r finish = refl
transition_of_Edge _ _ r ask = refl
transition_of_Edge _ _ r drop_busy = refl
transition_of_Edge _ _ r answer = refl
transition_of_Edge _ _ r dismiss = refl
transition_of_Edge _ _ r recover = refl
transition_of_Edge s _ r (stop v t n) = ground (arith, eq_iff r "")
transition_of_Edge s _ r (fail v t n) = ground (arith, eq_iff r "")

-- A transition is made exactly along the edges of the graph, `ended` and `error` wanting a reason.
-- It then records the two states and the reason and moves the machine to the new state.
pub transition-Edge :
    (m : StateMachine) (to : SessionState) (r : String)
    → (transition (some m) to r ≡ apply m to r) ↔ Edge m.state to r
transition-Edge m to r = (λ e. Edge_of_transition m to r (rw e), transition_of_Edge m.state to r)

-- A refused transition, on any branch, leaves the machine as it was.
pub transition_refused :
    (m : Option StateMachine) (to : SessionState) (r : String) (e : StateError)
    → (transition m to r).0 ≡ err e
    → (transition m to r).1 ≡ m
unfolding transition
transition_refused none to r e h = refl
transition_refused (some m) to r e h = ground arith

-- The calls that a session's owner makes.
pub data Call : Type 0 where
  moves : SessionState → String → Call
  ends : EndReason → Call
  fails : String → Call

unfoldable pub call :
    Option StateMachine → Call → Result StateError Transition × Option StateMachine
call m (moves to r) = transition m to r
call m (ends reason) = end_session m reason
call m (fails r) = fail_session m r

unfoldable pub run : Option StateMachine → List Call → Option StateMachine
run m [] = m
run m (c ∷ cs) = run (call m c).1 cs

call_terminal :
    (m : StateMachine) (c : Call)
    → terminal_state_test m.state ≡ true
    → (call (some m) c).1 ≡ some m
unfolding call transition end_session fail_session
call_terminal m (moves to r) h = ground arith
call_terminal m (ends reason) h = ground arith
call_terminal m (fails r) h = ground arith

-- An ended or failed session stays as it is under every history of calls.
pub run_terminal :
    (m : StateMachine) (cs : List Call)
    → terminal_state_test m.state ≡ true
    → run (some m) cs ≡ some m
unfolding run
run_terminal m [] h = refl
run_terminal m (c ∷ cs) h = rw (call_terminal m c h) (run_terminal m cs h)

-- How often a history asks for `busy`.
abbrev pub busy_moves : List Call → ℕ
busy_moves [] = 0
busy_moves (moves busy _ ∷ cs) = suc (busy_moves cs)
busy_moves (_ ∷ cs) = busy_moves cs

-- States in which no turn has begun since the start or the last recovery.
abbrev idle : SessionState → Bool
idle waiting_permission = false
idle busy = false
idle _ = true

call-idle :
    (m : StateMachine) (c : Call)
    → idle m.state ≡ true
    → (n : StateMachine) × ((call (some m) c).1 ≡ some n)
      × ((1 ≤ busy_moves (c ∷ [])) ⊎ (idle n.state ≡ true))
unfolding call transition end_session fail_session
call-idle m (moves busy r) h = elim (Option-cases (call (some m) (moves busy r)).1) [
  | inl e ↦ absurd (ground arith)
  | inr (n, e) ↦ (n, e, inl (omega arith))
]
call-idle m (moves to r) h = elim (Option-cases (call (some m) (moves to r)).1) [
  | inl e ↦ absurd (ground arith)
  | inr (n, e) ↦ (n, e, inr (ground arith))
]
call-idle m (ends reason) h = elim (Option-cases (call (some m) (ends reason)).1) [
  | inl e ↦ absurd (ground arith)
  | inr (n, e) ↦ (n, e, inr (ground arith))
]
call-idle m (fails r) h = elim (Option-cases (call (some m) (fails r)).1) [
  | inl e ↦ absurd (ground arith)
  | inr (n, e) ↦ (n, e, inr (ground arith))
]

busy_moves-tail : (c : Call) (cs : List Call) → busy_moves cs ≤ busy_moves (c ∷ cs)
busy_moves-tail (moves busy r) cs = omega arith
busy_moves-tail (moves _ r) cs = omega arith
busy_moves-tail (ends reason) cs = omega arith
busy_moves-tail (fails r) cs = omega arith

busy_moves-head : (c : Call) (cs : List Call) → busy_moves (c ∷ []) ≤ busy_moves (c ∷ cs)
busy_moves-head (moves busy r) cs = omega arith
busy_moves-head (moves _ r) cs = omega arith
busy_moves-head (ends reason) cs = omega arith
busy_moves-head (fails r) cs = omega arith

run-idle :
    (m n : StateMachine) (cs : List Call)
    → idle m.state ≡ true
    → run (some m) cs ≡ some n
    → (idle n.state ≡ true) ⊎ (1 ≤ busy_moves cs)
unfolding run
run-idle m n [] i h = inl (ground arith)
run-idle m n (c ∷ cs) i h =
    let (k, e, d) = call-idle m c i in
    elim d [
      | inl b ↦ inr (omega (arith, busy_moves-head c cs))
      | inr j ↦ elim (run-idle k n cs j (rw e at h)) [
        | inl l ↦ inl l
        | inr b ↦ inr (omega (arith, busy_moves-tail c cs))
      ]
    ]

-- A session that was created in a valid state that is neither `busy` nor `waiting_permission` waits
-- for a permission, after any history of calls, only if the history asked for `busy`.
pub waiting_needs_busy :
    (initial : SessionState) (m n : StateMachine) (cs : List Call)
    → new_state_machine initial ≡ ok m
    → initial ≢ busy
    → initial ≢ waiting_permission
    → run (some m) cs ≡ some n
    → n.state ≡ waiting_permission
    → 1 ≤ busy_moves cs
unfolding new_state_machine
waiting_needs_busy initial m n cs e nb nw h w = elim (run-idle m n cs (ground arith) h) [
  | inl i ↦ absurd (ground arith)
  | inr b ↦ b
]
