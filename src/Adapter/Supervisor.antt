-- ===== src/Adapter/Supervisor.antt =====
-- adapter/core/supervisor.go: the process supervisor, for one `Run` with any number of `Stop` calls.
-- `Run` is a goroutine at one of a few positions. A step is what it does between two waits or two
-- critical sections; the steps of `Run`, of `Stop` and of the child processes may come in any order.
-- A Go error is its text. The child of an attempt is named by the attempt: one `Run` counts them up.
use agent_wharf.Prelude.{
  ℕ, ◌+◌, String, Bool, true, false, Option, none, some, List, [], ◌∷◌, ◌++◌, Result, Outcome, ok,
  err, done, ltb, leb, not, ◌==◌, ◌&&◌, ◌||◌, if◌then◌else◌, str_eq, length, ℤ, pos, negsuc,
}
pub mod Limits
pub mod Stopping
mod Tests

pub data SupervisorError : Type 0 where
  invalid_process_config restart_limit_exceeded : SupervisorError

-- `ProcessConfig`, with what `Run` and `Stop` read of it; durations are nanoseconds.
pub record ProcessConfig : Type 0 where
  pub command_path : String
  pub max_restarts : ℤ
  pub backoff : ℤ
  pub grace_period : ℤ
  -- `StartAdmission != nil`
  pub admits : Bool

-- `duration <= 0`
abbrev pub not_positive : ℤ → Bool
not_positive (pos n) = n == 0
not_positive (negsuc _) = true

-- `value < -1`
abbrev pub below_minus_one : ℤ → Bool
below_minus_one (pos _) = false
below_minus_one (negsuc n) = not (n == 0)

abbrev pub is_zero : ℤ → Bool
is_zero (pos n) = n == 0
is_zero (negsuc _) = false

-- `normalizeProcessConfig`
unfoldable pub normalize_process_config : ProcessConfig → Result SupervisorError ProcessConfig
normalize_process_config cfg =
    if str_eq cfg.command_path ""
    then err invalid_process_config
    else if below_minus_one cfg.max_restarts
    then err invalid_process_config
    else ok (record cfg {
      max_restarts = if is_zero cfg.max_restarts then pos 3 else cfg.max_restarts;
      backoff = if not_positive cfg.backoff then pos 100_000_000 else cfg.backoff;
      grace_period = if not_positive cfg.grace_period then pos 15_000_000_000 else cfg.grace_period;
    })

pub data ProcessEventType : Type 0 where
  started exited restarting stopped : ProcessEventType

pub record ProcessEvent : Type 0 where
  pub kind : ProcessEventType
  pub attempt : ℕ
  pub pid : ℕ
  pub error : Option String
  pub killed : Bool

-- `runningProcess`
pub record Child : Type 0 where
  pub attempt : ℕ
  pub pid : ℕ

-- `ProcessSupervisor`; `events` is what waits in the channel.
pub record ProcessSupervisor : Type 0 where
  pub events : List ProcessEvent
  pub current : Option Child
  pub stopping : Bool

-- `make(chan ProcessEvent, 128)`
abbrev pub events_capacity : ℕ
events_capacity = 128

-- `newProcessSupervisor`; `runner` says that the runner is not nil.
unfoldable pub new_process_supervisor :
    ProcessConfig → Bool → Result SupervisorError (ProcessConfig × ProcessSupervisor)
unfolding normalize_process_config
new_process_supervisor cfg runner =
    if not runner then err invalid_process_config else elim (normalize_process_config cfg) [
      | err e ↦ err e
      | ok c ↦ ok (c, record { events = []; current = none; stopping = false })
    ]

-- `emit`: an event that finds the channel full is dropped.
unfoldable pub emit : ProcessEvent → ProcessSupervisor → ProcessSupervisor
emit e s = record s {
  events = if ltb (length s.events) events_capacity then s.events ++ e ∷ [] else s.events;
}

-- `setCurrent`
abbrev pub set_current : Child → ProcessSupervisor → ProcessSupervisor
set_current c s = record s { current = some c; stopping = false }

-- `s.current == process`
abbrev pub is_child : Child → Option Child → Bool
is_child c none = false
is_child c (some d) = d.attempt == c.attempt

-- `clearCurrent`
abbrev pub clear_current : Child → ProcessSupervisor → ProcessSupervisor
clear_current c s = record s { current = if is_child c s.current then none else s.current }

-- `markStopping`; it returns `current`.
abbrev pub mark_stopping : ProcessSupervisor → ProcessSupervisor
mark_stopping s = record s { stopping = true }

-- The results of `Interrupt` of a handle.
pub data Signalled : Type 0 where
  sent process_done unsupported : Signalled
  refused : String → Signalled

-- How a `select` on the child, a timer and the context ends.
pub data Wake : Type 0 where
  exits : Option String → Wake
  expires cancels : Wake

-- What one `Stop` meets: `first` is the wait with its grace period, `last` the wait after a kill,
-- `none` if the context ended it.
pub record StopWorld : Type 0 where
  pub interrupt : Signalled
  pub first : ℤ → Wake
  -- `os.ErrProcessDone` counts as success
  pub kill : Outcome String
  pub last : Option (Option String)

pub data StopError : Type 0 where
  interrupt_failed kill_failed : String → StopError
  stop_cancelled : StopError

abbrev pub stopped_event : Child → Option String → Bool → ProcessEvent
stopped_event c e killed = record {
  kind = stopped;
  attempt = c.attempt;
  pid = c.pid;
  error = e;
  killed = killed;
}

-- Lines 244 to 252 of `Stop`.
unfoldable pub kill_child : StopWorld → Child → Result StopError ProcessEvent
kill_child w c = elim w.kill [
  | err e ↦ err (kill_failed e)
  | ok _ ↦ elim w.last [ none ↦ err stop_cancelled | some e ↦ ok (stopped_event c e true) ]
]

-- Lines 238 to 263 of `Stop`, with a grace period.
unfoldable pub wait_child : StopWorld → Child → ℤ → Result StopError ProcessEvent
unfolding kill_child
wait_child w c grace = elim (w.first grace) [
  | exits e ↦ ok (stopped_event c e false)
  | expires ↦ kill_child w c
  | cancels ↦ err stop_cancelled
]

-- `Stop` for a child, after `markStopping`: its result, and the event that it emits on success.
unfoldable pub stop_child : ProcessConfig → StopWorld → Child → Result StopError ProcessEvent
unfolding wait_child
stop_child cfg w c = elim w.interrupt [
  | sent ↦ wait_child w c cfg.grace_period
  | process_done ↦ wait_child w c cfg.grace_period
  | unsupported ↦ wait_child w c (pos 0)
  | refused e ↦ err (interrupt_failed e)
]

-- `Stop` from the end of `markStopping` on: the emitted event.
unfoldable pub settle_stop :
    ProcessConfig
    → StopWorld
    → Option Child
    → ProcessSupervisor
    → Outcome StopError × ProcessSupervisor
unfolding stop_child emit
settle_stop cfg w none s = (done, s)
settle_stop cfg w (some c) s = elim (stop_child cfg w c) [
  | err e ↦ (err e, s)
  | ok e ↦ (done, emit e s)
]

-- How `Run` returned.
pub data RunResult : Type 0 where
  finished cancelled : RunResult
  start_failed limit_exceeded : String → RunResult

-- Where `Run` is: before an attempt; between `setCurrent` and the end of `start`; waiting for the
-- child; between `clearCurrent` and the next wait; in the backoff; returned.
pub data Position : Type 0 where
  top : ℕ → ℕ → Position
  confirming watching : Child → ℕ → Position
  observed : Child → Option String → ℕ → Position
  sleeping : ℕ → ℕ → Position
  returned : RunResult → Position

-- One `Run` and its surroundings: the children that the runner has started, newest first, the ones
-- that are alive, and the exit of the newest one once its `done` channel is closed.
pub record Machine : Type 0 where
  pub supervisor : ProcessSupervisor
  pub position : Position
  pub children : List Child
  pub alive : List Child
  pub exit : Option (Option String)

-- `Run` is about to begin.
abbrev pub begin : ProcessSupervisor → Machine
begin s = record { supervisor = s; position = top 0 1; children = []; alive = []; exit = none }

-- One step: of `Run`, but for the last three, which are a `Stop` from outside, up to the end of
-- `markStopping` and from there on, and the death of the newest child.
pub data Action : Type 0 where
  -- the context's error at the top of the loop
  cancels_top : Action
  -- `PrepareProcessStart`, the guard or the runner fails, or the runner starts a child with that pid
  launches : Result String ℕ → Action
  -- `ConfirmProcessStarted` fails, and the child is stopped; or it does not fail
  rejects : String → StopWorld → Action
  confirms : Action
  observes : Action
  cancels_watch : StopWorld → Action
  decides : Action
  wakes cancels_sleep : Action
  stops : Action
  settles : StopWorld → Option Child → Action
  dies : Option String → Action

-- `MaxRestarts < 0 || restarts >= MaxRestarts`
abbrev pub limit_reached : ℤ → ℕ → Bool
limit_reached (negsuc _) restarts = true
limit_reached (pos n) restarts = leb n restarts

abbrev pub exit_event : Child → Option String → ProcessEvent
exit_event c e = record {
  kind = exited;
  attempt = c.attempt;
  pid = c.pid;
  error = e;
  killed = false;
}

-- Lines 196 to 208 of `Run`.
unfoldable pub decide :
    ProcessConfig → Child → Option String → ℕ → ProcessSupervisor → Position × ProcessSupervisor
unfolding emit
decide cfg c e restarts s = if s.stopping then (returned finished, s) else elim e [
  | none ↦ (returned finished, emit (exit_event c none) s)
  | some x ↦
      (if limit_reached cfg.max_restarts restarts
        then (returned (limit_exceeded x), emit (exit_event c (some x)) s)
        else (
          sleeping (restarts + 1) c.attempt,
          emit
              (record {
                kind = restarting;
                attempt = c.attempt + 1;
                pid = 0;
                error = some x;
                killed = false;
              })
              (emit (exit_event c (some x)) s),
        ))
]

-- `start` up to `setCurrent`.
unfoldable pub launch : Result String ℕ → ℕ → ℕ → Machine → Machine
launch (err e) restarts attempt m = record m { position = returned (start_failed e) }
launch (ok pid) restarts attempt m =
    let c : Child = record { attempt = attempt; pid = pid } in
    record m {
      supervisor = set_current c m.supervisor;
      position = confirming c restarts;
      children = c ∷ m.children;
      alive = c ∷ m.alive;
      exit = none;
    }

-- The end of `start`.
abbrev pub started_event : Child → ProcessEvent
started_event c = record {
  kind = started;
  attempt = c.attempt;
  pid = c.pid;
  error = none;
  killed = false;
}

-- A step at the position that it belongs to; elsewhere it is none.
unfoldable pub step_at : ProcessConfig → Action → Position → Machine → Machine
unfolding launch decide settle_stop emit
step_at cfg cancels_top (top restarts attempt) m = record m { position = returned cancelled }
step_at cfg (launches r) (top restarts attempt) m = launch r restarts attempt m
step_at cfg (rejects e w) (confirming c restarts) m =
    if cfg.admits
    then record m {
      position = returned (start_failed e);
      supervisor = (settle_stop cfg w m.supervisor.current (mark_stopping m.supervisor)).1;
    }
    else m
step_at cfg confirms (confirming c restarts) m = record m {
  position = watching c restarts;
  supervisor = emit (started_event c) m.supervisor;
}
step_at cfg observes (watching c restarts) m = elim m.exit [
  | none ↦ m
  | some e ↦ record m {
    position = observed c e restarts;
    supervisor = clear_current c m.supervisor;
  }
]
step_at cfg (cancels_watch w) (watching c restarts) m = record m {
  position = returned cancelled;
  supervisor = (settle_stop cfg w m.supervisor.current (mark_stopping m.supervisor)).1;
}
step_at cfg decides (observed c e restarts) m =
    let (p, s) = decide cfg c e restarts m.supervisor in record m { position = p; supervisor = s }
step_at cfg wakes (sleeping restarts attempt) m = record m { position = top restarts (attempt + 1) }
step_at cfg cancels_sleep (sleeping restarts attempt) m = record m { position = returned cancelled }
step_at cfg stops _ m = record m { supervisor = mark_stopping m.supervisor }
step_at cfg (settles w c) _ m = record m { supervisor = (settle_stop cfg w c m.supervisor).1 }
step_at cfg (dies e) _ m = elim m.alive [ [] ↦ m | _ ∷ cs ↦ record m { alive = cs; exit = some e } ]
step_at cfg _ _ m = m

abbrev pub step : ProcessConfig → Action → Machine → Machine
step cfg a m = step_at cfg a m.position m

unfoldable pub run : ProcessConfig → List Action → Machine → Machine
run cfg [] m = m
run cfg (a ∷ actions) m = run cfg actions (step cfg a m)
