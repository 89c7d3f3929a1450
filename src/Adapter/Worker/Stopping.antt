-- ===== src/Adapter/Worker/Stopping.antt =====
-- adapter/core/session_worker.go: `Stop` of a worker.
-- The provider, the observations of the owner, the owner and the lease answer through arguments; what
-- the worker asks of them is recorded in order. `stopMu` makes a stop one step.
use agent_wharf.Prelude.{
  String, Bool, true, false, not, List, [], ◌∷◌, ◌++◌, if◌then◌else◌, Result, Outcome, ok, err,
  done, is_ok,
}
pub mod Release
mod Tests

pub data StopError : Type 0 where
  -- the context ended the wait for the owner's observations
  not_observed : StopError
  failed : String → StopError

-- What a stop asks for: `Stop` of the provider, `Quiesce` of the owner, `Release` and `Quarantine` of
-- the lease.
pub data StopEffect : Type 0 where
  stops_provider quiesces releases quarantines : StopEffect

-- The answers; `observed` says that the observations were all done before the context ended.
pub record StopAnswers : Type 0 where
  pub provider : Outcome String
  pub observed : Bool
  pub quiesce : Outcome String
  pub release : Outcome String

-- The part of `SessionWorker` that stopping uses: `ownership` and `lease` say that they are not nil.
pub record Stopper : Type 0 where
  pub ownership : Bool
  pub lease : Bool
  pub stopped : Bool
  pub stop_result : Outcome StopError
  pub effects : List StopEffect

abbrev pub ask : StopEffect → Stopper → Stopper
ask e s = record s { effects = s.effects ++ e ∷ [] }

-- `quarantine`, and the error that it comes with.
unfoldable pub quarantine : StopError → Stopper → Outcome StopError × Stopper
quarantine e s = if s.lease then (err e, ask quarantines s) else (err e, s)

-- Lines 477 to 483 of `stopNow`.
unfoldable pub release_lease : StopAnswers → Stopper → Outcome StopError × Stopper
unfolding quarantine
release_lease answers s = if not s.lease then (done, s) else elim answers.release [
  | err e ↦ quarantine (failed e) (ask releases s)
  | ok _ ↦ (done, ask releases s)
]

-- Lines 471 to 483 of `stopNow`.
unfoldable pub quiesce_owner : StopAnswers → Stopper → Outcome StopError × Stopper
unfolding quarantine release_lease
quiesce_owner answers s =
    if not s.ownership then release_lease answers s else elim answers.quiesce [
      | err e ↦ quarantine (failed e) (ask quiesces s)
      | ok _ ↦ release_lease answers (ask quiesces s)
    ]

-- `stopNow`
unfoldable pub stop_now : StopAnswers → Stopper → Outcome StopError × Stopper
unfolding quarantine quiesce_owner
stop_now answers s = elim answers.provider [
  | err e ↦ quarantine (failed e) (ask stops_provider s)
  | ok _ ↦
      (if not answers.observed
        then quarantine not_observed (ask stops_provider s)
        else quiesce_owner answers (ask stops_provider s))
]

-- `stopOnce`
unfoldable pub stop_once : StopAnswers → Stopper → Outcome StopError × Stopper
unfolding stop_now
stop_once answers s =
    if s.stopped
    then (s.stop_result, s)
    else (let (o, s') = stop_now answers (record s { stopped = true }) in
        (o, record s' { stop_result = o }))

-- `Stop`
unfoldable pub stop : StopAnswers → Stopper → Outcome StopError × Stopper
unfolding stop_now stop_once
stop answers s = if s.ownership then stop_once answers s else stop_now answers s
