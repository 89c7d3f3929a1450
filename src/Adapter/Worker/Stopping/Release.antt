-- ===== src/Adapter/Worker/Stopping/Release.antt =====
-- When the lease of a worker is released, and when it is quarantined.
use agent_wharf.Prelude.{◌≡◌, true, false, List, [], ◌∷◌, ◌++◌, Outcome, err, done, is_ok}
use agent_wharf.Adapter.Worker.Stopping.{
  StopError, StopEffect, stops_provider, quiesces, releases, quarantines, StopAnswers, Stopper,
  stop,
}

-- What the stop of an owned worker with a lease does, with its result.
pub data Stops (answers : StopAnswers) : Outcome StopError → List StopEffect → Type 0 where
  released :
      is_ok answers.provider ≡ true
      → answers.observed ≡ true
      → is_ok answers.quiesce ≡ true
      → is_ok answers.release ≡ true
      → Stops answers done (stops_provider ∷ quiesces ∷ releases ∷ [])
  unreleased :
      {e : StopError}
      → is_ok answers.release ≡ false
      → is_ok answers.quiesce ≡ true
      → Stops answers (err e) (stops_provider ∷ quiesces ∷ releases ∷ quarantines ∷ [])
  unquiet :
      {e : StopError}
      → is_ok answers.quiesce ≡ false
      → Stops answers (err e) (stops_provider ∷ quiesces ∷ quarantines ∷ [])
  unstopped : {e : StopError} → Stops answers (err e) (stops_provider ∷ quarantines ∷ [])

-- A call's result and the effects that it has added.
abbrev pub Adds : StopAnswers → Stopper → Outcome StopError × Stopper → Type 0
Adds answers s (o, s') =
    (es : List StopEffect) × (s'.effects ≡ s.effects ++ es) × Stops answers o es

pub run_stops : List StopAnswers → Stopper → Stopper
run_stops [] s = s
run_stops (a ∷ rest) s = run_stops rest (stop a s).1

abbrev kept_result : Outcome StopError × Stopper → Stopper
kept_result (o, s) = record s { stop_result = o }
