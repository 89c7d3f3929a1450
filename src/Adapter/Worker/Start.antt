-- ===== src/Adapter/Worker/Start.antt =====
-- adapter/core/session_worker.go: the admissions that `newSessionWorker` puts around each start of the
-- provider, and one start of supervisor.go under them.
-- `S` is the state of the surroundings: the recovery handle's source, the durable receipts, the owner
-- of the process tree and the innermost admission. An attempt is at least 1: the supervisor counts.
use agent_wharf.Prelude.{
  ℕ, suc, String, Bool, true, false, not, Option, none, some, Result, Outcome, ok, err, done,
  str_eq, if◌then◌else◌, ltb, is_ok, ◌||◌, ◌&&◌,
}
use agent_wharf.Adapter.Credential.{CredentialError, authority_lost, validate}
use agent_wharf.Adapter.Rotation.{
  CredentialRotation, Call, prepares, reconnects, authorize, step as rotation_step,
}
pub mod Fence
pub mod Refusal
mod Tests

pub data StartError : Type 0 where
  recovery_authority_lost : StartError
  credential : CredentialError → StartError
  failed : String → StartError

-- `ProcessStartAdmission`
pub record Admission (A : Type 0) : Type 0 where
  pub prepare : ℕ → A → Outcome StartError × A
  pub confirm : ℕ → A → Outcome StartError × A

-- The calls that the admissions make of their surroundings.
pub record Surroundings (S : Type 0) : Type 0 where
  -- `RecoveryStartHandle`, `none` for an error
  pub handle : S → Option String
  -- `PrepareProviderStart` and `ConfirmProviderStarted` of the receipts
  pub prepare_provider_start : ℕ → S → Outcome String × S
  pub confirm_provider_started : ℕ → S → Outcome String × S
  -- `PrepareStart` and `AbortStart` of the owner
  pub prepare_start : ℕ → S → Outcome String × S
  pub abort_start : ℕ → S → Outcome String × S

-- The surroundings, with the expected handle of `recoveryBoundProcessStartAdmission` (`none` while it
-- is not ready) and the counter of `ownerObservations`.
pub record Starting (S : Type 0) : Type 0 where
  pub outside : S
  pub expected : Option String
  pub observations : ℕ

module _ {S : Type 0} (env : Surroundings S) where
  abbrev pub after_call : Starting S → Outcome String × S → Outcome StartError × Starting S
  after_call a (err e, s) = (err (failed e), record a { outside = s })
  after_call a (ok _, s) = (done, record a { outside = s })

  -- A call of the surroundings.
  abbrev pub call_outside : (S → Outcome String × S) → Starting S → Outcome StartError × Starting S
  call_outside f a = after_call a (f a.outside)

  abbrev pub unless_failed :
      (Starting S → Outcome StartError × Starting S)
      → Outcome StartError × Starting S
      → Outcome StartError × Starting S
  unless_failed second (err e, b) = (err e, b)
  unless_failed second (ok _, b) = second b

  -- `if err := first; err != nil { return err }; return second`
  abbrev pub both :
      (Starting S → Outcome StartError × Starting S)
      → (Starting S → Outcome StartError × Starting S)
      → Starting S
      → Outcome StartError × Starting S
  both first second a = unless_failed second (first a)

  -- `verifyCurrent`
  unfoldable pub verify_current : Starting S → Outcome StartError
  verify_current a = elim (env.handle a.outside) [
    | none ↦ elim a.expected [ none ↦ done | some _ ↦ err recovery_authority_lost ]
    | some h ↦ elim a.expected [
      | none ↦ done
      | some e ↦ (if not (str_eq e h) then err recovery_authority_lost else done)
    ]
  ]

  abbrev pub check_current : Starting S → Outcome StartError × Starting S
  check_current a = (verify_current a, a)

  -- Lines 186 to 194 of `recoveryBoundProcessStartAdmission.ConfirmProcessStarted`.
  unfoldable pub bind_handle : Starting S → Outcome StartError × Starting S
  bind_handle a = elim (env.handle a.outside) [
    | none ↦ (err recovery_authority_lost, a)
    | some h ↦ (done, record a { expected = some h })
  ]

  -- `recoveryBoundProcessStartAdmission`
  abbrev pub recovery_bound : Admission (Starting S) → Admission (Starting S)
  recovery_bound delegate = record {
    prepare = λ attempt a. both check_current (delegate.prepare attempt) a;
    confirm = λ attempt a. both (delegate.confirm attempt) bind_handle a;
  }

  abbrev pub prepare_delegate :
      Option (Admission (Starting S)) → ℕ → Starting S → Outcome StartError × Starting S
  prepare_delegate none attempt a = (done, a)
  prepare_delegate (some d) attempt a = d.prepare attempt a

  abbrev pub confirm_delegate :
      Option (Admission (Starting S)) → ℕ → Starting S → Outcome StartError × Starting S
  confirm_delegate none attempt a = (done, a)
  confirm_delegate (some d) attempt a = d.confirm attempt a

  -- `durableReceiptStartAdmission`
  abbrev pub durable_receipt : Option (Admission (Starting S)) → Admission (Starting S)
  durable_receipt delegate = record {
    prepare = λ attempt a.
        both (call_outside (env.prepare_provider_start attempt)) (prepare_delegate delegate attempt)
          a;
    confirm = λ attempt a.
        both (confirm_delegate delegate attempt)
          (call_outside (env.confirm_provider_started attempt)) a;
  }

  -- `_ = a.owner.AbortStart(context.Background(), attempt)`
  abbrev pub abort_outside : ℕ → Starting S → Starting S
  abort_outside attempt a = record a { outside = (env.abort_start attempt a.outside).1 }

  abbrev pub abort_failed : ℕ → Outcome StartError × Starting S → Outcome StartError × Starting S
  abort_failed attempt (err e, b) = (err e, abort_outside attempt b)
  abort_failed attempt (ok _, b) = (done, b)

  -- A delegate's failure, with the owner's start aborted.
  abbrev pub or_abort :
      ℕ
      → (Starting S → Outcome StartError × Starting S)
      → Starting S
      → Outcome StartError × Starting S
  or_abort attempt f a = abort_failed attempt (f a)

  -- `onConfirmed`
  abbrev pub on_confirmed : Starting S → Outcome StartError × Starting S
  on_confirmed a = (done, record a { observations = suc a.observations })

  -- `ownedProcessStartAdmission`
  abbrev pub owned_process : Option (Admission (Starting S)) → Admission (Starting S)
  owned_process delegate = record {
    prepare = λ attempt a.
        both (call_outside (env.prepare_start attempt))
          (or_abort attempt (prepare_delegate delegate attempt)) a;
    confirm =
        λ attempt a. both (or_abort attempt (confirm_delegate delegate attempt)) on_confirmed a;
  }

  -- What `newSessionWorker` puts around the provider's admission, but for the credential's fence:
  -- whether the source, the receipts and the owner are there. Without the provider's own admission a
  -- source is refused.
  unfoldable pub worker_admission :
      Bool
      → Bool
      → Bool
      → Option (Admission (Starting S))
      → Result StartError (Option (Admission (Starting S)))
  worker_admission source receipts owner none =
      if source
      then err recovery_authority_lost
      else (let d : Option (Admission (Starting S)) =
            if receipts then some (durable_receipt none) else none in
          ok (if owner then some (owned_process d) else d))
  worker_admission source receipts owner (some base) =
      let b : Option (Admission (Starting S)) =
        some (if source then recovery_bound base else base) in
      let d : Option (Admission (Starting S)) = if receipts then some (durable_receipt b) else b in
      ok (if owner then some (owned_process d) else d)

-- A rotation whose mutex `credentialRotationStartAdmission` may hold, with what is started under it.
-- `held` says that `startMu` and the rotation's `mu` are held and `started` is set: the three change
-- together.
pub record Fenced (A : Type 0) : Type 0 where
  pub rotation : CredentialRotation
  pub held : Bool
  pub inner : A

-- How `start` of supervisor.go goes on once the admission is prepared: the context's error or the
-- start guard's, before the runner is called; the runner's error; or a child.
pub data Launch : Type 0 where
  cancelled runner_failed : String → Launch
  child_started : Launch

module _ {A : Type 0} (delegate : Admission A) where
  -- `PrepareProcessStart` of `credentialRotationStartAdmission`, once it has the mutexes; for an attempt
  -- below 1, which it refuses before it locks them, `held` is what it was.
  unfoldable pub prepare_fenced : ℕ → ℕ → Fenced A → Outcome StartError × Fenced A
  unfolding authorize
  prepare_fenced now attempt f =
      if ltb attempt 1
      then (err (credential authority_lost), f)
      else (let (o, r) = authorize now f.rotation in
          elim o [
            | err e ↦ (err (credential e), record f { rotation = r; held = false })
            | ok _ ↦
                (let (p, a) = delegate.prepare attempt f.inner in
                  elim p [
                    | err e ↦ (err e, record { rotation = r; held = false; inner = a })
                    | ok _ ↦ (done, record { rotation = r; held = true; inner = a })
                  ])
          ])

  -- `ConfirmProcessStarted`; with an attempt from 1 it releases the fence on every path that has it.
  unfoldable pub confirm_fenced : ℕ → ℕ → Fenced A → Outcome StartError × Fenced A
  unfolding authorize
  confirm_fenced now attempt f =
      if ltb attempt 1 || not f.held
      then (err (credential authority_lost), f)
      else (let (o, a) = delegate.confirm attempt f.inner in
          elim o [
            | err e ↦ (err e, record f { held = false; inner = a })
            | ok _ ↦
                (let (p, r) = authorize now f.rotation in
                  elim p [
                    | err e ↦ (err (credential e), record { rotation = r; held = false; inner = a })
                    | ok _ ↦ (done, record { rotation = r; held = false; inner = a })
                  ])
          ])

  -- `AbortProcessStart`, which `credentialRotationProcessRunner` calls if the runner fails
  abbrev pub abort_fenced : Fenced A → Fenced A
  abort_fenced f = record f { held = false }

  -- `ProcessSupervisor.start` under the fence; `none` waits for a mutex that nobody releases. An attempt
  -- below 1 is refused before the mutexes.
  unfoldable pub start_attempt :
      ℕ → ℕ → ℕ → Launch → Fenced A → Option (Outcome StartError × Fenced A)
  unfolding prepare_fenced confirm_fenced
  start_attempt now later attempt launch f =
      if not (ltb attempt 1) && f.held
      then none
      else some (
          let (o, g) = prepare_fenced now attempt f in
          elim o [
            | err e ↦ (err e, g)
            | ok _ ↦ elim launch [
              | cancelled e ↦ (err (failed e), g)
              | runner_failed e ↦ (err (failed e), abort_fenced g)
              | child_started ↦ confirm_fenced later attempt g
            ]
          ])

-- `Reconnect` returns an error for an epoch or a generation below 1, before it locks the mutex.
abbrev pub reconnect_returns : ℕ → ℕ → Bool
reconnect_returns epoch generation = ltb epoch 1 || ltb generation 1

-- Whether a call returns an error before it locks the mutex: `Prepare` also does, for an empty id and
-- for no or an invalid credential.
unfoldable pub before_lock : Call → CredentialRotation → Bool
unfolding validate
before_lock (prepares now later id none) r = true
before_lock (prepares now later id (some c)) r =
    str_eq id "" || not (is_ok (validate (some c) r.session_id now))
before_lock (reconnects now e g) r = reconnect_returns e g
before_lock _ r = false

-- A call of a method of the rotation: it waits for the mutex, unless it returns before it.
unfoldable pub call_fenced : {A : Type 0} → Call → Fenced A → Option (Bool × Fenced A)
unfolding rotation_step before_lock
call_fenced c f =
    if not (before_lock c f.rotation) && f.held
    then none
    else some (let (o, r) = rotation_step c f.rotation in (o, record f { rotation = r }))
