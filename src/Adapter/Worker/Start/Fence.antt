-- ===== src/Adapter/Worker/Start/Fence.antt =====
-- The credential's fence around one start: who releases it.
use agent_wharf.Prelude.{
  ℕ, String, ◌≡◌, refl, ap, ◌∙◌, inl, inr, Bool, true, false, ◌&&◌, none, some, arith, str_eq, ltb,
  not, if◌then◌else◌, Bool-cases, Outcome, err, done, is_ok, Result-cases,
}
use agent_wharf.Adapter.Rotation.{
  Call, CredentialRotation, prepares, reconnects, prepare, reconnect, step as rotation_step,
}
use agent_wharf.Adapter.Credential.{authority_lost, validate}
use agent_wharf.Adapter.Worker.Start.{
  StartError, failed, credential, Admission, Fenced, Launch, cancelled, runner_failed,
  child_started, prepare_fenced, confirm_fenced, abort_fenced, start_attempt, before_lock,
  call_fenced,
}

abbrev pub is_cancelled : Launch → Bool
is_cancelled (cancelled _) = true
is_cancelled _ = false

before_lock_refused :
    (c : Call) (r : CredentialRotation) → before_lock c r ≡ true → rotation_step c r ≡ (false, r)
unfolding rotation_step before_lock prepare reconnect
before_lock_refused (prepares now later id none) r h = refl
before_lock_refused (prepares now later id (some c)) r h = elim (Bool-cases (str_eq id "")) [
  | inl i ↦ simp (i, rotation_step, prepare) refl
  | inr i ↦ elim (Result-cases (validate (some c) r.session_id now)) [
    | inl (x, e) ↦ simp (i, e, rotation_step, prepare) refl
    | inr (_, e) ↦ absurd (ground (arith, h, i, e))
  ]
]
before_lock_refused (reconnects now e g) r h = simp (h, rotation_step, reconnect) refl
before_lock_refused _ r h = absurd (ground (arith, h))

-- A call that finds the fence held.
call_held :
    {A : Type 0} (c : Call) (g : Fenced A)
    → g.held ≡ true
    → call_fenced c g ≡ (if before_lock c g.rotation then some (false, g) else none)
unfolding call_fenced
call_held c g held = elim (Bool-cases (before_lock c g.rotation)) [
  | inl b ↦ simp (b, call_fenced, before_lock_refused c g.rotation b) refl
  | inr b ↦ simp (b, held, call_fenced) refl
]

module _ {A : Type 0} (delegate : Admission A) where
  confirm_releases :
      (now attempt : ℕ) (f : Fenced A)
      → ltb attempt 1 ≡ false
      → (confirm_fenced delegate now attempt f).1.held ≡ false
  unfolding confirm_fenced
  confirm_releases now attempt f n = ground arith

  prepare-held :
      (now attempt : ℕ) (f : Fenced A)
      → f.held ≡ false
      → (prepare_fenced delegate now attempt f).1.held
        ≡ is_ok (prepare_fenced delegate now attempt f).0
  unfolding prepare_fenced
  prepare-held now attempt f free = ground arith

  prepare-positive :
      (now attempt : ℕ) (f : Fenced A)
      → is_ok (prepare_fenced delegate now attempt f).0 ≡ true
      → ltb attempt 1 ≡ false
  unfolding prepare_fenced
  prepare-positive now attempt f p = ground arith

  free_passes : (b c : Bool) → c ≡ false → not b && c ≡ false
  free_passes b c free = ground arith

  -- What a start that finds the fence free gives.
  abbrev pub Ends : ℕ → ℕ → ℕ → Launch → Fenced A → Bool → Type 0
  Ends now later attempt launch f held =
      (o : Outcome StartError) × (g : Fenced A) × (start_attempt delegate now later attempt launch f
        ≡ some (o, g))
      × (g.held ≡ held)

  -- A start that finds the fence free comes to an end, and leaves it held exactly if the admission was
  -- prepared and the start was then cancelled before the runner was called; a refusal, a failing
  -- runner and a confirmation, also one that fails, release it.
  pub start_attempt-held :
      (now later attempt : ℕ) (launch : Launch) (f : Fenced A)
      → f.held ≡ false
      → Ends now later attempt launch f
          (is_ok (prepare_fenced delegate now attempt f).0 && is_cancelled launch)
  unfolding start_attempt
  start_attempt-held now later attempt launch f free =
      elim (Result-cases (prepare_fenced delegate now attempt f).0) [
        | inl (e, p) ↦
            simp (k, start_attempt, p) (err e, (prepare_fenced delegate now attempt f).1, refl, h p)
        | inr (_, p) ↦ go launch p
      ]
    where
      k : not (ltb attempt 1) && f.held ≡ false
      k = free_passes (ltb attempt 1) f.held free

      h :
          {o : Outcome StartError}
          → (prepare_fenced delegate now attempt f).0 ≡ o
          → (prepare_fenced delegate now attempt f).1.held ≡ is_ok o
      h p = prepare-held now attempt f free ∙ ap is_ok p

      go :
          (launch : Launch)
          → (prepare_fenced delegate now attempt f).0 ≡ done
          → Ends now later attempt launch f
              (is_ok (prepare_fenced delegate now attempt f).0 && is_cancelled launch)
      go (cancelled e) p =
          simp (k, start_attempt, p)
            (err (failed e), (prepare_fenced delegate now attempt f).1, refl, h p)
      go (runner_failed e) p =
          simp (k, start_attempt, p)
            (
              err (failed e),
              abort_fenced delegate (prepare_fenced delegate now attempt f).1,
              refl,
              refl,
            )
      go child_started p =
          simp (k, start_attempt, p)
            (
              (confirm_fenced delegate later attempt (prepare_fenced delegate now attempt f).1).0,
              (confirm_fenced delegate later attempt (prepare_fenced delegate now attempt f).1).1,
              refl,
              confirm_releases later attempt (prepare_fenced delegate now attempt f).1
                  (prepare-positive now attempt f (ap is_ok p)),
            )

  start_cancelled :
      (now later attempt : ℕ) (e : String) (f : Fenced A)
      → f.held ≡ false
      → (prepare_fenced delegate now attempt f).0 ≡ done
      → start_attempt delegate now later attempt (cancelled e) f
        ≡ some (err (failed e), (prepare_fenced delegate now attempt f).1)
  unfolding start_attempt
  start_cancelled now later attempt e f free q =
      simp (free_passes (ltb attempt 1) f.held free, start_attempt, q) refl

  start_held :
      (t u n : ℕ) (l : Launch) (g : Fenced A)
      → g.held ≡ true
      → start_attempt delegate t u n l g
        ≡ (if ltb n 1 then some (err (credential authority_lost), g) else none)
  unfolding start_attempt prepare_fenced
  start_held t u n l g held = elim (Bool-cases (ltb n 1)) [
    | inl b ↦ simp (b, held, start_attempt, prepare_fenced) refl
    | inr b ↦ simp (b, held, start_attempt) refl
  ]

  -- When the context or the start guard ends a start after its admission was prepared, the fence is
  -- kept. Then every call of the rotation, a revocation included, waits forever, but for a `Prepare` or
  -- `Reconnect` that returns an error before it locks the mutex; and so does every start, but for one of
  -- an attempt below 1, which is refused. Those that return leave the fence as it is.
  pub cancelled_start_blocks :
      (now later attempt : ℕ) (e : String) (f : Fenced A)
      → f.held ≡ false
      → is_ok (prepare_fenced delegate now attempt f).0 ≡ true
      → (g : Fenced A) × (start_attempt delegate now later attempt (cancelled e) f
          ≡ some (err (failed e), g))
        × ((c : Call)
            → call_fenced c g ≡ (if before_lock c g.rotation then some (false, g) else none))
        × ((t u n : ℕ) (l : Launch)
            → start_attempt delegate t u n l g
              ≡ (if ltb n 1 then some (err (credential authority_lost), g) else none))
  cancelled_start_blocks now later attempt e f free p =
      elim (Result-cases (prepare_fenced delegate now attempt f).0) [
        | inl (x, q) ↦ absurd (ground (arith, p, q))
        | inr (_, q) ↦
            let held = prepare-held now attempt f free ∙ p in
            (
              (prepare_fenced delegate now attempt f).1,
              start_cancelled now later attempt e f free q,
              λ c. call_held c (prepare_fenced delegate now attempt f).1 held,
              λ t u n l. start_held t u n l (prepare_fenced delegate now attempt f).1 held,
            )
      ]
