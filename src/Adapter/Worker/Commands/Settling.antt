-- ===== src/Adapter/Worker/Commands/Settling.antt =====
-- What an accepted command leaves: a completion, or an outcome recorded as unknown.
use agent_wharf.Prelude.{
  ℕ, String, ◌≡◌, refl, ap, ◌∙◌, ◌⊎◌, inl, inr, true, false, Option, none, some, List, [], ◌∷◌,
  ◌++◌, arith, Outcome, ok, err, done, is_ok, Option-cases, Result-cases,
}
use mathlib.Core.List.{append_assoc}
use agent_wharf.Adapter.Credential.{CredentialError}
use agent_wharf.Adapter.Rotation.{
  CredentialRotation, with_authorized, authority, authorize, if_authorized, run as run_rotation,
}
use agent_wharf.Adapter.Worker.{
  LedgerOperation, Command, CommandOutcome, Effect, applied, finalized, Worker, WorkerError,
  credential, unsafe_replay, unsettled_replay, record_receipt_failure,
}
use agent_wharf.Adapter.Worker.Commands.{
  CommandWorld, is_credential_fence_error, finalize_command_unknown, execute, after_guard,
  execute_authorized, execute_guarded, log_command,
}

abbrev pub Unsafe : Outcome WorkerError → Type 0
Unsafe o = (o ≡ err unsafe_replay) ⊎ (o ≡ err unsettled_replay)

abbrev pub lost : Command → LedgerOperation → Effect
lost c op = finalized c op CommandOutcome.outcome_unknown

abbrev pub completed : Command → LedgerOperation → Effect
completed c op = finalized c op CommandOutcome.completed

-- What follows an accepted command with its operation, for the answer `applies` that the provider
-- gives. Under authority: a side effect and a completion that both succeed; a side effect that fails,
-- or a completion that fails, after which the outcome is recorded as unknown, and an error says so.
-- Without: no side effect, and the outcome is recorded as unknown.
pub data Settled (world : CommandWorld) (applies : Outcome String) (c : Command)
    (op : LedgerOperation) (Granted : Type 0) : Outcome WorkerError → List Effect → Type 0 where
  completes :
      Granted
      → is_ok applies ≡ true
      → is_ok world.completes ≡ true
      → Settled world applies c op Granted done (applied c ∷ completed c op ∷ [])
  unknown :
      {o : Outcome WorkerError}
      → Granted
      → is_ok applies ≡ false
      → Unsafe o
      → Settled world applies c op Granted o (applied c ∷ lost c op ∷ [])
  uncompleted :
      {o : Outcome WorkerError}
      → Granted
      → is_ok applies ≡ true
      → is_ok world.completes ≡ false
      → Unsafe o
      → Settled world applies c op Granted o (applied c ∷ completed c op ∷ lost c op ∷ [])
  fenced :
      {o : Outcome WorkerError}
      → ¬ Granted
      → Unsafe o
      → Settled world applies c op Granted o (lost c op ∷ [])

-- A worker's commands, grown by effects that have a property.
abbrev pub Grown : Worker → Worker → (List Effect → Type 0) → Type 0
Grown w w' P = (es : List Effect) × (w'.commands ≡ w.commands ++ es) × P es

finalize_command_unknown_lem :
    (world : CommandWorld) (c : Command) (op : LedgerOperation) (w : Worker)
    → ((finalize_command_unknown world c op w).1.commands ≡ w.commands ++ lost c op ∷ [])
      × Unsafe (finalize_command_unknown world c op w).0
unfolding finalize_command_unknown
finalize_command_unknown_lem world c op w = ground arith

execute-Settled :
    {G : Type 0} (g : G) (world : CommandWorld) (a : Outcome String) (c : Command)
    (op : LedgerOperation) (w : Worker)
    → Grown w (execute world a c op w).1 (Settled world a c op G (execute world a c op w).0)
unfolding execute
execute-Settled g world (err e) c op w =
    let (h, u) = finalize_command_unknown_lem world c op (log_command (applied c) w) in
    (
      applied c ∷ lost c op ∷ [],
      h ∙ append_assoc w.commands (applied c ∷ []) (lost c op ∷ []),
      unknown g refl u,
    )
execute-Settled g world (ok _) c op w = elim (Result-cases world.completes) [
  | inr (_, e) ↦ rw e (
    applied c ∷ completed c op ∷ [],
    append_assoc w.commands (applied c ∷ []) (completed c op ∷ []),
    completes g refl refl,
  )
  | inl (x, e) ↦
      let w' = record_receipt_failure (log_command (completed c op) (log_command (applied c) w)) in
      let (h, u) = finalize_command_unknown_lem world c op w' in
      rw e (
        applied c ∷ completed c op ∷ lost c op ∷ [],
        h
            ∙ append_assoc (w.commands ++ applied c ∷ []) (completed c op ∷ []) (lost c op ∷ [])
            ∙ append_assoc w.commands (applied c ∷ []) (completed c op ∷ lost c op ∷ []),
        uncompleted g refl refl u,
      )
]

-- The rotation refuses only with an error that fences the command.
authorize-fence :
    (now : ℕ) (r : CredentialRotation) (e : CredentialError)
    → (authorize now r).0 ≡ err e
    → is_credential_fence_error (credential e) ≡ true
unfolding authorize authority
authorize-fence now r e h = ground arith

-- An error of the guarded function is never taken for a refusal of the rotation.
execute-fence :
    (world : CommandWorld) (a : Outcome String) (c : Command) (op : LedgerOperation) (w : Worker)
    (e : WorkerError)
    → (execute world a c op w).0 ≡ err e
    → is_credential_fence_error e ≡ false
unfolding execute finalize_command_unknown
execute-fence world a c op w e h = ground arith

-- The rotation that a guarded command finds grants it.
abbrev pub GrantedBy : CommandWorld → CredentialRotation → Type 0
GrantedBy world r = is_ok (authorize world.guarded r).0 ≡ true

execute_authorized_refused :
    (world : CommandWorld) (a : Outcome String) (c : Command) (op : LedgerOperation)
    (r : CredentialRotation) (w : Worker) (x : CredentialError)
    → (authorize world.guarded r).0 ≡ err x
    → ((execute_authorized world a c op r w).1.commands ≡ w.commands ++ lost c op ∷ [])
      × Unsafe (execute_authorized world a c op r w).0
unfolding execute_authorized after_guard with_authorized
execute_authorized_refused world a c op r w x e =
    rw
      (
        e,
        execute_authorized,
        with_authorized,
        if_authorized,
        authorize-fence world.guarded r x e,
        after_guard,
      )
      (finalize_command_unknown_lem world c op _)

execute_authorized_granted :
    (world : CommandWorld) (a : Outcome String) (c : Command) (op : LedgerOperation)
    (r : CredentialRotation) (w : Worker)
    → (authorize world.guarded r).0 ≡ done
    → ((execute_authorized world a c op r w).0 ≡ (execute world a c op w).0)
      × ((execute_authorized world a c op r w).1.commands ≡ (execute world a c op w).1.commands)
unfolding execute_authorized after_guard with_authorized
execute_authorized_granted world a c op r w e = elim (Result-cases (execute world a c op w).0) [
  | inl (x, h) ↦
      rw
        (
          e,
          execute_authorized,
          with_authorized,
          if_authorized,
          h,
          execute-fence world a c op w x h,
          after_guard,
        )
        (refl, refl)
  | inr (_, h) ↦ rw (e, execute_authorized, with_authorized, if_authorized, h) (refl, refl)
]

execute_authorized-Settled :
    (world : CommandWorld) (a : Outcome String) (c : Command) (op : LedgerOperation)
    (r : CredentialRotation) (w : Worker)
    → Grown w
        (execute_authorized world a c op r w).1
        (Settled world a c op (GrantedBy world r) (execute_authorized world a c op r w).0)
execute_authorized-Settled world a c op r w = elim (Result-cases (authorize world.guarded r).0) [
  | inl (x, e) ↦
      let (k, u) = execute_authorized_refused world a c op r w x e in
      (lost c op ∷ [], k, fenced (λ g. ground (arith, e, g)) u)
  | inr (_, e) ↦
      let (o, k) = execute_authorized_granted world a c op r w e in
      rw (o, k) (execute-Settled (ap is_ok e) world a c op w)
]

-- The authority of a delivery: a worker's rotation, as others have left it, grants it.
abbrev pub Granted : CommandWorld → Option CredentialRotation → Type 0
Granted world none = Unit
Granted world (some r) = GrantedBy world (run_rotation world.between r)

pub execute_guarded-Settled :
    (world : CommandWorld) (a : Outcome String) (c : Command) (op : LedgerOperation) (w : Worker)
    → Grown w
        (execute_guarded world a c op w).1
        (Settled world a c op (Granted world w.rotation) (execute_guarded world a c op w).0)
unfolding execute_guarded
execute_guarded-Settled world a c op w = elim (Option-cases w.rotation) [
  | inl e ↦ rw (e, execute_guarded) (execute-Settled tt world a c op w)
  | inr (r, e) ↦
      rw (e, execute_guarded)
        (execute_authorized-Settled world a c op (run_rotation world.between r) w)
]
