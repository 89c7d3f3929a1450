-- ===== src/Adapter/Worker/Commands/Delivery.antt =====
-- What a delivered command has done, and in which order.
use agent_wharf.Prelude.{
  ℕ, ◌≤◌, String, ◌≡◌, ◌≢◌, refl, ap, sym, ◌∙◌, inl, inr, true, false, none, some, ◌⊎◌, is_ok, List,
  [], ◌∷◌, ◌++◌, arith, eq_iff, str_eq, Outcome, ok, err, done, Bool-cases, Option-cases,
  Result-cases,
}
use mathlib.Core.List.{append_assoc, append-nil}
use agent_wharf.Adapter.Worker.{
  Routing, RoutingStatus, LedgerOperation, LedgerStatus, Command, Effect, prepared, Worker,
  WorkerError, validate_active_credential,
}
use agent_wharf.Adapter.Worker.Commands.{
  CommandWorld, deliver_prepared, deliver_checked, deliver_valid, deliver_command, check_credential,
  log_command, valid_routing, pending_operation, is_accepted, supported_session_worker_command,
  foreign,
}
use agent_wharf.Adapter.Worker.Commands.Settling.{Settled, Grown, Granted, execute_guarded-Settled}

-- The reasons to refuse a command before the store is asked.
pub data Refusal (world : CommandWorld) (c : Command) (w : Worker) : Type 0 where
  no_receipts : w.receipts ≡ false → Refusal world c w
  no_function : world.applies ≡ none → Refusal world c w
  no_id : str_eq c.command_id "" ≡ true → Refusal world c w
  other_session : foreign c w ≡ true → Refusal world c w
  no_authority : is_ok (check_credential world.checked w).0 ≡ false → Refusal world c w
  unsupported : supported_session_worker_command c.kind ≡ false → Refusal world c w

-- The store's answer to the preparation is an error, is not for the command, or accepts it with an
-- operation that is not pending.
abbrev pub Unprepared : CommandWorld → Command → Type 0
Unprepared world c =
    (is_ok world.prepares ≡ false)
    ⊎ ((q : Routing) × (op : LedgerOperation) × (world.prepares ≡ ok (q, op))
        × ((valid_routing c q ≡ false) ⊎ (pending_operation op ≡ false)))

-- What a delivery did with the store's answer: nothing for one that it refuses or that is not
-- accepted; else the command is settled with the answer of the caller's function `applies`.
pub data Delivered (world : CommandWorld) (c : Command) (Granted Refused : Type 0)
    : Routing → Outcome WorkerError → List Effect → Type 0 where
  refused :
      {q : Routing} {e : WorkerError} → Refused → Delivered world c Granted Refused q (err e) []
  unprepared :
      {q : Routing} {e : WorkerError}
      → Unprepared world c
      → Delivered world c Granted Refused q (err e) (prepared c ∷ [])
  unaccepted :
      {q : Routing} {op : LedgerOperation}
      → world.prepares ≡ ok (q, op)
      → q.status ≢ RoutingStatus.accepted
      → Delivered world c Granted Refused q done (prepared c ∷ [])
  settled :
      {q : Routing} {op : LedgerOperation} {o : Outcome WorkerError} {es : List Effect}
      {applies : Outcome String}
      → world.applies ≡ some applies
      → world.prepares ≡ ok (q, op)
      → q.command_id ≡ c.command_id
      → q.status ≡ RoutingStatus.accepted
      → op.operation_id ≢ ""
      → 1 ≤ op.version
      → op.status ≡ LedgerStatus.pending
      → Settled world applies c op Granted o es
      → Delivered world c Granted Refused q o (prepared c ∷ es)

valid_routing_lem :
    (c : Command) (q : Routing) → valid_routing c q ≡ true → q.command_id ≡ c.command_id
valid_routing_lem c q h = ground (arith, eq_iff q.command_id c.command_id)

is_accepted-true : (s : RoutingStatus) → is_accepted s ≡ true → s ≡ RoutingStatus.accepted
is_accepted-true s h = ground arith

is_accepted-false : (s : RoutingStatus) → is_accepted s ≡ false → s ≢ RoutingStatus.accepted
is_accepted-false s h = ground arith

pending_operation_lem :
    (op : LedgerOperation)
    → pending_operation op ≡ true
    → (op.operation_id ≢ "") × (1 ≤ op.version) × (op.status ≡ LedgerStatus.pending)
pending_operation_lem op h = ground (arith, eq_iff op.operation_id "")

-- What a delivery has added to the commands of a worker.
abbrev pub Adds :
    CommandWorld
    → Command
    → Type 0
    → Type 0
    → Worker
    → Routing × Outcome WorkerError × Worker
    → Type 0
Adds world c G R w (q, o, w') = Grown w w' (Delivered world c G R q o)

deliver_prepared-Adds :
    {R : Type 0} (world : CommandWorld) (a : Outcome String) (c : Command) (q : Routing)
    (op : LedgerOperation) (w : Worker)
    → world.prepares ≡ ok (q, op)
    → world.applies ≡ some a
    → Adds world c
        (Granted world w.rotation)
        R
        w
        (deliver_prepared world a c q op (log_command (prepared c) w))
unfolding deliver_prepared
deliver_prepared-Adds world a c q op w p s' = elim (Bool-cases (valid_routing c q)) [
  | inr v ↦ rw v (prepared c ∷ [], refl, unprepared (inr (q, op, p, inl v)))
  | inl v ↦ elim (Bool-cases (is_accepted q.status)) [
    | inr n ↦ rw (v, n) (prepared c ∷ [], refl, unaccepted p (is_accepted-false q.status n))
    | inl s ↦ elim (Bool-cases (pending_operation op)) [
      | inr n ↦ rw (v, s, n) (prepared c ∷ [], refl, unprepared (inr (q, op, p, inr n)))
      | inl d ↦
          let (i, n, b) = pending_operation_lem op d in
          let (es, k, t) = execute_guarded-Settled world a c op (log_command (prepared c) w) in
          rw (v, s, d)
            (
              prepared c ∷ es,
              k ∙ append_assoc w.commands (prepared c ∷ []) es,
              settled s' p (valid_routing_lem c q v) (is_accepted-true q.status s) i n b t,
            )
    ]
  ]
]

deliver_checked-Adds :
    {R : Type 0} (world : CommandWorld) (a : Outcome String) (c : Command) (w : Worker)
    → world.applies ≡ some a
    → Adds world c (Granted world w.rotation) R w (deliver_checked world a c w)
unfolding deliver_checked
deliver_checked-Adds world a c w s = elim (Result-cases world.prepares) [
  | inl (e, p) ↦ simp (p, deliver_checked) (prepared c ∷ [], refl, unprepared (inl (ap is_ok p)))
  | inr ((q, op), p) ↦ simp (p, deliver_checked) (deliver_prepared-Adds world a c q op w p s)
]

-- The check of the credential does nothing else.
check_credential-commands :
    (now : ℕ) (w : Worker) → (check_credential now w).1.commands ≡ w.commands
unfolding validate_active_credential
check_credential-commands now w = ground arith

-- The authority of a delivery: the rotation, as the first check and then others have left it.
abbrev pub Authorized : CommandWorld → Worker → Type 0
Authorized world w = Granted world (check_credential world.checked w).1.rotation

deliver_valid-Adds :
    (world : CommandWorld) (a : Outcome String) (c : Command) (w : Worker)
    → world.applies ≡ some a
    → Adds world c (Authorized world w) (Refusal world c w) w (deliver_valid world a c w)
unfolding deliver_valid
deliver_valid-Adds world a c w s = elim (Result-cases (check_credential world.checked w).0) [
  | inl (e, p) ↦
      rw (p, deliver_valid)
        (
          [],
          check_credential-commands world.checked w ∙ sym (append-nil w.commands),
          refused (no_authority (ap is_ok p)),
        )
  | inr (_, p) ↦ elim (Bool-cases (supported_session_worker_command c.kind)) [
    | inr v ↦
        rw (p, deliver_valid, v)
          (
            [],
            check_credential-commands world.checked w ∙ sym (append-nil w.commands),
            refused (unsupported v),
          )
    | inl v ↦
        let (es, k, t) = deliver_checked-Adds world a c (check_credential world.checked w).1 s in
        rw (p, deliver_valid, v)
          (es, k ∙ ap (λ z. z ++ es) (check_credential-commands world.checked w), t)
  ]
]

-- A delivery asks the store before it does anything. It is refused before that only without receipts,
-- function, id or authority, or for a command of another session or of a kind that is not supported; and
-- it does nothing more when the store's answer is an error, is not for the command, does not accept it
-- or has no pending operation. Else the command's own receipt is
-- accepted and its operation is pending, and the command is settled: the provider's side effect runs
-- once if the rotation grants it at that time, and else not at all. If the side effect succeeds, the
-- operation is completed, and the delivery succeeds if the store takes the completion. A refusal of
-- the rotation, a failing side effect and a failing completion are recorded as an unknown outcome, and
-- the delivery fails with an error that says so.
pub deliver_command-Adds :
    (world : CommandWorld) (c : Command) (w : Worker)
    → Adds world c (Authorized world w) (Refusal world c w) w (deliver_command world c w)
unfolding deliver_command
deliver_command-Adds world c w = elim (Option-cases world.applies) [
  | inl p ↦ simp (p, deliver_command) ([], sym (append-nil w.commands), refused (no_function p))
  | inr (a, p) ↦ elim (Bool-cases w.receipts) [
    | inr e ↦
        simp (p, deliver_command, e) ([], sym (append-nil w.commands), refused (no_receipts e))
    | inl e ↦ elim (Bool-cases (str_eq c.command_id "")) [
      | inl h ↦ simp (p, deliver_command, e, h) ([], sym (append-nil w.commands), refused (no_id h))
      | inr h ↦ elim (Bool-cases (foreign c w)) [
        | inl g ↦
            simp (p, deliver_command, e, h, g)
              ([], sym (append-nil w.commands), refused (other_session g))
        | inr g ↦ simp (p, deliver_command, e, h, g) (deliver_valid-Adds world a c w p)
      ]
    ]
  ]
]
