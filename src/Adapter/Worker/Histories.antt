-- ===== src/Adapter/Worker/Histories.antt =====
-- Histories of the commands and proposals of one worker, and of the calls of its rotation. Run and
-- Stop are not among them: they are in Worker.Stopping.
use agent_wharf.Prelude.{
  ℕ, String, ◌≡◌, refl, ◌∙◌, inl, inr, Bool, true, false, Option, none, some, List, [], ◌∷◌, arith,
  str_eq, Outcome, err, is_ok, Bool-cases, Option-cases, Result-cases,
}
use agent_wharf.Adapter.Credential.{CredentialError}
use agent_wharf.Adapter.Rotation.{
  CredentialRotation, authorize, authorizes, Call as RotationCall, step as rotation_step,
}
use agent_wharf.Adapter.Rotation.Authority.{Lost, step-Lost, step_refused, run-Lost}
use agent_wharf.Adapter.Worker.{Command, Worker, WorkerError, validate_active_credential}
use agent_wharf.Adapter.Worker.Commands.{
  CommandWorld, deliver_command, deliver_valid, route_command, check_credential, holds_credential,
  foreign, meanwhile,
}
use agent_wharf.Adapter.Worker.Proposals.{ProposalWorld, propose_event}

-- The commands, proposals and credential methods of a worker; of the latter, those that act are the
-- rotation's. Run and Stop, which check no credential, are left out.
pub data WorkerCall : Type 0 where
  routes : ℕ → List RotationCall → CommandWorld → Command → WorkerCall
  delivers : CommandWorld → Command → WorkerCall
  proposes : ProposalWorld → String → WorkerCall
  rotates : RotationCall → WorkerCall

-- Whether a call succeeds, and the worker after it.
unfoldable pub worker_step : WorkerCall → Worker → Bool × Worker
worker_step (routes now calls world c) w =
    let (q, o, w') = route_command now calls world c w in (is_ok o, w')
worker_step (delivers world c) w = let (q, o, w') = deliver_command world c w in (is_ok o, w')
worker_step (proposes world id) w = let (q, o, w') = propose_event world id w in (is_ok o, w')
worker_step (rotates call) w = (true, meanwhile (call ∷ []) w)

unfoldable pub run_worker : List WorkerCall → Worker → Worker
run_worker [] w = w
run_worker (c ∷ cs) w = run_worker cs (worker_step c w).1

-- The worker's rotation can grant nothing any more.
abbrev pub LostRotation : Option CredentialRotation → Type 0
LostRotation none = ⊥
LostRotation (some r) = Lost r

-- Two workers that have asked and done the same.
pub record Silent (w w' : Worker) : Type 0 where
  pub lost : LostRotation w'.rotation
  pub commands : w'.commands ≡ w.commands
  pub proposals : w'.proposals ≡ w.proposals

authorize-Lost :
    (now : ℕ) (r : CredentialRotation)
    → Lost r
    → Lost (authorize now r).1 × (is_ok (authorize now r).0 ≡ false)
unfolding rotation_step
authorize-Lost now r l = (step-Lost (authorizes now) r l, step_refused (authorizes now) r l refl)

-- A worker whose rotation is lost fails every check, and stays so.
validate-Lost :
    (now : ℕ) (w : Worker)
    → LostRotation w.rotation
    → Silent w (validate_active_credential now w).1
      × (is_ok (validate_active_credential now w).0 ≡ false)
unfolding validate_active_credential
validate-Lost now w l = go w.rotation refl l
  where
    go :
        (q : Option CredentialRotation)
        → w.rotation ≡ q
        → LostRotation q
        → Silent w (validate_active_credential now w).1
          × (is_ok (validate_active_credential now w).0 ≡ false)
    go none e l = absurd l
    go (some r) e l =
        let (k, n) = authorize-Lost now r l in
        rw (e, validate_active_credential)
          (record { lost = k; commands = refl; proposals = refl }, n)

Silent-refl : (w : Worker) → LostRotation w.rotation → Silent w w
Silent-refl w l = record { lost = l; commands = refl; proposals = refl }

Silent-trans : {u v w : Worker} → Silent u v → Silent v w → Silent u w
Silent-trans a b = record {
  lost = b.lost;
  commands = b.commands ∙ a.commands;
  proposals = b.proposals ∙ a.proposals;
}

-- What a call that does nothing returns.
abbrev Failing : {A : Type 0} → Worker → A × Outcome WorkerError × Worker → Type 0
Failing w (q, o, w') = Silent w w' × (is_ok o ≡ false)

LostRotation-holds : (w : Worker) → LostRotation w.rotation → holds_credential w ≡ true
LostRotation-holds w l = go w.rotation l refl
  where
    go :
        (q : Option CredentialRotation)
        → LostRotation q
        → w.rotation ≡ q
        → holds_credential w ≡ true
    go none l e = absurd l
    go (some r) l e = rw e refl

-- A lost check: an error, and a worker that has done nothing.
check-Lost :
    (now : ℕ) (w : Worker)
    → LostRotation w.rotation
    → (e : CredentialError) × ((check_credential now w).0 ≡ err e)
      × Silent w (check_credential now w).1
check-Lost now w l =
    let (s, n) = validate-Lost now w l in
    rw (LostRotation-holds w l) (elim (Result-cases (validate_active_credential now w).0) [
      | inl (e, h) ↦ (e, h, s)
      | inr (_, h) ↦ absurd (ground (arith, h, n))
    ])

deliver-Failing :
    (world : CommandWorld) (c : Command) (w : Worker)
    → LostRotation w.rotation
    → Failing w (deliver_command world c w)
unfolding deliver_command deliver_valid
deliver-Failing world c w l =
    let (e, h, s) = check-Lost world.checked w l in
    let r = Silent-refl w l in
    elim (Option-cases world.applies) [
      | inl p ↦ simp (p, deliver_command) (r, refl)
      | inr (a, p) ↦ elim (Bool-cases w.receipts) [
        | inr q ↦ simp (p, deliver_command, q) (r, refl)
        | inl q ↦ elim (Bool-cases (str_eq c.command_id "")) [
          | inl i ↦ simp (p, deliver_command, q, i) (r, refl)
          | inr i ↦ elim (Bool-cases (foreign c w)) [
            | inl g ↦ simp (p, deliver_command, q, i, g) (r, refl)
            | inr g ↦ simp (p, deliver_command, q, i, g, deliver_valid, h) (s, refl)
          ]
        ]
      ]
    ]

route-Failing :
    (now : ℕ) (calls : List RotationCall) (world : CommandWorld) (c : Command) (w : Worker)
    → LostRotation w.rotation
    → Failing w (route_command now calls world c w)
unfolding route_command
route-Failing now calls world c w l =
    let (s, n) = validate-Lost now w l in
    elim (Result-cases (validate_active_credential now w).0) [
      | inl (e, h) ↦ simp (LostRotation-holds w l, route_command, h) (s, refl)
      | inr (_, h) ↦ absurd (ground (arith, h, n))
    ]

propose-Failing :
    (world : ProposalWorld) (id : String) (w : Worker)
    → LostRotation w.rotation
    → Failing w (propose_event world id w)
unfolding propose_event
propose-Failing world id w l =
    let (e, h, s) = check-Lost world.checked w l in
    let r = Silent-refl w l in
    elim (Option-cases world.publishes) [
      | inl p ↦ simp (p, propose_event) (r, refl)
      | inr (publish, p) ↦ elim (Bool-cases w.receipts) [
        | inr q ↦ simp (p, propose_event, q) (r, refl)
        | inl q ↦ elim (Bool-cases (str_eq id "")) [
          | inl i ↦ simp (p, propose_event, q, i) (r, refl)
          | inr i ↦ simp (p, propose_event, q, i, h) (s, refl)
        ]
      ]
    ]

meanwhile-Silent :
    (calls : List RotationCall) (w : Worker)
    → LostRotation w.rotation
    → Silent w (meanwhile calls w)
meanwhile-Silent calls w l = go w.rotation l refl
  where
    go :
        (q : Option CredentialRotation)
        → LostRotation q
        → w.rotation ≡ q
        → Silent w (meanwhile calls w)
    go none l e = absurd l
    go (some r) l e = record { lost = rw e (run-Lost calls r l); commands = refl; proposals = refl }

worker_step-Silent :
    (c : WorkerCall) (w : Worker) → LostRotation w.rotation → Silent w (worker_step c w).1
unfolding worker_step
worker_step-Silent (routes now calls world c) w l = (route-Failing now calls world c w l).0
worker_step-Silent (delivers world c) w l = (deliver-Failing world c w l).0
worker_step-Silent (proposes world id) w l = (propose-Failing world id w l).0
worker_step-Silent (rotates call) w l = meanwhile-Silent (call ∷ []) w l

run_worker-Silent :
    (cs : List WorkerCall) (w : Worker) → LostRotation w.rotation → Silent w (run_worker cs w)
unfolding run_worker
run_worker-Silent [] w l = Silent-refl w l
run_worker-Silent (c ∷ cs) w l =
    let s = worker_step-Silent c w l in
    Silent-trans s (run_worker-Silent cs (worker_step c w).1 s.lost)

-- Whether a call asks for work.
abbrev pub works : WorkerCall → Bool
works (rotates _) = false
works _ = true

worker_step_refused :
    (c : WorkerCall) (w : Worker)
    → LostRotation w.rotation
    → works c ≡ true
    → (worker_step c w).0 ≡ false
unfolding worker_step
worker_step_refused (routes now calls world c) w l k = (route-Failing now calls world c w l).1
worker_step_refused (delivers world c) w l k = (deliver-Failing world c w l).1
worker_step_refused (proposes world id) w l k = (propose-Failing world id w l).1
worker_step_refused (rotates call) w l k = absurd (ground (arith, k))

-- Once the rotation of a worker is revoked, terminal or has lost its authority, no history of routed
-- commands, deliveries, proposals and calls of the rotation, whatever the store and the provider would
-- answer, prepares, applies or finalizes a command or commits or publishes a proposal any more, and
-- each further command or proposal is refused. Nothing is stated of Run and Stop.
pub lost_worker-Silent :
    (cs : List WorkerCall) (c : WorkerCall) (w : Worker)
    → LostRotation w.rotation
    → works c ≡ true
    → Silent w (run_worker cs w) × ((worker_step c (run_worker cs w)).0 ≡ false)
lost_worker-Silent cs c w l k =
    let s = run_worker-Silent cs w l in (s, worker_step_refused c (run_worker cs w) s.lost k)
