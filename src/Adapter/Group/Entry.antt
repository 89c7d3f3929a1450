-- ===== src/Adapter/Group/Entry.antt =====
-- How a worker enters a group: with a lease reserved first, or with live authority verified.
use agent_wharf.Prelude.{
  ℕ, String, ◌≡◌, refl, sym, ap, ◌∙◌, inl, inr, Bool, true, false, not, ◌&&◌, ◌||◌, [], ◌∷◌, ◌++◌,
  Result, Outcome, ok, err, done, is_ok, if◌then◌else◌, Bool-cases, Result-cases,
}
use agent_wharf.Adapter.Group.{
  Group, GroupWorld, GroupWorkerAdmission, Fence, admitted, recovered,
  validate_group_worker_admission, validate_group_worker_recovery, check_room, check_gate, occupied,
  construct_admitted, reserve_admitted, admit, recover_member, recovery_needs_activation,
  add_member,
}
use agent_wharf.Adapter.Group.Lifecycle.{GroupError}
use agent_wharf.Adapter.Group.Steps.{RecoveryWorld, run_group, recover, recover_verified}

-- After the lease, and after the construction too.
abbrev pub leased : GroupWorkerAdmission → Group → Group
leased a g = record g { reserved = g.reserved ++ a.lease ∷ [] }

abbrev pub built : GroupWorkerAdmission → Group → Group
built a g = record g { constructed = g.constructed ++ a.session_id ∷ [] }

-- The ways an admission can go.
pub data Admits (now : ℕ) (world : GroupWorld) (a : GroupWorkerAdmission) (g : Group)
    : Outcome GroupError → Group → Type 0 where
  refused : {e : GroupError} → Admits now world a g (err e) g
  unreserved :
      {e : GroupError} → is_ok world.reserves ≡ false → Admits now world a g (err e) (leased a g)
  unbuilt :
      {e : GroupError}
      → is_ok world.reserves ≡ true
      → Admits now world a g (err e) (built a (leased a g))
  joined :
      validate_group_worker_admission now a ≡ done
      → check_room a.session_id a.lease.key g ≡ done
      → (occupied g ≡ true → check_gate world g ≡ done)
      → is_ok world.reserves ≡ true
      → world.constructs ≡ ok true
      → Admits now world a g done
          (add_member a.session_id a.lease.key admitted (built a (leased a g)))

abbrev Joining : ℕ → GroupWorld → GroupWorkerAdmission → Group → Type 0
Joining now world a g =
    (validate_group_worker_admission now a ≡ done)
    × (check_room a.session_id a.lease.key g ≡ done)
    × (occupied g ≡ true → check_gate world g ≡ done)

construct-Admits :
    (now : ℕ) (world : GroupWorld) (a : GroupWorkerAdmission) (g : Group)
    → Joining now world a g
    → is_ok world.reserves ≡ true
    → Admits now world a g
        (construct_admitted world a (leased a g)).0
        (construct_admitted world a (leased a g)).1
unfolding construct_admitted
construct-Admits now world a g (v, r, c) k = go world.constructs refl
  where
    go :
        (o : Result String Bool)
        → world.constructs ≡ o
        → Admits now world a g
            (construct_admitted world a (leased a g)).0
            (construct_admitted world a (leased a g)).1
    go (err x) e = simp (e, construct_admitted) (unbuilt k)
    go (ok false) e = simp (e, construct_admitted) (unbuilt k)
    go (ok true) e = simp (e, construct_admitted) (joined v r c k e)

reserve-Admits :
    (now : ℕ) (world : GroupWorld) (a : GroupWorkerAdmission) (g : Group)
    → Joining now world a g
    → Admits now world a g (reserve_admitted world a g).0 (reserve_admitted world a g).1
unfolding reserve_admitted
reserve-Admits now world a g j = elim (Result-cases world.reserves) [
  | inl (x, e) ↦ simp (e, reserve_admitted) (unreserved (ap is_ok e))
  | inr (_, e) ↦ simp (e, reserve_admitted) (construct-Admits now world a g j (ap is_ok e))
]

if-Admits :
    (now : ℕ) (world : GroupWorld) (a : GroupWorkerAdmission) (g : Group) (b : Bool)
    (x y : Outcome GroupError × Group)
    → Admits now world a g x.0 x.1
    → Admits now world a g y.0 y.1
    → Admits now world a g (if b then x else y).0 (if b then x else y).1
if-Admits now world a g true x y v w = v
if-Admits now world a g false x y v w = w

-- An admission reserves the lease before it constructs the worker, and constructs one only when the
-- reservation succeeds. It succeeds only if it is valid, its session and workspace are free, there is
-- room and, unless it is the first, the gate allows it; then the worker is in the group as the writer
-- of its workspace. An admission that fails leaves the membership as it was.
pub admit-Admits :
    (now : ℕ) (world : GroupWorld) (a : GroupWorkerAdmission) (g : Group)
    → Admits now world a g (admit now world a g).0 (admit now world a g).1
unfolding admit
admit-Admits now world a g = elim (Result-cases (validate_group_worker_admission now a)) [
  | inl (x, e) ↦ simp (e, admit) refused
  | inr (_, e) ↦ elim (Result-cases (check_room a.session_id a.lease.key g)) [
    | inl (x, r) ↦ simp (e, r, admit) refused
    | inr (_, r) ↦ elim (Result-cases (if occupied g then check_gate world g else done)) [
      | inl (x, c) ↦ simp (e, r, c, admit) refused
      | inr (_, c) ↦
          simp (e, r, c, admit)
            (if-Admits now world a g (not g.leases) _ _ refused (
              reserve-Admits now world a g
                (e, r, λ o. sym (ap (λ b. if b then check_gate world g else done) o) ∙ c)))
    ]
  ]
]

-- The group of a recovery before its second critical section.
abbrev pub resumed : RecoveryWorld → GroupWorkerAdmission → Group → Group
resumed world a g = run_group world.between (built a g)

-- The ways a recovery can go.
pub data Recovers (world : RecoveryWorld) (a : GroupWorkerAdmission) (f : Fence) (g : Group)
    : Outcome GroupError → Group → Type 0 where
  refused : {e : GroupError} → Recovers world a f g (err e) g
  unbuilt :
      {e : GroupError}
      → validate_group_worker_recovery world.now world.current a f ≡ true
      → is_ok world.verifies ≡ true
      → Recovers world a f g (err e) (resumed world a g)
  joined :
      validate_group_worker_recovery world.now world.current a f ≡ true
      → is_ok world.verifies ≡ true
      → world.group.constructs ≡ ok true
      → check_room a.session_id a.lease.key (resumed world a g) ≡ done
      → Recovers world a f g done
          (add_member a.session_id a.lease.key (recovered a.lease.key f) (resumed world a g))

recover_member-Recovers :
    (world : RecoveryWorld) (needs : Bool) (a : GroupWorkerAdmission) (f : Fence) (g : Group)
    → validate_group_worker_recovery world.now world.current a f ≡ true
    → is_ok world.verifies ≡ true
    → world.group.constructs ≡ ok true
    → Recovers world a f g
        (recover_member needs a f (resumed world a g)).0
        (recover_member needs a f (resumed world a g)).1
unfolding recover_member
recover_member-Recovers world needs a f g v w k =
    elim (Result-cases (check_room a.session_id a.lease.key (resumed world a g))) [
      | inl (x, r) ↦ simp (r, recover_member) (unbuilt v w)
      | inr (_, r) ↦
          elim (Bool-cases
            (occupied (resumed world a g) && (not needs || not (resumed world a g).gate))) [
              | inl c ↦ simp (r, c, recover_member) (unbuilt v w)
              | inr c ↦ simp (r, c, recover_member) (joined v w k r)
            ]
    ]

recover_verified-Recovers :
    (world : RecoveryWorld) (needs : Bool) (a : GroupWorkerAdmission) (f : Fence) (g : Group)
    → validate_group_worker_recovery world.now world.current a f ≡ true
    → Recovers world a f g
        (recover_verified world needs a f g).0
        (recover_verified world needs a f g).1
unfolding recover_verified
recover_verified-Recovers world needs a f g v = elim (Bool-cases (is_ok world.verifies)) [
  | inr n ↦ simp (n, recover_verified) refused
  | inl w ↦ go w world.group.constructs refl
]
  where
    go :
        is_ok world.verifies ≡ true
        → (o : Result String Bool) → world.group.constructs ≡ o
        → Recovers world a f g
            (recover_verified world needs a f g).0
            (recover_verified world needs a f g).1
    go w (err x) e = simp (w, e, recover_verified) (unbuilt v w)
    go w (ok false) e = simp (w, e, recover_verified) (unbuilt v w)
    go w (ok true) e =
        simp (w, e, recover_verified) (recover_member-Recovers world needs a f g v w e)

-- A recovery reserves no lease. It constructs a worker only when its tuple or its handle is valid and
-- the live authority has verified it; and whatever others have done to the group in between, the
-- worker enters it only if its session and workspace are then still free and there is room. A recovery
-- that fails leaves the membership as the others have left it.
pub recover-Recovers :
    (world : RecoveryWorld) (a : GroupWorkerAdmission) (f : Fence) (g : Group)
    → Recovers world a f g (recover world a f g).0 (recover world a f g).1
unfolding recover
recover-Recovers world a f g =
    elim (Bool-cases (validate_group_worker_recovery world.now world.current a f)) [
      | inr n ↦ simp (n, recover) refused
      | inl v ↦ elim (Result-cases (recovery_needs_activation a g)) [
        | inl (x, e) ↦ simp (v, e, recover) refused
        | inr (needs, e) ↦ elim (Result-cases (if needs then check_gate world.group g else done)) [
          | inl (x, c) ↦ simp (v, e, c, recover) refused
          | inr (_, c) ↦ simp (v, e, c, recover) (recover_verified-Recovers world needs a f g v)
        ]
      ]
    ]
