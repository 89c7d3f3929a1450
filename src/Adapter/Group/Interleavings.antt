-- ===== src/Adapter/Group/Interleavings.antt =====
-- The membership of a group in every interleaving of its operations.
use agent_wharf.Prelude.{
  ℕ, suc, zero, ◌≤◌, String, ◌≡◌, refl, sym, ap, subst, ◌∙◌, ◌++◌, inl, inr, Bool, true, false, not,
  ◌&&◌, ◌||◌, if◌then◌else◌, str_eq, Option, none, some, List, [], ◌∷◌, arith, Result, Outcome, ok,
  err, done, lookup, Bool-cases, Option-cases, Result-cases, text_key, number_key,
}
use agent_wharf.Adapter.Group.{
  Group, LeaseReserve, GroupWorld, GroupWorkerAdmission, Fence, Member, admitted, recovered,
  new_group_supervisor, check_room, construct_admitted, reserve_admitted, admit, recover_member,
  same_fence, fence_recovered_worker, occupied, check_gate, validate_group_worker_admission,
}
use agent_wharf.Adapter.Group.Lifecycle.{GroupError}
use agent_wharf.Adapter.Group.Steps.{
  GroupStep, admits, recovers, enters, leaves, nth, without, find_worker, enter, leave, group_step,
  run_group,
}
use agent_wharf.Adapter.Group.Paired.{Paired-empty}
use agent_wharf.Adapter.Group.Membership.{
  Pointer, pointer_of, Fits, FitsStep, FitsAll, AllFit, Inv, same_fence_lem, add_member-Inv,
  delete-Inv,
}

fence-Inv :
    (key_of : Pointer → ℕ) (s : String) (m : Member) (g : Group)
    → Fits key_of m
    → Inv key_of g
    → Inv key_of (fence_recovered_worker s m g)
unfolding fence_recovered_worker
fence-Inv key_of s admitted g t v = v
fence-Inv key_of s (recovered key f) g t v = go (lookup s g.by_session) refl
  where
    go :
        (o : Option Member)
        → lookup s g.by_session ≡ o
        → Inv key_of (fence_recovered_worker s (recovered key f) g)
    go none e = rw (e, fence_recovered_worker) v
    go (some admitted) e = rw (e, fence_recovered_worker) v
    go (some (recovered key' f')) e = elim (Bool-cases (same_fence f f')) [
      | inr n ↦ rw (e, fence_recovered_worker, n) v
      | inl q ↦
          let k : key ≡ key' =
            t ∙ ap key_of (same_fence_lem f f' q) ∙ sym (v.fits s (recovered key' f') e) in
          rw (e, fence_recovered_worker, q)
            (delete-Inv key_of s key g
              (ap (λ z. lookup z g.by_workspace) k ∙ v.owns s (recovered key' f') e) v)
    ]

check_room_noted :
    (s : String) (k : ℕ) (g : Group) (rs : List LeaseReserve) (cs : List String)
    → check_room s k (record g { reserved = rs; constructed = cs }) ≡ check_room s k g
unfolding check_room
check_room_noted s k g rs cs = refl

-- What is only recorded does not matter.
Inv-noted :
    (key_of : Pointer → ℕ) (g : Group) {rs : List LeaseReserve} {cs : List String}
    → Inv key_of g
    → Inv key_of (record g { reserved = rs; constructed = cs })
Inv-noted key_of g v = record {
  paired = v.paired;
  fits = v.fits;
  owns = v.owns;
  entered = v.entered;
  bounded = v.bounded;
}

construct-Inv :
    (key_of : Pointer → ℕ) (world : GroupWorld) (a : GroupWorkerAdmission) (g : Group)
    → check_room a.session_id a.lease.key g ≡ done
    → Inv key_of g
    → Inv key_of (construct_admitted world a g).1
unfolding construct_admitted
construct-Inv key_of world a g r v = go world.constructs refl
  where
    cs : List String
    cs = g.constructed ++ a.session_id ∷ []

    go :
        (o : Result String Bool)
        → world.constructs ≡ o
        → Inv key_of (construct_admitted world a g).1
    go (err x) e = rw (e, construct_admitted) (Inv-noted key_of g v)
    go (ok false) e = rw (e, construct_admitted) (Inv-noted key_of g v)
    go (ok true) e =
        rw (e, construct_admitted)
          (add_member-Inv key_of a.session_id a.lease.key admitted (record g { constructed = cs })
            (check_room_noted a.session_id a.lease.key g g.reserved cs ∙ r) tt
            (Inv-noted key_of g v))

reserve-Inv :
    (key_of : Pointer → ℕ) (world : GroupWorld) (a : GroupWorkerAdmission) (g : Group)
    → check_room a.session_id a.lease.key g ≡ done
    → Inv key_of g
    → Inv key_of (reserve_admitted world a g).1
unfolding reserve_admitted
reserve-Inv key_of world a g r v = elim (Result-cases world.reserves) [
  | inl (x, e) ↦ rw (e, reserve_admitted) (Inv-noted key_of g v)
  | inr (_, e) ↦
      simp (e, reserve_admitted)
        (construct-Inv key_of world a (record g { reserved = rs })
          (check_room_noted a.session_id a.lease.key g rs g.constructed ∙ r) (Inv-noted key_of g v))
]
  where
    rs : List LeaseReserve
    rs = g.reserved ++ a.lease ∷ []

if-Inv :
    (key_of : Pointer → ℕ) (b : Bool) (x y : Outcome GroupError × Group)
    → Inv key_of x.1
    → Inv key_of y.1
    → Inv key_of (if b then x else y).1
if-Inv key_of true x y v w = v
if-Inv key_of false x y v w = w

admit-Inv :
    (key_of : Pointer → ℕ) (now : ℕ) (world : GroupWorld) (a : GroupWorkerAdmission) (g : Group)
    → Inv key_of g
    → Inv key_of (admit now world a g).1
unfolding admit
admit-Inv key_of now world a g v = elim (Result-cases (validate_group_worker_admission now a)) [
  | inl (x, e) ↦ simp (e, admit) v
  | inr (_, e) ↦ elim (Result-cases (check_room a.session_id a.lease.key g)) [
    | inl (x, r) ↦ simp (e, r, admit) v
    | inr (_, r) ↦ elim (Result-cases (if occupied g then check_gate world g else done)) [
      | inl (x, c) ↦ simp (e, r, c, admit) v
      | inr (_, c) ↦
          simp (e, r, c, admit)
            (if-Inv key_of (not g.leases) _ _ v (reserve-Inv key_of world a g r v))
    ]
  ]
]

recover_member-Inv :
    (key_of : Pointer → ℕ) (needs : Bool) (a : GroupWorkerAdmission) (f : Fence) (g : Group)
    → a.lease.key ≡ key_of (pointer_of f)
    → Inv key_of g
    → Inv key_of (recover_member needs a f g).1
unfolding recover_member
recover_member-Inv key_of needs a f g t v =
    elim (Result-cases (check_room a.session_id a.lease.key g)) [
      | inl (x, r) ↦ simp (r, recover_member) v
      | inr (_, r) ↦ elim (Bool-cases (occupied g && (not needs || not g.gate))) [
        | inl c ↦ simp (r, c, recover_member) v
        | inr c ↦
            simp (r, c, recover_member)
              (add_member-Inv key_of a.session_id a.lease.key (recovered a.lease.key f) g r
                (refl, t) v)
      ]
    ]

pub without-AllFit :
    (key_of : Pointer → ℕ) (n : ℕ) (ms : List (String × Member))
    → AllFit key_of ms
    → AllFit key_of (without n ms)
unfolding without
without-AllFit key_of n [] t = tt
without-AllFit key_of zero (p ∷ ms) t = t.1
without-AllFit key_of (suc n) (p ∷ ms) t = (t.0, without-AllFit key_of n ms t.1)

pub nth-Fits :
    (key_of : Pointer → ℕ) (n : ℕ) (ms : List (String × Member)) (s : String) (m : Member)
    → AllFit key_of ms
    → nth n ms ≡ some (s, m)
    → Fits key_of m
unfolding nth
nth-Fits key_of n [] s m t h = absurd (ground (arith, h))
nth-Fits key_of zero ((s', m') ∷ ms) s m t h = subst (Fits key_of) (let q : m' ≡ m = cc in q) t.0
nth-Fits key_of (suc n) (p ∷ ms) s m t h = nth-Fits key_of n ms s m t.1 h

pub Inv-running :
    (key_of : Pointer → ℕ) (g : Group) (ms : List (String × Member))
    → AllFit key_of ms
    → Inv key_of g
    → Inv key_of (record g { running = ms })
Inv-running key_of g ms t v = record {
  paired = v.paired;
  fits = v.fits;
  owns = v.owns;
  entered = t;
  bounded = v.bounded;
}

enter-Inv : (key_of : Pointer → ℕ) (s : String) (g : Group) → Inv key_of g → Inv key_of (enter s g)
unfolding enter find_worker
enter-Inv key_of s g v = elim (Bool-cases (str_eq s "")) [
  | inl e ↦ rw (e, enter, find_worker) v
  | inr n ↦ elim (Option-cases (lookup s g.by_session)) [
    | inl e ↦ rw (n, e, enter, find_worker) v
    | inr (m, e) ↦
        rw (n, e, enter, find_worker)
          (Inv-running key_of g ((s, m) ∷ g.running) (v.fits s m e, v.entered) v)
  ]
]

leave-Inv :
    (key_of : Pointer → ℕ) (n : ℕ) (fails : Bool) (g : Group)
    → Inv key_of g
    → Inv key_of (leave n fails g)
unfolding leave
leave-Inv key_of n fails g v = elim (Option-cases (nth n g.running)) [
  | inl e ↦ rw (e, leave) v
  | inr ((s, m), e) ↦ elim (Bool-cases fails) [
    | inr b ↦ rw (e, b, leave) w
    | inl b ↦
        rw (e, b, leave)
          (fence-Inv key_of s m (record g { running = without n g.running })
            (nth-Fits key_of n g.running s m v.entered e) w)
  ]
]
  where
    w : Inv key_of (record g { running = without n g.running })
    w = Inv-running key_of g (without n g.running) (without-AllFit key_of n g.running v.entered) v

group_step-Inv :
    (key_of : Pointer → ℕ) (s : GroupStep) (g : Group)
    → FitsStep key_of s
    → Inv key_of g
    → Inv key_of (group_step s g)
unfolding group_step
group_step-Inv key_of (admits now world a) g t v = admit-Inv key_of now world a g v
group_step-Inv key_of (recovers needs a f) g t v = recover_member-Inv key_of needs a f g t v
group_step-Inv key_of (enters s) g t v = enter-Inv key_of s g v
group_step-Inv key_of (leaves n fails) g t v = leave-Inv key_of n fails g v

run_group-Inv :
    (key_of : Pointer → ℕ) (ss : List GroupStep) (g : Group)
    → FitsAll key_of ss
    → Inv key_of g
    → Inv key_of (run_group ss g)
unfolding run_group
run_group-Inv key_of [] g t v = v
run_group-Inv key_of (s ∷ ss) g t v =
    run_group-Inv key_of ss (group_step s g) t.1 (group_step-Inv key_of s g t.0 v)

lookup_empty : {V : Type 0} (s : String) → lookup {V = V} s [] ≡ none
unfolding lookup
lookup_empty s = refl

-- In every interleaving of admissions, recoveries, runs and fencings on a new group, each session in
-- it writes one workspace and each workspace has one writer, which is in the group; a recovered worker
-- writes the workspace it was recovered for; and there are at most `max_workers`. A pointer that a
-- recovery brings (its own authority, or a source of handles) is taken to serve one workspace.
pub run-new_group-Inv :
    (key_of : Pointer → ℕ) (max : ℕ) (leases gate reference_only : Bool) (g : Group)
    (ss : List GroupStep)
    → new_group_supervisor max leases gate reference_only ≡ ok g
    → FitsAll key_of ss
    → Inv key_of (run_group ss g)
run-new_group-Inv key_of max leases gate reference_only g ss h t =
    run_group-Inv key_of ss g t (record {
      paired = rw (created.1, created.2) Paired-empty;
      fits = λ s m e. absurd (no_member s m e);
      owns = λ s m e. absurd (no_member s m e);
      entered = rw created.3 tt;
      bounded = rw created.1 (omega arith);
    })
  where
    created : (1 ≤ max) × (g.by_session ≡ []) × (g.by_workspace ≡ []) × (g.running ≡ [])
    created = ground (arith, h)

    no_member : (s : String) (m : Member) → lookup s g.by_session ≡ some m → ⊥
    no_member s m e =
        let q : none ≡ some m = sym (ap (lookup s) created.1 ∙ lookup_empty s) ∙ e in
        absurd (ground (arith, q))
