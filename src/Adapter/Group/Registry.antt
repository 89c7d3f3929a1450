-- ===== src/Adapter/Group/Registry.antt =====
-- The contract of a group: a registry in which a workspace is claimed when it is free and given back by
-- its writer. Every step of a group is one step of the registry.
use agent_wharf.Prelude.{
  ℕ, String, ◌≡◌, refl, sym, ap, ◌∙◌, ◌≢◌, inl, inr, Bool, not, ◌&&◌, ◌||◌, Option, none, some,
  arith, Outcome, done, lookup, insert, lookup-insert, lookup-insert_other, lookup-delete,
  lookup-delete_other, Bool-cases, Option-cases, Result-cases, text_key, number_key,
}
use agent_wharf.Adapter.Group.{
  Group, GroupWorld, GroupWorkerAdmission, Fence, Member, admitted, recovered, check_room, admit,
  recover_member, same_fence, fence_recovered_worker, occupied,
}
use agent_wharf.Adapter.Group.Lifecycle.{GroupError}
use agent_wharf.Adapter.Group.Steps.{
  GroupStep, admits, recovers, enters, leaves, nth, without, find_worker, enter, leave, group_step,
}
use agent_wharf.Adapter.Group.Entry.{Admits, unreserved, unbuilt, joined, admit-Admits}
use agent_wharf.Adapter.Group.Interleavings.{nth-Fits, Inv-running, without-AllFit}
use agent_wharf.Adapter.Group.Membership.{
  Pointer, Fits, FitsStep, Inv, same_fence_lem, check_room_lem,
}

-- The writer of each workspace.
abbrev pub Registry : Type 0
Registry = ℕ → Option String

abbrev pub writers : Group → Registry
writers g k = lookup k g.by_workspace

-- A step of the registry: nothing, a free workspace claimed for a session that writes none, or a
-- workspace given back.
pub data RegistryStep (f h : Registry) : Type 0 where
  stays : ((k : ℕ) → h k ≡ f k) → RegistryStep f h
  claims :
      (k : ℕ) (s : String)
      → f k ≡ none
      → ((l : ℕ) → f l ≢ some s)
      → h k ≡ some s
      → ((l : ℕ) → k ≢ l → h l ≡ f l)
      → RegistryStep f h
  frees :
      (k : ℕ) (s : String)
      → f k ≡ some s
      → h k ≡ none
      → ((l : ℕ) → k ≢ l → h l ≡ f l)
      → RegistryStep f h

add_member-claims :
    (key_of : Pointer → ℕ) (s : String) (k : ℕ) (g : Group)
    → check_room s k g ≡ done
    → Inv key_of g
    → RegistryStep (writers g) (λ l. lookup l (insert k s g.by_workspace))
add_member-claims key_of s k g r v =
    let (ns, nk, _) = check_room_lem s k g r in
    claims k s nk (unclaimed ns) (lookup-insert k s g.by_workspace)
      λ l n. lookup-insert_other l k s g.by_workspace n
  where
    unclaimed : lookup s g.by_session ≡ none → (l : ℕ) → lookup l g.by_workspace ≢ some s
    unclaimed ns l p =
        let (x, q) = v.paired.live l s p in
        let z : none ≡ some x = sym ns ∙ q in absurd (ground (arith, z))

admit-refines :
    (key_of : Pointer → ℕ) (now : ℕ) (world : GroupWorld) (a : GroupWorkerAdmission) (g : Group)
    → Inv key_of g
    → RegistryStep (writers g) (writers (admit now world a g).1)
admit-refines key_of now world a g v =
    go (admit now world a g).0 (admit now world a g).1 (admit-Admits now world a g)
  where
    go :
        (o : Outcome GroupError) (h : Group)
        → Admits now world a g o h
        → RegistryStep (writers g) (writers h)
    go _ _ Admits.refused = stays λ k. refl
    go _ _ (unreserved _) = stays λ k. refl
    go _ _ (unbuilt _) = stays λ k. refl
    go _ _ (joined _ r _ _ _) = add_member-claims key_of a.session_id a.lease.key g r v

recover-refines :
    (key_of : Pointer → ℕ) (needs : Bool) (a : GroupWorkerAdmission) (f : Fence) (g : Group)
    → Inv key_of g
    → RegistryStep (writers g) (writers (recover_member needs a f g).1)
unfolding recover_member
recover-refines key_of needs a f g v = elim (Result-cases (check_room a.session_id a.lease.key g)) [
  | inl (x, r) ↦ simp (r, recover_member) (stays λ k. refl)
  | inr (_, r) ↦ elim (Bool-cases (occupied g && (not needs || not g.gate))) [
    | inl c ↦ simp (r, c, recover_member) (stays λ k. refl)
    | inr c ↦ simp (r, c, recover_member) (add_member-claims key_of a.session_id a.lease.key g r v)
  ]
]

fence-refines :
    (key_of : Pointer → ℕ) (s : String) (m : Member) (g : Group)
    → Fits key_of m
    → Inv key_of g
    → RegistryStep (writers g) (writers (fence_recovered_worker s m g))
unfolding fence_recovered_worker
fence-refines key_of s admitted g t v = stays λ k. refl
fence-refines key_of s (recovered key f) g t v = go (lookup s g.by_session) refl
  where
    go :
        (o : Option Member)
        → lookup s g.by_session ≡ o
        → RegistryStep (writers g) (writers (fence_recovered_worker s (recovered key f) g))
    go none e = rw (e, fence_recovered_worker) (stays λ k. refl)
    go (some admitted) e = rw (e, fence_recovered_worker) (stays λ k. refl)
    go (some (recovered key' f')) e = elim (Bool-cases (same_fence f f')) [
      | inr n ↦ rw (e, fence_recovered_worker, n) (stays λ k. refl)
      | inl q ↦
          let k : key ≡ key' =
            t ∙ ap key_of (same_fence_lem f f' q) ∙ sym (v.fits s (recovered key' f') e) in
          rw (e, fence_recovered_worker, q)
            (frees key s (ap (λ z. lookup z g.by_workspace) k ∙ v.owns s (recovered key' f') e)
              (lookup-delete key g.by_workspace) λ l n. lookup-delete_other l key g.by_workspace n)
    ]

enter-refines : (s : String) (g : Group) → RegistryStep (writers g) (writers (enter s g))
unfolding enter
enter-refines s g = elim (Result-cases (find_worker s g)) [
  | inl (x, e) ↦ rw (e, enter) (stays λ k. refl)
  | inr (m, e) ↦ rw (e, enter) (stays λ k. refl)
]

leave-refines :
    (key_of : Pointer → ℕ) (n : ℕ) (fails : Bool) (g : Group)
    → Inv key_of g
    → RegistryStep (writers g) (writers (leave n fails g))
unfolding leave
leave-refines key_of n fails g v = elim (Option-cases (nth n g.running)) [
  | inl e ↦ rw (e, leave) (stays λ k. refl)
  | inr ((s, m), e) ↦ elim (Bool-cases fails) [
    | inr b ↦ rw (e, b, leave) (stays λ k. refl)
    | inl b ↦
        rw (e, b, leave)
          (fence-refines key_of s m (record g { running = without n g.running })
            (nth-Fits key_of n g.running s m v.entered e)
            (Inv-running key_of g (without n g.running)
              (without-AllFit key_of n g.running v.entered) v))
  ]
]

-- Every step of a group whose membership is consistent is a step of the registry: it leaves the
-- writers as they are, or claims a workspace that is free for a session that writes none, or gives one
-- back; the writers of all other workspaces stay. A pointer that a recovery brings is taken to serve
-- one workspace.
pub group_step-refines :
    (key_of : Pointer → ℕ) (s : GroupStep) (g : Group)
    → FitsStep key_of s
    → Inv key_of g
    → RegistryStep (writers g) (writers (group_step s g))
unfolding group_step
group_step-refines key_of (admits now world a) g t v = admit-refines key_of now world a g v
group_step-refines key_of (recovers needs a f) g t v = recover-refines key_of needs a f g v
group_step-refines key_of (enters s) g t v = enter-refines s g
group_step-refines key_of (leaves n fails) g t v = leave-refines key_of n fails g v
