-- ===== src/Adapter/Group/Membership.antt =====
-- What holds of the membership of a group, and the two changes that keep it.
use agent_wharf.Prelude.{
  ℕ, ◌≤◌, ◌<◌, String, ◌≡◌, sym, ap, subst, ◌∙◌, ◌≢◌, inl, inr, true, none, some, List, [], ◌∷◌,
  arith, done, length, lookup, insert, delete, length-insert, length-delete, lookup-insert,
  lookup-insert_other, lookup-delete, lookup-delete_other, same-cases, ◌⊎◌, text_key, number_key,
  eqb_iff,
}
use agent_wharf.Adapter.Group.{
  Group, Fence, by_authority, by_handle, Member, admitted, recovered, check_room, same_fence,
  add_member,
}
use agent_wharf.Adapter.Group.Steps.{GroupStep, recovers}
use agent_wharf.Adapter.Group.Paired.{Paired, Paired-insert, Paired-delete, apart}

-- The pointer that a recovered worker is fenced by.
pub data Pointer : Type 0 where
  authority source : ℕ → Pointer

abbrev pub pointer_of : Fence → Pointer
pointer_of (by_authority p _) = authority p
pointer_of (by_handle p _) = source p

-- A pointer serves one workspace.
abbrev pub Fits : (Pointer → ℕ) → Member → Type 0
Fits key_of admitted = Unit
Fits key_of (recovered key f) = key ≡ key_of (pointer_of f)

abbrev pub FitsStep : (Pointer → ℕ) → GroupStep → Type 0
FitsStep key_of (recovers needs a f) = a.lease.key ≡ key_of (pointer_of f)
FitsStep key_of _ = Unit

abbrev pub FitsAll : (Pointer → ℕ) → List GroupStep → Type 0
FitsAll key_of [] = Unit
FitsAll key_of (s ∷ ss) = FitsStep key_of s × FitsAll key_of ss

abbrev pub AllFit : (Pointer → ℕ) → List (String × Member) → Type 0
AllFit key_of [] = Unit
AllFit key_of ((s, m) ∷ ms) = Fits key_of m × AllFit key_of ms

-- A recovered member is the writer of its workspace.
abbrev pub Owns : List (ℕ × String) → String → Member → Type 0
Owns w s admitted = Unit
Owns w s (recovered key f) = lookup key w ≡ some s

pub record Inv (key_of : Pointer → ℕ) (g : Group) : Type 0 where
  pub paired : Paired g.by_session g.by_workspace
  pub fits : (s : String) (m : Member) → lookup s g.by_session ≡ some m → Fits key_of m
  pub owns : (s : String) (m : Member) → lookup s g.by_session ≡ some m → Owns g.by_workspace s m
  pub entered : AllFit key_of g.running
  pub bounded : length g.by_session ≤ g.max_workers

pub same_fence_lem : (f f' : Fence) → same_fence f f' ≡ true → pointer_of f ≡ pointer_of f'
same_fence_lem (by_authority p _) (by_authority q _) h =
    ap authority (let (to, _) = eqb_iff p q in to h)
same_fence_lem (by_authority p _) (by_handle q _) h = cc
same_fence_lem (by_handle p _) (by_authority q _) h = cc
same_fence_lem (by_handle p _) (by_handle q _) h = ap source (let (to, _) = eqb_iff p q in to h)

pub check_room_lem :
    (s : String) (k : ℕ) (g : Group)
    → check_room s k g ≡ done
    → (lookup s g.by_session ≡ none)
      × (lookup k g.by_workspace ≡ none)
      × (length g.by_session < g.max_workers)
unfolding check_room
check_room_lem s k g h = ground arith

-- An entry after an insertion is the new one or an old one.
lookup-insert-cases :
    {V : Type 0} (s t : String) (v x : V) (m : List (String × V))
    → lookup t (insert s v m) ≡ some x
    → ((t ≡ s) × (v ≡ x)) ⊎ (lookup t m ≡ some x)
lookup-insert-cases s t v x m h = elim (same-cases t s) [
  | inl e ↦
      let q : some v ≡ some x =
        sym (ap (λ z. lookup z (insert s v m)) e ∙ lookup-insert s v m) ∙ h in
      inl (e, cc)
  | inr n ↦ inr (sym (lookup-insert_other t s v m (λ e. n (sym e))) ∙ h)
]

Owns-insert :
    (w : List (ℕ × String)) (k : ℕ) (s t : String) (x : Member)
    → lookup k w ≡ none
    → Owns w t x
    → Owns (insert k s w) t x
Owns-insert w k s t admitted n o = o
Owns-insert w k s t (recovered key f) n o = lookup-insert_other key k s w (apart w o n) ∙ o

-- The new member writes its workspace, and fits.
abbrev Joins : (Pointer → ℕ) → ℕ → Member → Type 0
Joins key_of k admitted = Unit
Joins key_of k (recovered key f) = (key ≡ k) × (key ≡ key_of (pointer_of f))

Joins-Fits : (key_of : Pointer → ℕ) (k : ℕ) (m : Member) → Joins key_of k m → Fits key_of m
Joins-Fits key_of k admitted j = tt
Joins-Fits key_of k (recovered key f) j = j.1

Joins-Owns :
    (key_of : Pointer → ℕ) (k : ℕ) (m : Member) (s : String) (w : List (ℕ × String))
    → Joins key_of k m
    → Owns (insert k s w) s m
Joins-Owns key_of k admitted s w j = tt
Joins-Owns key_of k (recovered key f) s w j =
    ap (λ z. lookup z (insert k s w)) j.0 ∙ lookup-insert k s w

pub add_member-Inv :
    (key_of : Pointer → ℕ) (s : String) (k : ℕ) (m : Member) (g : Group)
    → check_room s k g ≡ done
    → Joins key_of k m
    → Inv key_of g
    → Inv key_of (add_member s k m g)
add_member-Inv key_of s k m g r j v =
    let (ns, nk, room) = check_room_lem s k g r in
    record {
      paired = Paired-insert s k m g.by_session g.by_workspace ns nk v.paired;
      fits = λ t x h. elim (lookup-insert-cases s t m x g.by_session h) [
        | inl (e, q) ↦ subst (Fits key_of) q (Joins-Fits key_of k m j)
        | inr q ↦ v.fits t x q
      ];
      owns = λ t x h. elim (lookup-insert-cases s t m x g.by_session h) [
        | inl (e, q) ↦
            subst (λ z. Owns (insert k s g.by_workspace) z x) (sym e)
              (subst (Owns (insert k s g.by_workspace) s) q
                (Joins-Owns key_of k m s g.by_workspace j))
        | inr q ↦ Owns-insert g.by_workspace k s t x nk (v.owns t x q)
      ];
      entered = v.entered;
      bounded = omega (arith, length-insert s m g.by_session, room);
    }

Owns-delete :
    (w : List (ℕ × String)) (k : ℕ) (s t : String) (x : Member)
    → lookup k w ≡ some s
    → s ≢ t
    → Owns w t x
    → Owns (delete k w) t x
Owns-delete w k s t admitted h n o = o
Owns-delete w k s t (recovered key f) h n o =
    lookup-delete_other key k w
      (λ e. n (let q : some s ≡ some t = sym h ∙ ap (λ z. lookup z w) e ∙ o in cc))
    ∙ o

pub delete-Inv :
    (key_of : Pointer → ℕ) (s : String) (k : ℕ) (g : Group)
    → lookup k g.by_workspace ≡ some s
    → Inv key_of g
    → Inv key_of
        (record g { by_session = delete s g.by_session; by_workspace = delete k g.by_workspace })
delete-Inv key_of s k g o v = record {
  paired = Paired-delete s k g.by_session g.by_workspace o v.paired;
  fits = λ t x h. v.fits t x (kept t x h);
  owns = λ t x h. Owns-delete g.by_workspace k s t x o (gone t x h) (v.owns t x (kept t x h));
  entered = v.entered;
  bounded = omega (arith, length-delete s g.by_session, v.bounded);
}
  where
    gone : (t : String) (x : Member) → lookup t (delete s g.by_session) ≡ some x → s ≢ t
    gone t x h = apart (delete s g.by_session) h (lookup-delete s g.by_session)

    kept :
        (t : String) (x : Member)
        → lookup t (delete s g.by_session) ≡ some x
        → lookup t g.by_session ≡ some x
    kept t x h = sym (lookup-delete_other t s g.by_session (gone t x h)) ∙ h
