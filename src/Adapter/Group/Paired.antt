-- ===== src/Adapter/Group/Paired.antt =====
-- Two maps that are each other's inverse on keys, as `bySession` and `byWorkspace` are.
use agent_wharf.Prelude.{
  ◌≡◌, sym, ap, ◌∙◌, ◌≢◌, inl, inr, none, some, List, [], Key, lookup, insert, delete, same-cases,
  lookup-insert, lookup-insert_other, lookup-delete, lookup-delete_other, arith,
}

-- A key that has an entry is not one that has none.
pub apart :
    {K U : Type 0}
    → ⦃k : Key K⦄ → {a b : K} {u : U} → (m : List (K × U)) → lookup a m ≡ some u
    → lookup b m ≡ none
    → b ≢ a
apart {u = u} m h n e =
    let q : none ≡ some u = sym n ∙ ap (λ z. lookup z m) e ∙ h in absurd (ground (arith, q))

module _ {S W V : Type 0} ⦃s-key : Key S⦄ ⦃w-key : Key W⦄ where
  -- Every session has a workspace, every workspace a session, and no session has two.
  pub record Paired (m : List (S × V)) (w : List (W × S)) : Type 0 where
    pub held : (s : S) (v : V) → lookup s m ≡ some v → (k : W) × (lookup k w ≡ some s)
    pub live : (k : W) (s : S) → lookup k w ≡ some s → (v : V) × (lookup s m ≡ some v)
    pub single : (k l : W) (s : S) → lookup k w ≡ some s → lookup l w ≡ some s → k ≡ l

  pub Paired-empty : Paired [] []
  unfolding lookup
  Paired-empty = record {
    held = λ s v h. absurd (ground (arith, h));
    live = λ k s h. absurd (ground (arith, h));
    single = λ k l s h _. absurd (ground (arith, h));
  }

  pub Paired-insert :
      (s : S) (k : W) (v : V) (m : List (S × V)) (w : List (W × S))
      → lookup s m ≡ none
      → lookup k w ≡ none
      → Paired m w
      → Paired (insert s v m) (insert k s w)
  Paired-insert s k v m w ns nk p = record {
    held = held_after;
    live = λ l t h. elim (same-cases l k) [
      | inl e ↦
          let t-s : t ≡ s = owner l t e h in
          (v, ap (λ z. lookup z (insert s v m)) t-s ∙ lookup-insert s v m)
      | inr n ↦
          let (x, q) = p.live l t (kept l t n h) in
          (x, lookup-insert_other t s v m (apart m q ns) ∙ q)
    ];
    single = λ l l' t h h'. elim (same-cases l k) [
      | inl e ↦ elim (same-cases l' k) [
        | inl e' ↦ e ∙ sym e'
        | inr n' ↦ absurd (stranger l' t (owner l t e h) (kept l' t n' h'))
      ]
      | inr n ↦ elim (same-cases l' k) [
        | inl e' ↦ absurd (stranger l t (owner l' t e' h') (kept l t n h))
        | inr n' ↦ p.single l l' t (kept l t n h) (kept l' t n' h')
      ]
    ];
  }
    where
      owner : (l : W) (t : S) → l ≡ k → lookup l (insert k s w) ≡ some t → t ≡ s
      owner l t e h =
          let q : some t ≡ some s =
            sym h ∙ ap (λ z. lookup z (insert k s w)) e ∙ lookup-insert k s w in
          cc

      kept : (l : W) (t : S) → l ≢ k → lookup l (insert k s w) ≡ some t → lookup l w ≡ some t
      kept l t n h = sym (lookup-insert_other l k s w (λ e. n (sym e))) ∙ h

      stranger : (l : W) (t : S) → t ≡ s → lookup l w ≡ some t → ⊥
      stranger l t e h = let (x, q) = p.live l t h in absurd (apart m q ns (sym e))

      held_after :
          (t : S) (x : V)
          → lookup t (insert s v m) ≡ some x
          → (l : W) × (lookup l (insert k s w) ≡ some t)
      held_after t x h = elim (same-cases t s) [
        | inl e ↦ (k, lookup-insert k s w ∙ ap some (sym e))
        | inr n ↦
            let (l, q) = p.held t x (sym (lookup-insert_other t s v m (λ e. n (sym e))) ∙ h) in
            (l, lookup-insert_other l k s w (apart w q nk) ∙ q)
      ]

  pub Paired-delete :
      (s : S) (k : W) (m : List (S × V)) (w : List (W × S))
      → lookup k w ≡ some s
      → Paired m w
      → Paired (delete s m) (delete k w)
  Paired-delete s k m w o p = record {
    held = λ t x h.
        let n = left t x h in
        let (l, q) = p.held t x (sym (lookup-delete_other t s m n) ∙ h) in
        (l, lookup-delete_other l k w (λ e. n (same_owner l t (sym e) q)) ∙ q);
    live = λ l t h.
        let n = left_workspace l t h in
        let q = sym (lookup-delete_other l k w n) ∙ h in
        let (x, r) = p.live l t q in
        (x, lookup-delete_other t s m (λ e. n (p.single k l t (o ∙ ap some e) q)) ∙ r);
    single = λ l l' t h h'.
        p.single l l' t (sym (lookup-delete_other l k w (left_workspace l t h)) ∙ h)
          (sym (lookup-delete_other l' k w (left_workspace l' t h')) ∙ h');
  }
    where
      left : (t : S) (x : V) → lookup t (delete s m) ≡ some x → s ≢ t
      left t x h = apart (delete s m) h (lookup-delete s m)

      left_workspace : (l : W) (t : S) → lookup l (delete k w) ≡ some t → k ≢ l
      left_workspace l t h = apart (delete k w) h (lookup-delete k w)

      same_owner : (l : W) (t : S) → l ≡ k → lookup l w ≡ some t → s ≡ t
      same_owner l t e q = let r : some s ≡ some t = sym o ∙ ap (λ z. lookup z w) (sym e) ∙ q in cc
