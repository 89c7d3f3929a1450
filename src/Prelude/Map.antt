-- ===== src/Prelude/Map.antt =====
-- A Go map: its entries in a list, one for each key.
use Prim.Native.Nat.{ℕ, suc, ◌≤◌}
use mathlib.Core.Path.{◌≡◌, refl}
use mathlib.Core.Logic.{◌≢◌, ◌↔◌, ◌⊎◌, inl, inr}
use mathlib.Core.Bool.{true}
use mathlib.Core.Option.{Option, none, some}
use mathlib.Core.List.{List, [], ◌∷◌}
use native.Mathlib.Omega.{arith}
use agent_wharf.Prelude.Tests.{if◌then◌else◌, Bool-cases, ◌==◌}
use agent_wharf.Prelude.Lists.{length}
use agent_wharf.Prelude.Table.{Key}

pub eqb_iff : (a b : ℕ) → ((a == b) ≡ true) ↔ (a ≡ b)
eqb_iff a b = ground arith

instance abbrev pub number_key : Key ℕ
number_key = record { same = ◌==◌; same_iff = eqb_iff }

pub same-cases : {K : Type 0} ⦃k : Key K⦄ → (a b : K) → (a ≡ b) ⊎ (a ≢ b)
same-cases ⦃k⦄ a b = elim (Bool-cases (k.same a b)) [
  | inl e ↦ inl (ground (arith, k.same_iff a b, e))
  | inr e ↦ inr (λ h. ground (arith, k.same_iff a b, e, h))
]

module _ {K V : Type 0} ⦃k : Key K⦄ where
  -- `m[a]`
  unfoldable pub lookup : K → List (K × V) → Option V
  lookup a [] = none
  lookup a ((b, v) ∷ m) = if k.same b a then some v else lookup a m

  -- `m[a] = v`
  unfoldable pub insert : K → V → List (K × V) → List (K × V)
  insert a v [] = (a, v) ∷ []
  insert a v ((b, w) ∷ m) = if k.same b a then (a, v) ∷ m else (b, w) ∷ insert a v m

  -- `delete(m, a)`
  unfoldable pub delete : K → List (K × V) → List (K × V)
  delete a [] = []
  delete a ((b, w) ∷ m) = if k.same b a then delete a m else (b, w) ∷ delete a m

  pub lookup-insert : (a : K) (v : V) (m : List (K × V)) → lookup a (insert a v m) ≡ some v
  unfolding lookup insert
  lookup-insert a v [] = ground (arith, k.same_iff a a)
  lookup-insert a v ((b, w) ∷ m) =
      ground (arith, lookup-insert a v m, k.same_iff a a, k.same_iff b a)

  pub lookup-insert_other :
      (a b : K) (v : V) (m : List (K × V)) → b ≢ a → lookup a (insert b v m) ≡ lookup a m
  unfolding lookup insert
  lookup-insert_other a b v [] h = ground (arith, h, k.same_iff b a)
  lookup-insert_other a b v ((c, w) ∷ m) h =
      ground
        (arith, h, lookup-insert_other a b v m h, k.same_iff b a, k.same_iff c a, k.same_iff c b)

  pub lookup-delete : (a : K) (m : List (K × V)) → lookup a (delete a m) ≡ none
  unfolding lookup delete
  lookup-delete a [] = refl
  lookup-delete a ((b, w) ∷ m) = ground (arith, lookup-delete a m)

  pub lookup-delete_other :
      (a b : K) (m : List (K × V)) → b ≢ a → lookup a (delete b m) ≡ lookup a m
  unfolding lookup delete
  lookup-delete_other a b [] h = refl
  lookup-delete_other a b ((c, w) ∷ m) h =
      ground (arith, h, lookup-delete_other a b m h, k.same_iff c a, k.same_iff c b)

  pub length-insert : (a : K) (v : V) (m : List (K × V)) → length (insert a v m) ≤ suc (length m)
  unfolding insert
  length-insert a v [] = omega arith
  length-insert a v ((b, w) ∷ m) = ground (arith, length-insert a v m)

  pub length-delete : (a : K) (m : List (K × V)) → length (delete a m) ≤ length m
  unfolding delete
  length-delete a [] = omega arith
  length-delete a ((b, w) ∷ m) = ground (arith, length-delete a m)
