-- ===== src/Prelude/Table.antt =====
-- A table with a primary key: rows in a list, found and written by key.
use Prim.Native.String.{String}
use mathlib.Core.Path.{◌≡◌, refl}
use mathlib.Core.Logic.{◌↔◌}
use mathlib.Core.Bool.{Bool, true, ◌&&◌}
use mathlib.Core.Option.{Option, none, some}
use mathlib.Core.List.{List, [], ◌∷◌}
use native.Mathlib.Omega.{arith}
use text.Mathlib.Text.{◌==◌ as str_eq}
use text.Mathlib.TextEquality.{eq_iff}
use agent_wharf.Prelude.Tests.{if◌then◌else◌}

-- A key of one or of two columns.
pub record Key (K : Type 0) : Type 0 where
  pub same : K → K → Bool
  pub same_iff : (a b : K) → (same a b ≡ true) ↔ (a ≡ b)

instance abbrev pub text_key : Key String
text_key = record { same = str_eq; same_iff = eq_iff }

abbrev pub same_pair : String × String → String × String → Bool
same_pair (a, b) (c, d) = str_eq a c && str_eq b d

pub same_pair_iff : (p q : String × String) → (same_pair p q ≡ true) ↔ (p ≡ q)
same_pair_iff (a, b) (c, d) =
    (λ h. ground (arith, eq_iff a c, eq_iff b d), λ e. ground (arith, eq_iff a c, eq_iff b d))

instance abbrev pub pair_key : Key (String × String)
pair_key = record { same = same_pair; same_iff = same_pair_iff }

module _ {K R : Type 0} ⦃k : Key K⦄ (key : R → K) where
  -- `SELECT … WHERE key = ?`
  unfoldable pub find : K → List R → Option R
  find a [] = none
  find a (r ∷ rs) = if k.same (key r) a then some r else find a rs

  -- The row replaces the one with its key, or is added.
  unfoldable pub put : R → List R → List R
  put r [] = r ∷ []
  put r (x ∷ rs) = if k.same (key x) (key r) then r ∷ rs else x ∷ put r rs

  pub find-put :
      (a : K) (r : R) (rs : List R)
      → find a (put r rs) ≡ (if k.same (key r) a then some r else find a rs)
  unfolding find put
  find-put a r [] = refl
  find-put a r (x ∷ rs) = ground (
    arith,
    find-put a r rs,
    k.same_iff (key x) (key r),
    k.same_iff (key x) a,
    k.same_iff (key r) a,
  )

  pub find_key : (a : K) (r : R) (rs : List R) → find a rs ≡ some r → key r ≡ a
  unfolding find
  find_key a r [] h = cc
  find_key a r (x ∷ rs) h = ground (arith, find_key a r rs, k.same_iff (key x) a)
