-- ===== src/E2ee/Revoke/Deletion.antt =====
-- experimental/e2ee/rotation.go: the grants that `RevokeDevice` leaves.
use agent_wharf.Prelude.{
  ◌≡◌, ◌≢◌, refl, sym, subst, String, none, Bool-cases, List, [], ◌∷◌, arith, str_eq, eq_iff, inl,
  inr, if◌then◌else◌,
}
use agent_wharf.E2ee.Db.{GrantRow, find_grant, delete_device_grants}

pub find_grant-delete_device_self :
    (s d : String) (gs : List GrantRow) → find_grant s d (delete_device_grants d gs) ≡ none
unfolding find_grant delete_device_grants
find_grant-delete_device_self s d [] = refl
find_grant-delete_device_self s d (g ∷ gs) = ground (arith, find_grant-delete_device_self s d gs)

find_grant-delete_device_ne :
    (s d other : String) (gs : List GrantRow)
    → other ≢ d
    → find_grant s other (delete_device_grants d gs) ≡ find_grant s other gs
unfolding find_grant delete_device_grants
find_grant-delete_device_ne s d other [] n = refl
find_grant-delete_device_ne s d other (g ∷ gs) n = ground (
  arith,
  find_grant-delete_device_ne s d other gs n,
  eq_iff g.grant.device_id d,
  eq_iff g.grant.device_id other,
)

-- The grants of a device after the removal of another or of itself.
pub find_grant-deleted :
    (s d other : String) (gs : List GrantRow)
    → find_grant s other (delete_device_grants d gs)
      ≡ (if str_eq d other then none else find_grant s other gs)
find_grant-deleted s d other gs = elim (Bool-cases (str_eq d other)) [
  | inl q ↦ rw q (
      subst (λ x. find_grant s x (delete_device_grants d gs) ≡ none) ((eq_iff d other).0 q)
        (find_grant-delete_device_self s d gs))
  | inr q ↦ rw q (
      find_grant-delete_device_ne s d other gs
        (λ e. absurd (ground (arith, q, eq_iff d other, sym e))))
]
