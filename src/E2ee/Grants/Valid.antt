-- ===== src/E2ee/Grants/Valid.antt =====
-- What a valid request to change a session's grants is, told without the checks of journal.go.
use agent_wharf.Prelude.{
  ℕ, ◌≤◌, ◌<◌, ◌≡◌, ◌≢◌, refl, String, Bool, true, false, List, [], ◌∷◌, ok, done, arith, eq_iff,
  length, pos,
}
use agent_wharf.E2ee.Db.{DeviceGrant}
use agent_wharf.E2ee.Grants.{seen, validate_each, validate_grants}

-- No grant is for the device.
abbrev pub Absent : String → List DeviceGrant → Type 0
Absent device [] = Unit
Absent device (g ∷ gs) = (device ≢ g.device_id) × Absent device gs

-- Each grant names a device by an identifier and has a key of 32 bytes, and no two are for one device.
abbrev pub EachValid : (String → Bool) → List DeviceGrant → Type 0
EachValid identifier [] = Unit
EachValid identifier (g ∷ gs) =
    (identifier g.device_id ≡ true)
    × (length g.verify_key ≡ 32)
    × Absent g.device_id gs
    × EachValid identifier gs

-- A request for identifiers, at an epoch below 2^53, with 1 to 32 valid grants.
pub record ValidRequest (identifier : String → Bool) (session key_id : String) (epoch : ℕ)
    (grants : List DeviceGrant) : Type 0 where
  pub session_identifier : identifier session ≡ true
  pub key_identifier : identifier key_id ≡ true
  pub exact : epoch < 9_007_199_254_740_992
  pub some_grants : 1 ≤ length grants
  pub few_grants : length grants ≤ 32
  pub each : EachValid identifier grants

-- None of the grants is for one of the devices.
abbrev Unseen : List String → List DeviceGrant → Type 0
Unseen devices [] = Unit
Unseen devices (g ∷ gs) = (seen g.device_id devices ≡ false) × Unseen devices gs

Unseen-nil : (gs : List DeviceGrant) → Unseen [] gs
unfolding seen
Unseen-nil [] = tt
Unseen-nil (g ∷ gs) = (refl, Unseen-nil gs)

seen_other : (d e : String) (ds : List String) → d ≢ e → seen e ds ≡ false → seen e (d ∷ ds) ≡ false
unfolding seen
seen_other d e ds n u = ground (arith, eq_iff d e)

Unseen-cons :
    (d : String) (ds : List String) (gs : List DeviceGrant)
    → Absent d gs
    → Unseen ds gs
    → Unseen (d ∷ ds) gs
Unseen-cons d ds [] a u = tt
Unseen-cons d ds (g ∷ gs) (n, a) (h, u) = (seen_other d g.device_id ds n h, Unseen-cons d ds gs a u)

validate_each-EachValid :
    (identifier : String → Bool) (ds : List String) (gs : List DeviceGrant)
    → EachValid identifier gs
    → Unseen ds gs
    → validate_each identifier ds gs ≡ done
unfolding validate_each
validate_each-EachValid identifier ds [] v u = refl
validate_each-EachValid identifier ds (g ∷ gs) (i, n, a, v) (h, u) = ground (
  arith,
  validate_each-EachValid identifier (g.device_id ∷ ds) gs v (Unseen-cons g.device_id ds gs a u),
)

-- The checks let every valid request pass.
pub validate_grants-ValidRequest :
    (identifier : String → Bool) (s key : String) (e : ℕ) (gs : List DeviceGrant)
    → ValidRequest identifier s key e gs
    → validate_grants identifier s key (pos e) gs ≡ ok e
unfolding validate_grants
validate_grants-ValidRequest identifier s key e gs v =
    let r = validate_each-EachValid identifier [] gs v.each (Unseen-nil gs) in
    let i = v.session_identifier in
    let j = v.key_identifier in
    let b = v.exact in let c = v.some_grants in let d = v.few_grants in ground (arith, r)
