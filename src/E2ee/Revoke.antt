-- ===== src/E2ee/Revoke.antt =====
-- experimental/e2ee/device_lifecycle.go: `RevokeDevice`, `RevokeTrusted`, `RevokeTrustedTerminals`.
pub mod Cut
pub mod Deletion
-- `valid_identity` is `validatePairingIdentity`, which asks the HPKE library for the key's form.
-- `ORDER BY` only fixes the order of the rows; the tables' own order stands for it.
use agent_wharf.Prelude.{
  ℕ, String, Bool, true, false, ◌&&◌, Option, none, some, List, [], ◌∷◌, ◌++◌, Result, ok, err,
  Outcome, done, str_eq, if◌then◌else◌, not,
}
use agent_wharf.E2ee.Db.{
  E2eeError, invalid, journal, Bytes, DeviceRow, SessionKeyRow, SealRow, Db, Faults, statement,
  transact, delete_device_grants, begin, commit, read_device, delete_device, delete_grants,
  delete_keys, delete_budget,
}
use agent_wharf.E2ee.Session.{Machine, list_sessions, rotate_session}

-- `DELETE FROM e2ee_devices WHERE device = ?`
unfoldable pub delete_device_row : String → List DeviceRow → List DeviceRow
delete_device_row device [] = []
delete_device_row device (d ∷ ds) =
    let rest = delete_device_row device ds in if str_eq d.device device then rest else d ∷ rest

-- `DELETE FROM e2ee_session_keys WHERE device = ?`: the table holds the keys of `own`.
unfoldable pub delete_wrapped_keys : String → String → List SessionKeyRow → List SessionKeyRow
delete_wrapped_keys own device rows = if str_eq own device then [] else rows

-- `DELETE FROM e2ee_seal_budget WHERE device = ?`, likewise of `own`.
unfoldable pub delete_budget_rows : String → String → List SealRow → List SealRow
delete_budget_rows own device rows = if str_eq own device then [] else rows

-- A device and whether trust enrolled it: `ListDetailed` skips a row with a bad identity.
unfoldable pub trusted_devices : (DeviceRow → Bool) → List DeviceRow → List String
trusted_devices valid_identity [] = []
trusted_devices valid_identity (d ∷ ds) =
    let rest = trusted_devices valid_identity ds in
    if valid_identity d && d.trusted then d.device ∷ rest else rest

module _ (identifier : String → Bool) (valid_identity : DeviceRow → Bool) (faults : Faults)
    (m : Machine) where
  -- `RevokeDevice`
  unfoldable pub revoke_device : String → Db → Outcome E2eeError × Db
  unfolding delete_device_row delete_wrapped_keys delete_budget_rows
  revoke_device device db =
      if not (identifier device)
      then (err invalid, db)
      else transact faults db (
          statement faults delete_device (
            statement faults delete_grants (
              statement faults delete_keys (
                statement faults delete_budget (
                  ok (
                    tt,
                    record db {
                      devices = delete_device_row device db.devices;
                      grants = delete_device_grants device db.grants;
                      session_keys = delete_wrapped_keys m.device device db.session_keys;
                      seal_budget = delete_budget_rows m.device device db.seal_budget;
                    },
                  ))))))

  -- The loop of `RevokeTrusted`: the devices revoked so far, and the error that stopped it.
  unfoldable pub revoke_each : List String → Db → (Outcome E2eeError × List String) × Db
  revoke_each [] db = ((done, []), db)
  revoke_each (device ∷ devices) db =
      let (o, db') = revoke_device device db in
      let rest = revoke_each devices db' in
      elim o [ err e ↦ ((err e, []), db') | ok _ ↦ ((rest.0.0, device ∷ rest.0.1), rest.1) ]

  -- `RevokeTrusted`
  unfoldable pub revoke_trusted : Db → (Outcome E2eeError × List String) × Db
  revoke_trusted db =
      if faults read_device
      then ((err journal, []), db)
      else revoke_each (trusted_devices valid_identity db.devices) db

  -- The loop over the sessions; `fresh` gives each its new key id and wrapped key.
  unfoldable pub rotate_each :
      (String → String × Result E2eeError Bytes) → List String → Db → Outcome E2eeError × Db
  rotate_each fresh [] db = (done, db)
  rotate_each fresh (session ∷ sessions) db =
      let (o, db') =
        rotate_session identifier faults m session (fresh session).0 (fresh session).1 db in
      let rest = rotate_each fresh sessions db' in elim o [ err e ↦ (err e, db') | ok _ ↦ rest ]

  -- `RevokeTrustedTerminals`, from the second call on.
  unfoldable pub rotate_after :
      (String → String × Result E2eeError Bytes)
      → (Outcome E2eeError × List String) × Db
      → (Outcome E2eeError × List String) × Db
  rotate_after fresh ((err e, revoked), db) = ((err e, revoked), db)
  rotate_after fresh ((ok _, []), db) = ((done, []), db)
  rotate_after fresh ((ok _, d ∷ ds), db) = elim (list_sessions faults db) [
    | err e ↦ ((err e, d ∷ ds), db)
    | ok sessions ↦ (let (o, db') = rotate_each fresh sessions db in ((o, d ∷ ds), db'))
  ]

  -- `RevokeTrustedTerminals`
  unfoldable pub revoke_trusted_terminals :
      (String → String × Result E2eeError Bytes) → Db → (Outcome E2eeError × List String) × Db
  revoke_trusted_terminals fresh db = rotate_after fresh (revoke_trusted db)
