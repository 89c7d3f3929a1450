-- ===== src/E2ee/Grants.antt =====
-- experimental/e2ee/journal.go: `ReplaceGrants`.
-- `identifier` is `identifier.MatchString`, of the standard library's regexp package.
pub mod Advance
pub mod Valid
use agent_wharf.Prelude.{
  ℕ, ◌+◌, String, Bool, true, false, ◌||◌, ◌&&◌, Option, none, some, List, [], ◌∷◌, ◌++◌, Result,
  ok, err, Outcome, done, ◌>>◌, ◌>>=◌, str_eq, if◌then◌else◌, not, ltb, leb, ◌==◌, length, ℤ, pos,
  negsuc, find, put, text_key, pair_key,
}
use agent_wharf.E2ee.Db.{
  E2eeError, invalid, conflict, journal, DeviceGrant, SessionRow, Db, Faults, statement, transact,
  session_key, key_epoch_key, delete_session_grants, grant_rows, write_session, write_key_epoch,
  delete_grants, insert_grant,
}

-- `1 << 53`
abbrev pub epoch_limit : ℕ
epoch_limit = 9_007_199_254_740_992

-- `seen[device]`
unfoldable pub seen : String → List String → Bool
seen device [] = false
seen device (d ∷ ds) = str_eq d device || seen device ds

module _ (identifier : String → Bool) where
  -- The loop of `validateGrants`.
  unfoldable pub validate_each : List String → List DeviceGrant → Outcome E2eeError
  unfolding seen
  validate_each devices [] = done
  validate_each devices (g ∷ gs) =
      let rest = validate_each (g.device_id ∷ devices) gs in
      if not (identifier g.device_id) || not (length g.verify_key == 32) || seen g.device_id devices
      then err invalid
      else rest

  -- `validateGrants`; the epoch of a call that passes is given back as a number.
  unfoldable pub validate_grants : String → String → ℤ → List DeviceGrant → Result E2eeError ℕ
  unfolding validate_each
  validate_grants session key_id (negsuc n) grants = err invalid
  validate_grants session key_id (pos expected) grants =
      if not (identifier session)
        || not (identifier key_id)
        || leb epoch_limit expected
        || length grants == 0
        || ltb 32 (length grants)
      then err invalid
      else validate_each [] grants >> ok expected

-- The `INSERT` for `expectedEpoch` 0 and the `UPDATE` for all others: the row written, if one is.
unfoldable pub advance_session : String → String → ℕ → Option SessionRow → Option SessionRow
advance_session session key_id expected none =
    if expected == 0
    then some (record { session = session; epoch = 1; key_id = key_id; command_count = 0 })
    else none
advance_session session key_id expected (some row) =
    if expected == 0
    then none
    else if row.epoch == expected && not (str_eq row.key_id key_id)
    then some (record row { epoch = row.epoch + 1; key_id = key_id; command_count = 0 })
    else none

-- The rest of `replaceGrantsTx`, once the session's row is known.
unfoldable pub write_grants :
    Faults → String → String → List DeviceGrant → Db → Option SessionRow → Result E2eeError Db
write_grants faults session key_id grants db none = err conflict
write_grants faults session key_id grants db (some row) =
    statement faults write_key_epoch (elim (find key_epoch_key (session, key_id) db.key_epochs) [
      | some _ ↦ err conflict
      | none ↦ statement faults delete_grants (
          statement faults insert_grant (
            ok (record db {
              sessions = put session_key row db.sessions;
              key_epochs = put key_epoch_key (session, key_id) db.key_epochs;
              grants = grant_rows session grants ++ delete_session_grants session db.grants;
            })))
    ])

-- `replaceGrantsTx`
unfoldable pub replace_grants_tx :
    Faults → String → String → ℕ → List DeviceGrant → Db → Result E2eeError Db
unfolding write_grants advance_session
replace_grants_tx faults session key_id expected grants db = statement faults write_session (
    write_grants faults session key_id grants db
      (advance_session session key_id expected (find session_key session db.sessions)))

-- `CommandJournal.ReplaceGrants`
unfoldable pub replace_grants :
    (String → Bool) → Faults → String → String → ℤ → List DeviceGrant → Db → Outcome E2eeError × Db
replace_grants identifier faults session key_id epoch grants db =
    elim (validate_grants identifier session key_id epoch grants) [
      | err e ↦ (err e, db)
      | ok expected ↦
          transact faults db
            (replace_grants_tx faults session key_id expected grants db >>= λ db'. ok (tt, db'))
    ]
