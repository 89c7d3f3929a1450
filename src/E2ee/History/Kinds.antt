-- ===== src/E2ee/History/Kinds.antt =====
-- The kinds of writes that a call makes, and sequences of them.
use agent_wharf.Prelude.{
  ℕ, ◌+◌, ◌<◌, ◌≡◌, String, true, Option, none, some, Bool-cases, List, [], ◌∷◌, Result, ok, err,
  arith, find, put, text_key, pair_key, inl, inr, ◌⊎◌, str_eq, eq_iff, if◌then◌else◌,
}
use agent_wharf.E2ee.Db.{
  E2eeError, Bytes, DeviceGrant, DeviceRow, SessionRow, SessionKeyRow, MembershipReceipt,
  CommandState, CommandRow, Db, Faults, transact, session_key, key_epoch_key, command_key, begin,
  commit, wrapped_key, receipt_key, delete_device_grants, find_grant,
}
use agent_wharf.E2ee.Grants.Advance.{Advances, advanced, advance_sound}
use agent_wharf.E2ee.Grants.{replace_grants_tx}
use agent_wharf.E2ee.Admit.{Context, may_become, reserved, max_commands_per_session}
use agent_wharf.E2ee.Revoke.{delete_device_row}

-- The row of a device.
pub find_device_row : String → List DeviceRow → Option DeviceRow
find_device_row device [] = none
find_device_row device (r ∷ rows) =
    if str_eq r.device device then some r else find_device_row device rows

-- The receipts after the wrapped key of a row is stored: as before, or with one for its session and key.
abbrev pub Receipted : SessionKeyRow → List MembershipReceipt → List MembershipReceipt → Type 0
Receipted row before after =
    (after ≡ before)
    ⊎ ((epoch : ℕ) × (hash : Bytes) × (after
          ≡ put receipt_key
              (record {
                session = row.session;
                epoch = epoch + 1;
                key_id = row.key_id;
                request_hash = hash;
              })
              before))

-- One kind of write, from the tables `db` to the tables `db'`, on the device `own`.
pub data Write (own : String) (db db' : Db) : Type 0 where
  claim :
      (c : Context) (fingerprint : Bytes) (row : SessionRow)
      → find session_key c.session db.sessions ≡ some row
      → row.key_id ≡ c.key_id
      → find command_key (c.session, c.message_id) db.commands ≡ none
      → row.command_count < max_commands_per_session
      → db' ≡ reserved c fingerprint row db
      → Write own db db'
  settles :
      (row : CommandRow) (state : CommandState)
      → find command_key (row.session, row.message) db.commands ≡ some row
      → may_become row.state state ≡ true
      → db' ≡ record db { commands = put command_key (record row { state = state }) db.commands }
      → Write own db db'
  advance :
      (session key_id : String) (expected : ℕ) (grants : List DeviceGrant) (row : SessionRow)
      → Advances session key_id expected (find session_key session db.sessions) row
      → find key_epoch_key (session, key_id) db.key_epochs ≡ none
      → db' ≡ advanced session key_id grants row db
      → Write own db db'
  store_key :
      (row : SessionKeyRow) (receipts : List MembershipReceipt)
      → find wrapped_key (row.session, row.key_id) db.session_keys ≡ none
      → Receipted row db.receipts receipts
      → db' ≡ record db { session_keys = put wrapped_key row db.session_keys; receipts = receipts }
      → Write own db db'
  drop_device :
      (device : String) (devices : List DeviceRow)
      → ((d : String)
          → find_device_row d devices
            ≡ (if str_eq device d then none else find_device_row d db.devices))
      → ((s d : String)
          → find_grant s d (delete_device_grants device db.grants)
            ≡ (if str_eq device d then none else find_grant s d db.grants))
      → db' ≡ record db {
        devices = devices;
        grants = delete_device_grants device db.grants;
        session_keys = if str_eq own device then [] else db.session_keys;
        seal_budget = if str_eq own device then [] else db.seal_budget;
      }
      → Write own db db'

pub data Writes (own : String) (db : Db) : Db → Type 0 where
  here : Writes own db db
  next : {d e : Db} → Writes own db d → Write own d e → Writes own db e

pub Writes-trans : {own : String} {a b c : Db} → Writes own a b → Writes own b c → Writes own a c
Writes-trans v here = v
Writes-trans v (next w x) = next (Writes-trans v w) x

pub one : {own : String} {a b : Db} → Write own a b → Writes own a b
one w = next here w

-- The device rows after a removal.
pub find_device_row-delete :
    (device d : String) (rows : List DeviceRow)
    → find_device_row d (delete_device_row device rows)
      ≡ (if str_eq device d then none else find_device_row d rows)
unfolding delete_device_row find_device_row
find_device_row-delete device d [] = ground arith
find_device_row-delete device d (r ∷ rows) = ground (
  arith,
  find_device_row-delete device d rows,
  eq_iff r.device device,
  eq_iff r.device d,
  eq_iff device d,
)

-- What a transaction writes if it commits.
abbrev pub Commits : {A : Type 0} → String → Db → Result E2eeError (A × Db) → Type 0
Commits own db (ok (_, db')) = Writes own db db'
Commits own db (err _) = Unit

pub transact-Writes :
    {own : String} {A : Type 0} (f : Faults) (db : Db) (body : Result E2eeError (A × Db))
    → Commits own db body
    → Writes own db (transact f db body).1
transact-Writes f db (ok (a, db')) q = elim (Bool-cases (f begin)) [
  | inl b ↦ rw b here
  | inr b ↦ elim (Bool-cases (f commit)) [ inl c ↦ rw (b, c) here | inr c ↦ rw (b, c) q ]
]
transact-Writes f db (err e) q = elim (Bool-cases (f begin)) [
  | inl b ↦ rw b here
  | inr b ↦ rw b here
]

-- A change of grants in a transaction is one advance.
pub advance-Writes :
    {own : String} {db d : Db} (f : Faults) (s key : String) (e : ℕ) (gs : List DeviceGrant)
    → replace_grants_tx f s key e gs db ≡ ok d
    → Writes own db d
advance-Writes {db = db} {d = d} f s key e gs q =
    let (row, a, unused, after) = advance_sound f s key e gs db d q in
    one (advance s key e gs row a unused after)
