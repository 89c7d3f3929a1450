-- ===== src/E2ee/Vault.antt =====
-- experimental/e2ee/keyvault.go, event_sealer.go and rotation.go: the session keys of a device, and the
-- durable budget of seals under each.
-- Wrapping, unwrapping and sealing are functions given to the definitions, and so is the random key.
use agent_wharf.Prelude.{
  ℕ, suc, ◌+◌, String, Bool, true, false, not, ◌&&◌, ◌||◌, Option, none, some, List, [], ◌∷◌,
  Result, Outcome, ok, err, done, str_eq, ltb, if◌then◌else◌, find, put, text_key, pair_key, ◌==◌,
}
use agent_wharf.E2ee.Db.{
  E2eeError, invalid, unauthorized, conflict, capacity, journal, Bytes, SessionRow, SessionKeyRow,
  SealRow, Db, Faults, begin, commit, reserve, write_key, write_budget, read_budget, statement,
  transact, session_key, wrapped_key,
}
use agent_wharf.E2ee.Admit.{Context, context_bytes}
use agent_wharf.E2ee.Executor.{ContentPacket, Endpoint, load}
pub mod Keys
pub mod Budget
mod Tests

-- `MaxEndpointSealsPerKey`
abbrev pub max_endpoint_seals_per_key : ℕ
max_endpoint_seals_per_key = 16_384

abbrev pub budget_key : SealRow → String × String
budget_key r = (r.session, r.key_id)

-- `INSERT INTO e2ee_session_keys … ON CONFLICT DO NOTHING`
unfoldable pub insert_key : SessionKeyRow → List SessionKeyRow → List SessionKeyRow
insert_key row rows = elim (find wrapped_key (row.session, row.key_id) rows) [
  | some _ ↦ rows
  | none ↦ put wrapped_key row rows
]

-- `Create`: `random` is the new key, and `wrap` what `WrapKey` makes of it for this device.
unfoldable pub create :
    Endpoint
    → (String → String → Bytes → Result E2eeError Bytes)
    → Faults
    → Faults
    → Result E2eeError Bytes
    → String
    → String
    → Db
    → Result E2eeError Bytes × Db
create p wrap faults load_faults random session key_id db =
    if not (p.crypto.identifier session) || not (p.crypto.identifier key_id)
    then (err invalid, db)
    else elim random [
      | err e ↦ (err e, db)
      | ok key ↦ elim (wrap session key_id key) [
        | err e ↦ (err e, db)
        | ok wrapped ↦
            (let row : SessionKeyRow = record {
              session = session;
              key_id = key_id;
              wrapped = wrapped;
            } in
              if faults write_key
              then (err journal, db)
              else (let db' : Db = record db { session_keys = insert_key row db.session_keys } in
                  (load p load_faults session key_id db', db')))
      ]
    ]

-- `UPDATE e2ee_local_sessions … WHERE session = ? AND key_id = ?` finds its row.
abbrev pub is_current : String → String → Db → Bool
is_current session key_id db = elim (find session_key session db.sessions) [
  | none ↦ false
  | some row ↦ str_eq row.key_id key_id
]

-- `INSERT INTO e2ee_seal_budget … ON CONFLICT DO UPDATE … WHERE used < ?`: `none` if it changes no row.
unfoldable pub use_budget : String → String → List SealRow → Option (List SealRow)
use_budget session key_id rows = elim (find budget_key (session, key_id) rows) [
  | none ↦ some (put budget_key (record { session = session; key_id = key_id; used = 1 }) rows)
  | some row ↦
      (if ltb row.used max_endpoint_seals_per_key
        then some (put budget_key (record row { used = suc row.used }) rows)
        else none)
]

-- Lines 36 to 60 of `SealEvent`: the reservation.
unfoldable pub reserve_seal : Faults → String → String → Db → Outcome E2eeError × Db
unfolding use_budget
reserve_seal faults session key_id db = transact faults db (
    if faults reserve
    then err journal
    else if not (is_current session key_id db)
    then err unauthorized
    else if faults write_budget
    then err journal
    else elim (use_budget session key_id db.seal_budget) [
      | none ↦ err capacity
      | some rows ↦ ok (tt, record db { seal_budget = rows })
    ])

-- What one seal meets: the projection of the public metadata (`ok` unless it fails), the two sets of
-- failing statements, whether the deadline has passed when the reservation is made, and the packet.
pub record SealWorld : Type 0 where
  pub projection : Outcome E2eeError
  pub load_faults : Faults
  pub faults : Faults
  pub late : Bool
  pub seals : Bytes → Result E2eeError ContentPacket

-- Lines 61 to 66 of `SealEvent`, after the reservation.
abbrev pub seal_after :
    SealWorld → Bytes → Outcome E2eeError × Db → Result E2eeError ContentPacket × Db
seal_after w key (err e, db) = (err e, db)
seal_after w key (ok _, db) = if w.late then (err journal, db) else (w.seals key, db)

-- `SealEvent`
unfoldable pub seal_event :
    Endpoint → String → SealWorld → Context → Db → Result E2eeError ContentPacket × Db
unfolding context_bytes load reserve_seal
seal_event p device w c db =
    if not (str_eq c.scope "event") || not (str_eq c.sender device)
    then (err unauthorized, db)
    else elim (context_bytes p.crypto c) [
      | err e ↦ (err e, db)
      | ok _ ↦ elim w.projection [
        | err e ↦ (err e, db)
        | ok _ ↦ elim (load p w.load_faults c.session c.key_id db) [
          | err e ↦ (err e, db)
          | ok key ↦ seal_after w key (reserve_seal w.faults c.session c.key_id db)
        ]
      ]
    ]

-- `SELECT COALESCE((SELECT b.used … JOIN … WHERE …), 0)`
unfoldable pub budget_used : String → Db → ℕ
budget_used session db = elim (find session_key session db.sessions) [
  | none ↦ 0
  | some row ↦ elim (find budget_key (session, row.key_id) db.seal_budget) [
    | none ↦ 0
    | some b ↦ b.used
  ]
]

-- `SealsUsed`; the vault is not nil.
unfoldable pub seals_used : (String → Bool) → Faults → String → Db → Result E2eeError ℕ
unfolding budget_used
seals_used identifier faults session db =
    if not (identifier session)
    then err invalid
    else statement faults read_budget (ok (budget_used session db))
