-- ===== src/E2ee/Db.antt =====
-- experimental/e2ee/journal.go: the endpoint database, with one list of rows for each table.
-- An operation in an SQL transaction is a function from the tables to its result and the tables after
-- it: a rollback gives the old tables back. The driver is not part of the program: `Faults` says
-- which statements it lets fail (a full disk, an expired deadline), so every error path is reached.
use agent_wharf.Prelude.{
  ℕ, String, Bool, true, false, Option, none, some, List, [], ◌∷◌, Result, ok, err, str_eq,
  if◌then◌else◌, ◌≡◌, ◌↔◌, ◌==◌, ◌&&◌, arith,
}

pub data E2eeError : Type 0 where
  invalid unauthorized conflict capacity epoch_stale journal : E2eeError

abbrev pub Bytes : Type 0
Bytes = List ℕ

-- `bytes.Equal`
abbrev pub bytes_eq : Bytes → Bytes → Bool
bytes_eq [] [] = true
bytes_eq (x ∷ xs) (y ∷ ys) = x == y && bytes_eq xs ys
bytes_eq _ _ = false

pub bytes_eq_iff : (xs ys : Bytes) → (bytes_eq xs ys ≡ true) ↔ (xs ≡ ys)
bytes_eq_iff [] [] = ground arith
bytes_eq_iff [] (y ∷ ys) = ground arith
bytes_eq_iff (x ∷ xs) [] = ground arith
bytes_eq_iff (x ∷ xs) (y ∷ ys) =
    (λ h. ground (arith, bytes_eq_iff xs ys), λ h. ground (arith, bytes_eq_iff xs ys))

pub record DeviceGrant : Type 0 where
  pub device_id : String
  pub verify_key : Bytes
  pub control : Bool

-- `e2ee_local_sessions`
pub record SessionRow : Type 0 where
  pub session : String
  pub epoch : ℕ
  pub key_id : String
  pub command_count : ℕ

-- `e2ee_local_grants`
pub record GrantRow : Type 0 where
  pub session : String
  pub grant : DeviceGrant

pub data CommandState : Type 0 where
  claimed completed outcome_unknown : CommandState

-- `e2ee_local_commands`
pub record CommandRow : Type 0 where
  pub session : String
  pub message : String
  pub fingerprint : Bytes
  pub state : CommandState

-- `e2ee_membership_receipts`
pub record MembershipReceipt : Type 0 where
  pub session : String
  pub epoch : ℕ
  pub key_id : String
  pub request_hash : Bytes

-- `e2ee_session_keys`, of the vault's own device
pub record SessionKeyRow : Type 0 where
  pub session : String
  pub key_id : String
  pub wrapped : Bytes

-- `e2ee_seal_budget`, of the vault's own device
pub record SealRow : Type 0 where
  pub session : String
  pub key_id : String
  pub used : ℕ

-- `e2ee_devices`, of one machine and account
pub record DeviceRow : Type 0 where
  pub device : String
  pub signing_key : Bytes
  pub trusted : Bool

pub record Db : Type 0 where
  pub sessions : List SessionRow
  pub key_epochs : List (String × String)
  pub grants : List GrantRow
  pub receipts : List MembershipReceipt
  pub commands : List CommandRow
  pub session_keys : List SessionKeyRow
  pub seal_budget : List SealRow
  pub devices : List DeviceRow

-- The tables as `NewCommandJournal`, `NewSessionKeyVault` and `NewDeviceRegistry` create them.
abbrev pub new_db : Db
new_db = record {
  sessions = [];
  key_epochs = [];
  grants = [];
  receipts = [];
  commands = [];
  session_keys = [];
  seal_budget = [];
  devices = [];
}

-- The statements that may fail, by what they do.
pub data Site : Type 0 where
  begin commit write_session write_key_epoch delete_grants insert_grant reserve read_session
        read_grant read_command count_command insert_command update_command write_key read_receipt
        write_receipt read_device delete_device delete_keys delete_budget write_budget read_budget :
      Site

abbrev pub Faults : Type 0
Faults = Site → Bool

abbrev pub no_faults : Faults
no_faults _ = false

-- `if err != nil { return ErrJournal }` after a statement.
abbrev pub statement : {A : Type 0} → Faults → Site → Result E2eeError A → Result E2eeError A
statement faults site rest = if faults site then err journal else rest

-- A transaction: the new tables if it commits, else the old ones.
abbrev pub transact :
    {A : Type 0} → Faults → Db → Result E2eeError (A × Db) → Result E2eeError A × Db
transact faults db body = if faults begin then (err journal, db) else elim body [
  | err e ↦ (err e, db)
  | ok (a, db') ↦ (if faults commit then (err journal, db) else (ok a, db'))
]

abbrev pub session_key : SessionRow → String
session_key r = r.session

abbrev pub command_key : CommandRow → String × String
command_key r = (r.session, r.message)

abbrev pub key_epoch_key : String × String → String × String
key_epoch_key r = r

abbrev pub wrapped_key : SessionKeyRow → String × String
wrapped_key r = (r.session, r.key_id)

abbrev pub receipt_key : MembershipReceipt → String
receipt_key r = r.session

-- `SELECT … FROM e2ee_local_grants WHERE session = ? AND device = ?`
unfoldable pub find_grant : String → String → List GrantRow → Option DeviceGrant
find_grant session device [] = none
find_grant session device (g ∷ gs) =
    if str_eq g.session session && str_eq g.grant.device_id device
    then some g.grant
    else find_grant session device gs

-- `DELETE FROM e2ee_local_grants WHERE session = ?`
unfoldable pub delete_session_grants : String → List GrantRow → List GrantRow
delete_session_grants session [] = []
delete_session_grants session (g ∷ gs) =
    let rest = delete_session_grants session gs in
    if str_eq g.session session then rest else g ∷ rest

-- `DELETE FROM e2ee_local_grants WHERE device = ?`
unfoldable pub delete_device_grants : String → List GrantRow → List GrantRow
delete_device_grants device [] = []
delete_device_grants device (g ∷ gs) =
    let rest = delete_device_grants device gs in
    if str_eq g.grant.device_id device then rest else g ∷ rest

-- `SELECT … FROM e2ee_local_grants WHERE session = ?`, in the order of the table.
unfoldable pub select_grants : String → List GrantRow → List DeviceGrant
select_grants session [] = []
select_grants session (g ∷ gs) =
    let rest = select_grants session gs in if str_eq g.session session then g.grant ∷ rest else rest

-- A grant in a list of grants, by its device.
unfoldable pub find_device : String → List DeviceGrant → Option DeviceGrant
find_device device [] = none
find_device device (g ∷ gs) = if str_eq g.device_id device then some g else find_device device gs

-- The rows of the `INSERT INTO e2ee_local_grants` loop.
unfoldable pub grant_rows : String → List DeviceGrant → List GrantRow
grant_rows session [] = []
grant_rows session (g ∷ gs) = record { session = session; grant = g } ∷ grant_rows session gs
