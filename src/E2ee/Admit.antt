-- ===== src/E2ee/Admit.antt =====
-- experimental/e2ee/journal.go: `Admit` and `Finish`, and `Context.bytes` of content.go.
pub mod Sound
use agent_wharf.Prelude.{
  ℕ, ◌+◌, String, Bool, true, false, ◌||◌, ◌&&◌, Option, none, some, List, [], ◌∷◌, ◌++◌, Result,
  ok, err, Outcome, done, ◌>>=◌, ◌>>◌, str_eq, if◌then◌else◌, not, ltb, find, put, text_key,
  pair_key,
}
use agent_wharf.E2ee.Db.{
  E2eeError, invalid, unauthorized, conflict, capacity, epoch_stale, journal, Bytes, bytes_eq,
  DeviceGrant, SessionRow, CommandState, claimed, completed, outcome_unknown, CommandRow, Db,
  Faults, statement, session_key, command_key, find_grant, begin, commit, reserve, read_session,
  read_grant, read_command, count_command, insert_command, update_command,
}

abbrev pub max_commands_per_session : ℕ
max_commands_per_session = 4096

pub record Context : Type 0 where
  pub scope : String
  pub session : String
  pub sender : String
  pub key_id : String
  pub message_id : String
  pub kind : String

pub record Envelope : Type 0 where
  pub nonce : String
  pub ciphertext : String
  pub signature : String

pub record CommandAdmission : Type 0 where
  pub execute : Bool
  pub state : CommandState

-- What the journal takes from elsewhere: `identifier.MatchString` of the regexp package, the JSON
-- encoder, SHA-256, and `Open` of content.go, which decrypts and checks the signature.
pub record Crypto : Type 0 where
  pub identifier : String → Bool
  pub encode_texts : List String → Bytes
  pub encode_envelope : Envelope → Option Bytes
  pub sha256 : Bytes → Bytes
  pub open_envelope : Context → Bytes → Bytes → Envelope → Result E2eeError Bytes

-- `Context.bytes`
unfoldable pub context_bytes : Crypto → Context → Result E2eeError Bytes
context_bytes k c =
    if not (str_eq c.scope "command")
      && not (str_eq c.scope "event")
      && not (str_eq c.scope "launch")
    then err invalid
    else if k.identifier c.scope
        && k.identifier c.session
        && k.identifier c.sender
        && k.identifier c.key_id
        && k.identifier c.message_id
        && k.identifier c.kind
    then ok (
        k.encode_texts (
          "agentwharf.e2ee.prototype.v1" ∷ c.scope ∷ c.session ∷ c.sender ∷ c.key_id ∷ c.message_id
          ∷ c.kind ∷ []))
    else err invalid

-- The result of an admission, with the plaintext and the new tables if the command is reserved.
abbrev pub Reservation : Type 0
Reservation = Result E2eeError (CommandAdmission × Option (Bytes × Db))

-- A claimed command that is met again has an unknown outcome.
abbrev pub reported : CommandState → CommandState
reported claimed = outcome_unknown
reported s = s

-- The tables with the command counted and claimed.
abbrev pub reserved : Context → Bytes → SessionRow → Db → Db
reserved c fingerprint row db = record db {
  sessions = put session_key (record row { command_count = row.command_count + 1 }) db.sessions;
  commands =
      put command_key
        (record {
          session = c.session;
          message = c.message_id;
          fingerprint = fingerprint;
          state = claimed;
        })
        db.commands;
}

-- The `command_count` update and the insert, for a command with no row.
unfoldable pub reserve_command :
    Faults → Context → Bytes → Bytes → Db → Option SessionRow → Reservation
reserve_command faults c plaintext fingerprint db none =
    statement faults count_command (err capacity)
reserve_command faults c plaintext fingerprint db (some row) = statement faults count_command (
    if ltb row.command_count max_commands_per_session
    then statement faults insert_command (
        ok (
          record { execute = true; state = claimed },
          some (plaintext, reserved c fingerprint row db),
        ))
    else err capacity)

-- The command's row decides: none yet, or one of an earlier admission.
unfoldable pub reserve_or_report :
    Faults → Context → Bytes → Bytes → Db → Option CommandRow → Reservation
unfolding reserve_command
reserve_or_report faults c plaintext fingerprint db (some row) = statement faults read_command (
    if not (bytes_eq row.fingerprint fingerprint)
    then err conflict
    else ok (record { execute = false; state = reported row.state }, none))
reserve_or_report faults c plaintext fingerprint db none =
    statement faults read_command
      (reserve_command faults c plaintext fingerprint db (find session_key c.session db.sessions))

-- From the decryption on; `validate` is the caller's check of the plaintext.
unfoldable pub open_and_reserve :
    Crypto
    → Faults
    → (Bytes → Bool)
    → Context
    → Bytes
    → Bytes
    → Envelope
    → Db
    → DeviceGrant
    → Reservation
unfolding reserve_or_report
open_and_reserve k faults validate c aad key envelope db g =
    k.open_envelope c key g.verify_key envelope >>= λ plaintext.
    if not (validate plaintext) then err invalid else elim (k.encode_envelope envelope) [
      | none ↦ err invalid
      | some wire ↦
          reserve_or_report faults c plaintext (k.sha256 (aad ++ wire)) db
            (find command_key (c.session, c.message_id) db.commands)
    ]

-- The sender's grant.
unfoldable pub check_grant :
    Crypto
    → Faults
    → (Bytes → Bool)
    → Context
    → Bytes
    → Bytes
    → Envelope
    → Db
    → Option DeviceGrant
    → Reservation
unfolding open_and_reserve
check_grant k faults validate c aad key envelope db none =
    statement faults read_grant (err unauthorized)
check_grant k faults validate c aad key envelope db (some g) = statement faults read_grant (
    if not g.control
    then err unauthorized
    else open_and_reserve k faults validate c aad key envelope db g)

-- The session's row, which must be keyed by the command's key.
unfoldable pub check_session :
    Crypto
    → Faults
    → (Bytes → Bool)
    → Context
    → Bytes
    → Bytes
    → Envelope
    → Db
    → Option SessionRow
    → Reservation
unfolding check_grant
check_session k faults validate c aad key envelope db none =
    statement faults reserve (err unauthorized)
check_session k faults validate c aad key envelope db (some row) = statement faults reserve (
    if not (str_eq row.key_id c.key_id)
    then (if not (str_eq c.key_id "") && not (faults read_session)
        then err epoch_stale
        else err unauthorized)
    else check_grant k faults validate c aad key envelope db
        (find_grant c.session c.sender db.grants))

-- The transaction of an admission: only a reservation commits.
abbrev pub settle :
    Faults → Db → Reservation → Result E2eeError (CommandAdmission × Option Bytes) × Db
settle faults db (err e) = (err e, db)
settle faults db (ok (a, none)) = (ok (a, none), db)
settle faults db (ok (a, some (plaintext, db'))) =
    if faults commit then (err journal, db) else (ok (a, some plaintext), db')

-- `admitValidated`; `Admit` is the case where `validate` accepts everything.
unfoldable pub admit_validated :
    Crypto
    → Faults
    → (Bytes → Bool)
    → Context
    → Bytes
    → Envelope
    → Db
    → Result E2eeError (CommandAdmission × Option Bytes) × Db
admit_validated k faults validate c key envelope db =
    if not (str_eq c.scope "command") && not (str_eq c.scope "launch")
    then (err invalid, db)
    else elim (context_bytes k c) [
      | err e ↦ (err e, db)
      | ok aad ↦
          (if faults begin
            then (err journal, db)
            else settle faults db (
                check_session k faults validate c aad key envelope db
                  (find session_key c.session db.sessions)))
    ]

-- `CommandJournal.Admit`
abbrev pub admit :
    Crypto
    → Faults
    → Context
    → Bytes
    → Envelope
    → Db
    → Result E2eeError (CommandAdmission × Option Bytes) × Db
admit k faults = admit_validated k faults (λ _. true)

-- `state IN ('claimed', ?)`
abbrev pub may_become : CommandState → CommandState → Bool
may_become claimed _ = true
may_become completed completed = true
may_become outcome_unknown outcome_unknown = true
may_become _ _ = false

abbrev pub is_final : CommandState → Bool
is_final claimed = false
is_final _ = true

-- `CommandJournal.Finish`; the column holds no fourth state, and the code refuses `claimed` too.
unfoldable pub finish_row : CommandState → Db → Option CommandRow → Outcome E2eeError × Db
finish_row state db none = (err conflict, db)
finish_row state db (some row) =
    if may_become row.state state
    then (done, record db { commands = put command_key (record row { state = state }) db.commands })
    else (err conflict, db)

unfoldable pub finish :
    Crypto → Faults → String → String → CommandState → Db → Outcome E2eeError × Db
finish k faults session message state db =
    if not (k.identifier session) || not (k.identifier message) || not (is_final state)
    then (err invalid, db)
    else if faults update_command
    then (err journal, db)
    else finish_row state db (find command_key (session, message) db.commands)
