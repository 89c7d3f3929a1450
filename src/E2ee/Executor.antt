-- ===== src/E2ee/Executor.antt =====
-- experimental/e2ee/executor.go: `Execute`, with `SessionKeyVault.Load` of keyvault.go.
use agent_wharf.Prelude.{
  ℕ, String, Bool, true, false, ◌||◌, ◌&&◌, Option, none, some, List, [], ◌∷◌, Result, ok, err,
  Outcome, done, str_eq, if◌then◌else◌, not, ◌==◌, find, text_key, pair_key,
}
use agent_wharf.E2ee.Db.{
  E2eeError, invalid, unauthorized, journal, Bytes, CommandState, claimed, completed,
  outcome_unknown, SessionKeyRow, Db, Faults, statement, wrapped_key, read_session,
}
use agent_wharf.E2ee.Admit.{Context, Envelope, CommandAdmission, Crypto, admit_validated, finish}
pub mod Delivery

pub record ContentPacket : Type 0 where
  pub version : ℕ
  pub public : Bytes
  pub encrypted : Envelope

-- What the executor takes from packet.go and keywrap.go: the validation of the public metadata, the
-- payload inside an opened packet (`none` is an error), and the unwrapping of a stored key.
pub record Endpoint : Type 0 where
  pub crypto : Crypto
  pub public_valid : String → Bytes → Bool
  pub open_plaintext : String → Bytes → Bytes → Option Bytes
  pub unwrap_key : SessionKeyRow → Result E2eeError Bytes

-- How the surroundings of one execution behave.
pub record Surroundings : Type 0 where
  -- the lane was taken before the deadline, and the deadline had not passed
  pub acquired : Bool
  pub load_faults : Faults
  pub admit_faults : Faults
  -- the context was done when the command had been claimed
  pub cancelled : Bool
  -- the provider delivery returned nil
  pub delivered : Bytes → Bool
  pub finish_faults : Faults

-- The returned admission and error, and the payloads handed to the provider.
pub record Execution : Type 0 where
  pub admission : Option CommandAdmission
  pub error : Option E2eeError
  pub deliveries : List Bytes

-- `SessionKeyVault.Load`
unfoldable pub load : Endpoint → Faults → String → String → Db → Result E2eeError Bytes
load p faults session key_id db =
    if not (p.crypto.identifier session) || not (p.crypto.identifier key_id)
    then err invalid
    else statement faults read_session (elim (find wrapped_key (session, key_id) db.session_keys) [
      | none ↦ err unauthorized
      | some row ↦ p.unwrap_key row
    ])

-- The command types that `Execute` accepts.
abbrev pub executable : String → Bool
executable kind =
    str_eq kind "session.send"
    || str_eq kind "permission.respond"
    || str_eq kind "session.interrupt"
    || str_eq kind "session.stop"
    || str_eq kind "session.settings.change"
    || str_eq kind "session.membership.change"
    || str_eq kind "session.file.read"
    || str_eq kind "session.file.list"

abbrev pub is_some : {A : Type 0} → Option A → Bool
is_some none = false
is_some (some _) = true

-- The check that `Execute` gives to `admitValidated`.
abbrev pub opens : Endpoint → Context → ContentPacket → Bytes → Bool
opens p c packet plaintext = is_some (p.open_plaintext c.kind packet.public plaintext)

abbrev pub failed : E2eeError → Execution
failed e = record { admission = none; error = some e; deliveries = [] }

-- The state to record after a delivery was tried.
abbrev pub delivery_state : Surroundings → Bytes → CommandState
delivery_state w payload =
    if w.cancelled || not (w.delivered payload) then outcome_unknown else completed

-- From the claim on, with the payload of the command. A cancelled context skips the delivery.
unfoldable pub deliver : Endpoint → Surroundings → Context → Bytes → Db → Execution × Db
deliver p w c payload db =
    let state = delivery_state w payload in
    let tried : List Bytes = if w.cancelled then [] else payload ∷ [] in
    let (o, db') = finish p.crypto w.finish_faults c.session c.message_id state db in
    elim o [
      | err e ↦ (
        record {
          admission = some (record { execute = false; state = outcome_unknown });
          error = some e;
          deliveries = tried;
        },
        db',
      )
      | ok _ ↦ (
        record {
          admission = some (record { execute = true; state = state });
          error = none;
          deliveries = tried;
        },
        db',
      )
    ]

-- What follows an admission.
unfoldable pub after_admit :
    Endpoint
    → Surroundings
    → Context
    → ContentPacket
    → Result E2eeError (CommandAdmission × Option Bytes)
    → Db
    → Execution × Db
after_admit p w c packet (err e) db = (failed e, db)
after_admit p w c packet (ok (a, none)) db =
    (record { admission = some a; error = none; deliveries = [] }, db)
after_admit p w c packet (ok (a, some plaintext)) db =
    elim (p.open_plaintext c.kind packet.public plaintext) [
      | none ↦ (failed invalid, db)
      | some payload ↦ deliver p w c payload db
    ]

-- The checks of `Execute` and the loading of the session's key.
unfoldable pub ready :
    Endpoint → Surroundings → Context → ContentPacket → Db → Result E2eeError Bytes
unfolding load
ready p w c packet db =
    if not (str_eq c.scope "command")
      || not (packet.version == 1)
      || not (p.public_valid c.kind packet.public)
    then err invalid
    else if not (executable c.kind)
    then err invalid
    else if not w.acquired
    then err journal
    else load p w.load_faults c.session c.key_id db

-- `CommandExecutor.Execute`
unfoldable pub execute : Endpoint → Surroundings → Context → ContentPacket → Db → Execution × Db
execute p w c packet db = elim (ready p w c packet db) [
  | err e ↦ (failed e, db)
  | ok key ↦
      (let (o, db') =
          admit_validated p.crypto w.admit_faults (opens p c packet) c key packet.encrypted db in
        after_admit p w c packet o db')
]
