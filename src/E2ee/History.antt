-- ===== src/E2ee/History.antt =====
-- Histories of journal calls, with any faults, and what they keep.
use agent_wharf.Prelude.{ℕ, String, Bool, List, [], ◌∷◌, Option, Result, Outcome, ℤ}
use agent_wharf.E2ee.Db.{E2eeError, Bytes, DeviceGrant, DeviceRow, CommandState, Db, Faults}
use agent_wharf.E2ee.Grants.{replace_grants}
use agent_wharf.E2ee.Admit.{Context, Envelope, Crypto, admit_validated, finish}
use agent_wharf.E2ee.Session.{
  Machine, MembershipAuthorization, transition_session, rotate_session, initialize_local_session,
}
use agent_wharf.E2ee.Revoke.{revoke_device, revoke_trusted_terminals}
pub mod Kinds
pub mod Writes
pub mod Commands
pub mod Epochs
pub mod Keys

-- One call on the journal or the registry of an endpoint, or one that moves a session to a new key;
-- the creation of a key alone and the seals are in Vault.
pub data Op : Type 0 where
  admits : (Bytes → Bool) → Context → Bytes → Envelope → Op
  finishes : String → String → CommandState → Op
  replaces : String → String → ℤ → List DeviceGrant → Op
  transitions :
      String
      → String
      → ℤ
      → List DeviceGrant
      → Result E2eeError Bytes
      → Option MembershipAuthorization
      → Op
  rotates : String → String → Result E2eeError Bytes → Op
  initializes : String → String → Result E2eeError Bytes → Op
  revokes : String → Op
  revokes_trusted : (String → String × Result E2eeError Bytes) → Op

module _ (k : Crypto) (valid_identity : DeviceRow → Bool) (m : Machine) where
  -- The tables after a call. A process that dies between two calls leaves them as they are.
  unfoldable pub apply : Faults → Op → Db → Db
  apply f (admits validate c key envelope) db = (admit_validated k f validate c key envelope db).1
  apply f (finishes session message state) db = (finish k f session message state db).1
  apply f (replaces session key_id epoch grants) db =
      (replace_grants k.identifier f session key_id epoch grants db).1
  apply f (transitions session key_id epoch grants wrapped membership) db =
      (transition_session k.identifier f session key_id epoch grants wrapped membership db).1
  apply f (rotates session key_id wrapped) db =
      (rotate_session k.identifier f m session key_id wrapped db).1
  apply f (initializes session key_id wrapped) db =
      (initialize_local_session k.identifier f m session key_id wrapped db).1
  apply f (revokes device) db = (revoke_device k.identifier valid_identity f m device db).1
  apply f (revokes_trusted fresh) db =
      (revoke_trusted_terminals k.identifier valid_identity f m fresh db).1

  unfoldable pub run : List (Faults × Op) → Db → Db
  run [] db = db
  run ((f, op) ∷ ops) db = run ops (apply f op db)
