-- ===== src/E2ee/Tests.antt =====
-- Runs of the journal on a small endpoint: one session, one phone, one machine.
use agent_wharf.Prelude.{
  String, ℕ, ◌≡◌, refl, Bool, true, false, none, some, List, [], ◌∷◌, ok, done, not, str_eq, find,
  put, text_key, pair_key, pos, ◌⊎◌, ◌≢◌, ◌≤◌, ◌<◌, subst, if◌then◌else◌, arith, eq_iff,
}
use agent_wharf.E2ee.Db.{
  Bytes, Db, new_db, DeviceGrant, DeviceRow, SessionRow, CommandRow, claimed, completed,
  outcome_unknown, no_faults, find_grant, find_device, Faults, command_key, session_key,
  key_epoch_key, grant_rows, delete_session_grants, delete_device_grants,
}
use agent_wharf.E2ee.Admit.{
  Context, Envelope, Crypto, CommandAdmission, admit_validated, context_bytes, check_session,
  check_grant, open_and_reserve, reserve_or_report, reserve_command, finish, finish_row, reserved,
  may_become,
}
use agent_wharf.E2ee.Admit.Sound.{Executed, admit_sound}
use agent_wharf.E2ee.Session.{Machine}
use agent_wharf.E2ee.History.{Op, finishes, revokes, replaces, run, apply}
use agent_wharf.E2ee.History.Kinds.{Writes}
use agent_wharf.E2ee.History.Writes.{released, apply-Writes}
use agent_wharf.E2ee.History.Commands.{executes_once, command_row_kept}
use agent_wharf.E2ee.History.Epochs.{Inv, RowInv, Used, run-new_db-Inv}
use agent_wharf.E2ee.History.Keys.{keys_never_return}
use agent_wharf.E2ee.Grants.{
  replace_grants, replace_grants_tx, write_grants, advance_session, validate_grants, validate_each,
  seen,
}
use agent_wharf.E2ee.Grants.Valid.{ValidRequest}
use agent_wharf.E2ee.Grants.Advance.{
  Advances, advanced, replace_grants_sound, replace_grants_complete,
}
use agent_wharf.E2ee.Revoke.{
  revoke_device, delete_device_row, delete_wrapped_keys, delete_budget_rows,
}
use agent_wharf.E2ee.Revoke.Cut.{revoke_cuts}
use agent_wharf.E2ee.Session.{with_machine_control_grant, give_control}
use agent_wharf.E2ee.Executor.{
  Endpoint, Surroundings, ContentPacket, execute, ready, load, after_admit, deliver,
}
use agent_wharf.E2ee.Executor.Delivery.{
  Delivers, Admitted, execute-Delivers, execute_settles, delivered_once,
}

abbrev crypto : Crypto
crypto = record {
  identifier = λ s. not (str_eq s "");
  encode_texts = λ _. 1 ∷ [];
  encode_envelope = λ _. some (2 ∷ []);
  sha256 = λ b. b;
  open_envelope = λ _ _ _ _. ok (7 ∷ []);
}

abbrev eight : Bytes → Bytes
eight rest = 1 ∷ 2 ∷ 3 ∷ 4 ∷ 5 ∷ 6 ∷ 7 ∷ 8 ∷ rest

abbrev key32 : Bytes
key32 = eight (eight (eight (eight [])))

abbrev machine : Machine
machine = record { device = "machine"; signing_key = key32 }

abbrev phone : DeviceGrant
phone = record { device_id = "phone"; verify_key = key32; control = true }

abbrev command : Context
command = record {
  scope = "command";
  session = "s1";
  sender = "phone";
  key_id = "k1";
  message_id = "m1";
  kind = "session.send";
}

abbrev envelope : Envelope
envelope = record { nonce = "n"; ciphertext = "c"; signature = "s" }

abbrev row : SessionRow
row = record { session = "s1"; epoch = 1; key_id = "k1"; command_count = 0 }

abbrev db : Db
db = record new_db {
  sessions = row ∷ [];
  key_epochs = ("s1", "k1") ∷ [];
  grants = record { session = "s1"; grant = phone } ∷ [];
}

abbrev all : Bytes → Bool
all _ = true

abbrev fingerprint : Bytes
fingerprint = 1 ∷ 2 ∷ []

abbrev claimed_db : Db
claimed_db = reserved command fingerprint row db

abbrev first : CommandAdmission
first = record { execute = true; state = claimed }

admitted :
    admit_validated crypto no_faults all command key32 envelope db
    ≡ (ok (first, some (7 ∷ [])), claimed_db)
unfolding admit_validated context_bytes check_session check_grant open_and_reserve reserve_or_report
    reserve_command find put find_grant
admitted = refl

executes_once_example :
    released
      (admit_validated crypto no_faults all command key32 envelope (
        run crypto
          (λ _. true)
          machine
          ((no_faults, finishes "s1" "m1" completed) ∷ [])
          claimed_db)).0
    ≡ none
executes_once_example =
    executes_once crypto (λ _. true) machine no_faults all command key32 envelope db first (7 ∷ [])
      claimed_db ((no_faults, finishes "s1" "m1" completed) ∷ []) no_faults all command key32
      envelope admitted refl refl

admit_sound_example : Executed crypto all command key32 envelope db first (7 ∷ []) claimed_db
admit_sound_example =
    admit_sound crypto no_faults all command key32 envelope db first (7 ∷ []) claimed_db admitted

abbrev any_device : DeviceRow → Bool
any_device _ = true

apply-Writes_example :
    Writes "machine" db (apply crypto any_device machine no_faults (revokes "phone") db)
apply-Writes_example = apply-Writes crypto any_device machine no_faults (revokes "phone") db

abbrev claim_row : CommandRow
claim_row = record { session = "s1"; message = "m1"; fingerprint = fingerprint; state = claimed }

abbrev finishing : List (Faults × Op)
finishing = (no_faults, finishes "s1" "m1" completed) ∷ []

claim_found : find command_key ("s1", "m1") claimed_db.commands ≡ some claim_row
unfolding find put
claim_found = refl

command_row_kept_example :
    (row' : CommandRow) × (find command_key
        ("s1", "m1")
        (run crypto any_device machine finishing claimed_db).commands
      ≡ some row')
    × (row'.fingerprint ≡ claim_row.fingerprint)
    × (may_become claim_row.state row'.state ≡ true)
command_row_kept_example =
    command_row_kept crypto any_device machine finishing claimed_db "s1" "m1" claim_row claim_found

-- The first grants of a session, and the next.
abbrev founding : List (Faults × Op)
founding = (no_faults, replaces "s1" "k1" (pos 0) (phone ∷ [])) ∷ []

abbrev rekeying : List (Faults × Op)
rekeying = (no_faults, replaces "s1" "k2" (pos 1) (phone ∷ [])) ∷ []

founded : run crypto any_device machine founding new_db ≡ db
unfolding run apply replace_grants replace_grants_tx write_grants advance_session validate_grants
    validate_each seen find put grant_rows delete_session_grants
founded = refl

row_found :
    find session_key "s1" (run crypto any_device machine founding new_db).sessions ≡ some row
unfolding find
row_found = rw founded refl

run-new_db-Inv_example : RowInv (run crypto any_device machine founding new_db) "s1" row
run-new_db-Inv_example = run-new_db-Inv crypto any_device machine founding "s1" row row_found

db-Inv : Inv db
db-Inv = subst Inv founded (run-new_db-Inv crypto any_device machine founding)

used : Used db "s1" "k1"
unfolding find
used = refl

keys_never_return_example :
    (row' : SessionRow) × (find session_key "s1"
        (run crypto any_device machine rekeying db).sessions
      ≡ some row')
    × (((row'.epoch ≡ row.epoch)
          × (row'.key_id ≡ row.key_id)
          × (row.command_count ≤ row'.command_count))
        ⊎ ((row.epoch < row'.epoch) × (row'.key_id ≢ "k1")))
keys_never_return_example =
    keys_never_return crypto any_device machine rekeying db "s1" "k1" row db-Inv
      (subst (λ d. find session_key "s1" d.sessions ≡ some row) founded row_found) used

abbrev rekeyed_row : SessionRow
rekeyed_row = record row { epoch = 2; key_id = "k2" }

rekeyed :
    replace_grants crypto.identifier no_faults "s1" "k2" (pos 1) (phone ∷ []) db
    ≡ (done, advanced "s1" "k2" (phone ∷ []) rekeyed_row db)
unfolding replace_grants replace_grants_tx write_grants advance_session validate_grants
    validate_each seen find put grant_rows delete_session_grants
rekeyed = refl

replace_grants_sound_example :
    (expected : ℕ) × (row' : SessionRow) × (validate_grants crypto.identifier "s1" "k2"
        (pos 1)
        (phone ∷ [])
      ≡ ok expected)
    × Advances "s1" "k2" expected (find session_key "s1" db.sessions) row'
    × (find key_epoch_key ("s1", "k2") db.key_epochs ≡ none)
    × (advanced "s1" "k2" (phone ∷ []) rekeyed_row db ≡ advanced "s1" "k2" (phone ∷ []) row' db)
    × (find_grant "s1" "phone" (advanced "s1" "k2" (phone ∷ []) rekeyed_row db).grants ≡ (
        if str_eq "s1" "s1"
        then find_device "phone" (phone ∷ [])
        else find_grant "s1" "phone" db.grants))
replace_grants_sound_example =
    replace_grants_sound crypto.identifier no_faults "s1" "k2" (pos 1) (phone ∷ []) db
      (advanced "s1" "k2" (phone ∷ []) rekeyed_row db) "s1" "phone" rekeyed

rekey_valid : ValidRequest crypto.identifier "s1" "k2" 1 (phone ∷ [])
rekey_valid = record {
  session_identifier = refl;
  key_identifier = refl;
  exact = omega arith;
  some_grants = omega arith;
  few_grants = omega arith;
  each = (refl, refl, tt, tt);
}

keys_differ : str_eq "k1" "k2" ≢ true
keys_differ e = cc

rekey-Advances : Advances "s1" "k2" 1 (find session_key "s1" db.sessions) rekeyed_row
unfolding find
rekey-Advances = (refl, omega arith, (λ e. keys_differ ((eq_iff "k1" "k2").1 e)), refl)

rekey_unused : find key_epoch_key ("s1", "k2") db.key_epochs ≡ none
unfolding find
rekey_unused = refl

replace_grants_complete_example :
    (after : Db) × (replace_grants crypto.identifier no_faults "s1" "k2" (pos 1) (phone ∷ []) db
      ≡ (done, after))
    × ((t : String)
        → find session_key t after.sessions
          ≡ (if str_eq "s1" t then some rekeyed_row else find session_key t db.sessions))
    × (find key_epoch_key ("s1", "k2") after.key_epochs ≡ some ("s1", "k2"))
    × ((t d : String)
        → find_grant t d after.grants
          ≡ (if str_eq "s1" t then find_device d (phone ∷ []) else find_grant t d db.grants))
replace_grants_complete_example =
    replace_grants_complete crypto.identifier "s1" "k2" 1 (phone ∷ []) rekeyed_row db rekey_valid
      rekey-Advances rekey_unused

abbrev cut_db : Db
cut_db = record db { grants = [] }

cut : revoke_device crypto.identifier any_device no_faults machine "phone" db ≡ (done, cut_db)
unfolding revoke_device delete_device_grants delete_device_row delete_wrapped_keys
    delete_budget_rows
cut = refl

revoke_cuts_example :
    (find_grant "s1" "phone" cut_db.grants
      ≡ (if str_eq "phone" "phone" then none else find_grant "s1" "phone" db.grants))
    × (released (admit_validated crypto no_faults all command key32 envelope cut_db).0 ≡ none)
revoke_cuts_example =
    revoke_cuts crypto any_device no_faults machine "phone" db cut_db "s1" "phone" no_faults all
      command key32 envelope cut refl

abbrev own : DeviceGrant
own = record { device_id = "machine"; verify_key = key32; control = true }

kept : with_machine_control_grant machine (phone ∷ []) ≡ ok (phone ∷ own ∷ [])
unfolding with_machine_control_grant give_control
kept = refl

-- An endpoint whose packets always parse, with the key in the vault and a provider that accepts.
abbrev endpoint : Endpoint
endpoint = record {
  crypto = crypto;
  public_valid = λ _ _. true;
  open_plaintext = λ _ _ p. some p;
  unwrap_key = λ r. ok r.wrapped;
}

abbrev calm : Surroundings
calm = record {
  acquired = true;
  load_faults = no_faults;
  admit_faults = no_faults;
  cancelled = false;
  delivered = all;
  finish_faults = no_faults;
}

abbrev packet : ContentPacket
packet = record { version = 1; public = []; encrypted = envelope }

abbrev keyed_db : Db
keyed_db = record db {
  session_keys = record { session = "s1"; key_id = "k1"; wrapped = key32 } ∷ [];
}

executed_once : (execute endpoint calm command packet keyed_db).0.deliveries ≡ (7 ∷ []) ∷ []
unfolding execute ready load after_admit deliver admit_validated context_bytes check_session
    check_grant open_and_reserve reserve_or_report reserve_command find put find_grant finish
    finish_row
executed_once = refl

delivers : Delivers (execute endpoint calm command packet keyed_db).0
delivers = λ e. absurd (ground (arith, executed_once, e))

execute-Delivers_example : (d : Db) × Admitted endpoint calm command packet keyed_db d
execute-Delivers_example = execute-Delivers endpoint calm command packet keyed_db delivers

execute_settles_example :
    (payload : Bytes) × (row' : CommandRow) × ((execute endpoint calm command packet keyed_db).0
      ≡ record {
        admission = some (record { execute = true; state = row'.state });
        error = none;
        deliveries = payload ∷ [];
      })
    × (find command_key ("s1", "m1") (execute endpoint calm command packet keyed_db).1.commands
        ≡ some row')
    × (row'.state ≡ (if calm.delivered payload then completed else outcome_unknown))
execute_settles_example = execute_settles endpoint calm command packet keyed_db delivers refl

delivered_once_example :
    ¬ Delivers
      (execute endpoint calm command packet (
        run crypto any_device machine rekeying (execute endpoint calm command packet keyed_db).1)).0
delivered_once_example =
    delivered_once endpoint any_device machine calm calm command command packet packet keyed_db
      rekeying delivers refl refl
