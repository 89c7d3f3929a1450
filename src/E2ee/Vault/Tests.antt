-- ===== src/E2ee/Vault/Tests.antt =====
-- One session key and its budget.
use agent_wharf.Prelude.{
  List, ◌+◌, ◌≤◌, String, ◌≡◌, refl, sym, true, false, some, none, [], ◌∷◌, Result, ok, done, arith,
  find, text_key, pair_key,
}
use agent_wharf.E2ee.Db.{Bytes, Db, E2eeError, new_db, no_faults, wrapped_key}
use agent_wharf.E2ee.Admit.{Context, Crypto}
use agent_wharf.E2ee.Executor.{ContentPacket, Endpoint}
use agent_wharf.E2ee.Vault.{SealWorld, create, max_endpoint_seals_per_key}
use agent_wharf.E2ee.Vault.Keys.{Creation, Kept, create_load}
use agent_wharf.E2ee.Vault.Budget.{used, run_seals, packets, seals_bounded}

abbrev crypto : Crypto
crypto = record {
  identifier = λ _. true;
  encode_texts = λ _. [];
  encode_envelope = λ _. some [];
  sha256 = λ _. [];
  open_envelope = λ _ _ _ _. ok [];
}

abbrev endpoint : Endpoint
endpoint = record {
  crypto = crypto;
  public_valid = λ _ _. true;
  open_plaintext = λ _ _ b. some b;
  unwrap_key = λ row. ok row.wrapped;
}

-- A wrapping that hides nothing.
abbrev wrap : String → String → Bytes → Result E2eeError Bytes
wrap s k key = ok key

no_key : find wrapped_key ("s1", "k1") new_db.session_keys ≡ none
unfolding find
no_key = refl

-- A creation under another name, and one under the same name.
abbrev creations : List Creation
creations =
    record {
      faults = no_faults;
      load_faults = no_faults;
      random = ok (9 ∷ []);
      session = "s2";
      key_id = "k1";
    }
    ∷ record {
      faults = no_faults;
      load_faults = no_faults;
      random = ok (8 ∷ []);
      session = "s1";
      key_id = "k1";
    }
    ∷ []

create_load_example :
    Kept endpoint wrap creations no_faults no_faults "s1" "k1"
      (7 ∷ [])
      (7 ∷ [])
      (ok (8 ∷ []))
      new_db
      (create endpoint wrap no_faults no_faults (ok (7 ∷ [])) "s1" "k1" new_db).0
      (create endpoint wrap no_faults no_faults (ok (7 ∷ [])) "s1" "k1" new_db).1
create_load_example =
    create_load endpoint wrap (λ s k key wrapped e. sym e) no_faults no_faults no_faults no_faults
      "s1" "k1" (7 ∷ []) (7 ∷ []) (ok (8 ∷ [])) creations new_db refl refl refl refl refl refl
      no_key

abbrev sealing : Db
sealing = record new_db {
  sessions = record { session = "s1"; epoch = 1; key_id = "k1"; command_count = 0 } ∷ [];
  session_keys = record { session = "s1"; key_id = "k1"; wrapped = 7 ∷ [] } ∷ [];
}

abbrev event : Context
event = record {
  scope = "event";
  session = "s1";
  sender = "d1";
  key_id = "k1";
  message_id = "m1";
  kind = "message";
}

abbrev packet : ContentPacket
packet = record {
  version = 1;
  public = [];
  encrypted = record { nonce = ""; ciphertext = ""; signature = "" };
}

abbrev world : SealWorld
world = record {
  projection = done;
  load_faults = no_faults;
  faults = no_faults;
  late = false;
  seals = λ _. ok packet;
}

unused : used "s1" "k1" sealing ≡ 0
unfolding find
unused = refl

seals_bounded_example :
    (packets endpoint "d1" "s1" "k1" ((world, event) ∷ []) sealing + used "s1" "k1" sealing
      ≤ used "s1" "k1" (run_seals endpoint "d1" ((world, event) ∷ []) sealing))
    × (used "s1" "k1" (run_seals endpoint "d1" ((world, event) ∷ []) sealing)
        ≤ max_endpoint_seals_per_key)
seals_bounded_example =
    seals_bounded endpoint "d1" "s1" "k1" ((world, event) ∷ []) sealing (omega (arith, unused))
