-- ===== src/Adapter/Rotation/Tests.antt =====
-- Runs of one credential lineage.
use agent_wharf.Prelude.{
  ℕ, ◌≡◌, refl, ◌⊎◌, inl, ◌≤◌, ◌||◌, ◌≢◌, String, true, false, List, [], ◌∷◌, some, none, ok, is_ok,
  arith, eq_iff, str_eq,
}
use agent_wharf.Adapter.Credential.{SessionCredential, validate}
use agent_wharf.Adapter.Rotation.{
  CredentialRotation, Call, prepares, reconnects, retries, new_credential_rotation, authority,
  authorize, recovery_permit, step, run,
}
use agent_wharf.Adapter.Rotation.Invariant.{Inv, generation_of, step-Inv, run-new-Inv}
use agent_wharf.Adapter.Rotation.Authority.{Lost, Lost-forever, run_monotone, rotated}

abbrev credential : ℕ → SessionCredential
credential generation = record {
  bearer = "b";
  metadata = record {
    session_id = "s1";
    lineage = record { kind = "attach"; attach_id = "a"; jti = "j" };
    generation = generation;
    expires_at = 1000;
  };
}

abbrev lineage : CredentialRotation
lineage = record {
  session_id = "s1";
  epoch = 1;
  active = some (credential 1);
  prior = none;
  pending = none;
  active_rotation_id = "";
  prior_recovery_until = 0;
  revoked = false;
  terminal = false;
  authority_lost = false;
}

created : new_credential_rotation 0 "s1" (some (credential 1)) 1 ≡ ok lineage
unfolding new_credential_rotation validate
created = refl

abbrev calls : List Call
calls = prepares 1 1 "r1" (some (credential 2)) ∷ reconnects 2 5 1 ∷ []

run-new-Inv_example : Inv (run calls lineage)
run-new-Inv_example = run-new-Inv 0 "s1" (some (credential 1)) 1 lineage calls created

lineage-Inv : Inv lineage
unfolding run
lineage-Inv = run-new-Inv 0 "s1" (some (credential 1)) 1 lineage [] created

step-Inv_example : Inv (step (reconnects 2 5 1) lineage).1
step-Inv_example = step-Inv (reconnects 2 5 1) lineage lineage-Inv

abbrev lost : CredentialRotation
lost = record lineage { authority_lost = true }

Lost-forever_example : Lost (run calls lost) × ((step (retries 3 "r1") (run calls lost)).0 ≡ false)
Lost-forever_example = Lost-forever lost calls (retries 3 "r1") refl refl

run_monotone_example :
    (1 ≤ (run calls lineage).epoch)
    × ((1 ≤ generation_of (run calls lineage).active)
        ⊎ (((run calls lineage).revoked || (run calls lineage).terminal) ≡ true))
    × ((false ≡ false) ⊎ (((run calls lineage).revoked || (run calls lineage).terminal) ≡ true))
run_monotone_example = run_monotone lineage calls lineage-Inv

abbrev id : String
id = "r1"

named_text : str_eq id "" ≢ true
named_text e = cc

named : id ≢ ""
named e = named_text ((eq_iff id "").1 e)

granted : is_ok (authority lineage) ≡ true
unfolding authority
granted = refl

valid : is_ok (validate (some (credential 2)) "s1" 1) ≡ true
unfolding validate
valid = refl

abbrev fresh : CredentialRotation
fresh = rotated 1 lineage "r1" (credential 1) (credential 2)

fresh-Inv : Inv fresh
fresh-Inv = record { held = inl (λ e. cc); newer = tt; older = omega arith; counted = omega arith }

permitted :
    (recovery_permit 2 2 2 fresh).0 ≡ ok (record { session_id = "s1"; epoch = 1; generation = 1 })
unfolding recovery_permit authorize authority
permitted = refl
