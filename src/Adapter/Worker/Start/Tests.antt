-- ===== src/Adapter/Worker/Start/Tests.antt =====
-- Starts of one provider.
use agent_wharf.Prelude.{
  ℕ, ◌≡◌, refl, Bool, true, false, ◌&&◌, some, none, ltb, if◌then◌else◌, ok, err, done, is_ok,
}
use agent_wharf.Adapter.Rotation.{CredentialRotation, Call, authority, authorize}
use agent_wharf.Adapter.Credential.{authority_lost}
use agent_wharf.Adapter.Worker.Start.{
  failed, Admission, Surroundings, Starting, Fenced, Launch, cancelled, child_started,
  worker_admission, verify_current, prepare_fenced, start_attempt, before_lock, call_fenced,
  credential,
}
use agent_wharf.Adapter.Worker.Start.Fence.{
  Ends, is_cancelled, start_attempt-held, cancelled_start_blocks,
}

abbrev lineage : CredentialRotation
lineage = record {
  session_id = "s1";
  epoch = 1;
  active = some (record {
    bearer = "b";
    metadata = record {
      session_id = "s1";
      lineage = record { kind = "attach"; attach_id = "a"; jti = "j" };
      generation = 1;
      expires_at = 1_000;
    };
  });
  prior = none;
  pending = none;
  active_rotation_id = "";
  prior_recovery_until = 0;
  revoked = false;
  terminal = false;
  authority_lost = false;
}

-- An owner that holds one start at most, and a source with one handle.
abbrev surroundings : Surroundings Bool
surroundings = record {
  handle = λ _. some "h1";
  prepare_provider_start = λ _ s. (done, s);
  confirm_provider_started = λ _ s. (done, s);
  prepare_start = λ _ s. (done, true);
  abort_start = λ _ s. (done, false);
}

abbrev open_admission : Admission (Starting Bool)
open_admission = record { prepare = λ _ a. (done, a); confirm = λ _ a. (done, a) }

abbrev closed_admission : Admission (Starting Bool)
closed_admission = record {
  prepare = λ _ a. (err (failed "busy"), a);
  confirm = λ _ a. (err (failed "busy"), a);
}

abbrev starting : Starting Bool
starting = record { outside = false; expected = some "h1"; observations = 0 }

abbrev prepared : Starting Bool
prepared = record starting { outside = true }

abbrev free_fence : Fenced (Starting Bool)
free_fence = record { rotation = lineage; held = false; inner = starting }

abbrev admission : Admission (Starting Bool)
admission = record { prepare = λ n a. (done, prepared); confirm = λ n a. (done, a) }

start_attempt-held_example :
    Ends admission 1 2 1 child_started free_fence
      (is_ok (prepare_fenced admission 1 1 free_fence).0 && is_cancelled child_started)
start_attempt-held_example = start_attempt-held admission 1 2 1 child_started free_fence refl

is_prepared : is_ok (prepare_fenced admission 1 1 free_fence).0 ≡ true
unfolding prepare_fenced authorize authority
is_prepared = refl

cancelled_start_blocks_example :
    (g : Fenced (Starting Bool)) × (start_attempt admission 1 2 1
        (cancelled "context canceled")
        free_fence
      ≡ some (err (failed "context canceled"), g))
    × ((c : Call) → call_fenced c g ≡ (if before_lock c g.rotation then some (false, g) else none))
    × ((t u n : ℕ) (l : Launch)
        → start_attempt admission t u n l g
          ≡ (if ltb n 1 then some (err (credential authority_lost), g) else none))
cancelled_start_blocks_example =
    cancelled_start_blocks admission 1 2 1 "context canceled" free_fence refl is_prepared

full : Admission (Starting Bool) → Admission (Starting Bool)
unfolding worker_admission
full base = elim (worker_admission surroundings true true true (some base)) [
  | ok (some d) ↦ d
  | _ ↦ base
]

is_full :
    (base : Admission (Starting Bool))
    → worker_admission surroundings true true true (some base) ≡ ok (some (full base))
unfolding worker_admission full
is_full base = refl

passes : (full open_admission).prepare 1 starting ≡ (done, prepared)
unfolding worker_admission full verify_current
passes = refl
