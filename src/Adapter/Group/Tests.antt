-- ===== src/Adapter/Group/Tests.antt =====
-- Groups of two workers.
use agent_wharf.Prelude.{◌≡◌, refl, ok, done, some, true, false, ◌∷◌, [], List, lookup, insert, ℕ}
use agent_wharf.Adapter.Group.{
  Group, GroupWorld, GroupWorkerAdmission, LeaseReserve, Fence, by_handle, admit,
  validate_group_worker_admission, check_room, reserve_admitted, construct_admitted,
}
use agent_wharf.Adapter.Group.Steps.{
  GroupStep, admits, recovers, enters, leaves, RecoveryWorld, recover, run_group, group_step,
}
use agent_wharf.Adapter.Group.Membership.{Inv, Pointer}
use agent_wharf.Adapter.Group.Interleavings.{run-new_group-Inv}
use agent_wharf.Adapter.Group.Registry.{RegistryStep, writers, group_step-refines}
use agent_wharf.Adapter.Group.Entry.{Admits, admit-Admits, Recovers, recover-Recovers}

abbrev empty : Group
empty = record {
  max_workers = 2;
  leases = true;
  gate = true;
  by_session = [];
  by_workspace = [];
  reserved = [];
  constructed = [];
  running = [];
}

abbrev answers : GroupWorld
answers = record { allows = done; reserves = done; constructs = ok true }

abbrev lease : LeaseReserve
lease = record {
  key = 7;
  owner = record {
    worker_id = "w1";
    session_id = "s1";
    connection_epoch = 1;
    credential_generation = 1;
    lease_id = "l1";
  };
  expires_at = 100;
}

abbrev admission : GroupWorkerAdmission
admission = record { worker_id = "w1"; session_id = "s1"; worker_session_id = "s1"; lease = lease }

abbrev second : GroupWorkerAdmission
second = record {
  worker_id = "w2";
  session_id = "s2";
  worker_session_id = "s2";
  lease = record lease { key = 8 };
}

abbrev handle : Fence
handle = by_handle 5 "h1"

abbrev key_of : Pointer → ℕ
key_of _ = 8

-- One is admitted and one recovered, runs, fails and is fenced.
abbrev steps : List GroupStep
steps = admits 1 answers admission ∷ recovers true second handle ∷ enters "s2" ∷ leaves 0 true ∷ []

run-new_group-Inv_example : Inv key_of (run_group steps empty)
run-new_group-Inv_example =
    run-new_group-Inv key_of 2 true true false empty steps refl (tt, (refl, (tt, (tt, tt))))

admit-Admits_example :
    Admits 1 answers admission empty
      (admit 1 answers admission empty).0
      (admit 1 answers admission empty).1
admit-Admits_example = admit-Admits 1 answers admission empty

abbrev recovering : RecoveryWorld
recovering = record { now = 1; current = some "h1"; verifies = done; group = answers; between = [] }

recover-Recovers_example :
    Recovers recovering second handle empty
      (recover recovering second handle empty).0
      (recover recovering second handle empty).1
recover-Recovers_example = recover-Recovers recovering second handle empty

admitted_first : (admit 1 answers admission empty).1.by_workspace ≡ (7, "s1") ∷ []
unfolding admit validate_group_worker_admission check_room reserve_admitted construct_admitted
    lookup insert
admitted_first = refl

empty-Inv : Inv key_of empty
unfolding run_group
empty-Inv = run-new_group-Inv key_of 2 true true false empty [] refl tt

group_step-refines_example :
    RegistryStep (writers empty) (writers (group_step (admits 1 answers admission) empty))
group_step-refines_example =
    group_step-refines key_of (admits 1 answers admission) empty tt empty-Inv
