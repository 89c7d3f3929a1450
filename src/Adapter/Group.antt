-- ===== src/Adapter/Group.antt =====
-- adapter/core/group_supervisor.go: `GroupSupervisor`, the workers of one process.
-- `mu` makes `Admit`, the two critical sections of `Recover` and the fencing of a worker one step each;
-- what others do between the sections is a sequence of steps. The lease store, the activation gate, the
-- constructor and a worker's `Run` answer through arguments. The 32 bytes of a workspace key are one
-- number. Times are nanoseconds, and 0 is Go's zero time.
use agent_wharf.Prelude.{
  ℕ, String, Bool, true, false, ◌&&◌, ◌||◌, not, Option, none, some, List, [], ◌∷◌, ◌++◌, str_eq,
  ltb, leb, ◌==◌, if◌then◌else◌, Result, Outcome, ok, err, done, is_ok, length, lookup, insert,
  delete, text_key, number_key,
}
use agent_wharf.Adapter.Credential.{after}
use agent_wharf.Adapter.Group.Lifecycle.{
  GroupError, AuthorityReceipt, invalid_group_config, invalid_group_worker_admission,
  multi_worker_disabled, group_capacity, session_worker_exists, session_worker_not_found,
  workspace_writer_exists, recovery_authority_lost, failed, validate_connection_authority_receipt,
}
pub mod Lifecycle
pub mod Steps
pub mod Paired
pub mod Membership
pub mod Interleavings
pub mod Entry
pub mod Registry
mod Tests

-- `store.WorkspaceLeaseOwner`
pub record LeaseOwner : Type 0 where
  pub worker_id : String
  pub session_id : String
  pub connection_epoch : ℕ
  pub credential_generation : ℕ
  pub lease_id : String

-- `store.WorkspaceLeaseReserve`; the child scope is passed on to the store only.
pub record LeaseReserve : Type 0 where
  pub key : ℕ
  pub owner : LeaseOwner
  pub expires_at : ℕ

-- `GroupWorkerAdmission`, with the session of its worker's configuration.
pub record GroupWorkerAdmission : Type 0 where
  pub worker_id : String
  pub session_id : String
  pub worker_session_id : String
  pub lease : LeaseReserve

-- What a recovered worker is fenced by: the authority that its `Recover` allocated, or a source of
-- start handles with the handle expected. The number is the identity of the pointer.
pub data Fence : Type 0 where
  by_authority : ℕ → AuthorityReceipt → Fence
  by_handle : ℕ → String → Fence

-- `supervisedWorker`: an admitted one, or a recovered one with its workspace.
pub data Member : Type 0 where
  admitted : Member
  recovered : ℕ → Fence → Member

-- `GroupSupervisor`: `leases` and `gate` say that they are not nil. `reserved` and `constructed` record
-- the calls of `ReserveWorkspaceLease` and of `newWorker`, newest last; `running` has the members that
-- a `Run` has looked up and has not returned from.
pub record Group : Type 0 where
  pub max_workers : ℕ
  pub leases : Bool
  pub gate : Bool
  pub by_session : List (String × Member)
  pub by_workspace : List (ℕ × String)
  pub reserved : List LeaseReserve
  pub constructed : List String
  pub running : List (String × Member)

-- `NewGroupSupervisor`
abbrev pub new_group_supervisor : ℕ → Bool → Bool → Bool → Result GroupError Group
new_group_supervisor max_workers leases gate reference_only =
    if ltb max_workers 1 || (not leases && not reference_only)
    then err invalid_group_config
    else ok (record {
      max_workers = max_workers;
      leases = leases;
      gate = gate;
      by_session = [];
      by_workspace = [];
      reserved = [];
      constructed = [];
      running = [];
    })

-- `validateGroupWorkerAdmission`
unfoldable pub validate_group_worker_admission : ℕ → GroupWorkerAdmission → Outcome GroupError
validate_group_worker_admission now a =
    if str_eq a.worker_id ""
      || str_eq a.session_id ""
      || not (str_eq a.worker_session_id a.session_id)
    then err invalid_group_worker_admission
    else if not (str_eq a.lease.owner.worker_id a.worker_id)
        || not (str_eq a.lease.owner.session_id a.session_id)
    then err invalid_group_worker_admission
    else if ltb a.lease.owner.connection_epoch 1
        || ltb a.lease.owner.credential_generation 1
        || str_eq a.lease.owner.lease_id ""
    then err invalid_group_worker_admission
    else if a.lease.expires_at == 0 || not (after a.lease.expires_at now) || a.lease.key == 0
    then err invalid_group_worker_admission
    else done

-- What the surroundings answer: `AllowMultiWorker`, `ReserveWorkspaceLease`, and `newWorker`, which
-- may also give nil.
pub record GroupWorld : Type 0 where
  pub allows : Outcome String
  pub reserves : Outcome String
  pub constructs : Result String Bool

abbrev pub is_some : {A : Type 0} → Option A → Bool
is_some none = false
is_some (some _) = true

-- The tests that `Admit` and both sections of `Recover` share.
unfoldable pub check_room : String → ℕ → Group → Outcome GroupError
check_room session key g =
    if is_some (lookup session g.by_session)
    then err session_worker_exists
    else if is_some (lookup key g.by_workspace)
    then err workspace_writer_exists
    else if leb g.max_workers (length g.by_session)
    then err group_capacity
    else done

-- `s.activation == nil || s.activation.AllowMultiWorker(ctx) != nil`
abbrev pub check_gate : GroupWorld → Group → Outcome GroupError
check_gate world g =
    if not g.gate
    then err multi_worker_disabled
    else elim world.allows [ err _ ↦ err multi_worker_disabled | ok _ ↦ done ]

-- `len(s.bySession) > 0`
abbrev pub occupied : Group → Bool
occupied g = ltb 0 (length g.by_session)

abbrev pub add_member : String → ℕ → Member → Group → Group
add_member session key m g = record g {
  by_session = insert session m g.by_session;
  by_workspace = insert key session g.by_workspace;
}

-- Lines 348 to 360 of `Admit`.
unfoldable pub construct_admitted :
    GroupWorld → GroupWorkerAdmission → Group → Outcome GroupError × Group
construct_admitted world a g =
    let g' = record g { constructed = g.constructed ++ a.session_id ∷ [] } in
    elim world.constructs [
      | err e ↦ (err (failed e), g')
      | ok present ↦
          (if not present
            then (err invalid_group_worker_admission, g')
            else (done, add_member a.session_id a.lease.key admitted g'))
    ]

-- Lines 345 to 360 of `Admit`.
unfoldable pub reserve_admitted :
    GroupWorld → GroupWorkerAdmission → Group → Outcome GroupError × Group
unfolding construct_admitted
reserve_admitted world a g =
    let g' = record g { reserved = g.reserved ++ a.lease ∷ [] } in
    elim world.reserves [ err e ↦ (err (failed e), g') | ok _ ↦ construct_admitted world a g' ]

-- `Admit`
unfoldable pub admit : ℕ → GroupWorld → GroupWorkerAdmission → Group → Outcome GroupError × Group
unfolding validate_group_worker_admission check_room reserve_admitted
admit now world a g = elim (validate_group_worker_admission now a) [
  | err e ↦ (err e, g)
  | ok _ ↦ elim (check_room a.session_id a.lease.key g) [
    | err e ↦ (err e, g)
    | ok _ ↦ elim (if occupied g then check_gate world g else done) [
      | err e ↦ (err e, g)
      | ok _ ↦ (if not g.leases then (err invalid_group_config, g) else reserve_admitted world a g)
    ]
  ]
]

-- `recoveryNeedsActivation`
unfoldable pub recovery_needs_activation : GroupWorkerAdmission → Group → Result GroupError Bool
unfolding check_room
recovery_needs_activation a g = elim (check_room a.session_id a.lease.key g) [
  | err e ↦ err e
  | ok _ ↦ ok (occupied g)
]

-- `verifyRecoveryStartHandle`, with the source's answer.
abbrev pub verify_recovery_start_handle : Option String → String → Outcome GroupError
verify_recovery_start_handle current expected =
    if str_eq expected "" then err recovery_authority_lost else elim current [
      | none ↦ err recovery_authority_lost
      | some h ↦
          (if str_eq h "" || not (str_eq h expected) then err recovery_authority_lost else done)
    ]

-- `validateGroupWorkerRecovery`, with the source's answer; `exact_tuple` is its comparison of the
-- receipt with the lease.
abbrev pub exact_tuple : ℕ → AuthorityReceipt → GroupWorkerAdmission → Bool
exact_tuple now r a =
    str_eq r.session_id a.session_id
    && r.connection_epoch == a.lease.owner.connection_epoch
    && r.credential_generation == a.lease.owner.credential_generation
    && str_eq r.writer_lease_id a.lease.owner.lease_id
    && not (ltb r.accepted_fence 1)
    && not (r.expires_at == 0)
    && after r.expires_at now

unfoldable pub validate_group_worker_recovery :
    ℕ → Option String → GroupWorkerAdmission → Fence → Bool
unfolding validate_group_worker_admission validate_connection_authority_receipt
validate_group_worker_recovery now current a (by_handle source handle) =
    not (str_eq a.worker_id "")
    && not (str_eq a.session_id "")
    && str_eq a.worker_session_id a.session_id
    && is_ok (verify_recovery_start_handle current handle)
validate_group_worker_recovery now current a (by_authority pointer receipt) =
    is_ok (validate_group_worker_admission now a)
    && is_ok (validate_connection_authority_receipt now receipt)
    && exact_tuple now receipt a

-- The second critical section of `Recover`.
unfoldable pub recover_member :
    Bool → GroupWorkerAdmission → Fence → Group → Outcome GroupError × Group
unfolding check_room
recover_member needs a f g = elim (check_room a.session_id a.lease.key g) [
  | err e ↦ (err e, g)
  | ok _ ↦
      (if occupied g && (not needs || not g.gate)
        then (err multi_worker_disabled, g)
        else (done, add_member a.session_id a.lease.key (recovered a.lease.key f) g))
]

-- `fenceRecoveredWorker` compares the pointers of the two.
abbrev pub same_fence : Fence → Fence → Bool
same_fence (by_authority p _) (by_authority q _) = p == q
same_fence (by_handle p _) (by_handle q _) = p == q
same_fence _ _ = false

-- `fenceRecoveredWorker`
unfoldable pub fence_recovered_worker : String → Member → Group → Group
fence_recovered_worker session admitted g = g
fence_recovered_worker session (recovered key f) g = elim (lookup session g.by_session) [
  | none ↦ g
  | some admitted ↦ g
  | some (recovered key' f') ↦
      (if not (same_fence f f') then g else record g {
        by_session = delete session g.by_session;
        by_workspace = delete key g.by_workspace;
      })
]
