-- ===== src/Adapter/Group/Steps.antt =====
-- adapter/core/group_supervisor.go: `Recover` and `Run` as the steps of several goroutines.
use agent_wharf.Prelude.{
  ℕ, suc, zero, String, Bool, true, not, Option, none, some, List, [], ◌∷◌, ◌++◌, lookup, str_eq,
  text_key, if◌then◌else◌, Result, Outcome, ok, err, done, is_ok,
}
use agent_wharf.Adapter.Group.{
  Group, GroupWorld, GroupWorkerAdmission, Fence, Member, admit, recover_member, check_gate,
  recovery_needs_activation, validate_group_worker_recovery, fence_recovered_worker,
}
use agent_wharf.Adapter.Group.Lifecycle.{
  GroupError, recovery_authority_lost, session_worker_not_found,
}

-- `Admit`; the second critical section of `Recover`; the lookup of `Run`; and the return of the n-th
-- `Run` that has not returned, which fences the member if it fails.
pub data GroupStep : Type 0 where
  admits : ℕ → GroupWorld → GroupWorkerAdmission → GroupStep
  recovers : Bool → GroupWorkerAdmission → Fence → GroupStep
  enters : String → GroupStep
  leaves : ℕ → Bool → GroupStep

unfoldable pub nth {ℓ} : {A : Type ℓ} → ℕ → List A → Option A
nth n [] = none
nth zero (x ∷ xs) = some x
nth (suc n) (x ∷ xs) = nth n xs

unfoldable pub without {ℓ} : {A : Type ℓ} → ℕ → List A → List A
without n [] = []
without zero (x ∷ xs) = xs
without (suc n) (x ∷ xs) = x ∷ without n xs

-- `worker`, the lookup of a member.
unfoldable pub find_worker : String → Group → Result GroupError Member
find_worker session g =
    if str_eq session ""
    then err session_worker_not_found
    else elim (lookup session g.by_session) [ none ↦ err session_worker_not_found | some m ↦ ok m ]

-- `Run` up to its wait for `runMu`.
unfoldable pub enter : String → Group → Group
unfolding find_worker
enter session g = elim (find_worker session g) [
  | err _ ↦ g
  | ok m ↦ record g { running = (session, m) ∷ g.running }
]

-- The end of `Run`.
unfoldable pub leave : ℕ → Bool → Group → Group
unfolding fence_recovered_worker
leave n fails g = elim (nth n g.running) [
  | none ↦ g
  | some (session, m) ↦
      (let g' : Group = record g { running = without n g.running } in
        if fails then fence_recovered_worker session m g' else g')
]

unfoldable pub group_step : GroupStep → Group → Group
unfolding admit recover_member enter leave
group_step (admits now world a) g = (admit now world a g).1
group_step (recovers needs a f) g = (recover_member needs a f g).1
group_step (enters session) g = enter session g
group_step (leaves n fails) g = leave n fails g

unfoldable pub run_group : List GroupStep → Group → Group
run_group [] g = g
run_group (s ∷ ss) g = run_group ss (group_step s g)

-- What a `Recover` meets besides: the clock, the answer of the handle's source, the verification of the
-- authority or of the source, and the steps of others between its two sections.
pub record RecoveryWorld : Type 0 where
  pub now : ℕ
  pub current : Option String
  pub verifies : Outcome String
  pub group : GroupWorld
  pub between : List GroupStep

-- Lines 384 to 429 of `Recover`.
unfoldable pub recover_verified :
    RecoveryWorld → Bool → GroupWorkerAdmission → Fence → Group → Outcome GroupError × Group
unfolding recover_member run_group
recover_verified world needs a f g =
    if not (is_ok world.verifies)
    then (err recovery_authority_lost, g)
    else (let g' : Group =
          run_group world.between (record g { constructed = g.constructed ++ a.session_id ∷ [] }) in
        elim world.group.constructs [
          | ok true ↦ recover_member needs a f g'
          | _ ↦ (err recovery_authority_lost, g')
        ])

-- `Recover`
unfoldable pub recover :
    RecoveryWorld → GroupWorkerAdmission → Fence → Group → Outcome GroupError × Group
unfolding recover_verified recovery_needs_activation validate_group_worker_recovery
recover world a f g =
    if validate_group_worker_recovery world.now world.current a f
    then elim (recovery_needs_activation a g) [
      | err e ↦ (err e, g)
      | ok needs ↦ elim (if needs then check_gate world.group g else done) [
        | err e ↦ (err e, g)
        | ok _ ↦ recover_verified world needs a f g
      ]
    ]
    else (err recovery_authority_lost, g)
