-- ===== src/Adapter/Group/Lifecycle.antt =====
-- adapter/core/group_supervisor.go: `ConnectionAuthorityLifecycle`, the fence of one receipt of authority.
-- The store's answer to `AdapterConnection` is an argument (`none` for an error), as is each
-- `time.Now()`. The numbers of a receipt are natural: every guard treats the negative ones like 0. Time
-- 0 is Go's zero time.
use agent_wharf.Prelude.{
  ℕ, suc, String, Bool, true, false, ◌&&◌, ◌||◌, not, Option, none, some, List, [], ◌∷◌, str_eq,
  ltb, ◌==◌, if◌then◌else◌, Result, Outcome, ok, err, done, is_ok,
}
use agent_wharf.Adapter.Credential.{after}
pub mod Final
mod Tests

pub data GroupError : Type 0 where
  invalid_group_config invalid_group_worker_admission multi_worker_disabled group_capacity :
      GroupError
  session_worker_exists session_worker_not_found workspace_writer_exists : GroupError
  recovery_authority_lost : GroupError
  -- an error of the store, of the constructor or of a worker's `Run`
  failed : String → GroupError

-- `store.ConnectionAuthorityReceipt`
pub record AuthorityReceipt : Type 0 where
  pub session_id : String
  pub connection_epoch : ℕ
  pub credential_generation : ℕ
  pub accepted_fence : ℕ
  pub writer_lease_id : String
  pub expires_at : ℕ

-- `store.AdapterConnection`, with what is read of it; `ended` says that it is revoked or terminal.
pub record StoredConnection : Type 0 where
  pub session_id : String
  pub connection_epoch : ℕ
  pub accepted_fence : ℕ
  pub active_credential_generation : ℕ
  pub active_credential_expires_at : ℕ
  pub ended : Bool

pub record AuthorityLifecycle : Type 0 where
  pub current : AuthorityReceipt
  pub revoked : Bool
  pub verification_calls : ℕ

-- `validateConnectionAuthorityReceipt`
unfoldable pub validate_connection_authority_receipt : ℕ → AuthorityReceipt → Outcome GroupError
validate_connection_authority_receipt now r =
    if str_eq r.session_id ""
      || ltb r.connection_epoch 1
      || ltb r.credential_generation 1
      || ltb r.accepted_fence 1
      || str_eq r.writer_lease_id ""
      || r.expires_at == 0
      || not (after r.expires_at now)
    then err recovery_authority_lost
    else done

-- `sameConnectionAuthority`
unfoldable pub same_connection_authority : AuthorityReceipt → AuthorityReceipt → Bool
same_connection_authority left right =
    str_eq left.session_id right.session_id
    && left.connection_epoch == right.connection_epoch
    && left.credential_generation == right.credential_generation
    && left.accepted_fence == right.accepted_fence
    && str_eq left.writer_lease_id right.writer_lease_id
    && left.expires_at == right.expires_at

-- `NewConnectionAuthorityLifecycle`; the store is not nil.
abbrev pub new_lifecycle : ℕ → AuthorityReceipt → Result GroupError AuthorityLifecycle
new_lifecycle now receipt = elim (validate_connection_authority_receipt now receipt) [
  | err e ↦ err e
  | ok _ ↦ ok (record { current = receipt; revoked = false; verification_calls = 0 })
]

-- `validateLocked`
unfoldable pub validate_locked : ℕ → AuthorityReceipt → AuthorityLifecycle → Outcome GroupError
unfolding validate_connection_authority_receipt same_connection_authority
validate_locked now receipt l =
    if l.revoked || not (same_connection_authority l.current receipt)
    then err recovery_authority_lost
    else validate_connection_authority_receipt now receipt

-- `validateStore`, with the store's answer.
unfoldable pub validate_store : ℕ → Option StoredConnection → AuthorityReceipt → Outcome GroupError
validate_store now none receipt = err recovery_authority_lost
validate_store now (some c) receipt =
    if not (str_eq c.session_id receipt.session_id)
      || not (c.connection_epoch == receipt.connection_epoch)
      || not (c.accepted_fence == receipt.accepted_fence)
      || not (c.active_credential_generation == receipt.credential_generation)
      || not (c.active_credential_expires_at == receipt.expires_at)
      || c.ended
      || not (after c.active_credential_expires_at now)
    then err recovery_authority_lost
    else done

-- Both checks, with the clock at each.
unfoldable pub validate_both :
    ℕ → ℕ → Option StoredConnection → AuthorityReceipt → AuthorityLifecycle → Outcome GroupError
unfolding validate_locked validate_store
validate_both now later stored receipt l = elim (validate_locked now receipt l) [
  | err e ↦ err e
  | ok _ ↦ validate_store later stored receipt
]

-- `VerifyConnectionAuthority`
unfoldable pub verify_connection_authority :
    ℕ
    → ℕ
    → Option StoredConnection
    → AuthorityReceipt
    → AuthorityLifecycle
    → Outcome GroupError × AuthorityLifecycle
unfolding validate_both
verify_connection_authority now later stored receipt l = (
  validate_both now later stored receipt l,
  record l { verification_calls = suc l.verification_calls },
)

-- `RunWithConnectionAuthority`: `ok` carries what the callback returned; it is not nil.
unfoldable pub run_with_connection_authority :
    {A : Type 0}
    → ℕ
    → ℕ
    → Option StoredConnection
    → AuthorityReceipt
    → A
    → AuthorityLifecycle
    → Result GroupError A
unfolding validate_both
run_with_connection_authority now later stored receipt callback l =
    elim (validate_both now later stored receipt l) [ err e ↦ err e | ok _ ↦ ok callback ]

-- `Replace`
unfoldable pub replace :
    ℕ → AuthorityReceipt → AuthorityLifecycle → Outcome GroupError × AuthorityLifecycle
unfolding validate_connection_authority_receipt
replace now receipt l =
    if not (is_ok (validate_connection_authority_receipt now receipt))
    then (err recovery_authority_lost, l)
    else if l.revoked
    then (err recovery_authority_lost, l)
    else (done, record l { current = receipt })

-- `Revoke`
abbrev pub revoke : AuthorityLifecycle → AuthorityLifecycle
revoke l = record l { revoked = true }

-- The calls on one lifecycle.
pub data LifecycleCall : Type 0 where
  verifies runs : ℕ → ℕ → Option StoredConnection → AuthorityReceipt → LifecycleCall
  replaces : ℕ → AuthorityReceipt → LifecycleCall
  revokes : LifecycleCall

-- Whether a call is granted, and the lifecycle after it.
unfoldable pub lifecycle_step : LifecycleCall → AuthorityLifecycle → Bool × AuthorityLifecycle
unfolding verify_connection_authority run_with_connection_authority replace
lifecycle_step (verifies now later stored receipt) l =
    let (o, l') = verify_connection_authority now later stored receipt l in (is_ok o, l')
lifecycle_step (runs now later stored receipt) l =
    (is_ok (run_with_connection_authority now later stored receipt tt l), l)
lifecycle_step (replaces now receipt) l = let (o, l') = replace now receipt l in (is_ok o, l')
lifecycle_step revokes l = (true, revoke l)

unfoldable pub run_lifecycle : List LifecycleCall → AuthorityLifecycle → AuthorityLifecycle
run_lifecycle [] l = l
run_lifecycle (c ∷ cs) l = run_lifecycle cs (lifecycle_step c l).1
