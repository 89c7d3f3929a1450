-- ===== src/Adapter/Group/Lifecycle/Final.antt =====
-- Which receipts a lifecycle grants, and that a revocation is final.
use agent_wharf.Prelude.{
  ℕ, ◌<◌, ◌≡◌, refl, Bool, true, false, Option, none, some, List, [], ◌∷◌, arith, eq_iff, is_ok,
}
use agent_wharf.Adapter.Group.Lifecycle.{
  AuthorityReceipt, StoredConnection, AuthorityLifecycle, LifecycleCall, verifies, runs, replaces,
  revokes, validate_connection_authority_receipt, same_connection_authority, validate_locked,
  validate_store, validate_both, verify_connection_authority, run_with_connection_authority,
  replace, lifecycle_step, run_lifecycle,
}

same_connection_authority_lem :
    (left right : AuthorityReceipt) → same_connection_authority left right ≡ true → left ≡ right
unfolding same_connection_authority
same_connection_authority_lem left right h =
    let (a, b, c, d, e, f) = fields in
    λ i. record {
      session_id = a i;
      connection_epoch = b i;
      credential_generation = c i;
      accepted_fence = d i;
      writer_lease_id = e i;
      expires_at = f i;
    }
  where
    fields :
        (left.session_id ≡ right.session_id)
        × (left.connection_epoch ≡ right.connection_epoch)
        × (left.credential_generation ≡ right.credential_generation)
        × (left.accepted_fence ≡ right.accepted_fence)
        × (left.writer_lease_id ≡ right.writer_lease_id)
        × (left.expires_at ≡ right.expires_at)
    fields = ground (
      arith,
      eq_iff left.session_id right.session_id,
      eq_iff left.writer_lease_id right.writer_lease_id,
    )

validate_locked_lem :
    (now : ℕ) (receipt : AuthorityReceipt) (l : AuthorityLifecycle)
    → is_ok (validate_locked now receipt l) ≡ true
    → (l.revoked ≡ false)
      × (same_connection_authority l.current receipt ≡ true)
      × (now < receipt.expires_at)
unfolding validate_locked validate_connection_authority_receipt
validate_locked_lem now receipt l h = ground arith

-- The store's row that stands behind a receipt.
abbrev pub Backs : ℕ → AuthorityReceipt → StoredConnection → Type 0
Backs now receipt c =
    (c.session_id ≡ receipt.session_id)
    × (c.connection_epoch ≡ receipt.connection_epoch)
    × (c.accepted_fence ≡ receipt.accepted_fence)
    × (c.active_credential_generation ≡ receipt.credential_generation)
    × (c.ended ≡ false)
    × (now < receipt.expires_at)

validate_store_lem :
    (now : ℕ) (stored : Option StoredConnection) (receipt : AuthorityReceipt)
    → is_ok (validate_store now stored receipt) ≡ true
    → (c : StoredConnection) × (stored ≡ some c) × Backs now receipt c
unfolding validate_store
validate_store_lem now none receipt h = cc
validate_store_lem now (some c) receipt h =
    (c, refl, ground (arith, eq_iff c.session_id receipt.session_id))

-- The callback of a guarded run is called only while the lifecycle is not revoked, for its own current
-- receipt, in every field, and while the store's connection of that session has the same epoch, fence
-- and generation, has not ended, and has not expired.
pub run_with_connection_authority_sound :
    {A : Type 0} (now later : ℕ) (stored : Option StoredConnection) (receipt : AuthorityReceipt)
    (callback : A) (l : AuthorityLifecycle)
    → is_ok (run_with_connection_authority now later stored receipt callback l) ≡ true
    → (l.revoked ≡ false)
      × (l.current ≡ receipt)
      × (c : StoredConnection) × (stored ≡ some c)
      × Backs later receipt c
unfolding run_with_connection_authority validate_both
run_with_connection_authority_sound now later stored receipt callback l h =
    let (p, q) = both in
    let (a, b, _) = validate_locked_lem now receipt l p in
    let (c, e, k) = validate_store_lem later stored receipt q in
    (a, same_connection_authority_lem l.current receipt b, c, e, k)
  where
    both :
        (is_ok (validate_locked now receipt l) ≡ true)
        × (is_ok (validate_store later stored receipt) ≡ true)
    both = ground (arith, h)

-- Whether a call asks for authority.
abbrev pub asks : LifecycleCall → Bool
asks revokes = false
asks _ = true

step-revoked :
    (c : LifecycleCall) (l : AuthorityLifecycle)
    → l.revoked ≡ true
    → ((lifecycle_step c l).1.revoked ≡ true) × (asks c ≡ true → (lifecycle_step c l).0 ≡ false)
unfolding lifecycle_step verify_connection_authority run_with_connection_authority replace
    validate_both validate_locked
step-revoked (verifies now later stored receipt) l r = (r, λ _. ground arith)
step-revoked (runs now later stored receipt) l r = (r, λ _. ground arith)
step-revoked (replaces now receipt) l r = (ground arith, λ _. ground arith)
step-revoked revokes l r = (refl, λ h. absurd (ground (arith, h)))

run-revoked :
    (cs : List LifecycleCall) (l : AuthorityLifecycle)
    → l.revoked ≡ true
    → (run_lifecycle cs l).revoked ≡ true
unfolding run_lifecycle
run-revoked [] l r = r
run-revoked (c ∷ cs) l r = run-revoked cs (lifecycle_step c l).1 (step-revoked c l r).0

-- Once a lifecycle is revoked, no history of calls makes it grant anything again: it verifies no
-- receipt, runs no callback and takes no new receipt.
pub revoked_forever :
    (cs : List LifecycleCall) (c : LifecycleCall) (l : AuthorityLifecycle)
    → l.revoked ≡ true
    → asks c ≡ true
    → (lifecycle_step c (run_lifecycle cs l)).0 ≡ false
revoked_forever cs c l r a = (step-revoked c (run_lifecycle cs l) (run-revoked cs l r)).1 a
