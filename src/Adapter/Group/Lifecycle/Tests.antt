-- ===== src/Adapter/Group/Lifecycle/Tests.antt =====
-- One receipt of authority.
use agent_wharf.Prelude.{◌≡◌, refl, true, false, some, is_ok, [], ◌∷◌}
use agent_wharf.Adapter.Group.Lifecycle.{
  AuthorityReceipt, StoredConnection, AuthorityLifecycle, replaces, runs,
  run_with_connection_authority, validate_both, validate_locked, validate_store,
  validate_connection_authority_receipt, same_connection_authority, lifecycle_step, run_lifecycle,
}
use agent_wharf.Adapter.Group.Lifecycle.Final.{revoked_forever}

abbrev receipt : AuthorityReceipt
receipt = record {
  session_id = "s1";
  connection_epoch = 1;
  credential_generation = 2;
  accepted_fence = 3;
  writer_lease_id = "l1";
  expires_at = 100;
}

abbrev stored : StoredConnection
stored = record {
  session_id = "s1";
  connection_epoch = 1;
  accepted_fence = 3;
  active_credential_generation = 2;
  active_credential_expires_at = 100;
  ended = false;
}

abbrev lifecycle : AuthorityLifecycle
lifecycle = record { current = receipt; revoked = false; verification_calls = 0 }

granted : is_ok (run_with_connection_authority 1 2 (some stored) receipt tt lifecycle) ≡ true
unfolding run_with_connection_authority validate_both validate_locked validate_store
    validate_connection_authority_receipt same_connection_authority
granted = refl

revoked_forever_example :
    (lifecycle_step
      (runs 1 2 (some stored) receipt)
      (run_lifecycle (replaces 1 receipt ∷ []) (record lifecycle { revoked = true }))).0
    ≡ false
revoked_forever_example =
    revoked_forever (replaces 1 receipt ∷ []) (runs 1 2 (some stored) receipt)
      (record lifecycle { revoked = true }) refl refl
