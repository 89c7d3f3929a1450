-- ===== src/Adapter/Connection/Tests.antt =====
-- Handshakes of one connection.
use agent_wharf.Prelude.{◌≡◌, refl, ◌<◌, true, false, some, [], ◌∷◌, ok, err, pos}
use agent_wharf.Adapter.Connection.{
  invalid_hello_ack, AdapterConnectionConfig, AdapterConnectionState, HelloAck, SessionSummary,
  ConnectionAuthorityReceipt, new_adapter_connection_state, check_protocol, mark_accepted,
  accept_summary,
}
use agent_wharf.Adapter.Connection.Handshake.{protected_connection}

abbrev config : AdapterConnectionConfig
config = record {
  content_mode = "required";
  session_id = "s1";
  provider = "codex";
  token = "t";
  protocol_version = 2;
}

abbrev connection : AdapterConnectionState
connection = record { cfg = config; accepted = false }

abbrev summary : SessionSummary
summary = record {
  session_id = "s1";
  state = "ready";
  provider = "";
  latest_seq = pos 3;
  replay_from = pos 0;
}

abbrev receipt : ConnectionAuthorityReceipt
receipt = record {
  session_id = "s1";
  connection_epoch = 1;
  credential_generation = 1;
  accepted_fence = 4;
  writer_lease_id = "w";
  expires_at = 99;
}

abbrev ack : HelloAck
ack = record {
  content_mode = "required";
  protocol_version = 2;
  sessions = summary ∷ [];
  has_capabilities = true;
  connection_authority = some receipt;
}

abbrev plain : HelloAck
plain = record ack { content_mode = "" }

created : new_adapter_connection_state config ≡ ok connection
unfolding new_adapter_connection_state check_protocol
created = refl

accepts : mark_accepted ack connection ≡ (ok summary, record connection { accepted = true })
unfolding mark_accepted accept_summary
accepts = refl

refuses : (mark_accepted plain connection).0 ≡ err invalid_hello_ack
unfolding mark_accepted
refuses = refl

protected_connection_example :
    (ack.protocol_version ≡ 2)
    × (ack.content_mode ≡ "required")
    × (r : ConnectionAuthorityReceipt) × (ack.connection_authority ≡ some r)
    × (r.session_id ≡ config.session_id)
    × (0 < r.connection_epoch)
    × (0 < r.credential_generation)
    × (0 < r.accepted_fence)
protected_connection_example =
    protected_connection config connection (record connection { accepted = true }) ack summary refl
      created accepts
