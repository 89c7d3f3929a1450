-- ===== src/Adapter/Connection.antt =====
-- adapter/core/reconnect.go: `AdapterConnectionState`, the handshake of one adapter connection, with
-- the frames of protocol/codec.go that it sends and reads.
-- Versions, epochs, generations and fences are numbers: the code treats the negative ones like 0, or
-- like an unknown version. The capabilities of an acknowledgement are only asked for being there.
use agent_wharf.Prelude.{
  ℕ, String, Bool, true, false, Option, none, some, List, [], ◌∷◌, Result, ok, err, not, ◌&&◌, ◌||◌,
  ◌==◌, ltb, str_eq, if◌then◌else◌, ℤ,
}
pub mod Handshake
mod Tests

pub data ConnectionError : Type 0 where
  invalid_adapter_connection_config invalid_hello_ack : ConnectionError

pub record AdapterConnectionConfig : Type 0 where
  pub content_mode : String
  pub session_id : String
  pub provider : String
  pub token : String
  pub protocol_version : ℕ

pub record AdapterConnectionState : Type 0 where
  pub cfg : AdapterConnectionConfig
  pub accepted : Bool

pub record Hello : Type 0 where
  pub protocol_version : ℕ
  pub role : String
  pub token : String
  pub session_id : String
  pub provider : String
  pub resume : Bool
  pub content_mode : String

pub record ConnectionAuthorityReceipt : Type 0 where
  pub session_id : String
  pub connection_epoch : ℕ
  pub credential_generation : ℕ
  pub accepted_fence : ℕ
  pub writer_lease_id : String
  pub expires_at : ℕ

pub record SessionSummary : Type 0 where
  pub session_id : String
  pub state : String
  pub provider : String
  pub latest_seq : ℤ
  pub replay_from : ℤ

pub record HelloAck : Type 0 where
  pub content_mode : String
  pub protocol_version : ℕ
  pub sessions : List SessionSummary
  -- `Capabilities != nil`
  pub has_capabilities : Bool
  pub connection_authority : Option ConnectionAuthorityReceipt

-- Lines 369 to 371 of `NewAdapterConnectionState`.
abbrev pub default_version : AdapterConnectionConfig → AdapterConnectionConfig
default_version cfg = record cfg {
  protocol_version = if cfg.protocol_version == 0 then 1 else cfg.protocol_version;
}

-- Lines 372 to 381 of `NewAdapterConnectionState`.
unfoldable pub check_protocol :
    AdapterConnectionConfig → Result ConnectionError AdapterConnectionState
check_protocol cfg =
    if not (cfg.protocol_version == 1) && not (cfg.protocol_version == 2)
    then err invalid_adapter_connection_config
    else if not (str_eq cfg.content_mode "")
        && not (str_eq cfg.content_mode "legacy")
        && not (str_eq cfg.content_mode "required")
    then err invalid_adapter_connection_config
    else if str_eq cfg.content_mode "required" && not (cfg.protocol_version == 2)
    then err invalid_adapter_connection_config
    else ok (record { cfg = cfg; accepted = false })

-- `NewAdapterConnectionState`
unfoldable pub new_adapter_connection_state :
    AdapterConnectionConfig → Result ConnectionError AdapterConnectionState
unfolding check_protocol
new_adapter_connection_state cfg =
    if str_eq cfg.session_id "" || str_eq cfg.provider "" || str_eq cfg.token ""
    then err invalid_adapter_connection_config
    else check_protocol (default_version cfg)

-- `AdapterConnectionState.Hello`
abbrev pub hello : AdapterConnectionState → Hello
hello s = record {
  protocol_version = s.cfg.protocol_version;
  role = "adapter";
  token = s.cfg.token;
  session_id = s.cfg.session_id;
  provider = s.cfg.provider;
  resume = s.accepted;
  content_mode = s.cfg.content_mode;
}

-- `validConnectionAuthorityReceipt`
abbrev pub valid_connection_authority_receipt : Option ConnectionAuthorityReceipt → String → Bool
valid_connection_authority_receipt none session_id = false
valid_connection_authority_receipt (some r) session_id =
    str_eq r.session_id session_id
    && ltb 0 r.connection_epoch
    && ltb 0 r.credential_generation
    && ltb 0 r.accepted_fence
    && not (str_eq r.writer_lease_id "")
    && ltb 0 r.expires_at

abbrev pub is_some : {A : Type 0} → Option A → Bool
is_some none = false
is_some (some _) = true

-- Line 401: the content mode of the acknowledgement is not the one asked for.
abbrev pub wrong_content_mode : String → String → Bool
wrong_content_mode asked answered =
    (str_eq asked "required" && not (str_eq answered "required"))
    || (not (str_eq asked "required") && not (str_eq answered "") && not (str_eq answered "legacy"))

-- Lines 414 to 428: there is one summary, of this session and provider.
unfoldable pub accept_summary :
    AdapterConnectionState
    → List SessionSummary
    → Result ConnectionError SessionSummary × AdapterConnectionState
accept_summary s (summary ∷ []) =
    if not (str_eq summary.session_id s.cfg.session_id)
    then (err invalid_hello_ack, s)
    else if not (str_eq summary.provider "") && not (str_eq summary.provider s.cfg.provider)
    then (err invalid_hello_ack, s)
    else (ok summary, record s { accepted = true })
accept_summary s _ = (err invalid_hello_ack, s)

-- `MarkAccepted`
unfoldable pub mark_accepted :
    HelloAck
    → AdapterConnectionState
    → Result ConnectionError SessionSummary × AdapterConnectionState
unfolding accept_summary
mark_accepted ack s =
    if wrong_content_mode s.cfg.content_mode ack.content_mode
    then (err invalid_hello_ack, s)
    else if not (ack.protocol_version == s.cfg.protocol_version)
    then (err invalid_hello_ack, s)
    else if s.cfg.protocol_version == 1
        && (ack.has_capabilities || is_some ack.connection_authority)
    then (err invalid_hello_ack, s)
    else if s.cfg.protocol_version == 2
        && not (valid_connection_authority_receipt ack.connection_authority s.cfg.session_id)
    then (err invalid_hello_ack, s)
    else accept_summary s ack.sessions
