-- ===== src/Adapter/Credential.antt =====
-- adapter/core/credential.go: the credential of one Session.
-- `int64` generations are numbers: every guard treats the negative ones like 0. Times are
-- nanoseconds, and each `time.Now()` of the source is an argument. A nil pointer is `none`.
use agent_wharf.Prelude.{
  ℕ, String, Bool, ◌||◌, Option, none, some, str_eq, ltb, not, if◌then◌else◌, ◌==◌, ◌&&◌, Result,
  Outcome, ok, err, done,
}

pub data CredentialError : Type 0 where
  invalid_session_credential session_credential_required session_credential_mismatch
        session_credential_expired :
      CredentialError
  rotation_unavailable rotation_conflict rotation_stale authority_lost recovery_required
        credential_terminal :
      CredentialError

pub record SessionCredentialLineage : Type 0 where
  pub kind : String
  pub attach_id : String
  pub jti : String

pub record SessionCredentialMetadata : Type 0 where
  pub session_id : String
  pub lineage : SessionCredentialLineage
  pub generation : ℕ
  pub expires_at : ℕ

pub record SessionCredential : Type 0 where
  pub bearer : String
  pub metadata : SessionCredentialMetadata

-- `SessionCredentialMetadata{}`
abbrev pub zero_metadata : SessionCredentialMetadata
zero_metadata = record {
  session_id = "";
  lineage = record { kind = ""; attach_id = ""; jti = "" };
  generation = 0;
  expires_at = 0;
}

-- `t.After(u)`
abbrev pub after : ℕ → ℕ → Bool
after t u = ltb u t

-- `NewSessionCredential`; `blank`, `length_of` and `breaks_line` stand for the standard library's
-- `strings.TrimSpace(s) == ""`, `len(s)` and `strings.ContainsAny(s, "\x00\r\n")`.
module _ (blank : String → Bool) (length_of : String → ℕ) (breaks_line : String → Bool) where
  pub new_session_credential :
      ℕ → String → SessionCredentialMetadata → Result CredentialError SessionCredential
  new_session_credential now bearer metadata =
      if blank bearer || ltb 4096 (length_of bearer) || breaks_line bearer
      then err invalid_session_credential
      else if str_eq metadata.session_id ""
          || str_eq metadata.lineage.kind ""
          || ltb metadata.generation 1
          || not (after metadata.expires_at now)
      then err invalid_session_credential
      else ok (record { bearer = bearer; metadata = metadata })

-- `SessionCredential.Metadata`
abbrev pub metadata_of : Option SessionCredential → Result CredentialError SessionCredentialMetadata
metadata_of none = err session_credential_required
metadata_of (some c) = ok c.metadata

-- `metadata, _ := c.Metadata()`
abbrev pub metadata_or_zero : Option SessionCredential → SessionCredentialMetadata
metadata_or_zero none = zero_metadata
metadata_or_zero (some c) = c.metadata

-- `SessionCredential.validate`
unfoldable pub validate : Option SessionCredential → String → ℕ → Outcome CredentialError
validate none session_id now = err session_credential_required
validate (some c) session_id now =
    if str_eq c.bearer ""
      || str_eq c.metadata.session_id ""
      || str_eq c.metadata.lineage.kind ""
      || ltb c.metadata.generation 1
    then err session_credential_required
    else if not (str_eq c.metadata.session_id session_id)
    then err session_credential_mismatch
    else if not (after c.metadata.expires_at now)
    then err session_credential_expired
    else done

-- `sameCredentialMetadata` (adapter/core/reconnect.go)
abbrev pub same_credential_metadata : SessionCredentialMetadata → SessionCredentialMetadata → Bool
same_credential_metadata left right =
    str_eq left.session_id right.session_id
    && left.generation == right.generation
    && left.expires_at == right.expires_at
    && str_eq left.lineage.kind right.lineage.kind
    && str_eq left.lineage.attach_id right.lineage.attach_id
    && str_eq left.lineage.jti right.lineage.jti
