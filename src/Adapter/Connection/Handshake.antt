-- ===== src/Adapter/Connection/Handshake.antt =====
-- What an accepted handshake has checked, and what a refused one leaves.
use agent_wharf.Prelude.{
  not, ◌&&◌, ◌||◌, ◌==◌, is_ok, if◌then◌else◌, Bool, true, false, Result, ◌≡◌, ◌≢◌, refl, ap, sym,
  subst, ◌∙◌, ◌⊎◌, inl, inr, String, true, false, Option, none, some, List, [], ◌∷◌, ok, err, arith,
  str_eq, eq_iff, Bool-cases, ◌<◌,
}
use agent_wharf.Adapter.Connection.{
  invalid_hello_ack, is_some, ConnectionError, AdapterConnectionConfig, AdapterConnectionState,
  HelloAck, SessionSummary, ConnectionAuthorityReceipt, new_adapter_connection_state,
  check_protocol, mark_accepted, accept_summary, hello, valid_connection_authority_receipt,
  wrong_content_mode,
}

-- The one summary of an accepted list.
accept_summary_sound :
    (s s' : AdapterConnectionState) (sessions : List SessionSummary) (summary : SessionSummary)
    → accept_summary s sessions ≡ (ok summary, s')
    → (sessions ≡ summary ∷ [])
      × (summary.session_id ≡ s.cfg.session_id)
      × ((summary.provider ≡ "") ⊎ (summary.provider ≡ s.cfg.provider))
      × (s' ≡ record s { accepted = true })
unfolding accept_summary
accept_summary_sound s s' [] summary h = absurd (ground arith)
accept_summary_sound s s' (x ∷ y ∷ xs) summary h = absurd (ground arith)
accept_summary_sound s s' (x ∷ []) summary h = ground (
  arith,
  eq_iff x.session_id s.cfg.session_id,
  eq_iff x.provider "",
  eq_iff x.provider s.cfg.provider,
)

-- The checks that an accepted acknowledgement has passed.
mark_accepted_checks :
    (ack : HelloAck) (s s' : AdapterConnectionState) (summary : SessionSummary)
    → mark_accepted ack s ≡ (ok summary, s')
    → (wrong_content_mode s.cfg.content_mode ack.content_mode ≡ false)
      × (ack.protocol_version ≡ s.cfg.protocol_version)
      × (s.cfg.protocol_version ≢ 2
          ⊎ (valid_connection_authority_receipt ack.connection_authority s.cfg.session_id ≡ true))
      × (accept_summary s ack.sessions ≡ (ok summary, s'))
unfolding mark_accepted
mark_accepted_checks ack s s' summary h = ground arith

required_asked :
    (asked : String) → wrong_content_mode asked "required" ≡ false → true ≡ str_eq asked "required"
required_asked asked h = ground arith

same_protection :
    (asked answered : String)
    → wrong_content_mode asked answered ≡ false
    → str_eq answered "required" ≡ str_eq asked "required"
same_protection asked answered h = elim (Bool-cases (str_eq asked "required")) [
  | inl q ↦ ground arith
  | inr q ↦ elim (Bool-cases (str_eq answered "required")) [
    | inr r ↦ ground arith
    | inl r ↦
        subst
          (λ x. wrong_content_mode asked x ≡ false → str_eq x "required" ≡ str_eq asked "required")
          (sym ((eq_iff answered "required").0 r)) (required_asked asked) h
  ]
]

-- A result that is an error comes with the connection as it was.
record Keeps (s : AdapterConnectionState)
    (r : Result ConnectionError SessionSummary × AdapterConnectionState) : Type 0 where
  pub kept : (is_ok r.0 ≡ true) ⊎ (r.1 ≡ s)

Keeps-refused : (s : AdapterConnectionState) (e : ConnectionError) → Keeps s (err e, s)
Keeps-refused s e = record { kept = inr refl }

guard-Keeps :
    (s : AdapterConnectionState) (t : Bool)
    (y : Result ConnectionError SessionSummary × AdapterConnectionState)
    → Keeps s y
    → Keeps s (if t then (err invalid_hello_ack, s) else y)
guard-Keeps s true y v = Keeps-refused s invalid_hello_ack
guard-Keeps s false y v = v

accept_summary-Keeps :
    (s : AdapterConnectionState) (sessions : List SessionSummary)
    → Keeps s (accept_summary s sessions)
unfolding accept_summary
accept_summary-Keeps s [] = Keeps-refused s invalid_hello_ack
accept_summary-Keeps s (x ∷ y ∷ xs) = Keeps-refused s invalid_hello_ack
accept_summary-Keeps s (x ∷ []) = guard-Keeps s (not (str_eq x.session_id s.cfg.session_id)) _ (
    guard-Keeps s (not (str_eq x.provider "") && not (str_eq x.provider s.cfg.provider))
      (ok x, record s { accepted = true }) (record { kept = inl refl }))

mark_accepted-Keeps : (ack : HelloAck) (s : AdapterConnectionState) → Keeps s (mark_accepted ack s)
unfolding mark_accepted
mark_accepted-Keeps ack s =
    guard-Keeps s (wrong_content_mode s.cfg.content_mode ack.content_mode) _ (
      guard-Keeps s (not (ack.protocol_version == s.cfg.protocol_version)) _ (
        guard-Keeps s
          (s.cfg.protocol_version == 1
            && (ack.has_capabilities || is_some ack.connection_authority))
          _
          (guard-Keeps s
            (s.cfg.protocol_version == 2
              && not (valid_connection_authority_receipt ack.connection_authority s.cfg.session_id))
            _ (accept_summary-Keeps s ack.sessions))))

-- A refused acknowledgement, on any branch, leaves the connection as it was: the next hello is the same.
pub mark_accepted_refused :
    (ack : HelloAck) (s : AdapterConnectionState) (e : ConnectionError)
    → (mark_accepted ack s).0 ≡ err e
    → (mark_accepted ack s).1 ≡ s
mark_accepted_refused ack s e h = elim ((mark_accepted-Keeps ack s).kept) [
  | inl o ↦ absurd (ground (arith, o, h))
  | inr q ↦ q
]

-- An accepted acknowledgement has the protocol version that was asked for and exactly one summary, of
-- this session and of this provider or of none; the content is protected exactly if that was asked for;
-- and from then on the hello asks to resume the same session, with all else unchanged.
pub mark_accepted_sound :
    (ack : HelloAck) (s s' : AdapterConnectionState) (summary : SessionSummary)
    → mark_accepted ack s ≡ (ok summary, s')
    → (ack.protocol_version ≡ s.cfg.protocol_version)
      × (ack.sessions ≡ summary ∷ [])
      × (summary.session_id ≡ s.cfg.session_id)
      × ((summary.provider ≡ "") ⊎ (summary.provider ≡ s.cfg.provider))
      × (str_eq ack.content_mode "required" ≡ str_eq s.cfg.content_mode "required")
      × (hello s' ≡ record (hello s) { resume = true })
unfolding mark_accepted
mark_accepted_sound ack s s' summary h =
    let (mode, version, _, one) = mark_accepted_checks ack s s' summary h in
    let (a, b, c, d) = accept_summary_sound s s' ack.sessions summary one in
    (version, a, b, c, same_protection s.cfg.content_mode ack.content_mode mode, ap hello d)

required_config :
    (cfg : AdapterConnectionConfig) (s : AdapterConnectionState)
    → str_eq cfg.content_mode "required" ≡ true
    → new_adapter_connection_state cfg ≡ ok s
    → (s.cfg.protocol_version ≡ 2)
      × (s.cfg.session_id ≡ cfg.session_id)
      × (s.cfg.content_mode ≡ cfg.content_mode)
unfolding new_adapter_connection_state check_protocol
required_config cfg s m n = ground arith

valid_receipt :
    (o : Option ConnectionAuthorityReceipt) (session : String)
    → valid_connection_authority_receipt o session ≡ true
    → (r : ConnectionAuthorityReceipt) × (o ≡ some r)
      × (r.session_id ≡ session)
      × (0 < r.connection_epoch)
      × (0 < r.credential_generation)
      × (0 < r.accepted_fence)
valid_receipt none session h = absurd (ground arith)
valid_receipt (some r) session h = (
  r,
  refl,
  (eq_iff r.session_id session).0 (ground arith),
  ground arith,
  ground arith,
  ground arith,
)

-- A connection that was created to require protected content accepts an acknowledgement only over
-- protocol version 2, only if that protects the content too, and only with a receipt of authority for
-- its own session, of a positive epoch, generation and fence.
pub protected_connection :
    (cfg : AdapterConnectionConfig) (s s' : AdapterConnectionState) (ack : HelloAck)
    (summary : SessionSummary)
    → cfg.content_mode ≡ "required"
    → new_adapter_connection_state cfg ≡ ok s
    → mark_accepted ack s ≡ (ok summary, s')
    → (ack.protocol_version ≡ 2)
      × (ack.content_mode ≡ "required")
      × (r : ConnectionAuthorityReceipt) × (ack.connection_authority ≡ some r)
      × (r.session_id ≡ cfg.session_id)
      × (0 < r.connection_epoch)
      × (0 < r.credential_generation)
      × (0 < r.accepted_fence)
protected_connection cfg s s' ack summary m n h =
    let asked : str_eq cfg.content_mode "required" ≡ true =
      (eq_iff cfg.content_mode "required").1 m in
    let (v2, session, mode) = required_config cfg s asked n in
    let (wrong, version, receipt, _) = mark_accepted_checks ack s s' summary h in
    let answered = same_protection s.cfg.content_mode ack.content_mode wrong in
    let valid : valid_connection_authority_receipt ack.connection_authority cfg.session_id ≡ true =
      subst (λ x. valid_connection_authority_receipt ack.connection_authority x ≡ true) session
        (elim receipt [ inl n2 ↦ absurd (n2 v2) | inr r ↦ r ]) in
    let (r, found, own, epoch, generation, fence) =
      valid_receipt ack.connection_authority cfg.session_id valid in
    (
      version ∙ v2,
      (eq_iff ack.content_mode "required").0
          (answered ∙ ap (λ x. str_eq x "required") mode ∙ asked),
      r,
      found,
      own,
      epoch,
      generation,
      fence,
    )
