-- ===== src/Adapter/Worker/Proposals/Publication.antt =====
-- What a proposal of an event has committed and published.
use agent_wharf.Prelude.{
  ℕ, ◌≤◌, String, ◌≡◌, refl, ap, sym, ◌∙◌, inl, inr, true, false, ◌&&◌, Option, none, some, List,
  [], ◌∷◌, ◌++◌, arith, eq_iff, str_eq, Outcome, err, is_ok, Bool-cases, Option-cases, Result-cases,
}
use mathlib.Core.List.{append_assoc, append-nil}
use agent_wharf.Adapter.Rotation.{
  CredentialRotation, with_authorized, authorize, if_authorized, run as run_rotation,
}
use agent_wharf.Adapter.Worker.{
  EventProposal, Effect, committed, published, Worker, WorkerError, validate_active_credential,
}
use agent_wharf.Adapter.Worker.Commands.{check_credential}
use agent_wharf.Adapter.Worker.Proposals.{
  ProposalWorld, valid_proposal, publish_committed, commit_and_publish, propose_authorized,
  propose_guarded, propose_event,
}

-- The reasons to refuse a proposal before the store is asked.
pub data Refusal (world : ProposalWorld) (Granted : Type 0) (id : String) (w : Worker)
    : Type 0 where
  no_receipts : w.receipts ≡ false → Refusal world Granted id w
  no_function : world.publishes ≡ none → Refusal world Granted id w
  no_id : str_eq id "" ≡ true → Refusal world Granted id w
  unchecked : is_ok (check_credential world.checked w).0 ≡ false → Refusal world Granted id w
  ungranted : ¬ Granted → Refusal world Granted id w

-- The effects of one proposal with the receipt that it returns: nothing; a commit that failed or gave
-- no valid receipt; or a commit that succeeded, and then the publication of the sequence number of
-- the receipt that the store gave, whose answer is the proposal's.
pub data Proposed (world : ProposalWorld) (Granted Refused : Type 0) (id : String)
    : EventProposal → Outcome WorkerError → List Effect → Type 0 where
  refused :
      {q : EventProposal} {e : WorkerError}
      → Refused
      → Proposed world Granted Refused id q (err e) []
  uncommitted :
      {q : EventProposal} {e : WorkerError}
      → Granted
      → is_ok world.commits.1 && valid_proposal id world.commits.0 ≡ false
      → Proposed world Granted Refused id q (err e) (committed id ∷ [])
  published_once :
      {q : EventProposal} {o : Outcome WorkerError} {publish : ℕ → Outcome String}
      → Granted
      → is_ok world.commits.1 ≡ true
      → world.commits.0 ≡ q
      → world.publishes ≡ some publish
      → is_ok o ≡ is_ok (publish q.seq)
      → q.proposal_id ≡ id
      → 1 ≤ q.seq
      → q.accepted ≡ true
      → Proposed world Granted Refused id q o (committed id ∷ published id q.seq ∷ [])

-- What a call has added to the proposals of a worker.
abbrev pub Adds :
    ProposalWorld
    → Type 0
    → Type 0
    → String
    → Worker
    → EventProposal × Outcome WorkerError × Worker
    → Type 0
Adds world G R id w (q, o, w') =
    (es : List Effect) × (w'.proposals ≡ w.proposals ++ es) × Proposed world G R id q o es

valid_proposal_lem :
    (id : String) (q : EventProposal)
    → valid_proposal id q ≡ true
    → (q.proposal_id ≡ id) × (1 ≤ q.seq) × (q.accepted ≡ true)
valid_proposal_lem id q h = ground (arith, eq_iff q.proposal_id id)

commit_and_publish-Adds :
    {G R : Type 0} (g : G) (world : ProposalWorld) (publish : ℕ → Outcome String) (id : String)
    (w : Worker)
    → world.publishes ≡ some publish
    → Adds world G R id w (commit_and_publish world publish id w)
unfolding commit_and_publish publish_committed
commit_and_publish-Adds g world publish id w s = elim (Result-cases world.commits.1) [
  | inl (e, p) ↦
      simp (p, commit_and_publish)
        (
          committed id ∷ [],
          refl,
          uncommitted g (ap (λ o. is_ok o && valid_proposal id world.commits.0) p),
        )
  | inr (_, p) ↦ elim (Bool-cases (valid_proposal id world.commits.0)) [
    | inr v ↦
        simp (p, commit_and_publish, publish_committed, v)
          (
            committed id ∷ [],
            refl,
            uncommitted g (ap (λ o. is_ok o && valid_proposal id world.commits.0) p ∙ v),
          )
    | inl v ↦
        let (a, b, c) = valid_proposal_lem id world.commits.0 v in
        let k =
          append_assoc w.proposals (committed id ∷ []) (published id world.commits.0.seq ∷ []) in
        elim (Result-cases (publish world.commits.0.seq)) [
          | inl (x, h) ↦
              simp (p, commit_and_publish, publish_committed, v, h)
                (
                  committed id ∷ published id world.commits.0.seq ∷ [],
                  k,
                  published_once g (ap is_ok p) refl s (sym (ap is_ok h)) a b c,
                )
          | inr (_, h) ↦
              simp (p, commit_and_publish, publish_committed, v, h)
                (
                  committed id ∷ published id world.commits.0.seq ∷ [],
                  k,
                  published_once g (ap is_ok p) refl s (sym (ap is_ok h)) a b c,
                )
        ]
  ]
]

-- The rotation that a guarded proposal finds grants it.
abbrev pub Granted : ProposalWorld → Option CredentialRotation → Type 0
Granted world none = Unit
Granted world (some r) = is_ok (authorize world.guarded (run_rotation world.between r)).0 ≡ true

propose_authorized-Adds :
    {G R : Type 0} (world : ProposalWorld) (publish : ℕ → Outcome String) (id : String)
    (r : CredentialRotation) (w : Worker)
    → world.publishes ≡ some publish
    → (is_ok (authorize world.guarded r).0 ≡ true → G)
    → (is_ok (authorize world.guarded r).0 ≡ false → R)
    → Adds world G R id w (propose_authorized world publish id r w)
unfolding propose_authorized with_authorized
propose_authorized-Adds world publish id r w s g n =
    elim (Result-cases (authorize world.guarded r).0) [
      | inl (x, e) ↦
          rw (e, propose_authorized, with_authorized, if_authorized)
            ([], sym (append-nil w.proposals), refused (n (ap is_ok e)))
      | inr (_, e) ↦
          let (es, k, t) = commit_and_publish-Adds (g (ap is_ok e)) world publish id w s in
          simp (e, propose_authorized, with_authorized, if_authorized) (es, k, t)
    ]

propose_guarded-Adds :
    {R : Type 0} (world : ProposalWorld) (publish : ℕ → Outcome String) (id : String) (w : Worker)
    → world.publishes ≡ some publish
    → (¬ Granted world w.rotation → R)
    → Adds world (Granted world w.rotation) R id w (propose_guarded world publish id w)
unfolding propose_guarded
propose_guarded-Adds world publish id w s n = elim (Option-cases w.rotation) [
  | inl e ↦ rw (e, propose_guarded) (commit_and_publish-Adds tt world publish id w s)
  | inr (r, e) ↦
      rw (e, propose_guarded)
        (propose_authorized-Adds world publish id (run_rotation world.between r) w s (λ g. g)
          λ f. n (rw e λ g. ground (arith, f, g)))
]

check_credential-proposals :
    (now : ℕ) (w : Worker) → (check_credential now w).1.proposals ≡ w.proposals
unfolding validate_active_credential
check_credential-proposals now w = ground arith

-- A proposal publishes only what the store has committed under the same id: the sequence number of
-- the receipt that a successful commit gave, accepted, for the same id and at least 1, once, after the
-- commit; it then succeeds exactly if the publication does. It commits only if the rotation grants it
-- at that time, and it is refused before the commit only without receipts, function, id or authority; it
-- publishes nothing when it is refused, when the commit fails or when the receipt is not valid.
pub propose_event-Adds :
    (world : ProposalWorld) (id : String) (w : Worker)
    → Adds world
        (Granted world (check_credential world.checked w).1.rotation)
        (Refusal world (Granted world (check_credential world.checked w).1.rotation) id w)
        id
        w
        (propose_event world id w)
unfolding propose_event
propose_event-Adds world id w = elim (Option-cases world.publishes) [
  | inl p ↦ simp (p, propose_event) ([], sym (append-nil w.proposals), refused (no_function p))
  | inr (publish, p) ↦ elim (Bool-cases w.receipts) [
    | inr e ↦ simp (p, propose_event, e) ([], sym (append-nil w.proposals), refused (no_receipts e))
    | inl e ↦ elim (Bool-cases (str_eq id "")) [
      | inl h ↦ simp (p, propose_event, e, h) ([], sym (append-nil w.proposals), refused (no_id h))
      | inr h ↦ elim (Result-cases (check_credential world.checked w).0) [
        | inl (x, c) ↦
            simp (p, propose_event, e, h, c)
              (
                [],
                check_credential-proposals world.checked w ∙ sym (append-nil w.proposals),
                refused (unchecked (ap is_ok c)),
              )
        | inr (_, c) ↦
            let (es, k, t) =
              propose_guarded-Adds world publish id (check_credential world.checked w).1 p
                ungranted in
            simp (p, propose_event, e, h, c)
              (es, k ∙ ap (λ z. z ++ es) (check_credential-proposals world.checked w), t)
      ]
    ]
  ]
]
