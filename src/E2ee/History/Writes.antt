-- ===== src/E2ee/History/Writes.antt =====
-- Every call, with any faults, is a sequence of a few kinds of writes.
use agent_wharf.Prelude.{
  ℕ, ◌+◌, ◌≡◌, refl, String, Bool, true, Option, none, some, Option-cases, Bool-cases, Result-cases,
  List, [], ◌∷◌, Result, ok, err, Outcome, arith, ◌>>=◌, not, ◌||◌, find, put, text_key, pair_key,
  inl, inr, find_key, ℤ, pos, length, ◌==◌,
}
use agent_wharf.E2ee.Db.{
  E2eeError, Bytes, DeviceGrant, DeviceRow, SessionKeyRow, CommandState, CommandRow, Db, Faults,
  session_key, command_key, update_command, write_key, write_receipt, read_device, delete_device,
  delete_grants, delete_keys, delete_budget, statement, wrapped_key, receipt_key,
  delete_device_grants,
}
use agent_wharf.E2ee.Grants.{validate_grants, replace_grants_tx, replace_grants}
use agent_wharf.E2ee.Admit.{
  Context, Envelope, CommandAdmission, Crypto, admit_validated, finish, finish_row, is_final,
  may_become, settle, Reservation, context_bytes, check_session,
}
use agent_wharf.E2ee.Admit.Sound.{admit_sound}
use agent_wharf.E2ee.Session.{
  Machine, MembershipAuthorization, transition_tx, write_session_key, transition_session,
  rotate_session, initialize_local_session, session_state, session_grants,
  with_machine_control_grant, authorize, list_sessions,
}
use agent_wharf.E2ee.Revoke.Deletion.{find_grant-deleted}
use agent_wharf.E2ee.Revoke.{
  revoke_device, revoke_each, revoke_trusted, rotate_each, rotate_after, trusted_devices,
  revoke_trusted_terminals, delete_device_row, delete_wrapped_keys, delete_budget_rows,
}
use agent_wharf.E2ee.History.Kinds.{
  Writes, claim, settles, store_key, drop_device, here, Writes-trans, one, Commits, transact-Writes,
  advance-Writes, find_device_row-delete,
}
use agent_wharf.E2ee.History.{
  Op, admits, finishes, replaces, transitions, rotates, initializes, revokes, revokes_trusted,
  apply, run,
}

-- The plaintext of a result, if the command is to be executed.
abbrev pub released : Result E2eeError (CommandAdmission × Option Bytes) → Option Bytes
released (ok (_, p)) = p
released (err _) = none

settle_quiet :
    (f : Faults) (db : Db) (r : Reservation)
    → released (settle f db r).0 ≡ none
    → (settle f db r).1 ≡ db
settle_quiet f db (err e) h = refl
settle_quiet f db (ok (a, none)) h = refl
settle_quiet f db (ok (a, some (p, d))) h = ground arith

module _ (k : Crypto) (f : Faults) (validate : Bytes → Bool) (c : Context) (key : Bytes)
    (envelope : Envelope) (db : Db) where
  -- An admission that releases no plaintext leaves the tables as they are.
  pub admit_quiet :
      released (admit_validated k f validate c key envelope db).0 ≡ none
      → (admit_validated k f validate c key envelope db).1 ≡ db
  unfolding admit_validated
  admit_quiet h = encoded (context_bytes k c) refl
    where
      encoded :
          (r : Result E2eeError Bytes)
          → context_bytes k c ≡ r
          → (admit_validated k f validate c key envelope db).1 ≡ db
      encoded (err e) q = ground arith
      encoded (ok aad) q = ground (
        arith,
        settle_quiet f db (
            check_session k f validate c aad key envelope db
              (find session_key c.session db.sessions)),
      )

  admit-Writes : {own : String} → Writes own db (admit_validated k f validate c key envelope db).1
  admit-Writes {own} = cases (admit_validated k f validate c key envelope db).0 refl
    where
      cases :
          (r : Result E2eeError (CommandAdmission × Option Bytes))
          → (admit_validated k f validate c key envelope db).0 ≡ r
          → Writes own db (admit_validated k f validate c key envelope db).1
      cases (err e) q = rw (admit_quiet (rw q)) here
      cases (ok (a, none)) q = rw (admit_quiet (rw q)) here
      cases (ok (a, some p)) q =
          let x =
            admit_sound k f validate c key envelope db a p
              (admit_validated k f validate c key envelope db).1
              (λ i. (q i, (admit_validated k f validate c key envelope db).1)) in
          one (claim c x.fingerprint x.row x.session_found x.keyed x.fresh x.counted x.after)

finish_row-Writes :
    {own : String} (state : CommandState) (db : Db) (p : String × String) (o : Option CommandRow)
    → find command_key p db.commands ≡ o
    → Writes own db (finish_row state db o).1
unfolding finish_row
finish_row-Writes state db p none q = here
finish_row-Writes state db p (some row) q = elim (Bool-cases (may_become row.state state)) [
  | inl m ↦ rw m (one (settles row state (rw (find_key command_key p row db.commands q) q) m refl))
  | inr m ↦ rw m here
]

finish-Writes :
    {own : String} (k : Crypto) (f : Faults) (s m : String) (state : CommandState) (db : Db)
    → Writes own db (finish k f s m state db).1
unfolding finish
finish-Writes k f s m state db =
    elim (Bool-cases (not (k.identifier s) || not (k.identifier m) || not (is_final state))) [
      | inl b ↦ rw b here
      | inr b ↦ elim (Bool-cases (f update_command)) [
        | inl u ↦ rw (b, u) here
        | inr u ↦
            rw (b, u) (finish_row-Writes state db (s, m) (find command_key (s, m) db.commands) refl)
      ]
    ]

-- The two stages of a transition, as a transaction's body.
advance-Commits :
    (own : String) (f : Faults) (s key : String) (e : ℕ) (gs : List DeviceGrant) (db : Db)
    → Commits own db (replace_grants_tx f s key e gs db >>= λ db'. ok (tt, db'))
advance-Commits own f s key e gs db = go (replace_grants_tx f s key e gs db) refl
  where
    go :
        (r : Result E2eeError Db)
        → replace_grants_tx f s key e gs db ≡ r
        → Commits own db (r >>= λ db'. ok (tt, db'))
    go (err x) q = tt
    go (ok d) q = advance-Writes f s key e gs q

write_session_key-Commits :
    (own : String) (f : Faults) (s key : String) (e : ℕ) (w : Bytes)
    (a : Option MembershipAuthorization) (db : Db)
    → Commits own db (write_session_key f s key e w a db)
unfolding write_session_key
write_session_key-Commits own f s key e w a db = elim (Bool-cases (f write_key)) [
  | inl b ↦ rw b tt
  | inr b ↦ elim (Option-cases (find wrapped_key (s, key) db.session_keys)) [
    | inr (x, q) ↦ rw (b, q) tt
    | inl q ↦ rw (b, q) (receipts q a)
  ]
]
  where
    keyed : Db
    keyed = record db {
      session_keys =
          put wrapped_key (record { session = s; key_id = key; wrapped = w }) db.session_keys;
    }

    row : SessionKeyRow
    row = record { session = s; key_id = key; wrapped = w }

    receipts :
        find wrapped_key (s, key) db.session_keys ≡ none
        → (a : Option MembershipAuthorization)
        → Commits own db (elim a [
          | none ↦ ok (tt, keyed)
          | some b ↦ statement f write_receipt (
              ok (
                tt,
                record keyed {
                  receipts =
                      put receipt_key
                        (record { session = s; epoch = e + 1; key_id = key; request_hash = b.hash })
                        db.receipts;
                },
              ))
        ])
    receipts q none = one (store_key row db.receipts q (inl refl) refl)
    receipts q (some b) = elim (Bool-cases (f write_receipt)) [
      | inl c ↦ rw c tt
      | inr c ↦ rw c (one (store_key row _ q (inr (e, b.hash, refl)) refl))
    ]

Commits-bind :
    {own : String} {A : Type 0} (db : Db) (r : Result E2eeError Db)
    (rest : Db → Result E2eeError (A × Db))
    → ((d : Db) → r ≡ ok d → Writes own db d)
    → ((d : Db) → Commits own d (rest d))
    → Commits own db (r >>= rest)
Commits-bind db (err x) rest v w = tt
Commits-bind {own} {A} db (ok d) rest v w = go (rest d) (w d)
  where
    go : (r : Result E2eeError (A × Db)) → Commits own d r → Commits own db r
    go (err x) c = tt
    go (ok (a, d')) c = Writes-trans (v d refl) c

transition_tx-Commits :
    (own : String) (f : Faults) (s key : String) (e : ℕ) (gs : List DeviceGrant) (w : Bytes)
    (a : Option MembershipAuthorization) (db : Db)
    → Commits own db (transition_tx f s key e gs w a db)
unfolding transition_tx
transition_tx-Commits own f s key e gs w none db =
    Commits-bind db (replace_grants_tx f s key e gs db) (write_session_key f s key e w none)
      (λ d q. advance-Writes f s key e gs q) (write_session_key-Commits own f s key e w none)
transition_tx-Commits own f s key e gs w (some a) db =
    elim (Result-cases (authorize f a s key e db)) [
      | inl (x, q) ↦ rw q tt
      | inr (b, q) ↦ rw q (elim (Bool-cases b) [
        | inl t ↦ rw t here
        | inr t ↦ rw t (
            Commits-bind db (replace_grants_tx f s key e gs db)
              (write_session_key f s key e w (some a)) (λ d q. advance-Writes f s key e gs q)
              (write_session_key-Commits own f s key e w (some a)))
      ])
    ]

module _ (identifier : String → Bool) (f : Faults) where
  replace_grants-Writes :
      {own : String} (s key : String) (e : ℤ) (gs : List DeviceGrant) (db : Db)
      → Writes own db (replace_grants identifier f s key e gs db).1
  unfolding replace_grants
  replace_grants-Writes {own} s key e gs db =
      elim (Result-cases (validate_grants identifier s key e gs)) [
        | inl (x, q) ↦ rw (q, replace_grants) here
        | inr (n, q) ↦
            rw (q, replace_grants) (transact-Writes f db _ (advance-Commits own f s key n gs db))
      ]

  transition_session-Writes :
      {own : String} (s key : String) (e : ℤ) (gs : List DeviceGrant) (w : Result E2eeError Bytes)
      (a : Option MembershipAuthorization) (db : Db)
      → Writes own db (transition_session identifier f s key e gs w a db).1
  unfolding transition_session
  transition_session-Writes {own} s key e gs w a db =
      elim (Result-cases (validate_grants identifier s key e gs)) [
        | inl (x, q) ↦ rw (q, transition_session) here
        | inr (n, q) ↦
            rw (q, transition_session)
              (elim (Result-cases w) [
                | inl (x, y) ↦ rw y here
                | inr (b, y) ↦
                    rw y (transact-Writes f db _ (transition_tx-Commits own f s key n gs b a db))
              ])
      ]

  module _ (valid_identity : DeviceRow → Bool) (m : Machine) where
    rotate_session-Writes :
        (s key : String) (w : Result E2eeError Bytes) (db : Db)
        → Writes m.device db (rotate_session identifier f m s key w db).1
    unfolding rotate_session
    rotate_session-Writes s key w db = elim (Result-cases (session_state identifier f s db)) [
      | inl (x, q) ↦ rw (q, rotate_session) here
      | inr ((n, old), q) ↦
          rw (q, rotate_session)
            (elim (Result-cases (session_grants f s db >>= with_machine_control_grant m)) [
              | inl (x, y) ↦ rw y here
              | inr (gs, y) ↦ rw y (transition_session-Writes s key (pos n) gs w none db)
            ])
    ]

    initialize-Writes :
        (s key : String) (w : Result E2eeError Bytes) (db : Db)
        → Writes m.device db (initialize_local_session identifier f m s key w db).1
    unfolding initialize_local_session
    initialize-Writes s key w db =
        elim (Bool-cases (not (identifier s) || not (length m.signing_key == 32))) [
          | inl b ↦ rw b here
          | inr b ↦ rw b (
              transition_session-Writes s key (pos 0)
                (record { device_id = m.device; verify_key = m.signing_key; control = true } ∷ []) w
                none db)
        ]

    rotate_each-Writes :
        (fresh : String → String × Result E2eeError Bytes) (ss : List String) (db : Db)
        → Writes m.device db (rotate_each identifier valid_identity f m fresh ss db).1
    unfolding rotate_each
    rotate_each-Writes fresh [] db = here
    rotate_each-Writes fresh (s ∷ ss) db =
        let w = rotate_session-Writes s (fresh s).0 (fresh s).1 db in
        let d : Db = (rotate_session identifier f m s (fresh s).0 (fresh s).1 db).1 in
        elim (Result-cases (rotate_session identifier f m s (fresh s).0 (fresh s).1 db).0) [
          | inl (x, q) ↦ rw (q, rotate_each) w
          | inr (x, q) ↦ rw (q, rotate_each) (Writes-trans w (rotate_each-Writes fresh ss d))
        ]

    revoke_device-Writes :
        (device : String) (db : Db)
        → Writes m.device db (revoke_device identifier valid_identity f m device db).1
    unfolding revoke_device
    revoke_device-Writes device db = elim (Bool-cases (not (identifier device))) [
      | inl b ↦ rw b here
      | inr b ↦ rw b (transact-Writes f db _ body)
    ]
      where
        dropped : Result E2eeError (Unit {0} × Db)
        dropped = ok (
          tt,
          record db {
            devices = delete_device_row device db.devices;
            grants = delete_device_grants device db.grants;
            session_keys = delete_wrapped_keys m.device device db.session_keys;
            seal_budget = delete_budget_rows m.device device db.seal_budget;
          },
        )

        body : Commits m.device db (
            statement f delete_device (
              statement f delete_grants
                (statement f delete_keys (statement f delete_budget dropped))))
        body = elim (Bool-cases (f delete_device)) [
          | inl a ↦ rw a tt
          | inr a ↦ elim (Bool-cases (f delete_grants)) [
            | inl b ↦ rw (a, b) tt
            | inr b ↦ elim (Bool-cases (f delete_keys)) [
              | inl c ↦ rw (a, b, c) tt
              | inr c ↦ elim (Bool-cases (f delete_budget)) [
                | inl d ↦ rw (a, b, c, d) tt
                | inr d ↦
                    rw (a, b, c, d)
                      (one (
                        drop_device device (delete_device_row device db.devices)
                          (λ x. find_device_row-delete device x db.devices)
                          (λ s x. find_grant-deleted s device x db.grants) refl))
              ]
            ]
          ]
        ]

    revoke_each-Writes :
        (ds : List String) (db : Db)
        → Writes m.device db (revoke_each identifier valid_identity f m ds db).1
    unfolding revoke_each
    revoke_each-Writes [] db = here
    revoke_each-Writes (x ∷ ds) db =
        let w = revoke_device-Writes x db in
        let d : Db = (revoke_device identifier valid_identity f m x db).1 in
        elim (Result-cases (revoke_device identifier valid_identity f m x db).0) [
          | inl (e, q) ↦ rw (q, revoke_each) w
          | inr (e, q) ↦ rw (q, revoke_each) (Writes-trans w (revoke_each-Writes ds d))
        ]

    revoke_trusted-Writes :
        (db : Db) → Writes m.device db (revoke_trusted identifier valid_identity f m db).1
    unfolding revoke_trusted
    revoke_trusted-Writes db = elim (Bool-cases (f read_device)) [
      | inl b ↦ rw b here
      | inr b ↦ rw b (revoke_each-Writes (trusted_devices valid_identity db.devices) db)
    ]

    rotate_after-Writes :
        (fresh : String → String × Result E2eeError Bytes) (o : Outcome E2eeError)
        (ds : List String) (db : Db)
        → Writes m.device db (rotate_after identifier valid_identity f m fresh ((o, ds), db)).1
    unfolding rotate_after
    rotate_after-Writes fresh (err e) ds db = here
    rotate_after-Writes fresh (ok _) [] db = here
    rotate_after-Writes fresh (ok _) (d ∷ ds) db = elim (Result-cases (list_sessions f db)) [
      | inl (e, q) ↦ rw (q, rotate_after) here
      | inr (ss, q) ↦ rw (q, rotate_after) (rotate_each-Writes fresh ss db)
    ]

    revoke_trusted_terminals-Writes :
        (fresh : String → String × Result E2eeError Bytes) (db : Db)
        → Writes m.device db (revoke_trusted_terminals identifier valid_identity f m fresh db).1
    unfolding revoke_trusted_terminals
    revoke_trusted_terminals-Writes fresh db =
        let r : (Outcome E2eeError × List String) × Db =
          revoke_trusted identifier valid_identity f m db in
        Writes-trans (revoke_trusted-Writes db) (rotate_after-Writes fresh r.0.0 r.0.1 r.1)

-- Any call of a history, with any statements failing, either leaves the tables as they are or makes
-- a sequence of the five kinds of writes: a claim of a command that had no row, for a session keyed by
-- the command's key and below its limit; a permitted change of a command's state; a whole advance of a
-- session's epoch; one wrapped key under a name that had none, with at most one receipt for that
-- session and key; the removal of a device, after which that device has no row and no grant, all
-- others have what they had, and the wrapped keys and the seal budget are gone if it is the machine's
-- own device and else untouched.
pub apply-Writes :
    (k : Crypto) (valid_identity : DeviceRow → Bool) (m : Machine) (f : Faults) (op : Op) (db : Db)
    → Writes m.device db (apply k valid_identity m f op db)
unfolding apply
apply-Writes k v m f (admits validate c key envelope) db =
    admit-Writes k f validate c key envelope db
apply-Writes k v m f (finishes s message state) db = finish-Writes k f s message state db
apply-Writes k v m f (replaces s key e gs) db = replace_grants-Writes k.identifier f s key e gs db
apply-Writes k v m f (transitions s key e gs w a) db =
    transition_session-Writes k.identifier f s key e gs w a db
apply-Writes k v m f (rotates s key w) db = rotate_session-Writes k.identifier f v m s key w db
apply-Writes k v m f (initializes s key w) db = initialize-Writes k.identifier f v m s key w db
apply-Writes k v m f (revokes device) db = revoke_device-Writes k.identifier f v m device db
apply-Writes k v m f (revokes_trusted fresh) db =
    revoke_trusted_terminals-Writes k.identifier f v m fresh db

pub run-Writes :
    (k : Crypto) (valid_identity : DeviceRow → Bool) (m : Machine) (ops : List (Faults × Op))
    (db : Db)
    → Writes m.device db (run k valid_identity m ops db)
unfolding run
run-Writes k v m [] db = here
run-Writes k v m ((f, op) ∷ ops) db =
    Writes-trans (apply-Writes k v m f op db) (run-Writes k v m ops (apply k v m f op db))
