-- ===== src/E2ee/Grants/Advance.antt =====
-- What a change of a session's grants has checked and written.
use agent_wharf.Prelude.{
  ℕ, ◌+◌, ◌≡◌, ◌≢◌, refl, sym, subst, ◌∙◌, String, Bool, Option, none, some, Option-cases,
  Bool-cases, Result-cases, List, [], ◌∷◌, ◌++◌, Result, ok, err, done, arith, ◌>>=◌, str_eq,
  eq_iff, eq_refl, find, put, text_key, pair_key, inl, inr, ℤ, pos, ap, find-put, find_key,
  same_pair_iff, if◌then◌else◌,
}
use agent_wharf.E2ee.Db.{
  E2eeError, DeviceGrant, GrantRow, SessionRow, Db, Faults, transact, session_key, key_epoch_key,
  delete_session_grants, grant_rows, find_grant, find_device, no_faults,
}
use agent_wharf.E2ee.Grants.Valid.{ValidRequest, validate_grants-ValidRequest}
use agent_wharf.E2ee.Grants.{
  validate_grants, advance_session, write_grants, replace_grants_tx, replace_grants,
}

-- The tables after the change.
abbrev pub advanced : String → String → List DeviceGrant → SessionRow → Db → Db
advanced s key gs row db = record db {
  sessions = put session_key row db.sessions;
  key_epochs = put key_epoch_key (s, key) db.key_epochs;
  grants = grant_rows s gs ++ delete_session_grants s db.grants;
}

-- The row of the session after the change, against the row before it.
abbrev pub Advances : String → String → ℕ → Option SessionRow → SessionRow → Type 0
Advances s key e none row =
    (e ≡ 0) × (row ≡ record { session = s; epoch = 1; key_id = key; command_count = 0 })
Advances s key e (some old) row =
    (e ≡ old.epoch)
    × (e ≢ 0)
    × (old.key_id ≢ key)
    × (row ≡ record old { epoch = old.epoch + 1; key_id = key; command_count = 0 })

advance_session_sound :
    (s key : String) (e : ℕ) (o : Option SessionRow) (row : SessionRow)
    → advance_session s key e o ≡ some row
    → Advances s key e o row
unfolding advance_session
advance_session_sound s key e none row h = ground arith
advance_session_sound s key e (some old) row h = ground (arith, eq_iff old.key_id key)

advance_session_complete :
    (s key : String) (e : ℕ) (o : Option SessionRow) (row : SessionRow)
    → Advances s key e o row
    → advance_session s key e o ≡ some row
unfolding advance_session
advance_session_complete s key e none row h = ground arith
advance_session_complete s key e (some old) row h = ground (arith, eq_iff old.key_id key)

-- A change that succeeds has advanced the session's row and found the key unused.
pub advance_sound :
    (f : Faults) (s key : String) (e : ℕ) (gs : List DeviceGrant) (db db' : Db)
    → replace_grants_tx f s key e gs db ≡ ok db'
    → (row : SessionRow) × Advances s key e (find session_key s db.sessions) row
      × (find key_epoch_key (s, key) db.key_epochs ≡ none)
      × (db' ≡ advanced s key gs row db)
unfolding replace_grants_tx write_grants
advance_sound f s key e gs db db' h =
    elim (Option-cases (advance_session s key e (find session_key s db.sessions))) [
      | inl n ↦ absurd (ground arith)
      | inr (row, q) ↦ (
        row,
        advance_session_sound s key e (find session_key s db.sessions) row q,
        ground arith,
        ground arith,
      )
    ]

find_grant-delete_self :
    (s d : String) (gs : List GrantRow) → find_grant s d (delete_session_grants s gs) ≡ none
unfolding find_grant delete_session_grants
find_grant-delete_self s d [] = refl
find_grant-delete_self s d (g ∷ gs) = ground (arith, find_grant-delete_self s d gs)

find_grant-delete_ne :
    (s t d : String) (gs : List GrantRow)
    → t ≢ s
    → find_grant t d (delete_session_grants s gs) ≡ find_grant t d gs
unfolding find_grant delete_session_grants
find_grant-delete_ne s t d [] n = refl
find_grant-delete_ne s t d (g ∷ gs) n =
    ground (arith, find_grant-delete_ne s t d gs n, eq_iff g.session s, eq_iff g.session t)

find_grant-rows_self :
    (s d : String) (gs : List DeviceGrant) (rest : List GrantRow)
    → find_grant s d rest ≡ none
    → find_grant s d (grant_rows s gs ++ rest) ≡ find_device d gs
unfolding find_grant grant_rows find_device
find_grant-rows_self s d [] rest n = n
find_grant-rows_self s d (g ∷ gs) rest n =
    ground (arith, find_grant-rows_self s d gs rest n, eq_refl s)

find_grant-rows_ne :
    (s t d : String) (gs : List DeviceGrant) (rest : List GrantRow)
    → t ≢ s
    → find_grant t d (grant_rows s gs ++ rest) ≡ find_grant t d rest
unfolding find_grant grant_rows
find_grant-rows_ne s t d [] rest n = refl
find_grant-rows_ne s t d (g ∷ gs) rest n =
    ground (arith, find_grant-rows_ne s t d gs rest n, eq_iff s t)

pub find_grant-advanced_self :
    (s key d : String) (gs : List DeviceGrant) (row : SessionRow) (db : Db)
    → find_grant s d (advanced s key gs row db).grants ≡ find_device d gs
find_grant-advanced_self s key d gs row db =
    find_grant-rows_self s d gs (delete_session_grants s db.grants)
      (find_grant-delete_self s d db.grants)

pub find_grant-advanced_ne :
    (s key t d : String) (gs : List DeviceGrant) (row : SessionRow) (db : Db)
    → t ≢ s
    → find_grant t d (advanced s key gs row db).grants ≡ find_grant t d db.grants
find_grant-advanced_ne s key t d gs row db n =
    find_grant-rows_ne s t d gs (delete_session_grants s db.grants) n
    ∙ find_grant-delete_ne s t d db.grants n

find_grant-advanced :
    (s key t d : String) (gs : List DeviceGrant) (row : SessionRow) (db : Db)
    → find_grant t d (advanced s key gs row db).grants
      ≡ (if str_eq s t then find_device d gs else find_grant t d db.grants)
find_grant-advanced s key t d gs row db = elim (Bool-cases (str_eq s t)) [
  | inl q ↦ rw q (
      subst (λ x. find_grant x d (advanced s key gs row db).grants ≡ find_device d gs)
        ((eq_iff s t).0 q) (find_grant-advanced_self s key d gs row db))
  | inr q ↦ rw q (
      find_grant-advanced_ne s key t d gs row db
        (λ e. absurd (ground (arith, q, eq_iff s t, sym e))))
]

transact-done :
    (f : Faults) (db db' : Db) (r : Result E2eeError Db)
    → transact f db (r >>= λ d. ok (tt, d)) ≡ (done, db')
    → r ≡ ok db'
transact-done f db db' (err e) h = absurd (ground arith)
transact-done f db db' (ok d) h = ground arith

-- `ReplaceGrants` succeeds only with a valid request, for a new session at epoch 0 or for a session
-- at exactly the expected epoch, with a key id that the session has never had. It then sets the row
-- to the next epoch and the new key with no commands counted and records the key; a device then
-- holds in the session exactly what the given grants say, and in another session what it held.
pub replace_grants_sound :
    (identifier : String → Bool) (f : Faults) (s key : String) (e : ℤ) (gs : List DeviceGrant)
    (db db' : Db) (t d : String)
    → replace_grants identifier f s key e gs db ≡ (done, db')
    → (expected : ℕ) × (row : SessionRow) × (validate_grants identifier s key e gs ≡ ok expected)
      × Advances s key expected (find session_key s db.sessions) row
      × (find key_epoch_key (s, key) db.key_epochs ≡ none)
      × (db' ≡ advanced s key gs row db)
      × (find_grant t d db'.grants
          ≡ (if str_eq s t then find_device d gs else find_grant t d db.grants))
unfolding replace_grants
replace_grants_sound identifier f s key e gs db db' t d h =
    elim (Result-cases (validate_grants identifier s key e gs)) [
      | inl (x, q) ↦ absurd (ground arith)
      | inr (n, q) ↦
          (let (row, v, unused, after) =
              advance_sound f s key n gs db db'
                (transact-done f db db' (replace_grants_tx f s key n gs db) (ground arith)) in
            (n, row, q, v, unused, after, rw after (find_grant-advanced s key t d gs row db)))
    ]

-- The row that is written is the session's.
Advances-session :
    (s key : String) (e : ℕ) (db : Db) (row : SessionRow)
    → Advances s key e (find session_key s db.sessions) row
    → row.session ≡ s
Advances-session s key e db row a = go (find session_key s db.sessions) refl a
  where
    go :
        (o : Option SessionRow)
        → find session_key s db.sessions ≡ o
        → Advances s key e o row
        → row.session ≡ s
    go none q (n, r) = ap (λ (x : SessionRow). x.session) r
    go (some old) q (n, m, k, r) =
        ap (λ (x : SessionRow). x.session) r ∙ find_key session_key s old db.sessions q

-- With no statement failing, a request succeeds that has identifiers for the session and the key, an
-- expected epoch below 2^53, and 1 to 32 grants of different devices, each with an identifier and a key
-- of 32 bytes, if the epoch advances the session (0 for a new one, else the session's own, with another
-- key) and the key id is unused. The session then has the advanced row, every other session its old
-- one, the key id is recorded, and a device holds in the session what the grants say and in another
-- session what it held.
pub replace_grants_complete :
    (identifier : String → Bool) (s key : String) (e : ℕ) (gs : List DeviceGrant) (row : SessionRow)
    (db : Db)
    → ValidRequest identifier s key e gs
    → Advances s key e (find session_key s db.sessions) row
    → find key_epoch_key (s, key) db.key_epochs ≡ none
    → (after : Db) × (replace_grants identifier no_faults s key (pos e) gs db ≡ (done, after))
      × ((t : String)
          → find session_key t after.sessions
            ≡ (if str_eq s t then some row else find session_key t db.sessions))
      × (find key_epoch_key (s, key) after.key_epochs ≡ some (s, key))
      × ((t d : String)
          → find_grant t d after.grants
            ≡ (if str_eq s t then find_device d gs else find_grant t d db.grants))
unfolding replace_grants replace_grants_tx write_grants
replace_grants_complete identifier s key e gs row db v a u =
    let p = validate_grants-ValidRequest identifier s key e gs v in
    let q = advance_session_complete s key e (find session_key s db.sessions) row a in
    let n = Advances-session s key e db row a in
    (
      advanced s key gs row db,
      ground arith,
      λ t.
          find-put session_key t row db.sessions
          ∙ ap (λ z. if str_eq z t then some row else find session_key t db.sessions) n,
      find-put key_epoch_key (s, key) (s, key) db.key_epochs
          ∙ rw ((same_pair_iff (s, key) (s, key)).1 refl) refl,
      λ t d. find_grant-advanced s key t d gs row db,
    )
