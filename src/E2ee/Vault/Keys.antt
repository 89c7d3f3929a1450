-- ===== src/E2ee/Vault/Keys.antt =====
-- A session key that is created can be loaded again.
use agent_wharf.Prelude.{
  String, ◌≡◌, refl, sym, ap, subst, ◌∙◌, ◌⊎◌, inl, inr, true, false, none, some, List, Result, ok,
  is_ok, find, put, find-put, text_key, pair_key, same_pair_iff, same_pair, Option-cases, ◌≢◌, [],
  ◌∷◌, if◌then◌else◌, Bool-cases, Result-cases, not, ◌||◌,
}
use agent_wharf.E2ee.Db.{
  E2eeError, Bytes, SessionKeyRow, Db, Faults, write_key, read_session, wrapped_key,
}
use agent_wharf.E2ee.Executor.{Endpoint, load}
use agent_wharf.E2ee.Vault.{insert_key, create}

-- A further creation: its failing statements, its random key and its name.
pub record Creation : Type 0 where
  pub faults : Faults
  pub load_faults : Faults
  pub random : Result E2eeError Bytes
  pub session : String
  pub key_id : String

-- The tables after a sequence of creations.
pub run_creations :
    Endpoint → (String → String → Bytes → Result E2eeError Bytes) → List Creation → Db → Db
run_creations p wrap [] db = db
run_creations p wrap (c ∷ cs) db =
    run_creations p wrap cs (create p wrap c.faults c.load_faults c.random c.session c.key_id db).1

none-some : (r : SessionKeyRow) → none ≢ some r
none-some r e = cc

insert_key_new :
    (row : SessionKeyRow) (rows : List SessionKeyRow)
    → find wrapped_key (row.session, row.key_id) rows ≡ none
    → insert_key row rows ≡ put wrapped_key row rows
unfolding insert_key
insert_key_new row rows e = rw (e, insert_key) refl

insert_key_old :
    (row r : SessionKeyRow) (rows : List SessionKeyRow)
    → find wrapped_key (row.session, row.key_id) rows ≡ some r
    → insert_key row rows ≡ rows
unfolding insert_key
insert_key_old row r rows e = rw (e, insert_key) refl

find-put_key :
    (row : SessionKeyRow) (rows : List SessionKeyRow)
    → find wrapped_key (row.session, row.key_id) (put wrapped_key row rows) ≡ some row
find-put_key row rows =
    find-put wrapped_key (wrapped_key row) row rows
    ∙ rw (let (_, from) = same_pair_iff (wrapped_key row) (wrapped_key row) in from refl) refl

-- The tables after a creation that comes to its insertion.
abbrev pub inserted : String → String → Bytes → Db → Db
inserted s k wrapped db = record db {
  session_keys = insert_key (record { session = s; key_id = k; wrapped = wrapped }) db.session_keys;
}

create_inserts :
    (p : Endpoint) (wrap : String → String → Bytes → Result E2eeError Bytes) (f g : Faults)
    (s k : String) (key wrapped : Bytes) (db : Db)
    → p.crypto.identifier s ≡ true
    → p.crypto.identifier k ≡ true
    → wrap s k key ≡ ok wrapped
    → f write_key ≡ false
    → create p wrap f g (ok key) s k db
      ≡ (load p g s k (inserted s k wrapped db), inserted s k wrapped db)
unfolding create
create_inserts p wrap f g s k key wrapped db i j w h = simp (i, j, w, h, create) refl

load_found :
    (p : Endpoint) (g : Faults) (s k : String) (db : Db) (row : SessionKeyRow)
    → p.crypto.identifier s ≡ true
    → p.crypto.identifier k ≡ true
    → g read_session ≡ false
    → find wrapped_key (s, k) db.session_keys ≡ some row
    → load p g s k db ≡ p.unwrap_key row
unfolding load
load_found p g s k db row i j r e = rw (i, j, r, e, load) refl

-- A creation on tables that have the key leaves them as they are.
create_again :
    (p : Endpoint) (wrap : String → String → Bytes → Result E2eeError Bytes) (f g : Faults)
    (random : Result E2eeError Bytes) (s k : String) (row : SessionKeyRow) (db : Db)
    → find wrapped_key (s, k) db.session_keys ≡ some row
    → ((create p wrap f g random s k db).1 ≡ db)
      × (((create p wrap f g random s k db).0 ≡ load p g s k db)
          ⊎ (is_ok (create p wrap f g random s k db).0 ≡ false))
unfolding create
create_again p wrap f g random s k row db e =
    elim (Bool-cases (not (p.crypto.identifier s) || not (p.crypto.identifier k))) [
      | inl b ↦ simp (b, create) (refl, inr refl)
      | inr b ↦ elim (Result-cases random) [
        | inl (x, r) ↦ simp (b, r, create) (refl, inr refl)
        | inr (key, r) ↦ elim (Result-cases (wrap s k key)) [
          | inl (x, w) ↦ simp (b, r, w, create) (refl, inr refl)
          | inr (wrapped, w) ↦ elim (Bool-cases (f write_key)) [
            | inl h ↦ simp (b, r, w, h, create) (refl, inr refl)
            | inr h ↦
                simp (b, r, w, h, create) (same wrapped, inl (ap (load p g s k) (same wrapped)))
          ]
        ]
      ]
    ]
  where
    same : (wrapped : Bytes) → inserted s k wrapped db ≡ db
    same wrapped =
        ap (λ (z : List SessionKeyRow). record db { session_keys = z })
          (insert_key_old (record { session = s; key_id = k; wrapped = wrapped }) row
            db.session_keys e)

-- A creation keeps every row of a key that the tables have.
insert_key-keeps :
    (a : String × String) (row r : SessionKeyRow) (rows : List SessionKeyRow)
    → find wrapped_key a rows ≡ some r
    → find wrapped_key a (insert_key row rows) ≡ some r
unfolding insert_key
insert_key-keeps a row r rows e = elim (Option-cases (find wrapped_key (wrapped_key row) rows)) [
  | inr (x, q) ↦ rw (q, insert_key) e
  | inl q ↦
      simp (q, insert_key)
        (find-put wrapped_key a row rows ∙ elim (Bool-cases (same_pair (wrapped_key row) a)) [
          | inr n ↦ rw n e
          | inl t ↦ absurd (
              none-some r (
                sym q
                ∙ ap (λ z. find wrapped_key z rows) ((same_pair_iff (wrapped_key row) a).0 t)
                ∙ e))
        ])
]

create-keeps :
    (p : Endpoint) (wrap : String → String → Bytes → Result E2eeError Bytes) (c : Creation)
    (a : String × String) (r : SessionKeyRow) (db : Db)
    → find wrapped_key a db.session_keys ≡ some r
    → find wrapped_key a
        (create p wrap c.faults c.load_faults c.random c.session c.key_id db).1.session_keys
      ≡ some r
unfolding create
create-keeps p wrap c a r db e =
    elim (Bool-cases (not (p.crypto.identifier c.session) || not (p.crypto.identifier c.key_id))) [
      | inl b ↦ simp (b, create) e
      | inr b ↦ elim (Result-cases c.random) [
        | inl (x, q) ↦ simp (b, q, create) e
        | inr (key, q) ↦ elim (Result-cases (wrap c.session c.key_id key)) [
          | inl (x, w) ↦ simp (b, q, w, create) e
          | inr (wrapped, w) ↦ elim (Bool-cases (c.faults write_key)) [
            | inl h ↦ simp (b, q, w, h, create) e
            | inr h ↦
                simp (b, q, w, h, create)
                  (insert_key-keeps a
                    (record { session = c.session; key_id = c.key_id; wrapped = wrapped }) r
                    db.session_keys e)
          ]
        ]
      ]
    ]

run_creations-keeps :
    (p : Endpoint) (wrap : String → String → Bytes → Result E2eeError Bytes) (cs : List Creation)
    (a : String × String) (r : SessionKeyRow) (db : Db)
    → find wrapped_key a db.session_keys ≡ some r
    → find wrapped_key a (run_creations p wrap cs db).session_keys ≡ some r
unfolding run_creations
run_creations-keeps p wrap [] a r db e = e
run_creations-keeps p wrap (c ∷ cs) a r db e =
    run_creations-keeps p wrap cs a r _ (create-keeps p wrap c a r db e)

-- What a creation of the key has returned and left: the tables `made` differ from those before by the
-- new key's row only; and after any further creations, a load gives the key back, and a creation under
-- its name leaves the tables and gives the key or an error.
pub record Kept (p : Endpoint) (wrap : String → String → Bytes → Result E2eeError Bytes)
    (cs : List Creation) (f' g' : Faults) (s k : String) (key wrapped : Bytes)
    (other : Result E2eeError Bytes) (db : Db) (first : Result E2eeError Bytes) (made : Db)
    : Type 0 where
  pub given : first ≡ ok key
  pub only_keys : made ≡ record db { session_keys = made.session_keys }
  pub only_one :
      (t j : String)
      → find wrapped_key (t, j) made.session_keys ≡ (
          if same_pair (s, k) (t, j)
          then some (record { session = s; key_id = k; wrapped = wrapped })
          else find wrapped_key (t, j) db.session_keys)
  pub loaded : load p g' s k (run_creations p wrap cs made) ≡ ok key
  pub unchanged :
      (create p wrap f' g' other s k (run_creations p wrap cs made)).1
      ≡ run_creations p wrap cs made
  pub repeated :
      ((create p wrap f' g' other s k (run_creations p wrap cs made)).0 ≡ ok key)
      ⊎ (is_ok (create p wrap f' g' other s k (run_creations p wrap cs made)).0 ≡ false)

-- A key that is created under a new name is returned, and its row is added with every other wrapped key
-- and every other table as before. After any further creations, under any names, with any keys and any
-- statements failing, a load whose read succeeds gives the key back; and a creation under its name, with
-- whatever other key and failing statements, leaves the tables as they are and gives that same key or an
-- error. Unwrapping is taken to undo wrapping.
pub create_load :
    (p : Endpoint) (wrap : String → String → Bytes → Result E2eeError Bytes)
    (unwraps : (s k : String) (key wrapped : Bytes)
      → wrap s k key ≡ ok wrapped
      → p.unwrap_key (record { session = s; key_id = k; wrapped = wrapped }) ≡ ok key)
    (f g f' g' : Faults) (s k : String) (key wrapped : Bytes) (other : Result E2eeError Bytes)
    (cs : List Creation) (db : Db)
    → p.crypto.identifier s ≡ true
    → p.crypto.identifier k ≡ true
    → wrap s k key ≡ ok wrapped
    → f write_key ≡ false
    → g read_session ≡ false
    → g' read_session ≡ false
    → find wrapped_key (s, k) db.session_keys ≡ none
    → Kept p wrap cs f' g' s k key wrapped other db
        (create p wrap f g (ok key) s k db).0
        (create p wrap f g (ok key) s k db).1
create_load p wrap unwraps f g f' g' s k key wrapped other cs db i j w h r r' n =
    subst (λ z. Kept p wrap cs f' g' s k key wrapped other db z.0 z.1)
      (sym (create_inserts p wrap f g s k key wrapped db i j w h))
      (record {
        given = back g r made held;
        only_keys = refl;
        only_one = λ t j.
            ap (find wrapped_key (t, j)) (insert_key_new row db.session_keys n)
            ∙ find-put wrapped_key (t, j) row db.session_keys;
        loaded = back g' r' later kept;
        unchanged = again.0;
        repeated = elim again.1 [ inl e ↦ inl (e ∙ back g' r' later kept) | inr e ↦ inr e ];
      })
  where
    made : Db
    made = inserted s k wrapped db

    later : Db
    later = run_creations p wrap cs made

    row : SessionKeyRow
    row = record { session = s; key_id = k; wrapped = wrapped }

    held : find wrapped_key (s, k) made.session_keys ≡ some row
    held =
        ap (find wrapped_key (s, k)) (insert_key_new row db.session_keys n)
        ∙ find-put_key row db.session_keys

    kept : find wrapped_key (s, k) later.session_keys ≡ some row
    kept = run_creations-keeps p wrap cs (s, k) row made held

    back :
        (x : Faults)
        → x read_session ≡ false
        → (d : Db) → find wrapped_key (s, k) d.session_keys ≡ some row
        → load p x s k d ≡ ok key
    back x c d q = load_found p x s k d row i j c q ∙ unwraps s k key wrapped w

    again :
        ((create p wrap f' g' other s k later).1 ≡ later)
        × (((create p wrap f' g' other s k later).0 ≡ load p g' s k later)
            ⊎ (is_ok (create p wrap f' g' other s k later).0 ≡ false))
    again = create_again p wrap f' g' other s k row later kept
