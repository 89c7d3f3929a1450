-- ===== src/E2ee/History/Epochs.antt =====
-- The session rows over a history: a positive epoch, a recorded key and a bounded count.
use agent_wharf.Prelude.{
  ℕ, ◌+◌, ◌≤◌, ◌≡◌, refl, sym, ap, subst, ◌∙◌, String, Bool, true, Option, none, some, Bool-cases,
  List, arith, str_eq, eq_iff, find, put, text_key, pair_key, same_pair, same_pair_iff, inl, inr,
  find-put, if◌then◌else◌,
}
use agent_wharf.E2ee.Db.{
  Db, SessionRow, DeviceRow, Faults, session_key, key_epoch_key, new_db, DeviceGrant,
}
use agent_wharf.E2ee.Grants.Advance.{advanced, Advances}
use agent_wharf.E2ee.Admit.{Crypto, max_commands_per_session}
use agent_wharf.E2ee.Session.{Machine}
use agent_wharf.E2ee.History.{Op, run}
use agent_wharf.E2ee.History.Kinds.{
  Write, Writes, claim, settles, advance, store_key, drop_device, here, next,
}
use agent_wharf.E2ee.History.Writes.{run-Writes}

-- The key id was recorded for the session.
abbrev pub Used : Db → String → String → Type 0
Used db s key = find key_epoch_key (s, key) db.key_epochs ≡ some (s, key)

-- The row of a session: it carries the session's own name, a positive epoch and a recorded key, and
-- counts at most 4096 commands.
pub record RowInv (db : Db) (s : String) (row : SessionRow) : Type 0 where
  pub named : row.session ≡ s
  pub counted : 1 ≤ row.epoch
  pub bounded : row.command_count ≤ max_commands_per_session
  pub recorded : Used db s row.key_id

abbrev pub Inv : Db → Type 0
Inv db =
    (s : String) (row : SessionRow) → find session_key s db.sessions ≡ some row → RowInv db s row

Used-put :
    (s key t other : String) (db db' : Db)
    → db'.key_epochs ≡ put key_epoch_key (t, other) db.key_epochs
    → Used db s key
    → Used db' s key
Used-put s key t other db db' e u =
    ap (find key_epoch_key (s, key)) e
    ∙ find-put key_epoch_key (s, key) (t, other) db.key_epochs
    ∙ elim (Bool-cases (same_pair (t, other) (s, key))) [
      | inl q ↦ rw q (ap some ((same_pair_iff (t, other) (s, key)).0 q))
      | inr q ↦ rw q u
    ]

pub Write-Used :
    {own : String} (s key : String) (db db' : Db)
    → Write own db db'
    → Used db s key
    → Used db' s key
Write-Used s key db db' (claim c fp r es ek new n e) u = rw e u
Write-Used s key db db' (settles r state old m e) u = rw e u
Write-Used s key db db' (advance t other x gs row a unused after) u =
    Used-put s key t other db db' (ap (λ (d : Db). d.key_epochs) after) u
Write-Used s key db db' (store_key r rs fresh one_receipt e) u = rw e u
Write-Used s key db db' (drop_device d ds gone cut e) u = rw e u

pub same-session : (a b : String) → str_eq a b ≡ true → a ≡ b
same-session a b = (eq_iff a b).0

-- The sessions after one row was written.
pub find-written :
    (s : String) (row : SessionRow) (db db' : Db)
    → db'.sessions ≡ put session_key row db.sessions
    → find session_key s db'.sessions
      ≡ (if str_eq row.session s then some row else find session_key s db.sessions)
find-written s row db db' e = ap (find session_key s) e ∙ find-put session_key s row db.sessions

RowInv-later :
    {db db' : Db} {s : String} {row : SessionRow}
    → ((key : String) → Used db s key → Used db' s key)
    → RowInv db s row
    → RowInv db' s row
RowInv-later {row} u v = record {
  named = v.named;
  counted = v.counted;
  bounded = v.bounded;
  recorded = u row.key_id v.recorded;
}

Inv-put :
    (db db' : Db) (row : SessionRow)
    → Inv db
    → db'.sessions ≡ put session_key row db.sessions
    → ((s key : String) → Used db s key → Used db' s key)
    → RowInv db' row.session row
    → Inv db'
Inv-put db db' row v e u new s found h = elim (Bool-cases (str_eq row.session s)) [
  | inl q ↦
      (let same : row ≡ found = ground (arith, find-written s row db db' e) in
        subst (RowInv db' s) same
          (subst (λ t. RowInv db' t row) (same-session row.session s q) new))
  | inr q ↦ RowInv-later (u s) (v s found (ground (arith, find-written s row db db' e)))
]

Inv-same :
    (db db' : Db)
    → Inv db
    → db'.sessions ≡ db.sessions
    → ((s key : String) → Used db s key → Used db' s key)
    → Inv db'
Inv-same db db' v e u s row h = RowInv-later (u s) (v s row (rw (sym e) h))

pub Advances-row :
    (s key : String) (x : ℕ) (o : Option SessionRow) (row : SessionRow)
    → ((old : SessionRow) → o ≡ some old → old.session ≡ s)
    → Advances s key x o row
    → (row.session ≡ s) × (1 ≤ row.epoch) × (row.key_id ≡ key) × (row.command_count ≡ 0)
Advances-row s key x none row n a = ground arith
Advances-row s key x (some old) row n a = ground (arith, n old refl)

recorded_key :
    (s key : String) (gs : List DeviceGrant) (row : SessionRow) (db : Db)
    → Used (advanced s key gs row db) s key
recorded_key s key gs row db =
    find-put key_epoch_key (s, key) (s, key) db.key_epochs
    ∙ rw ((same_pair_iff (s, key) (s, key)).1 refl)

Write-Inv : {own : String} (db db' : Db) → Write own db db' → Inv db → Inv db'
Write-Inv {own} db db' (claim c fp r es ek new n e) v =
    let old = v c.session r es in
    Inv-put db db' (record r { command_count = r.command_count + 1 }) v
      (ap (λ (d : Db). d.sessions) e)
      (λ s key. Write-Used {own = own} s key db db' (claim c fp r es ek new n e))
      (record {
        named = refl;
        counted = old.counted;
        bounded = omega arith;
        recorded =
            Write-Used {own = own} r.session r.key_id db db' (claim c fp r es ek new n e)
              (subst (λ t. Used db t r.key_id) (sym old.named) old.recorded);
      })
Write-Inv {own} db db' (settles r state old m e) v =
    Inv-same db db' v (ap (λ (d : Db). d.sessions) e)
      (λ s key. Write-Used {own = own} s key db db' (settles r state old m e))
Write-Inv {own} db db' (advance t other x gs row a unused after) v =
    let (named, counted, keyed, zeroed) =
      Advances-row t other x (find session_key t db.sessions) row (λ old q. (v t old q).named) a in
    Inv-put db db' row v (ap (λ (d : Db). d.sessions) after)
      (λ s key. Write-Used {own = own} s key db db' (advance t other x gs row a unused after))
      (record {
        named = refl;
        counted = counted;
        bounded = omega arith;
        recorded = rw (after, named, keyed) (recorded_key t other gs row db);
      })
Write-Inv {own} db db' (store_key r rs fresh one_receipt e) v =
    Inv-same db db' v (ap (λ (d : Db). d.sessions) e)
      (λ s key. Write-Used {own = own} s key db db' (store_key r rs fresh one_receipt e))
Write-Inv {own} db db' (drop_device d ds gone cut e) v =
    Inv-same db db' v (ap (λ (d : Db). d.sessions) e)
      (λ s key. Write-Used {own = own} s key db db' (drop_device d ds gone cut e))

pub Writes-Inv : {own : String} (db : Db) {db' : Db} → Writes own db db' → Inv db → Inv db'
Writes-Inv db here v = v
Writes-Inv db (next {d = d} {e = e} ws w) v = Write-Inv d e w (Writes-Inv db ws v)

pub Writes-Used :
    {own : String} (s key : String) (db : Db) {db' : Db}
    → Writes own db db'
    → Used db s key
    → Used db' s key
Writes-Used s key db here u = u
Writes-Used s key db (next {d = d} {e = e} ws w) u =
    Write-Used s key d e w (Writes-Used s key db ws u)

new-Inv : Inv new_db
unfolding find
new-Inv s row h = cc

module _ (k : Crypto) (valid_identity : DeviceRow → Bool) (m : Machine) where
  -- After any history on new tables, with any faults, every session has a positive epoch, a recorded
  -- key and at most 4096 commands counted on it.
  pub run-new_db-Inv :
      (ops : List (Faults × Op)) (s : String) (row : SessionRow)
      → find session_key s (run k valid_identity m ops new_db).sessions ≡ some row
      → RowInv (run k valid_identity m ops new_db) s row
  run-new_db-Inv ops = Writes-Inv new_db (run-Writes k valid_identity m ops new_db) new-Inv
