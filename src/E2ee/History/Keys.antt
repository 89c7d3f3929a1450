-- ===== src/E2ee/History/Keys.antt =====
-- The session rows over a history: a key that a session has had is not its key again.
use agent_wharf.Prelude.{
  ℕ, ◌+◌, ◌≤◌, ◌<◌, ◌≡◌, ◌≢◌, refl, sym, ap, subst, ◌∙◌, String, Bool, Option, none, some,
  Option-cases, Bool-cases, List, arith, str_eq, find, text_key, pair_key, inl, inr, ◌⊎◌, find_key,
}
use agent_wharf.E2ee.Db.{Db, SessionRow, DeviceRow, Faults, session_key, key_epoch_key}
use agent_wharf.E2ee.Grants.Advance.{Advances}
use agent_wharf.E2ee.Admit.{Crypto}
use agent_wharf.E2ee.Session.{Machine}
use agent_wharf.E2ee.History.{Op, run}
use agent_wharf.E2ee.History.Kinds.{
  Write, Writes, claim, settles, advance, store_key, drop_device, here, next,
}
use agent_wharf.E2ee.History.Writes.{run-Writes}
use agent_wharf.E2ee.History.Epochs.{
  Used, Inv, same-session, find-written, Advances-row, Writes-Inv, Writes-Used,
}

-- A later row of the same session: the same epoch and key with a count that has not fallen, or a
-- higher epoch with a key that was not recorded before.
abbrev pub Later : Db → String → SessionRow → SessionRow → Type 0
Later db s row row' =
    ((row'.epoch ≡ row.epoch)
      × (row'.key_id ≡ row.key_id)
      × (row.command_count ≤ row'.command_count))
    ⊎ ((row.epoch < row'.epoch) × (find key_epoch_key (s, row'.key_id) db.key_epochs ≡ none))

abbrev Kept : Db → String → SessionRow → Db → Type 0
Kept db s row db' =
    (row' : SessionRow) × (find session_key s db'.sessions ≡ some row') × Later db s row row'

none-ne-some : {A : Type 0} {a : A} → none ≡ some a → ⊥
none-ne-some h = cc

-- What is unused later was unused before.
unused_before :
    (s key : String) (db d : Db)
    → (Used db s key → Used d s key)
    → find key_epoch_key (s, key) d.key_epochs ≡ none
    → find key_epoch_key (s, key) db.key_epochs ≡ none
unused_before s key db d u n = elim (Option-cases (find key_epoch_key (s, key) db.key_epochs)) [
  | inl e ↦ e
  | inr (p, e) ↦
      absurd (ground (arith, u (e ∙ ap some (find_key key_epoch_key (s, key) p db.key_epochs e))))
]

Later-trans :
    (db d : Db) (s : String) (row row' row'' : SessionRow)
    → ((key : String) → Used db s key → Used d s key)
    → Later db s row row'
    → Later d s row' row''
    → Later db s row row''
Later-trans db d s row row' row'' u (inl a) (inl b) =
    inl (omega (arith, a.0, b.0), b.1 ∙ a.1, omega (arith, a.2, b.2))
Later-trans db d s row row' row'' u (inl a) (inr b) =
    inr (omega (arith, a.0, b.0), unused_before s row''.key_id db d (u row''.key_id) b.1)
Later-trans db d s row row' row'' u (inr a) (inl b) = inr (omega (arith, a.0, b.0), rw (b.1) a.1)
Later-trans db d s row row' row'' u (inr a) (inr b) =
    inr (omega (arith, a.0, b.0), unused_before s row''.key_id db d (u row''.key_id) b.1)

Later-refl : (db : Db) (s : String) (row : SessionRow) → Later db s row row
Later-refl db s row = inl (refl, refl, omega arith)

Later-advanced :
    (db : Db) (s key : String) (x : ℕ) (row row' : SessionRow)
    → Advances s key x (some row) row'
    → find key_epoch_key (s, key) db.key_epochs ≡ none
    → Later db s row row'
Later-advanced db s key x row row' a n =
    inr (ground arith, rw (ap (λ (r : SessionRow). r.key_id) a.3) n)

same_row : {o : Option SessionRow} {r row : SessionRow} → o ≡ some r → o ≡ some row → r ≡ row
same_row p q = cc

Write-Kept :
    {own : String} (s : String) (row : SessionRow) (db db' : Db)
    → Inv db
    → Write own db db'
    → find session_key s db.sessions ≡ some row
    → Kept db s row db'
Write-Kept s row db db' v (claim c fp r es ek new n e) h =
    let written =
      find-written s (record r { command_count = r.command_count + 1 }) db db'
        (ap (λ (d : Db). d.sessions) e) in
    elim (Bool-cases (str_eq r.session s)) [
      | inl q ↦ (
        record r { command_count = r.command_count + 1 },
        written ∙ rw q,
        subst (λ x. Later db s x (record r { command_count = r.command_count + 1 }))
            (same_row
              (subst (λ t. find session_key t db.sessions ≡ some r)
                (sym (v c.session r es).named ∙ same-session r.session s q) es)
              h)
            (inl (refl, refl, omega arith)),
      )
      | inr q ↦ (row, written ∙ rw q h, Later-refl db s row)
    ]
Write-Kept s row db db' v (settles r state old m e) h = (row, rw e h, Later-refl db s row)
Write-Kept s row db db' v (advance t other x gs new a unused after) h =
    let (named, counted, keyed, zeroed) =
      Advances-row t other x (find session_key t db.sessions) new (λ old q. (v t old q).named) a in
    let written = find-written s new db db' (ap (λ (d : Db). d.sessions) after) in
    elim (Bool-cases (str_eq new.session s)) [
      | inl q ↦
          (let p : t ≡ s = sym named ∙ same-session new.session s q in
            (
              new,
              written ∙ rw q,
              Later-advanced db s other x row new
                  (subst (λ o. Advances s other x o new) h
                    (subst (λ y. Advances y other x (find session_key y db.sessions) new) p a))
                  (subst (λ y. find key_epoch_key (y, other) db.key_epochs ≡ none) p unused),
            ))
      | inr q ↦ (row, written ∙ rw q h, Later-refl db s row)
    ]
Write-Kept s row db db' v (store_key r rs fresh one_receipt e) h =
    (row, rw e h, Later-refl db s row)
Write-Kept s row db db' v (drop_device d ds gone cut e) h = (row, rw e h, Later-refl db s row)

Writes-Kept :
    {own : String} (s : String) (row : SessionRow) (db : Db) {db' : Db}
    → Inv db
    → Writes own db db'
    → find session_key s db.sessions ≡ some row
    → Kept db s row db'
Writes-Kept s row db v here h = (row, h, Later-refl db s row)
Writes-Kept s row db v (next {d = d} {e = e} ws w) h =
    let (r, q, l) = Writes-Kept s row db v ws h in
    let (r', q', l') = Write-Kept s r d e (Writes-Inv db ws v) w q in
    (r', q', Later-trans db d s row r r' (λ key. Writes-Used s key db ws) l l')

module _ (k : Crypto) (valid_identity : DeviceRow → Bool) (m : Machine) where
  -- A session's row stays over any history: either the epoch and the key are the same and no counted
  -- command is lost, or the epoch is higher, and the key is none that the session had at the start.
  pub keys_never_return :
      (ops : List (Faults × Op)) (db : Db) (s key : String) (row : SessionRow)
      → Inv db
      → find session_key s db.sessions ≡ some row
      → Used db s key
      → (row' : SessionRow) × (find session_key s (run k valid_identity m ops db).sessions
          ≡ some row')
        × (((row'.epoch ≡ row.epoch)
              × (row'.key_id ≡ row.key_id)
              × (row.command_count ≤ row'.command_count))
            ⊎ ((row.epoch < row'.epoch) × (row'.key_id ≢ key)))
  keys_never_return ops db s key row v h u =
      let (row', q, l) = Writes-Kept s row db v (run-Writes k valid_identity m ops db) h in
      elim l [
        | inl a ↦ (row', q, inl a)
        | inr a ↦
            (row', q, inr (a.0, λ e. none-ne-some (sym a.1 ∙ subst (λ x. Used db s x) (sym e) u)))
      ]
