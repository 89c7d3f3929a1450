-- ===== src/E2ee/History/Commands.antt =====
-- The command rows over a history: a row is never removed or reopened, so a command runs once.
use agent_wharf.Prelude.{
  ◌≡◌, refl, ◌∙◌, String, Bool, true, Option, none, some, Option-cases, Bool-cases, List, Result,
  ok, err, arith, find, text_key, pair_key, same_pair, inl, inr, find-put, same_pair_iff, sym, ap,
}
use agent_wharf.E2ee.Db.{
  E2eeError, Bytes, DeviceRow, CommandState, claimed, CommandRow, Db, Faults, command_key,
}
use agent_wharf.E2ee.Admit.{
  Context, Envelope, CommandAdmission, Crypto, admit_validated, may_become,
}
use agent_wharf.E2ee.Admit.Sound.{Executed, admit_sound}
use agent_wharf.E2ee.Session.{Machine}
use agent_wharf.E2ee.History.{Op, run}
use agent_wharf.E2ee.History.Kinds.{
  Write, Writes, claim, settles, advance, store_key, drop_device, here, next,
}
use agent_wharf.E2ee.History.Writes.{run-Writes, released}

-- What becomes of a command's row: its fingerprint stays, and so does a final state.
pub record Follows (row row' : CommandRow) : Type 0 where
  pub same_request : row'.fingerprint ≡ row.fingerprint
  pub settled : may_become row.state row'.state ≡ true

Follows-trans : {a b c : CommandRow} → Follows a b → Follows b c → Follows a c
Follows-trans v w = ground arith

-- The row that a command with a row in `db` has in `db'`.
abbrev Kept : String × String → CommandRow → Db → Type 0
Kept p row db' =
    (row' : CommandRow) × (find command_key p db'.commands ≡ some row') × Follows row row'

some-ne-none : {A : Type 0} {a : A} → some a ≡ none → ⊥
some-ne-none h = cc

-- A permitted change of state, on the row that is found.
Follows-same :
    (row r : CommandRow) (state : CommandState)
    → may_become r.state state ≡ true
    → some row ≡ some r
    → Follows row (record r { state = state })
Follows-same row r state m e = ground arith

Write-Kept :
    {own : String} (p : String × String) (row : CommandRow) (db db' : Db)
    → Write own db db'
    → find command_key p db.commands ≡ some row
    → Kept p row db'
Write-Kept p row db db' (claim c fp r es ek new n e) h =
    elim (Bool-cases (same_pair (c.session, c.message_id) p)) [
      | inl s ↦ absurd (some-ne-none (sym h ∙ rw (sym ((same_pair_iff _ p).0 s)) new))
      | inr s ↦ (row, rw e (find-put command_key p _ db.commands ∙ rw s h), ground arith)
    ]
Write-Kept p row db db' (settles r state old m e) h =
    elim (Bool-cases (same_pair (r.session, r.message) p)) [
      | inl s ↦ (
        record r { state = state },
        rw e (find-put command_key p _ db.commands ∙ rw s),
        Follows-same row r state m (sym h ∙ rw (sym ((same_pair_iff _ p).0 s)) old),
      )
      | inr s ↦ (row, rw e (find-put command_key p _ db.commands ∙ rw s h), ground arith)
    ]
Write-Kept p row db db' (advance s key x gs new a unused after) h = (row, rw after h, ground arith)
Write-Kept p row db db' (store_key r rs fresh one_receipt e) h = (row, rw e h, ground arith)
Write-Kept p row db db' (drop_device d ds gone cut e) h = (row, rw e h, ground arith)

Writes-Kept :
    {own : String} (p : String × String) (row : CommandRow) (db : Db) {db' : Db}
    → Writes own db db'
    → find command_key p db.commands ≡ some row
    → Kept p row db'
Writes-Kept p row db here h = (row, h, ground arith)
Writes-Kept p row db (next {d = d} {e = e} ws w) h =
    let (r, q, v) = Writes-Kept p row db ws h in
    let (s, x, y) = Write-Kept p r d e w q in (s, x, Follows-trans v y)

pub Executed-row :
    {k : Crypto} {validate : Bytes → Bool} {c : Context} {key : Bytes} {envelope : Envelope}
    {db : Db} {a : CommandAdmission} {pl : Bytes} {db' : Db}
    → Executed k validate c key envelope db a pl db'
    → (row : CommandRow) × (find command_key (c.session, c.message_id) db'.commands ≡ some row)
      × (row.state ≡ claimed)
Executed-row {c} {db} {db'} x = (
  row,
  ap (λ d. find command_key (c.session, c.message_id) d.commands) x.after
      ∙ find-put command_key (c.session, c.message_id) row db.commands
      ∙ rw ((same_pair_iff (c.session, c.message_id) (c.session, c.message_id)).1 refl),
  refl,
)
  where
    row : CommandRow
    row = record {
      session = c.session;
      message = c.message_id;
      fingerprint = x.fingerprint;
      state = claimed;
    }

released-new :
    (k : Crypto) (f : Faults) (validate : Bytes → Bool) (c : Context) (key : Bytes)
    (envelope : Envelope) (db : Db) (p : Bytes)
    → released (admit_validated k f validate c key envelope db).0 ≡ some p
    → find command_key (c.session, c.message_id) db.commands ≡ none
released-new k f validate c key envelope db p h =
    go (admit_validated k f validate c key envelope db).0 refl
  where
    go :
        (r : Result E2eeError (CommandAdmission × Option Bytes))
        → (admit_validated k f validate c key envelope db).0 ≡ r
        → find command_key (c.session, c.message_id) db.commands ≡ none
    go (err e) q = absurd (some-ne-none (sym h ∙ rw q))
    go (ok (a, none)) q = absurd (some-ne-none (sym h ∙ rw q))
    go (ok (a, some x)) q =
        (admit_sound k f validate c key envelope db a x
          (admit_validated k f validate c key envelope db).1
          (λ i. (q i, (admit_validated k f validate c key envelope db).1))).fresh

module _ (k : Crypto) (valid_identity : DeviceRow → Bool) (m : Machine) where
  -- Over any history, with any faults, a command's row stays, keeps the fingerprint of the request
  -- that claimed it, and has a state that its first state may become: the same, or any if `claimed`.
  pub command_row_kept :
      (ops : List (Faults × Op)) (db : Db) (session message : String) (row : CommandRow)
      → find command_key (session, message) db.commands ≡ some row
      → (row' : CommandRow) × (find command_key
            (session, message)
            (run k valid_identity m ops db).commands
          ≡ some row')
        × (row'.fingerprint ≡ row.fingerprint)
        × (may_become row.state row'.state ≡ true)
  command_row_kept ops db session message row h =
      let (r, q, v) =
        Writes-Kept (session, message) row db (run-Writes k valid_identity m ops db) h in
      (r, q, v.same_request, v.settled)

  -- A command whose plaintext was released for execution is never released again: whatever calls
  -- come after the admission, with any faults, no admission of the same session and message, under
  -- any key, envelope or check, releases a plaintext.
  pub executes_once :
      (f : Faults) (validate : Bytes → Bool) (c : Context) (key : Bytes) (envelope : Envelope)
      (db : Db) (a : CommandAdmission) (pl : Bytes) (db' : Db) (ops : List (Faults × Op))
      (f₂ : Faults) (validate₂ : Bytes → Bool) (c₂ : Context) (key₂ : Bytes) (envelope₂ : Envelope)
      → admit_validated k f validate c key envelope db ≡ (ok (a, some pl), db')
      → c₂.session ≡ c.session
      → c₂.message_id ≡ c.message_id
      → released
          (admit_validated k f₂ validate₂ c₂ key₂ envelope₂ (run k valid_identity m ops db')).0
        ≡ none
  executes_once f validate c key envelope db a pl db' ops f₂ validate₂ c₂ key₂ envelope₂ h s i =
      let (row, found, _) = Executed-row (admit_sound k f validate c key envelope db a pl db' h) in
      let (r, q, _, _) = command_row_kept ops db' c.session c.message_id row found in
      let late : Db = run k valid_identity m ops db' in
      elim (Option-cases (released (admit_validated k f₂ validate₂ c₂ key₂ envelope₂ late).0)) [
        | inl n ↦ n
        | inr (p, e) ↦ absurd (
            some-ne-none
              (sym q ∙ rw (sym s, sym i) (released-new k f₂ validate₂ c₂ key₂ envelope₂ late p e)))
      ]
