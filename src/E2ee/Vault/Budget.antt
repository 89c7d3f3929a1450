-- ===== src/E2ee/Vault/Budget.antt =====
-- The budget of seals: every packet is paid for, and a key pays for at most 2 ^ 14.
use agent_wharf.Prelude.{
  ℕ, suc, ◌+◌, ◌≤◌, String, ◌≡◌, refl, sym, ap, subst, ◌∙◌, ◌⊎◌, inl, inr, Bool, true, false, not,
  ◌||◌, Option, none, some, List, [], ◌∷◌, arith, str_eq, same_pair, same_pair_iff, Result, Outcome,
  ok, err, done, if◌then◌else◌, find, put, find-put, find_key, text_key, pair_key, Bool-cases,
  same-cases, ◌≢◌, ltb, Option-cases, Result-cases,
}
use agent_wharf.E2ee.Db.{
  E2eeError, Bytes, SealRow, Db, Faults, begin, commit, reserve, write_budget, read_budget,
  session_key,
}
use agent_wharf.E2ee.Admit.{Context, context_bytes}
use agent_wharf.E2ee.Executor.{ContentPacket, Endpoint, load}
use agent_wharf.E2ee.Vault.{
  max_endpoint_seals_per_key, budget_key, is_current, use_budget, reserve_seal, SealWorld,
  seal_after, seal_event, seals_used, budget_used,
}

-- The uses recorded for a key of a session.
abbrev pub used_of : Option SealRow → ℕ
used_of none = 0
used_of (some r) = r.used

abbrev pub used : String → String → Db → ℕ
used s k db = used_of (find budget_key (s, k) db.seal_budget)

abbrev pub pair : String → String → String × String
pair s k = (s, k)

-- The use of one key counts it up, within the bound, and no other.
abbrev pub Used : String → String → String → String → List SealRow → List SealRow → Type 0
Used s k t l rows rows' =
    ((s ≡ t)
      × (k ≡ l)
      × (used_of (find budget_key (t, l) rows') ≡ suc (used_of (find budget_key (t, l) rows)))
      × (used_of (find budget_key (t, l) rows') ≤ max_endpoint_seals_per_key))
    ⊎ ((pair s k ≢ pair t l) × (find budget_key (t, l) rows' ≡ find budget_key (t, l) rows))

find-put_same :
    (s k : String) (row : SealRow) (rows : List SealRow)
    → (s, k) ≡ budget_key row
    → find budget_key (s, k) (put budget_key row rows) ≡ some row
find-put_same s k row rows e =
    find-put budget_key (s, k) row rows
    ∙ rw (let (_, from) = same_pair_iff (budget_key row) (s, k) in from (sym e)) refl

find-put_other :
    (s k : String) (row : SealRow) (rows : List SealRow)
    → budget_key row ≢ (s, k)
    → find budget_key (s, k) (put budget_key row rows) ≡ find budget_key (s, k) rows
find-put_other s k row rows n =
    find-put budget_key (s, k) row rows ∙ elim (Bool-cases (same_pair (budget_key row) (s, k))) [
      | inl e ↦ absurd (n (let (to, _) = same_pair_iff (budget_key row) (s, k) in to e))
      | inr e ↦ rw e refl
    ]

put-Used :
    (s k t l : String) (row : SealRow) (rows : List SealRow)
    → budget_key row ≡ (s, k)
    → row.used ≡ suc (used_of (find budget_key (s, k) rows))
    → row.used ≤ max_endpoint_seals_per_key
    → Used s k t l rows (put budget_key row rows)
put-Used s k t l row rows b u m = elim (same-cases (pair s k) (pair t l)) [
  | inr n ↦ inr (n, find-put_other t l row rows (λ e. n (sym b ∙ e)))
  | inl e ↦
      let f : find budget_key (t, l) (put budget_key row rows) ≡ some row =
        find-put_same t l row rows (sym e ∙ sym b) in
      let v : row.used ≡ suc (used_of (find budget_key (t, l) rows)) =
        subst (λ z. row.used ≡ suc (used_of (find budget_key z rows))) e u in
      inl (ap (λ z. z.0) e, ap (λ z. z.1) e, ap used_of f ∙ v, rw f m)
]

use_budget-Used :
    (s k t l : String) (rows rows' : List SealRow)
    → use_budget s k rows ≡ some rows'
    → Used s k t l rows rows'
unfolding use_budget
use_budget-Used s k t l rows rows' h = go (find budget_key (s, k) rows) refl
  where
    new : SealRow
    new = record { session = s; key_id = k; used = 1 }

    go : (o : Option SealRow) → find budget_key (s, k) rows ≡ o → Used s k t l rows rows'
    go none e =
        let q : use_budget s k rows ≡ some (put budget_key new rows) = rw (e, use_budget) refl in
        let w : some (put budget_key new rows) ≡ some rows' = sym q ∙ h in
        let z : put budget_key new rows ≡ rows' = cc in
        subst (Used s k t l rows) z (put-Used s k t l new rows refl (rw e refl) (omega arith))
    go (some r) e = elim (Bool-cases (ltb r.used max_endpoint_seals_per_key)) [
      | inl b ↦
          let next : SealRow = record r { used = suc r.used } in
          let q : use_budget s k rows ≡ some (put budget_key next rows) =
            rw (e, use_budget, b) refl in
          let w : some (put budget_key next rows) ≡ some rows' = sym q ∙ h in
          let z : put budget_key next rows ≡ rows' = cc in
          subst (Used s k t l rows) z (
            put-Used s k t l next rows (find_key budget_key (s, k) r rows e) (rw e refl)
              (ground (arith, b)))
      | inr b ↦
          let q : use_budget s k rows ≡ none = rw (e, use_budget, b) refl in
          let w : none ≡ some rows' = sym q ∙ h in absurd (ground (arith, w))
    ]

-- What a seal does to the tables: nothing without a packet, or it uses the budget of the current key.
pub data Seals (s k : String) (db : Db) : Result E2eeError ContentPacket → Db → Type 0 where
  unpaid : {e : E2eeError} → Seals s k db (err e) db
  paid :
      {o : Result E2eeError ContentPacket} {rows : List SealRow}
      → is_current s k db ≡ true
      → use_budget s k db.seal_budget ≡ some rows
      → Seals s k db o (record db { seal_budget = rows })

-- The reservation alone: refused, or paid.
data Reserves (s k : String) (db : Db) : Outcome E2eeError → Db → Type 0 where
  unreserved : {e : E2eeError} → Reserves s k db (err e) db
  reserved :
      {rows : List SealRow}
      → is_current s k db ≡ true
      → use_budget s k db.seal_budget ≡ some rows
      → Reserves s k db done (record db { seal_budget = rows })

reserve_seal-Reserves :
    (faults : Faults) (s k : String) (db : Db)
    → Reserves s k db (reserve_seal faults s k db).0 (reserve_seal faults s k db).1
unfolding reserve_seal
reserve_seal-Reserves faults s k db = elim (Bool-cases (faults begin)) [
  | inl b ↦ simp (b, reserve_seal) unreserved
  | inr b ↦ elim (Bool-cases (faults reserve)) [
    | inl r ↦ simp (b, r, reserve_seal) unreserved
    | inr r ↦ elim (Bool-cases (is_current s k db)) [
      | inr c ↦ simp (b, r, c, reserve_seal) unreserved
      | inl c ↦ elim (Bool-cases (faults write_budget)) [
        | inl w ↦ simp (b, r, c, w, reserve_seal) unreserved
        | inr w ↦ elim (Option-cases (use_budget s k db.seal_budget)) [
          | inl u ↦ simp (b, r, c, w, u, reserve_seal) unreserved
          | inr (rows, u) ↦ elim (Bool-cases (faults commit)) [
            | inl d ↦ simp (b, r, c, w, u, d, reserve_seal) unreserved
            | inr d ↦ simp (b, r, c, w, u, d, reserve_seal) (reserved c u)
          ]
        ]
      ]
    ]
  ]
]

seal_after-Seals :
    (w : SealWorld) (key : Bytes) (s k : String) (db d : Db) (o : Outcome E2eeError)
    → Reserves s k db o d
    → Seals s k db (seal_after w key (o, d)).0 (seal_after w key (o, d)).1
seal_after-Seals w key s k db _ _ unreserved = unpaid
seal_after-Seals w key s k db _ _ (reserved c u) = elim (Bool-cases w.late) [
  | inl l ↦ rw l (paid c u)
  | inr l ↦ rw l (paid c u)
]

seal_event-Seals :
    (p : Endpoint) (device : String) (w : SealWorld) (c : Context) (db : Db)
    → Seals c.session c.key_id db (seal_event p device w c db).0 (seal_event p device w c db).1
unfolding seal_event
seal_event-Seals p device w c db =
    elim (Bool-cases (not (str_eq c.scope "event") || not (str_eq c.sender device))) [
      | inl b ↦ simp (b, seal_event) unpaid
      | inr b ↦ elim (Result-cases (context_bytes p.crypto c)) [
        | inl (e, x) ↦ simp (b, x, seal_event) unpaid
        | inr (_, x) ↦ elim (Result-cases w.projection) [
          | inl (e, y) ↦ simp (b, x, y, seal_event) unpaid
          | inr (_, y) ↦ elim (Result-cases (load p w.load_faults c.session c.key_id db)) [
            | inl (e, l) ↦ simp (b, x, y, l, seal_event) unpaid
            | inr (key, l) ↦
                simp (b, x, y, l, seal_event)
                  (seal_after-Seals w key c.session c.key_id db
                    (reserve_seal w.faults c.session c.key_id db).1
                    (reserve_seal w.faults c.session c.key_id db).0
                    (reserve_seal-Reserves w.faults c.session c.key_id db))
          ]
        ]
      ]
    ]

-- The seals of one device, in the order of their reservations.
unfoldable pub run_seals : Endpoint → String → List (SealWorld × Context) → Db → Db
run_seals p device [] db = db
run_seals p device ((w, c) ∷ cs) db = run_seals p device cs (seal_event p device w c db).1

-- Whether a seal gave a packet under a key.
abbrev pub counts : String → String → Context → Result E2eeError ContentPacket → ℕ
counts s k c (err _) = 0
counts s k c (ok _) = if same_pair (pair c.session c.key_id) (pair s k) then 1 else 0

unfoldable pub packets : Endpoint → String → String → String → List (SealWorld × Context) → Db → ℕ
packets p device s k [] db = 0
packets p device s k ((w, c) ∷ cs) db =
    counts s k c (seal_event p device w c db).0
    + packets p device s k cs (seal_event p device w c db).1

counts_bounded :
    (s k : String) (c : Context) (o : Result E2eeError ContentPacket) → counts s k c o ≤ 1
counts_bounded s k c (err e) = omega arith
counts_bounded s k c (ok x) = ground arith

counts_other :
    (s k : String) (c : Context) (o : Result E2eeError ContentPacket)
    → pair c.session c.key_id ≢ pair s k
    → counts s k c o ≡ 0
counts_other s k c (err e) n = refl
counts_other s k c (ok x) n = elim (Bool-cases (same_pair (pair c.session c.key_id) (pair s k))) [
  | inl e ↦ absurd (n (let (to, _) = same_pair_iff (pair c.session c.key_id) (pair s k) in to e))
  | inr e ↦ rw e refl
]

Seals-counts :
    (s k : String) (c : Context) (db d : Db) (o : Result E2eeError ContentPacket)
    → Seals c.session c.key_id db o d
    → used s k db ≤ max_endpoint_seals_per_key
    → (counts s k c o + used s k db ≤ used s k d) × (used s k d ≤ max_endpoint_seals_per_key)
Seals-counts s k c db _ _ unpaid m = (omega arith, m)
Seals-counts s k c db _ o (paid {rows = rows} a u) m =
    elim (use_budget-Used c.session c.key_id s k db.seal_budget rows u) [
      | inl (e, f, g, h) ↦ (omega (arith, counts_bounded s k c o, g), h)
      | inr (n, g) ↦
          let z = counts_other s k c o n in
          let y = ap used_of g in (omega (arith, z, y), omega (arith, y, m))
    ]

-- The budget of a key bounds its packets: over any sequence of seals, with any failing statements,
-- deadlines and failures to seal, and whatever sessions and keys they are for, the packets sealed under
-- one key are at most the uses recorded for it meanwhile, which never exceed 2 ^ 14.
pub seals_bounded :
    (p : Endpoint) (device s k : String) (cs : List (SealWorld × Context)) (db : Db)
    → used s k db ≤ max_endpoint_seals_per_key
    → (packets p device s k cs db + used s k db ≤ used s k (run_seals p device cs db))
      × (used s k (run_seals p device cs db) ≤ max_endpoint_seals_per_key)
unfolding run_seals packets
seals_bounded p device s k [] db m = (omega arith, m)
seals_bounded p device s k ((w, c) ∷ cs) db m =
    let (a, b) =
      Seals-counts s k c db (seal_event p device w c db).1 (seal_event p device w c db).0
        (seal_event-Seals p device w c db) m in
    let (x, y) = seals_bounded p device s k cs (seal_event p device w c db).1 b in
    (omega (arith, a, x), y)

-- `SealsUsed` counts 0 for a session that there is not, and succeeds, unlike its comment says.
pub seals_used_unknown :
    (identifier : String → Bool) (faults : Faults) (s : String) (db : Db)
    → identifier s ≡ true
    → faults read_budget ≡ false
    → find session_key s db.sessions ≡ none
    → seals_used identifier faults s db ≡ ok 0
unfolding seals_used budget_used
seals_used_unknown identifier faults s db i f n = rw (i, f, n, seals_used, budget_used) refl
