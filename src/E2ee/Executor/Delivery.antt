-- ===== src/E2ee/Executor/Delivery.antt =====
-- What `Execute` hands to the provider, and how it leaves the command.
use agent_wharf.Prelude.{
  ◌≡◌, ◌≢◌, refl, sym, ap, subst, ◌∙◌, String, Bool, true, false, Option, none, some, Option-cases,
  Result-cases, List, [], ◌∷◌, Result, ok, err, done, is_ok, put, find_key, arith, find, inl, inr,
  if◌then◌else◌, find-put, pair_key, text_key, same_pair_iff,
}
use agent_wharf.E2ee.Db.{
  E2eeError, Bytes, CommandState, CommandRow, claimed, completed, outcome_unknown, Db, Faults,
  command_key, DeviceRow, update_command,
}
use agent_wharf.E2ee.Admit.{
  Context, CommandAdmission, Crypto, Envelope, admit_validated, finish, finish_row, is_final,
  context_bytes,
}
use agent_wharf.E2ee.Admit.Sound.{admit_sound}
use agent_wharf.E2ee.History.{Op, finishes, apply, run}
use agent_wharf.E2ee.History.Writes.{released}
use agent_wharf.E2ee.History.Commands.{executes_once, Executed-row}
use agent_wharf.E2ee.Session.{Machine}
use agent_wharf.E2ee.Executor.{
  Endpoint, Surroundings, ContentPacket, Execution, opens, deliver, after_admit, ready, execute,
  delivery_state,
}

-- Something was handed to the provider.
abbrev pub Delivers : Execution → Type 0
Delivers x = x.deliveries ≢ []

-- The admission behind an execution.
pub record Admitted (p : Endpoint) (w : Surroundings) (c : Context) (packet : ContentPacket)
    (db db' : Db) : Type 0 where
  pub key : Bytes
  pub admission : CommandAdmission
  pub plaintext : Bytes
  pub payload : Bytes
  pub claimed_db : Db
  pub admitted :
      admit_validated p.crypto w.admit_faults (opens p c packet) c key packet.encrypted db
      ≡ (ok (admission, some plaintext), claimed_db)
  pub opened : p.open_plaintext c.kind packet.public plaintext ≡ some payload
  pub executed : execute p w c packet db ≡ deliver p w c payload claimed_db
  pub running : w.cancelled ≡ false
  pub delivery : (execute p w c packet db).0.deliveries ≡ payload ∷ []

after_admit_delivers :
    (p : Endpoint) (w : Surroundings) (c : Context) (packet : ContentPacket)
    (o : Result E2eeError (CommandAdmission × Option Bytes)) (d : Db)
    → (after_admit p w c packet o d).0.deliveries ≢ []
    → (a : CommandAdmission) × (plaintext payload : Bytes) × (o ≡ ok (a, some plaintext))
      × (p.open_plaintext c.kind packet.public plaintext ≡ some payload)
      × (after_admit p w c packet o d ≡ deliver p w c payload d)
unfolding after_admit
after_admit_delivers p w c packet (err e) d h = absurd (h refl)
after_admit_delivers p w c packet (ok (a, none)) d h = absurd (h refl)
after_admit_delivers p w c packet (ok (a, some x)) d h =
    elim (Option-cases (p.open_plaintext c.kind packet.public x)) [
      | inl n ↦ absurd (h (rw (n, after_admit)))
      | inr (y, q) ↦ (a, x, y, refl, q, rw (q, after_admit))
    ]

deliver_running :
    (p : Endpoint) (w : Surroundings) (c : Context) (payload : Bytes) (d : Db)
    → (deliver p w c payload d).0.deliveries ≢ []
    → (w.cancelled ≡ false) × ((deliver p w c payload d).0.deliveries ≡ payload ∷ [])
unfolding deliver
deliver_running p w c payload d h =
    elim (Result-cases
      (finish p.crypto w.finish_faults c.session c.message_id (delivery_state w payload) d).0) [
        | inl (e, q) ↦ (ground arith, ground arith)
        | inr (e, q) ↦ (ground arith, ground arith)
      ]

module _ (p : Endpoint) (w : Surroundings) (c : Context) (packet : ContentPacket) (db : Db) where
  execute_loaded :
      (key : Bytes)
      → execute p w c packet db ≡ (
          let r =
            admit_validated p.crypto w.admit_faults (opens p c packet) c key packet.encrypted db in
          after_admit p w c packet r.0 r.1)
      → Delivers (execute p w c packet db).0
      → Admitted p w c packet db
          (admit_validated p.crypto w.admit_faults (opens p c packet) c key packet.encrypted db).1
  execute_loaded key e h =
      let r : Result E2eeError (CommandAdmission × Option Bytes) × Db =
        admit_validated p.crypto w.admit_faults (opens p c packet) c key packet.encrypted db in
      let (a, x, y, q, o, s) =
        after_admit_delivers p w c packet r.0 r.1
          (subst (λ (z : Execution × Db). z.0.deliveries ≢ []) e h) in
      let (running, one) =
        deliver_running p w c y r.1
          (subst (λ (z : Execution × Db). z.0.deliveries ≢ []) (e ∙ s) h) in
      record {
        key = key;
        admission = a;
        plaintext = x;
        payload = y;
        claimed_db = r.1;
        admitted = λ i. (q i, r.1);
        opened = o;
        executed = e ∙ s;
        running = running;
        delivery = ap (λ (z : Execution × Db). z.0.deliveries) (e ∙ s) ∙ one;
      }

  -- `Execute` hands something to the provider only after the journal has claimed the command and
  -- released its plaintext; it hands over exactly the payload of that plaintext, once, and then
  -- records the outcome.
  pub execute-Delivers :
      Delivers (execute p w c packet db).0 → (d : Db) × Admitted p w c packet db d
  unfolding execute
  execute-Delivers h = elim (Result-cases (ready p w c packet db)) [
    | inl (e, q) ↦ absurd (h (rw (q, execute)))
    | inr (key, q) ↦ (_, execute_loaded key (rw (q, execute)) h)
  ]

-- A valid context names its session and message by identifiers.
context_identifiers :
    (p : Endpoint) (c : Context) (aad : Bytes)
    → context_bytes p.crypto c ≡ ok aad
    → (p.crypto.identifier c.session ≡ true) × (p.crypto.identifier c.message_id ≡ true)
unfolding context_bytes
context_identifiers p c aad h = ground arith

admitted_identifiers :
    (p : Endpoint) (f : Faults) (v : Bytes → Bool) (c : Context) (key : Bytes) (e : Envelope)
    (db : Db) (o : Result E2eeError (CommandAdmission × Option Bytes) × Db)
    → admit_validated p.crypto f v c key e db ≡ o
    → is_ok o.0 ≡ true
    → (p.crypto.identifier c.session ≡ true) × (p.crypto.identifier c.message_id ≡ true)
unfolding admit_validated
admitted_identifiers p f v c key e db o h k = elim (Result-cases (context_bytes p.crypto c)) [
  | inl (x, q) ↦ absurd (ground arith)
  | inr (aad, q) ↦ context_identifiers p c aad q
]

-- Finishing a claimed command.
finish_claimed :
    (p : Endpoint) (f : Faults) (c : Context) (state : CommandState) (row : CommandRow) (db : Db)
    → (p.crypto.identifier c.session ≡ true) × (p.crypto.identifier c.message_id ≡ true)
    → f update_command ≡ false
    → is_final state ≡ true
    → find command_key (c.session, c.message_id) db.commands ≡ some row
    → row.state ≡ claimed
    → finish p.crypto f c.session c.message_id state db
      ≡ (done, record db { commands = put command_key (record row { state = state }) db.commands })
unfolding finish finish_row
finish_claimed p f c state row db i u s h q = ground arith

-- The row that a finished command is left with.
find-finished :
    (c : Context) (state : CommandState) (row : CommandRow) (db : Db)
    → find command_key (c.session, c.message_id) db.commands ≡ some row
    → find command_key
        (c.session, c.message_id)
        (put command_key (record row { state = state }) db.commands)
      ≡ some (record row { state = state })
find-finished c state row db h =
    find-put command_key (c.session, c.message_id) (record row { state = state }) db.commands
    ∙ rw (
        (same_pair_iff (row.session, row.message) (c.session, c.message_id)).1
          (find_key command_key (c.session, c.message_id) row db.commands h))

deliver_final : (w : Surroundings) (payload : Bytes) → is_final (delivery_state w payload) ≡ true
deliver_final w payload = ground arith

-- What a delivery returns whose outcome was recorded.
deliver_finished :
    (p : Endpoint) (w : Surroundings) (c : Context) (payload : Bytes) (d d' : Db)
    → finish p.crypto w.finish_faults c.session c.message_id (delivery_state w payload) d
      ≡ (done, d')
    → w.cancelled ≡ false
    → deliver p w c payload d ≡ (
      record {
        admission = some (record { execute = true; state = delivery_state w payload });
        error = none;
        deliveries = payload ∷ [];
      },
      d',
    )
unfolding deliver
deliver_finished p w c payload d d' h r = ground arith

module _ (p : Endpoint) (w : Surroundings) (c : Context) (packet : ContentPacket) (db : Db) where
  -- An execution that handed a payload over, and whose last statement does not fail, reports success
  -- and leaves the command `completed` if the provider took the payload, else `outcome_unknown`.
  pub execute_settles :
      Delivers (execute p w c packet db).0
      → w.finish_faults update_command ≡ false
      → (payload : Bytes) × (row : CommandRow) × ((execute p w c packet db).0 ≡ record {
        admission = some (record { execute = true; state = row.state });
        error = none;
        deliveries = payload ∷ [];
      })
        × (find command_key (c.session, c.message_id) (execute p w c packet db).1.commands
            ≡ some row)
        × (row.state ≡ (if w.delivered payload then completed else outcome_unknown))
  execute_settles h u =
      let (d, a) = execute-Delivers p w c packet db h in
      let (row, found, claim) = Executed-row (admit_sound _ _ _ _ _ _ _ _ _ _ a.admitted) in
      let state : CommandState = delivery_state w a.payload in
      let fin =
        finish_claimed p w.finish_faults c state row a.claimed_db
          (admitted_identifiers p w.admit_faults (opens p c packet) c a.key packet.encrypted db _
            a.admitted refl)
          u (deliver_final w a.payload) found claim in
      let all = a.executed ∙ deliver_finished p w c a.payload a.claimed_db _ fin a.running in
      (
        a.payload,
        record row { state = state },
        ap (λ (z : Execution × Db). z.0) all,
        ap (λ (z : Execution × Db). find command_key (c.session, c.message_id) z.1.commands) all
            ∙ find-finished c state row a.claimed_db found,
        ground (arith, a.running),
      )

deliver_is_finish :
    (p : Endpoint) (w : Surroundings) (c : Context) (payload : Bytes) (d : Db)
    → (deliver p w c payload d).1
      ≡ (finish p.crypto w.finish_faults c.session c.message_id (delivery_state w payload) d).1
unfolding deliver
deliver_is_finish p w c payload d =
    elim (Result-cases
      (finish p.crypto w.finish_faults c.session c.message_id (delivery_state w payload) d).0) [
        | inl (e, q) ↦ rw (q, deliver)
        | inr (e, q) ↦ rw (q, deliver)
      ]

-- A finishing call is one more step before the others.
run_after_finish :
    (k : Crypto) (v : DeviceRow → Bool) (m : Machine) (f : Faults) (s i : String) (x : CommandState)
    (ops : List (Faults × Op)) (d : Db)
    → run k v m ((f, finishes s i x) ∷ ops) d ≡ run k v m ops (finish k f s i x d).1
unfolding run apply
run_after_finish k v m f s i x ops d = refl

-- At most one execution of a command ever hands anything to the provider: after one that did,
-- whatever calls come in between, with any faults, a second execution under the same session and
-- message id, with any packet, key and sender, hands over nothing.
pub delivered_once :
    (p : Endpoint) (v : DeviceRow → Bool) (m : Machine) (w w₂ : Surroundings) (c c₂ : Context)
    (packet packet₂ : ContentPacket) (db : Db) (ops : List (Faults × Op))
    → Delivers (execute p w c packet db).0
    → c₂.session ≡ c.session
    → c₂.message_id ≡ c.message_id
    → ¬ Delivers (execute p w₂ c₂ packet₂ (run p.crypto v m ops (execute p w c packet db).1)).0
delivered_once p v m w w₂ c c₂ packet packet₂ db ops h s i again =
    let (d, a) = execute-Delivers p w c packet db h in
    let late : Db = run p.crypto v m ops (execute p w c packet db).1 in
    let (d₂, b) = execute-Delivers p w₂ c₂ packet₂ late again in
    let state : CommandState = delivery_state w a.payload in
    let quiet =
      executes_once p.crypto v m w.admit_faults (opens p c packet) c a.key packet.encrypted db
        a.admission a.plaintext a.claimed_db
        ((w.finish_faults, finishes c.session c.message_id state) ∷ ops) w₂.admit_faults
        (opens p c₂ packet₂) c₂ b.key packet₂.encrypted a.admitted s i in
    let same : late
        ≡ run p.crypto v m ((w.finish_faults, finishes c.session c.message_id state) ∷ ops)
            a.claimed_db =
      ap (λ (z : Execution × Db). run p.crypto v m ops z.1) a.executed
      ∙ ap (run p.crypto v m ops) (deliver_is_finish p w c a.payload a.claimed_db)
      ∙ sym (
          run_after_finish p.crypto v m w.finish_faults c.session c.message_id state ops
            a.claimed_db) in
    let second : Db → Option Bytes = λ z.
      released
        (admit_validated p.crypto w₂.admit_faults (opens p c₂ packet₂) c₂ b.key packet₂.encrypted
          z).0 in
    let told : second late ≡ some b.plaintext =
      ap (λ (z : Result E2eeError (CommandAdmission × Option Bytes) × Db). released z.0)
        b.admitted in
    absurd (ground (arith, told, ap second same, quiet))
