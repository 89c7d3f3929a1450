-- ===== src/Hub/Batcher/Sequence.antt =====
-- The calls of a flush, and the sequence numbers of its events.
use agent_wharf.Prelude.{
  ℕ, zero, suc, ◌+◌, ◌≡◌, refl, ap, ◌∙◌, String, Option, none, some, List, [], ◌∷◌, map, ok, err,
  arith, length, Result-cases, Option-cases, Outcome, Bool, true, false, if◌then◌else◌, inl, inr,
}
use agent_wharf.Hub.Batcher.{
  PendingAdapterEvent, Flusher, FlushCalls, persist_event, report, numbered, flush, pending_of,
}

-- The elements at a position.
abbrev pub get_elem? : {A : Type 0} → List A → ℕ → Option A
get_elem? [] i = none
get_elem? (x ∷ xs) zero = some x
get_elem? (x ∷ xs) (suc i) = get_elem? xs i

numbered-length :
    (seq : ℕ) (items : List PendingAdapterEvent) → length (numbered seq items) ≡ length items
unfolding numbered
numbered-length seq [] = refl
numbered-length seq (x ∷ xs) = ap suc (numbered-length (seq + 1) xs)

numbered-get :
    (seq i : ℕ) (items : List PendingAdapterEvent) (item : PendingAdapterEvent)
    → get_elem? items i ≡ some item
    → get_elem? (numbered seq items) i ≡ some (record item.event { seq = some (seq + i) })
unfolding numbered
numbered-get seq i [] item h = absurd (ground arith)
numbered-get seq zero (x ∷ xs) item h = ground arith
numbered-get seq (suc i) (x ∷ xs) item h = numbered-get (seq + 1) i xs item h ∙ ground arith

-- The calls of a flush, with the event at position `i` of its batch.
pub data Flushes (b : Flusher) (batch : List PendingAdapterEvent) (i : ℕ)
    (item : PendingAdapterEvent) (calls : FlushCalls) : Type 0 where
  publishes :
      (publish : List PendingAdapterEvent → Outcome String)
      → b.publish ≡ some publish
      → calls.published ≡ batch ∷ []
      → calls.appended ≡ []
      → calls.broadcast ≡ []
      → calls.reported ≡ report b.reports (publish batch)
      → Flushes b batch i item calls
  refuses :
      (e : String)
      → b.publish ≡ none
      → b.append (map pending_of batch) ≡ err e
      → calls.published ≡ []
      → calls.appended ≡ map pending_of batch ∷ []
      → calls.broadcast ≡ []
      → calls.reported ≡ (if b.reports then persist_event e ∷ [] else [])
      → Flushes b batch i item calls
  numbers :
      (first : ℕ)
      → b.publish ≡ none
      → b.append (map pending_of batch) ≡ ok first
      → calls.published ≡ []
      → calls.appended ≡ map pending_of batch ∷ []
      → calls.reported ≡ []
      → length calls.broadcast ≡ (if b.broadcasts then length batch else 0)
      → get_elem? calls.broadcast i
        ≡ (if b.broadcasts then some (record item.event { seq = some (first + i) }) else none)
      → Flushes b batch i item calls

numbered-Flushes :
    (b : Bool) (first i : ℕ) (batch : List PendingAdapterEvent) (item : PendingAdapterEvent)
    → get_elem? batch i ≡ some item
    → (length (if b then numbered first batch else []) ≡ (if b then length batch else 0))
      × (get_elem? (if b then numbered first batch else []) i
          ≡ (if b then some (record item.event { seq = some (first + i) }) else none))
numbered-Flushes true first i batch item h =
    (numbered-length first batch, numbered-get first i batch item h)
numbered-Flushes false first i batch item h = (refl, refl)

-- With a `publish` function, which the hub's constructor gives, a flush hands its batch to that function
-- once, appends and broadcasts nothing itself, and reports that function's error. Without one it appends
-- the pending events of its batch once. If that fails, the error is reported and nothing is broadcast;
-- if not, nothing is reported and each event of the batch is broadcast once, in the order of the batch,
-- the one at position `i` with the first sequence number of the append plus `i`. A report or a broadcast
-- is made only if the function for it is there.
pub flush_numbers :
    (b : Flusher) (batch : List PendingAdapterEvent) (i : ℕ) (item : PendingAdapterEvent)
    → get_elem? batch i ≡ some item
    → Flushes b batch i item (flush b batch)
unfolding flush
flush_numbers b batch i item h = elim (Option-cases b.publish) [
  | inr (publish, p) ↦ simp (p, flush) (publishes publish p refl refl refl refl)
  | inl p ↦ elim (Result-cases (b.append (map pending_of batch))) [
    | inl (e, q) ↦ simp (p, q, flush) (refuses e p q refl refl refl refl)
    | inr (n, q) ↦
        let (k, g) = numbered-Flushes b.broadcasts n i batch item h in
        simp (p, q, flush) (numbers n p q refl refl refl k g)
  ]
]
