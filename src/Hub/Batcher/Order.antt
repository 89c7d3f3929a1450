-- ===== src/Hub/Batcher/Order.antt =====
-- Where the accepted events are, in which order, and how many wait in the queue and in the batch.
use agent_wharf.Prelude.{
  ℕ, ◌&&◌, ◌≤◌, ◌<◌, ◌≡◌, refl, ap, sym, ◌∙◌, ◌⊎◌, inl, inr, Bool, true, false, some, List, [], ◌∷◌,
  ◌++◌, arith, length, length-append, ℤ, pos, negsuc, Bool-cases, not, ◌||◌, ltb, leb, ◌==◌,
  if◌then◌else◌, ok,
}
use agent_wharf.Hub.Batcher.{
  PendingAdapterEvent, AdapterEventBatcher, Action, enqueues, closes, receives, expires, shuts,
  drains, ends, Phase, selecting, draining, leaving, is_selecting, sends, sender_done, batcher_done,
  new_adapter_event_batcher, max_events_of, enqueue, flush_batch, receive, drain_queue, step, run,
  item_of, Event, PendingEvent,
}

-- The batches one after the other.
abbrev pub flat : List (List PendingAdapterEvent) → List PendingAdapterEvent
flat [] = []
flat (b ∷ bs) = b ++ flat bs

append_assoc : (xs ys zs : List PendingAdapterEvent) → (xs ++ ys) ++ zs ≡ xs ++ (ys ++ zs)
append_assoc [] ys zs = refl
append_assoc (x ∷ xs) ys zs = ap (x ∷◌) (append_assoc xs ys zs)

append-nil : (xs : List PendingAdapterEvent) → xs ++ [] ≡ xs
append-nil [] = refl
append-nil (x ∷ xs) = ap (x ∷◌) (append-nil xs)

flat-append :
    (bs : List (List PendingAdapterEvent)) (b : List PendingAdapterEvent)
    → flat (bs ++ b ∷ []) ≡ flat bs ++ b
flat-append [] b = append-nil b
flat-append (x ∷ bs) b = ap (x ++◌) (flat-append bs b) ∙ sym (append_assoc x (flat bs) b)

flush-whole :
    (acc : List PendingAdapterEvent) (bs : List (List PendingAdapterEvent))
    (b q : List PendingAdapterEvent)
    → acc ≡ flat bs ++ (b ++ q)
    → acc ≡ flat (bs ++ b ∷ []) ++ q
flush-whole acc bs b q w =
    w ∙ sym (append_assoc (flat bs) b q) ∙ sym (ap (λ z. z ++ q) (flat-append bs b))

send-whole :
    (acc f b q : List PendingAdapterEvent) (i : PendingAdapterEvent)
    → acc ≡ f ++ (b ++ q)
    → acc ++ i ∷ [] ≡ f ++ (b ++ (q ++ i ∷ []))
send-whole acc f b q i w =
    ap (λ z. z ++ i ∷ []) w
    ∙ append_assoc f (b ++ q) (i ∷ [])
    ∙ ap (f ++◌) (append_assoc b q (i ∷ []))

receive-whole :
    (f b rest : List PendingAdapterEvent) (i : PendingAdapterEvent)
    → f ++ (b ++ i ∷ rest) ≡ f ++ ((b ++ i ∷ []) ++ rest)
receive-whole f b rest i = ap (f ++◌) (sym (append_assoc b (i ∷ []) rest))

-- What was accepted is what was flushed, then the batch, then the queue.
abbrev pub Whole : AdapterEventBatcher → Type 0
Whole b = b.accepted ≡ flat b.flushed ++ (b.batch ++ b.queue)

flush_batch-Whole : (b : AdapterEventBatcher) → Whole b → Whole (flush_batch b)
flush_batch-Whole b w = go b.batch refl
  where
    go : (xs : List PendingAdapterEvent) → b.batch ≡ xs → Whole (flush_batch b)
    go [] e = rw (e, flush_batch) w
    go (x ∷ xs) e = rw (e, flush_batch) (flush-whole b.accepted b.flushed b.batch b.queue w)

if-Whole : (t : Bool) (x y : AdapterEventBatcher) → Whole x → Whole y → Whole (if t then x else y)
if-Whole true x y v w = v
if-Whole false x y v w = w

if_sent-Whole :
    {A : Type 0} (t : Bool) (x y : A × AdapterEventBatcher)
    → Whole x.1
    → Whole y.1
    → Whole (if t then x else y).1
if_sent-Whole true x y v w = v
if_sent-Whole false x y v w = w

receive-Whole :
    (item : PendingAdapterEvent) (rest : List PendingAdapterEvent) (b : AdapterEventBatcher)
    → b.accepted ≡ flat b.flushed ++ (b.batch ++ item ∷ rest)
    → Whole (receive item rest b)
unfolding receive
receive-Whole item rest b w =
    let grown : List PendingAdapterEvent = b.batch ++ item ∷ [] in
    let taken : AdapterEventBatcher = record b {
      queue = rest;
      batch = grown;
      timer = if length grown == 1 then true else b.timer;
    } in
    let v : Whole taken = w ∙ receive-whole (flat b.flushed) b.batch rest item in
    if-Whole (leb b.max_events (length grown)) _ _ (flush_batch-Whole taken v) v

receives-Whole :
    (b : AdapterEventBatcher) (q : List PendingAdapterEvent)
    → b.queue ≡ q
    → Whole b
    → Whole (step receives b)
unfolding step
receives-Whole b [] e w = rw (e, step) w
receives-Whole b (item ∷ rest) e w =
    let v = w ∙ ap (λ z. flat b.flushed ++ (b.batch ++ z)) e in
    rw (e, step) (if-Whole (not (is_selecting b)) _ _ w (receive-Whole item rest b v))

drain_queue-Whole :
    (b : AdapterEventBatcher) (q : List PendingAdapterEvent)
    → b.queue ≡ q
    → Whole b
    → Whole (drain_queue q b)
unfolding drain_queue
drain_queue-Whole b [] e w = w
drain_queue-Whole b (item ∷ rest) e w =
    w
    ∙ ap (λ z. flat b.flushed ++ (b.batch ++ z)) e
    ∙ receive-whole (flat b.flushed) b.batch rest item

drains-Whole : (b : AdapterEventBatcher) (p : Phase) → b.phase ≡ p → Whole b → Whole (step drains b)
unfolding step
drains-Whole b selecting e w = rw (e, step) w
drains-Whole b draining e w =
    rw (e, step) (if-Whole b.finished _ _ w (drain_queue-Whole b b.queue refl w))
drains-Whole b leaving e w = rw (e, step) w

ends-Whole : (b : AdapterEventBatcher) (p : Phase) → b.phase ≡ p → Whole b → Whole (step ends b)
unfolding step
ends-Whole b selecting e w = rw (e, step) w
ends-Whole b draining e w = rw (e, step) w
ends-Whole b leaving e w = rw (e, step) (if-Whole b.finished _ _ w (flush_batch-Whole b w))

step-Whole : (a : Action) (b : AdapterEventBatcher) → Whole b → Whole (step a b)
unfolding step enqueue receive
step-Whole (enqueues sends e p) b w =
    if_sent-Whole (ltb (length b.queue) b.max_events) _ _
      (send-whole b.accepted (flat b.flushed) b.batch b.queue (item_of e p) w) w
step-Whole (enqueues sender_done e p) b w = w
step-Whole (enqueues batcher_done e p) b w = ground arith
step-Whole closes b w = w
step-Whole receives b w = receives-Whole b b.queue refl w
step-Whole expires b w =
    if-Whole (not (is_selecting b) || not b.timer) _ _ w (flush_batch-Whole b w)
step-Whole shuts b w = if-Whole (not (is_selecting b) || not b.cancelled) _ _ w w
step-Whole drains b w = drains-Whole b b.phase refl w
step-Whole ends b w = ends-Whole b b.phase refl w

run-Whole : (actions : List Action) (b : AdapterEventBatcher) → Whole b → Whole (run actions b)
unfolding run
run-Whole [] b w = w
run-Whole (a ∷ actions) b w = run-Whole actions (step a b) (step-Whole a b w)

new-Whole : (window limit : ℤ) → Whole (new_adapter_event_batcher window limit)
unfolding new_adapter_event_batcher
new-Whole window limit = refl

-- Whatever the senders, the owner and the goroutine of a new batcher do, in whatever order: the events
-- that were accepted are exactly those of the flushed batches, then those of the batch, then those in
-- the queue, in the order in which they were accepted.
pub nothing_lost :
    (window limit : ℤ) (actions : List Action)
    → (run actions (new_adapter_event_batcher window limit)).accepted
      ≡ flat (run actions (new_adapter_event_batcher window limit)).flushed
        ++ ((run actions (new_adapter_event_batcher window limit)).batch
            ++ (run actions (new_adapter_event_batcher window limit)).queue)
nothing_lost window limit actions =
    run-Whole actions (new_adapter_event_batcher window limit) (new-Whole window limit)

-- Every batch has an event, and at most so many.
pub all_within : ℕ → List (List PendingAdapterEvent) → Bool
all_within n [] = true
all_within n (b ∷ bs) = leb 1 (length b) && leb (length b) n && all_within n bs

all_within-append :
    (n : ℕ) (bs : List (List PendingAdapterEvent)) (b : List PendingAdapterEvent)
    → all_within n (bs ++ b ∷ []) ≡ (all_within n bs && leb 1 (length b) && leb (length b) n)
unfolding all_within
all_within-append n [] b = ground arith
all_within-append n (x ∷ bs) b = ground (arith, all_within-append n bs b)

-- While the goroutine is in its `select` the batch is below the limit, and the timer is on exactly when
-- the batch is not empty. In the drain of a shutdown neither need be so: the batch then takes what is in
-- the queue too, and is flushed whole.
pub record Bounded (b : AdapterEventBatcher) : Type 0 where
  pub room : 1 ≤ b.max_events
  pub waiting : length b.queue ≤ b.max_events
  pub collecting : (is_selecting b ≡ false) ⊎ (length b.batch < b.max_events)
  pub timed : (is_selecting b ≡ false) ⊎ (b.timer ≡ not (length b.batch == 0))
  pub within : (b.finished ≡ true) ⊎ (all_within b.max_events b.flushed ≡ true)
  pub drained : (b.finished ≡ false) ⊎ (b.batch ≡ [])

receive-Bounded :
    (item : PendingAdapterEvent) (rest : List PendingAdapterEvent) (b : AdapterEventBatcher)
    → b.queue ≡ item ∷ rest
    → is_selecting b ≡ true
    → Bounded b
    → Bounded (receive item rest b)
unfolding receive
receive-Bounded item rest b e f v = ground (
  arith,
  length-append b.batch (item ∷ []),
  all_within-append b.max_events b.flushed (b.batch ++ item ∷ []),
  e,
)

receives-Bounded :
    (b : AdapterEventBatcher) (q : List PendingAdapterEvent)
    → b.queue ≡ q
    → Bounded b
    → Bounded (step receives b)
unfolding step
receives-Bounded b [] e v = rw (e, step) v
receives-Bounded b (item ∷ rest) e v = elim (Bool-cases (is_selecting b)) [
  | inr f ↦ ground (arith, e, f)
  | inl f ↦ ground (arith, e, f, receive-Bounded item rest b e f v)
]

drains-Bounded :
    (b : AdapterEventBatcher) (q : List PendingAdapterEvent)
    → b.queue ≡ q
    → Bounded b
    → Bounded (step drains b)
unfolding step drain_queue
drains-Bounded b [] e v = ground (arith, e)
drains-Bounded b (item ∷ rest) e v = ground (arith, e)

step-Bounded : (a : Action) (b : AdapterEventBatcher) → Bounded b → Bounded (step a b)
unfolding step enqueue receive
step-Bounded (enqueues sends e p) b v = ground (arith, length-append b.queue (item_of e p ∷ []))
step-Bounded (enqueues sender_done e p) b v = v
step-Bounded (enqueues batcher_done e p) b v = ground arith
step-Bounded closes b v = ground arith
step-Bounded receives b v = receives-Bounded b b.queue refl v
step-Bounded expires b v = ground (arith, all_within-append b.max_events b.flushed b.batch)
step-Bounded shuts b v = ground arith
step-Bounded drains b v = drains-Bounded b b.queue refl v
step-Bounded ends b v = ground arith

run-Bounded :
    (actions : List Action) (b : AdapterEventBatcher) → Bounded b → Bounded (run actions b)
unfolding run
run-Bounded [] b v = v
run-Bounded (a ∷ actions) b v = run-Bounded actions (step a b) (step-Bounded a b v)

new-Bounded : (window limit : ℤ) → Bounded (new_adapter_event_batcher window limit)
unfolding new_adapter_event_batcher max_events_of all_within
new-Bounded window (pos n) = ground arith
new-Bounded window (negsuc n) = ground arith

-- After any steps of a new batcher the limit is at least one event; the queue is within it; while the
-- goroutine is in its `select` the batch is below it, and the timer is on exactly when the batch is not
-- empty, so that no batch waits without one; once the goroutine has returned the batch is empty. Every
-- batch that was flushed before the goroutine has returned has an event and is within the limit; of the
-- batch that a shutdown drains and flushes last no limit is stated.
pub run-new-Bounded :
    (window limit : ℤ) (actions : List Action)
    → Bounded (run actions (new_adapter_event_batcher window limit))
run-new-Bounded window limit actions =
    run-Bounded actions (new_adapter_event_batcher window limit) (new-Bounded window limit)

-- When the goroutine of a new batcher has returned, and no sender has put an event into the queue after
-- its last look at it, every accepted event has been flushed, in the order of acceptance.
pub closed_flushed_all :
    (window limit : ℤ) (actions : List Action)
    → (run actions (new_adapter_event_batcher window limit)).finished ≡ true
    → (run actions (new_adapter_event_batcher window limit)).queue ≡ []
    → flat (run actions (new_adapter_event_batcher window limit)).flushed
      ≡ (run actions (new_adapter_event_batcher window limit)).accepted
closed_flushed_all window limit actions f q =
    let b : AdapterEventBatcher = run actions (new_adapter_event_batcher window limit) in
    let v = run-new-Bounded window limit actions in
    let empty : b.batch ≡ [] = elim v.drained [
      | inl n ↦ absurd (ground (arith, n, f))
      | inr e ↦ e
    ] in
    sym (
      nothing_lost window limit actions
      ∙ ap (λ z. flat b.flushed ++ (z ++ b.queue)) empty
      ∙ ap (λ z. flat b.flushed ++ z) q
      ∙ append-nil (flat b.flushed))

step-finished :
    (a : Action) (b : AdapterEventBatcher)
    → b.finished ≡ true
    → ((step a b).finished ≡ true) × ((step a b).flushed ≡ b.flushed)
unfolding step enqueue
step-finished (enqueues c e p) b f = ground arith
step-finished closes b f = ground arith
step-finished receives b f = ground arith
step-finished expires b f = ground arith
step-finished shuts b f = ground arith
step-finished drains b f = ground arith
step-finished ends b f = ground arith

run-finished :
    (actions : List Action) (b : AdapterEventBatcher)
    → b.finished ≡ true
    → (run actions b).flushed ≡ b.flushed
unfolding run
run-finished [] b f = refl
run-finished (a ∷ actions) b f =
    let (g, same) = step-finished a b f in run-finished actions (step a b) g ∙ same

enqueue-room :
    (e : Event) (p : PendingEvent) (b : AdapterEventBatcher)
    → length b.queue < b.max_events
    → (enqueue sends e p b).0 ≡ some (ok tt)
unfolding enqueue
enqueue-room e p b r = ground arith

-- An `Enqueue` that comes after the goroutine has returned may still take its sending case while the
-- channel has room: it reports success, and no step flushes the event any more.
pub late_enqueue_lost :
    (e : Event) (p : PendingEvent) (actions : List Action) (b : AdapterEventBatcher)
    → b.finished ≡ true
    → length b.queue < b.max_events
    → ((enqueue sends e p b).0 ≡ some (ok tt))
      × ((run actions (step (enqueues sends e p) b)).flushed ≡ b.flushed)
late_enqueue_lost e p actions b f r =
    let (g, same) = step-finished (enqueues sends e p) b f in
    (enqueue-room e p b r, run-finished actions (step (enqueues sends e p) b) g ∙ same)
