-- ===== src/Hub/Batcher.antt =====
-- hub/event_batcher.go: `adapterEventBatcher`, which collects events and publishes or appends them in
-- batches. Its goroutine takes one step for each case of its `select`, for each round of the drain at a
-- shutdown, and for the flush and the return after it; the senders' `Enqueue` and the owner's `Close`
-- come between those steps in any order. The channel, the batch, the timer and where the goroutine is
-- are the state; what was accepted and what was handed to `flush` is kept beside it.
use agent_wharf.Prelude.{
  ℕ, ◌+◌, String, Bool, true, false, Option, none, some, List, [], ◌∷◌, ◌++◌, map, Result, Outcome,
  ok, err, ltb, leb, not, ◌||◌, ◌&&◌, ◌==◌, if◌then◌else◌, length, ℤ, pos, negsuc,
}
pub mod Order
pub mod Sequence
mod Tests

pub record Event : Type 0 where
  pub kind : String
  pub session_id : String
  pub seq : Option ℕ
  pub time : ℤ
  pub payload : List ℕ

pub record PendingEvent : Type 0 where
  pub kind : String
  pub time : ℤ
  pub payload : List ℕ

pub record PendingAdapterEvent : Type 0 where
  pub event : Event
  pub pending : PendingEvent

-- `adapterEventBatchMaxEvents` for a limit that is not positive.
unfoldable pub max_events_of : ℤ → ℕ
max_events_of (pos n) = if n == 0 then 64 else n
max_events_of (negsuc _) = 64

-- `adapterEventBatchWindow` likewise, in nanoseconds.
abbrev pub window_of : ℤ → ℕ
window_of (pos n) = if n == 0 then 50_000_000 else n
window_of (negsuc _) = 50_000_000

-- The item of `Enqueue`: the event without its sequence number, and the pending event.
abbrev pub item_of : Event → PendingEvent → PendingAdapterEvent
item_of e p = record { event = record e { seq = none }; pending = p }

pub data Phase : Type 0 where
  selecting draining leaving : Phase

pub record AdapterEventBatcher : Type 0 where
  pub max_events : ℕ
  pub window : ℕ
  -- `queue`, a channel with room for `max_events`
  pub queue : List PendingAdapterEvent
  pub batch : List PendingAdapterEvent
  -- `timer != nil`
  pub timer : Bool
  -- the batcher's context is done
  pub cancelled : Bool
  -- where `run` is: in its `select`, in `drainQueue`, or past it
  pub phase : Phase
  -- `run` has returned
  pub finished : Bool
  -- the items for which `Enqueue` returned nil, and the batches given to `flush`, oldest first
  pub accepted : List PendingAdapterEvent
  pub flushed : List (List PendingAdapterEvent)

-- `newAdapterEventBatcher`
unfoldable pub new_adapter_event_batcher : ℤ → ℤ → AdapterEventBatcher
unfolding max_events_of
new_adapter_event_batcher window limit = record {
  max_events = max_events_of limit;
  window = window_of window;
  queue = [];
  batch = [];
  timer = false;
  cancelled = false;
  phase = selecting;
  finished = false;
  accepted = [];
  flushed = [];
}

pub data EnqueueError : Type 0 where
  sender_cancelled batcher_cancelled : EnqueueError

-- The case of its `select` that an `Enqueue` takes; a case that is not ready blocks.
pub data EnqueueCase : Type 0 where
  sends sender_done batcher_done : EnqueueCase

-- `Enqueue`; `none` blocks.
unfoldable pub enqueue :
    EnqueueCase
    → Event
    → PendingEvent
    → AdapterEventBatcher
    → Option (Result EnqueueError (Unit {0})) × AdapterEventBatcher
enqueue sends e p b =
    if ltb (length b.queue) b.max_events
    then (
      some (ok tt),
      record b { queue = b.queue ++ item_of e p ∷ []; accepted = b.accepted ++ item_of e p ∷ [] },
    )
    else (none, b)
enqueue sender_done e p b = (some (err sender_cancelled), b)
enqueue batcher_done e p b = if b.cancelled then (some (err batcher_cancelled), b) else (none, b)

-- The closure `flush` of `run`: an empty batch is left alone.
abbrev pub flush_batch : AdapterEventBatcher → AdapterEventBatcher
flush_batch b = elim b.batch [
  | [] ↦ b
  | _ ∷ _ ↦ record b { flushed = b.flushed ++ b.batch ∷ []; batch = []; timer = false }
]

-- `case item := <-b.queue` of `run`, with that item taken.
unfoldable pub receive :
    PendingAdapterEvent → List PendingAdapterEvent → AdapterEventBatcher → AdapterEventBatcher
receive item rest b =
    let grown = b.batch ++ item ∷ [] in
    let taken = record b {
      queue = rest;
      batch = grown;
      timer = if length grown == 1 then true else b.timer;
    } in
    if leb b.max_events (length grown) then flush_batch taken else taken

-- One round of the loop of `drainQueue`: an item, or the `default` case, which ends it.
unfoldable pub drain_queue : List PendingAdapterEvent → AdapterEventBatcher → AdapterEventBatcher
drain_queue [] b = record b { phase = leaving }
drain_queue (item ∷ rest) b = record b { batch = b.batch ++ item ∷ []; queue = rest }

-- `run` is in its `select`.
abbrev pub is_selecting : AdapterEventBatcher → Bool
is_selecting b = elim b.phase [ selecting ↦ not b.finished | draining ↦ false | leaving ↦ false ]

-- A step of the senders, of the owner or of `run`: a case of its `select` (`shuts` enters the case of
-- the context), a round of `drainQueue`, and the flush after it with the return.
pub data Action : Type 0 where
  enqueues : EnqueueCase → Event → PendingEvent → Action
  closes : Action
  receives expires shuts drains ends : Action

-- A step of `run` that is not ready, or of a `run` that is elsewhere or has returned, does nothing.
unfoldable pub step : Action → AdapterEventBatcher → AdapterEventBatcher
unfolding receive enqueue drain_queue
step (enqueues c e p) b = (enqueue c e p b).1
step closes b = record b { cancelled = true }
step receives b = elim b.queue [
  | [] ↦ b
  | item ∷ rest ↦ (if not (is_selecting b) then b else receive item rest b)
]
step expires b = if not (is_selecting b) || not b.timer then b else flush_batch b
step shuts b = if not (is_selecting b) || not b.cancelled then b else record b { phase = draining }
step drains b = elim b.phase [
  | selecting ↦ b
  | draining ↦ (if b.finished then b else drain_queue b.queue b)
  | leaving ↦ b
]
step ends b = elim b.phase [
  | selecting ↦ b
  | draining ↦ b
  | leaving ↦ (if b.finished then b else record (flush_batch b) { finished = true })
]

unfoldable pub run : List Action → AdapterEventBatcher → AdapterEventBatcher
run [] b = b
run (a ∷ actions) b = run actions (step a b)

-- The events that `flush` broadcasts, numbered from the first sequence number on.
unfoldable pub numbered : ℕ → List PendingAdapterEvent → List Event
numbered seq [] = []
numbered seq (item ∷ items) = record item.event { seq = some seq } ∷ numbered (seq + 1) items

-- `pending[i] = item.pending`
abbrev pub pending_of : PendingAdapterEvent → PendingEvent
pending_of item = item.pending

-- The error that `flush` reports, under its prefix.
pub data FlushError : Type 0 where
  persist_event : String → FlushError

-- What `flush` uses of the batcher: `publish`, `none` for nil; the store's `Append`; and whether
-- `reportError` and `broadcast` are not nil.
pub record Flusher : Type 0 where
  pub publish : Option (List PendingAdapterEvent → Outcome String)
  pub append : List PendingEvent → Result String ℕ
  pub reports : Bool
  pub broadcasts : Bool

-- The calls that a `flush` makes.
pub record FlushCalls : Type 0 where
  pub published : List (List PendingAdapterEvent)
  pub appended : List (List PendingEvent)
  pub broadcast : List Event
  pub reported : List FlushError

abbrev pub report : Bool → Outcome String → List FlushError
report reports (ok _) = []
report reports (err e) = if reports then persist_event e ∷ [] else []

-- The method `flush`.
unfoldable pub flush : Flusher → List PendingAdapterEvent → FlushCalls
unfolding numbered
flush b batch = elim b.publish [
  | some publish ↦ record {
    published = batch ∷ [];
    appended = [];
    broadcast = [];
    reported = report b.reports (publish batch);
  }
  | none ↦ elim (b.append (map pending_of batch)) [
    | err e ↦ record {
      published = [];
      appended = map pending_of batch ∷ [];
      broadcast = [];
      reported = report b.reports (err e);
    }
    | ok first ↦ record {
      published = [];
      appended = map pending_of batch ∷ [];
      broadcast = if b.broadcasts then numbered first batch else [];
      reported = [];
    }
  ]
]
