-- ===== src/Hub/Batcher/Tests.antt =====
-- Runs of a batcher.
use agent_wharf.Prelude.{
  ◌≡◌, ◌<◌, refl, true, none, some, List, [], ◌∷◌, ◌++◌, ok, length, ℤ, pos, arith,
}
use agent_wharf.Hub.Batcher.{
  Event, PendingEvent, PendingAdapterEvent, AdapterEventBatcher, Action, enqueues, closes, receives,
  shuts, drains, ends, sends, new_adapter_event_batcher, max_events_of, enqueue, receive,
  drain_queue, step, run, item_of, Flusher, flush,
}
use agent_wharf.Hub.Batcher.Order.{flat, Bounded, nothing_lost, run-new-Bounded, late_enqueue_lost}
use agent_wharf.Hub.Batcher.Sequence.{Flushes, flush_numbers}

abbrev event : ℤ → Event
event time = record { kind = "message"; session_id = "s1"; seq = none; time = time; payload = [] }

abbrev pending : ℤ → PendingEvent
pending time = record { kind = "message"; time = time; payload = [] }

abbrev new : AdapterEventBatcher
new = new_adapter_event_batcher (pos 0) (pos 2)

abbrev sending : List Action
sending =
    enqueues sends (event (pos 1)) (pending (pos 1))
    ∷ enqueues sends (event (pos 2)) (pending (pos 2))
    ∷ receives
    ∷ closes
    ∷ shuts
    ∷ drains
    ∷ drains
    ∷ ends
    ∷ []

flushed_one : length (run sending new).flushed ≡ 1
unfolding run step enqueue receive drain_queue new_adapter_event_batcher max_events_of
flushed_one = refl

nothing_lost_example :
    (run sending new).accepted
    ≡ flat (run sending new).flushed ++ ((run sending new).batch ++ (run sending new).queue)
nothing_lost_example = nothing_lost (pos 0) (pos 2) sending

run-new-Bounded_example : Bounded (run sending new)
run-new-Bounded_example = run-new-Bounded (pos 0) (pos 2) sending

has_finished : (run sending new).finished ≡ true
unfolding run step enqueue receive drain_queue new_adapter_event_batcher max_events_of
has_finished = refl

is_drained : (run sending new).queue ≡ []
unfolding run step enqueue receive drain_queue new_adapter_event_batcher max_events_of
is_drained = refl

has_room : length (run sending new).queue < (run sending new).max_events
unfolding run step enqueue receive drain_queue new_adapter_event_batcher max_events_of
has_room = omega arith

late_enqueue_lost_example :
    ((enqueue sends (event (pos 3)) (pending (pos 3)) (run sending new)).0 ≡ some (ok tt))
    × ((run
          (receives ∷ [])
          (step (enqueues sends (event (pos 3)) (pending (pos 3))) (run sending new))).flushed
        ≡ (run sending new).flushed)
late_enqueue_lost_example =
    late_enqueue_lost (event (pos 3)) (pending (pos 3)) (receives ∷ []) (run sending new)
      has_finished has_room

abbrev items : List PendingAdapterEvent
items = item_of (event (pos 1)) (pending (pos 1)) ∷ item_of (event (pos 2)) (pending (pos 2)) ∷ []

abbrev flusher : Flusher
flusher = record { publish = none; append = λ _. ok 40; reports = true; broadcasts = true }

flush_numbers_example :
    Flushes flusher items 1 (item_of (event (pos 2)) (pending (pos 2))) (flush flusher items)
flush_numbers_example =
    flush_numbers flusher items 1 (item_of (event (pos 2)) (pending (pos 2))) refl
