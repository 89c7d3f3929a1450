-- ===== src/Hub/Dispatcher.antt =====
-- hub/activity_dispatcher.go: `dispatchOnce`, one scan over the store's pages of session summaries, with
-- the page types of store/store.go.
-- The store's answers to the successive requests are a list; a scan that has used it up waits for the
-- next answer. A time is a number of nanoseconds, `none` for the zero time or a nil pointer. The order
-- of session ids is the order of texts.
use Prim.Native.String.{compare}
use text.Mathlib.Text.{is_le}
use agent_wharf.Prelude.{
  ℕ, String, Bool, true, false, Option, none, some, List, [], ◌∷◌, ◌++◌, Result, Outcome, ok, err,
  done, str_eq, not, ◌||◌, if◌then◌else◌, ℤ, length, ◌==◌,
}
pub mod Scan
mod Tests

pub record AttentionBlocker : Type 0 where
  pub kind : String
  pub expires_at : Option ℤ

-- The fields of `SessionAttentionSummary` that the dispatcher reads.
pub record SessionAttentionSummary : Type 0 where
  pub session_id : String
  pub state : String
  pub latest_seq : ℤ
  pub blocker : Option AttentionBlocker
  pub summary_version : ℤ
  pub last_durable_event_at : Option ℤ
  pub last_client_command_at : Option ℤ
  pub state_of_projection : String

pub record AttentionSummaryPage : Type 0 where
  pub summaries : List SessionAttentionSummary
  pub next_after_session_id : Option String
  pub snapshot_at : Option ℤ

pub record ActivitySummary : Type 0 where
  pub session_id : String
  pub state : String
  pub last_durable_seq : ℤ
  pub ledger_version : ℤ
  pub last_durable_event_at : Option ℤ
  pub last_client_command_at : Option ℤ
  pub store_snapshot_at : ℤ
  pub projection_state : String
  pub blocker_kind : String
  pub blocker_expires_at : Option ℤ

pub data DispatchError : Type 0 where
  store_failed sink_failed : String → DispatchError
  missing_snapshot not_ordered invalid_continuation : DispatchError

-- Lines 128 to 133 of `dispatchOnce`.
abbrev pub activity_of : ℤ → SessionAttentionSummary → ActivitySummary
activity_of snapshot s = record {
  session_id = s.session_id;
  state = s.state;
  last_durable_seq = s.latest_seq;
  ledger_version = s.summary_version;
  last_durable_event_at = s.last_durable_event_at;
  last_client_command_at = s.last_client_command_at;
  store_snapshot_at = snapshot;
  projection_state = s.state_of_projection;
  blocker_kind = elim s.blocker [ none ↦ "" | some b ↦ b.kind ];
  blocker_expires_at = elim s.blocker [ none ↦ none | some b ↦ b.expires_at ];
}

-- `a <= b` on texts
abbrev pub text_le : String → String → Bool
text_le a b = is_le (compare a b)

-- The loop over a page: its error or the last session id, and what was published.
unfoldable pub publish_page :
    (ActivitySummary → Outcome String)
    → ℤ
    → String
    → List SessionAttentionSummary
    → Result DispatchError String × List ActivitySummary
publish_page sink snapshot after [] = (ok after, [])
publish_page sink snapshot after (s ∷ summaries) =
    let rest = publish_page sink snapshot s.session_id summaries in
    if text_le s.session_id after
    then (err not_ordered, [])
    else elim (sink (activity_of snapshot s)) [
      | err e ↦ (err (sink_failed e), [])
      | ok _ ↦ (rest.0, activity_of snapshot s ∷ rest.1)
    ]

-- A scan: its outcome, `none` while it waits for the store, and what was published.
pub record Progress : Type 0 where
  pub outcome : Option (Outcome DispatchError)
  pub published : List ActivitySummary

abbrev pub is_empty : List SessionAttentionSummary → Bool
is_empty [] = true
is_empty (_ ∷ _) = false

-- Lines 138 to 143 of `dispatchOnce`: the next `after`, or how the scan ends.
unfoldable pub continuation : AttentionSummaryPage → String → Result (Outcome DispatchError) String
continuation page after = elim page.next_after_session_id [
  | none ↦ err done
  | some next ↦
      (if is_empty page.summaries || str_eq next "" || not (str_eq next after)
        then err (err invalid_continuation)
        else ok after)
]

-- `dispatchOnce`, from the request for what comes after `after`.
unfoldable pub dispatch_once :
    (ActivitySummary → Outcome String)
    → String
    → List (Result String AttentionSummaryPage)
    → Progress
unfolding publish_page continuation
dispatch_once sink after [] = record { outcome = none; published = [] }
dispatch_once sink after (err e ∷ answers) = record {
  outcome = some (err (store_failed e));
  published = [];
}
dispatch_once sink after (ok page ∷ answers) = elim page.snapshot_at [
  | none ↦ record { outcome = some (err missing_snapshot); published = [] }
  | some snapshot ↦
      (let r = publish_page sink snapshot after page.summaries in
        elim r.0 [
          | err e ↦ record { outcome = some (err e); published = r.1 }
          | ok last ↦ elim (continuation page last) [
            | err end ↦ record { outcome = some end; published = r.1 }
            | ok next ↦
                (let rest = dispatch_once sink next answers in
                  record { outcome = rest.outcome; published = r.1 ++ rest.published })
          ]
        ])
]
