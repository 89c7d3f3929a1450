-- ===== src/Hub/Dispatcher/Tests.antt =====
-- A scan of two pages.
use agent_wharf.Prelude.{
  ◌≡◌, refl, String, none, some, List, [], ◌∷◌, Result, Outcome, ok, done, pos,
}
use agent_wharf.Hub.Dispatcher.{
  SessionAttentionSummary, AttentionSummaryPage, ActivitySummary, dispatch_once, publish_page,
  continuation,
}
use agent_wharf.Hub.Dispatcher.Scan.{Covers, dispatch_once-Covers}

abbrev summary : String → SessionAttentionSummary
summary session = record {
  session_id = session;
  state = "ready";
  latest_seq = pos 3;
  blocker = none;
  summary_version = pos 1;
  last_durable_event_at = none;
  last_client_command_at = none;
  state_of_projection = "current";
}

abbrev pages : List (Result String AttentionSummaryPage)
pages =
    ok (record {
      summaries = summary "a" ∷ summary "b" ∷ [];
      next_after_session_id = some "b";
      snapshot_at = some (pos 9);
    })
    ∷ ok (record {
      summaries = summary "c" ∷ [];
      next_after_session_id = none;
      snapshot_at = some (pos 10);
    })
    ∷ []

abbrev sink : ActivitySummary → Outcome String
sink _ = done

scanned : (dispatch_once sink "" pages).outcome ≡ some done
unfolding dispatch_once publish_page continuation
scanned = refl

dispatch_once-Covers_example : Covers "" pages (dispatch_once sink "" pages).published
dispatch_once-Covers_example = dispatch_once-Covers sink "" pages scanned
