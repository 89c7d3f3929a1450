-- ===== src/Hub/Dispatcher/Scan.antt =====
-- What a scan publishes: nothing twice, nothing out of order, and at its end nothing left out.
use agent_wharf.Prelude.{
  ◌≡◌, ◌≢◌, ap, sym, ◌∙◌, String, false, none, some, List, [], ◌∷◌, ◌++◌, map, Result, Outcome, ok,
  err, done, arith, Result-cases, Option-cases, Bool-cases, inl, inr, ◌⊎◌, ℤ, str_eq, eq_iff, not,
  ◌||◌, subst,
}
use agent_wharf.Hub.Dispatcher.{
  invalid_continuation, is_empty, AttentionSummaryPage, SessionAttentionSummary, ActivitySummary,
  Progress, activity_of, text_le, publish_page, continuation, dispatch_once,
}

-- Each session id is above the one before it, the first above `after`.
abbrev pub Ascending : String → List ActivitySummary → Type 0
Ascending after [] = Unit
Ascending after (s ∷ summaries) =
    (text_le s.session_id after ≡ false) × Ascending s.session_id summaries

-- The last session id of a list that follows `after`.
abbrev pub last_of : String → List ActivitySummary → String
last_of after [] = after
last_of after (s ∷ summaries) = last_of s.session_id summaries

Ascending-append :
    (after : String) (xs ys : List ActivitySummary)
    → Ascending after xs
    → Ascending (last_of after xs) ys
    → Ascending after (xs ++ ys)
Ascending-append after [] ys v w = w
Ascending-append after (x ∷ xs) ys v w = (v.0, Ascending-append x.session_id xs ys v.1 w)

publish_page-Ascending :
    (sink : ActivitySummary → Outcome String) (snapshot : ℤ) (after : String)
    (summaries : List SessionAttentionSummary)
    → Ascending after (publish_page sink snapshot after summaries).1
unfolding publish_page
publish_page-Ascending sink snapshot after [] = tt
publish_page-Ascending sink snapshot after (s ∷ summaries) =
    ground (arith, publish_page-Ascending sink snapshot s.session_id summaries)

publish_page-last :
    (sink : ActivitySummary → Outcome String) (snapshot : ℤ) (after last : String)
    (summaries : List SessionAttentionSummary)
    → (publish_page sink snapshot after summaries).0 ≡ ok last
    → (last_of after (publish_page sink snapshot after summaries).1 ≡ last)
      × ((publish_page sink snapshot after summaries).1 ≡ map (activity_of snapshot) summaries)
unfolding publish_page
publish_page-last sink snapshot after last [] h = ground arith
publish_page-last sink snapshot after last (s ∷ summaries) h =
    ground (arith, publish_page-last sink snapshot s.session_id last summaries)

continuation-cases :
    (page : AttentionSummaryPage) (last : String)
    → ((page.next_after_session_id ≡ none) × (continuation page last ≡ err done))
      ⊎ ((continuation page last ≡ err (err invalid_continuation))
          ⊎ ((page.next_after_session_id ≡ some last) × (continuation page last ≡ ok last)))
unfolding continuation
continuation-cases page last = elim (Option-cases page.next_after_session_id) [
  | inl n ↦ inl (n, ground (arith, n))
  | inr (next, n) ↦
      elim (Bool-cases (is_empty page.summaries || str_eq next "" || not (str_eq next last))) [
        | inl b ↦ inr (inl (ground (arith, n, b)))
        | inr b ↦
            (let same : next ≡ last = (eq_iff next last).0 (ground (arith, b)) in
              inr (inr (n ∙ ap some same, ground (arith, n, b))))
      ]
]

module _ (sink : ActivitySummary → Outcome String) (after : String) (page : AttentionSummaryPage)
    (answers : List (Result String AttentionSummaryPage)) where
  -- How one answered request goes on.
  abbrev Round : Progress → Type 0
  Round x =
      ((x.published ≡ []) × (x.outcome ≢ some done))
      ⊎ ((snapshot : ℤ) × (page.snapshot_at ≡ some snapshot)
          × ((((publish_page sink snapshot after page.summaries).1 ≡ x.published)
                × (x.outcome ≢ some done))
              ⊎ ((last : String) × ((publish_page sink snapshot after page.summaries).0 ≡ ok last)
                  × (((page.next_after_session_id ≡ none)
                        × (x ≡ record {
                          outcome = some done;
                          published = (publish_page sink snapshot after page.summaries).1;
                        }))
                      ⊎ ((page.next_after_session_id ≡ some last)
                          × (x ≡ record {
                            outcome = (dispatch_once sink last answers).outcome;
                            published =
                                (publish_page sink snapshot after page.summaries).1
                                ++ (dispatch_once sink last answers).published;
                          }))))))

  round : Round (dispatch_once sink after (ok page ∷ answers))
  unfolding dispatch_once
  round = elim (Option-cases page.snapshot_at) [
    | inl n ↦ inl (ground (arith, n), ground (arith, n))
    | inr (t, q) ↦ elim (Result-cases (publish_page sink t after page.summaries).0) [
      | inl (e, r) ↦ inr (t, q, inl (ground (arith, q, r), ground (arith, q, r)))
      | inr (last, r) ↦ elim (continuation-cases page last) [
        | inl (n, c) ↦ inr (t, q, inr (last, r, inl (n, ground (arith, q, r, c))))
        | inr d ↦ elim d [
          | inl c ↦ inr (t, q, inl (ground (arith, q, r, c), ground (arith, q, r, c)))
          | inr (n, c) ↦ inr (t, q, inr (last, r, inr (n, ground (arith, q, r, c))))
        ]
      ]
    ]
  ]

-- The answers that a scan has used up by its end, and the summaries of their pages in order: every page
-- has a snapshot and names its last session as the one to go on from, but for the last page.
pub data Covers
    : String → List (Result String AttentionSummaryPage) → List ActivitySummary → Type 0 where
  ends :
      {after : String} {answers : List (Result String AttentionSummaryPage)}
      (page : AttentionSummaryPage) (snapshot : ℤ)
      → page.snapshot_at ≡ some snapshot
      → page.next_after_session_id ≡ none
      → Covers after (ok page ∷ answers) (map (activity_of snapshot) page.summaries)
  goes_on :
      {after : String} {answers : List (Result String AttentionSummaryPage)}
      {rest : List ActivitySummary} (page : AttentionSummaryPage) (snapshot : ℤ)
      → page.snapshot_at ≡ some snapshot
      → page.next_after_session_id
        ≡ some (last_of after (map (activity_of snapshot) page.summaries))
      → Covers (last_of after (map (activity_of snapshot) page.summaries)) answers rest
      → Covers after (ok page ∷ answers) (map (activity_of snapshot) page.summaries ++ rest)

-- What a scan publishes, also one that fails or still waits, ascends strictly from each session id to
-- the next, the first one being above the id after which the scan began.
pub dispatch_once-Ascending :
    (sink : ActivitySummary → Outcome String) (after : String)
    (answers : List (Result String AttentionSummaryPage))
    → Ascending after (dispatch_once sink after answers).published
unfolding dispatch_once
dispatch_once-Ascending sink after [] = tt
dispatch_once-Ascending sink after (err e ∷ answers) = tt
dispatch_once-Ascending sink after (ok page ∷ answers) = elim (round sink after page answers) [
  | inl (e, _) ↦ subst (Ascending after) (sym e) tt
  | inr (t, q, x) ↦ elim x [
    | inl (e, _) ↦ subst (Ascending after) e (publish_page-Ascending sink t after page.summaries)
    | inr (last, r, y) ↦ elim y [
      | inl (_, e) ↦
          subst (Ascending after) (ap (λ (z : Progress). z.published) (sym e))
            (publish_page-Ascending sink t after page.summaries)
      | inr (_, e) ↦ subst (Ascending after) (ap (λ (z : Progress). z.published) (sym e)) (
          Ascending-append after (publish_page sink t after page.summaries).1
            (dispatch_once sink last answers).published
            (publish_page-Ascending sink t after page.summaries)
            (subst (λ z. Ascending z (dispatch_once sink last answers).published)
              (sym (publish_page-last sink t after last page.summaries r).0)
              (dispatch_once-Ascending sink last answers)))
    ]
  ]
]

waits :
    (sink : ActivitySummary → Outcome String) (after : String)
    → (dispatch_once sink after []).outcome ≢ some done
unfolding dispatch_once
waits sink after e = cc

fails :
    (sink : ActivitySummary → Outcome String) (after e : String)
    (answers : List (Result String AttentionSummaryPage))
    → (dispatch_once sink after (err e ∷ answers)).outcome ≢ some done
unfolding dispatch_once
fails sink after e answers h = absurd (ground (arith, h))

-- A scan that ends without an error has published the summary of every session of every page, in the
-- order of the pages, up to the first page that names none to go on from.
pub dispatch_once-Covers :
    (sink : ActivitySummary → Outcome String) (after : String)
    (answers : List (Result String AttentionSummaryPage))
    → (dispatch_once sink after answers).outcome ≡ some done
    → Covers after answers (dispatch_once sink after answers).published
dispatch_once-Covers sink after [] h = absurd (waits sink after h)
dispatch_once-Covers sink after (err e ∷ answers) h = absurd (fails sink after e answers h)
dispatch_once-Covers sink after (ok page ∷ answers) h = elim (round sink after page answers) [
  | inl (_, n) ↦ absurd (n h)
  | inr (t, q, x) ↦ elim x [
    | inl (_, n) ↦ absurd (n h)
    | inr (last, r, y) ↦
        (let (ended, all) = publish_page-last sink t after last page.summaries r in
          let at_last : last_of after (map (activity_of t) page.summaries) ≡ last =
            ap (last_of after) (sym all) ∙ ended in
          elim y [
            | inl (n, e) ↦
                subst (Covers after (ok page ∷ answers))
                  (sym all ∙ ap (λ (z : Progress). z.published) (sym e)) (ends page t q n)
            | inr (n, e) ↦
                subst (Covers after (ok page ∷ answers))
                  (ap (λ z. z ++ (dispatch_once sink last answers).published) (sym all)
                    ∙ ap (λ (z : Progress). z.published) (sym e))
                  (goes_on page t q (n ∙ ap some (sym at_last)) (
                    subst (λ z. Covers z answers (dispatch_once sink last answers).published)
                      (sym at_last)
                      (dispatch_once-Covers sink last answers
                        (ap (λ (z : Progress). z.outcome) (sym e) ∙ h))))
          ])
  ]
]
