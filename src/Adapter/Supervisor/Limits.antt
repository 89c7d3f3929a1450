-- ===== src/Adapter/Supervisor/Limits.antt =====
-- How many children a `Run` starts, and how many are alive at a time.
use agent_wharf.Prelude.{
  ℕ, zero, suc, ◌+◌, ◌≤◌, ◌<◌, ◌≡◌, refl, ◌⊎◌, inl, inr, ◌∙◌, String, true, false, Option, none,
  some, List, [], ◌∷◌, ◌++◌, ok, arith, length, pos, negsuc, Bool-cases, if◌then◌else◌,
}
use agent_wharf.Adapter.Supervisor.{
  ProcessConfig, ProcessSupervisor, Child, Machine, Position, top, confirming, watching, observed,
  sleeping, returned, limit_exceeded, Action, cancels_top, launches, rejects, confirms, observes,
  cancels_watch, decides, wakes, cancels_sleep, stops, settles, dies, begin, step, step_at, run,
  launch, decide, emit, limit_reached,
}

-- The restarts that a configuration allows.
abbrev pub restart_limit : ProcessConfig → ℕ
restart_limit cfg = elim cfg.max_restarts [ pos n ↦ n | negsuc _ ↦ 0 ]

-- The bookkeeping of `Run` at each position.
abbrev pub At : ℕ → Position → Machine → Type 0
At limit (top r a) m = (a ≡ r + 1) × (r ≤ limit) × (length m.children ≤ r) × (m.alive ≡ [])
At limit (confirming c r) m =
    (c.attempt ≡ r + 1)
    × (r ≤ limit)
    × (length m.children ≤ r + 1)
    × (length m.alive ≤ 1)
    × ((m.exit ≡ none) ⊎ (m.alive ≡ []))
At limit (watching c r) m =
    (c.attempt ≡ r + 1)
    × (r ≤ limit)
    × (length m.children ≤ r + 1)
    × (length m.alive ≤ 1)
    × ((m.exit ≡ none) ⊎ (m.alive ≡ []))
At limit (observed c e r) m =
    (c.attempt ≡ r + 1) × (r ≤ limit) × (length m.children ≤ r + 1) × (m.alive ≡ [])
At limit (sleeping r a) m = (a ≡ r) × (r ≤ limit) × (length m.children ≤ r) × (m.alive ≡ [])
At limit (returned x) m = (length m.children ≤ limit + 1) × (length m.alive ≤ 1)

decide-At :
    (cfg : ProcessConfig) (c : Child) (e : Option String) (r : ℕ) (m : Machine)
    → At (restart_limit cfg) (observed c e r) m
    → At (restart_limit cfg) (decide cfg c e r m.supervisor).0 (record m {
      position = (decide cfg c e r m.supervisor).0;
      supervisor = (decide cfg c e r m.supervisor).1;
    })
unfolding decide
decide-At cfg c e r m v = ground arith

step_at-At :
    (cfg : ProcessConfig) (a : Action) (p : Position) (m : Machine)
    → m.position ≡ p
    → At (restart_limit cfg) p m
    → At (restart_limit cfg) (step_at cfg a p m).position (step_at cfg a p m)
unfolding step_at
step_at-At cfg cancels_top p m e v = ground arith
step_at-At cfg (launches r) p m e v = ground arith
step_at-At cfg (rejects x w) p m e v = ground arith
step_at-At cfg confirms p m e v = ground arith
step_at-At cfg observes p m e v = ground arith
step_at-At cfg (cancels_watch w) p m e v = ground arith
step_at-At cfg decides p m e v = ground arith
step_at-At cfg wakes p m e v = ground arith
step_at-At cfg cancels_sleep p m e v = ground arith
step_at-At cfg stops p m e v = ground arith
step_at-At cfg (settles w c) p m e v = ground arith
step_at-At cfg (dies x) p m e v = ground arith

run-At :
    (cfg : ProcessConfig) (actions : List Action) (m : Machine)
    → At (restart_limit cfg) m.position m
    → At (restart_limit cfg) (run cfg actions m).position (run cfg actions m)
unfolding run
run-At cfg [] m v = v
run-At cfg (a ∷ actions) m v =
    run-At cfg actions (step cfg a m) (step_at-At cfg a m.position m refl v)

At-bounds :
    (limit : ℕ) (p : Position) (m : Machine)
    → At limit p m
    → (length m.children ≤ limit + 1) × (length m.alive ≤ 1)
At-bounds limit p m v = ground arith

-- Whatever steps `Run`, `Stop` and the children make, in whatever order, a run starts at most one
-- child more than the restarts that it allows, and at most one of its children is alive at a time.
pub children_bounded :
    (cfg : ProcessConfig) (s : ProcessSupervisor) (actions : List Action)
    → (length (run cfg actions (begin s)).children ≤ restart_limit cfg + 1)
      × (length (run cfg actions (begin s)).alive ≤ 1)
children_bounded cfg s actions =
    At-bounds (restart_limit cfg) (run cfg actions (begin s)).position (run cfg actions (begin s))
      (run-At cfg actions (begin s) (ground arith))

-- One attempt whose child crashes, with nothing else going on.
abbrev pub crash : ℕ → String → List Action
crash pid x = launches (ok pid) ∷ confirms ∷ dies (some x) ∷ observes ∷ decides ∷ wakes ∷ []

abbrev pub crashes : ℕ → ℕ → String → List Action
crashes zero pid x = []
crashes (suc n) pid x = crash pid x ++ crashes n pid x

-- What one crash comes to, from the top of the loop.
crash_round :
    (cfg : ProcessConfig) (r : ℕ) (s : ProcessSupervisor) (cs alive : List Child)
    (e : Option (Option String)) (pid : ℕ) (x : String) (m : Machine)
    → m
      ≡ record { supervisor = s; position = top r (r + 1); children = cs; alive = alive; exit = e }
    → ((run cfg (crash pid x) m).position ≡ (
        if limit_reached cfg.max_restarts r
        then returned (limit_exceeded x)
        else top (r + 1) (r + 1 + 1)))
      × (length (run cfg (crash pid x) m).children ≡ suc (length cs))
unfolding run step_at launch decide emit
crash_round cfg r s cs alive e pid x m h = elim (Bool-cases (limit_reached cfg.max_restarts r)) [
  | inl l ↦ rw (h, l) (refl, refl)
  | inr l ↦ rw (h, l) (refl, refl)
]

run-append :
    (cfg : ProcessConfig) (xs ys : List Action) (m : Machine)
    → run cfg (xs ++ ys) m ≡ run cfg ys (run cfg xs m)
unfolding run
run-append cfg [] ys m = refl
run-append cfg (x ∷ xs) ys m = run-append cfg xs ys (step cfg x m)

round :
    (cfg : ProcessConfig) (r : ℕ) (m : Machine) (pid : ℕ) (x : String)
    → m.position ≡ top r (r + 1)
    → ((run cfg (crash pid x) m).position ≡ (
        if limit_reached cfg.max_restarts r
        then returned (limit_exceeded x)
        else top (r + 1) (r + 1 + 1)))
      × (length (run cfg (crash pid x) m).children ≡ suc (length m.children))
round cfg r m pid x p =
    crash_round cfg r m.supervisor m.children m.alive m.exit pid x m
      (λ i. record m { position = p i })

limit_reached-last :
    (cfg : ProcessConfig) (r : ℕ) → r ≡ restart_limit cfg → limit_reached cfg.max_restarts r ≡ true
limit_reached-last cfg r e = ground arith

limit_reached-before :
    (cfg : ProcessConfig) (r : ℕ) → r < restart_limit cfg → limit_reached cfg.max_restarts r ≡ false
limit_reached-before cfg r e = ground arith

crash_loop :
    (cfg : ProcessConfig) (n r : ℕ) (m : Machine) (pid : ℕ) (x : String)
    → m.position ≡ top r (r + 1)
    → n + r ≡ restart_limit cfg
    → ((run cfg (crashes (suc n) pid x) m).position ≡ returned (limit_exceeded x))
      × (length (run cfg (crashes (suc n) pid x) m).children ≡ length m.children + n + 1)
unfolding run
crash_loop cfg zero r m pid x p l =
    let (q, c) = round cfg r m pid x p in
    rw (run-append cfg (crash pid x) [] m, run)
      (q ∙ rw (limit_reached-last cfg r (omega (arith, l))) refl, c ∙ omega arith)
crash_loop cfg (suc n) r m pid x p l =
    let (q, c) = round cfg r m pid x p in
    let next =
      crash_loop cfg n (r + 1) (run cfg (crash pid x) m) pid x
        (q ∙ rw (limit_reached-before cfg r (omega (arith, l))) refl) (omega (arith, l)) in
    rw (run-append cfg (crash pid x) (crashes (suc n) pid x) m) (next.0, next.1 ∙ omega (arith, c))

-- A provider that crashes at every start, with nothing else going on, is started once and then as often
-- as the restarts allow; then `Run` returns the limit error with the last crash.
pub crash_loop_ends :
    (cfg : ProcessConfig) (s : ProcessSupervisor) (pid : ℕ) (x : String)
    → ((run cfg (crashes (suc (restart_limit cfg)) pid x) (begin s)).position
        ≡ returned (limit_exceeded x))
      × (length (run cfg (crashes (suc (restart_limit cfg)) pid x) (begin s)).children
          ≡ restart_limit cfg + 1)
crash_loop_ends cfg s pid x =
    let (q, c) = crash_loop cfg (restart_limit cfg) 0 (begin s) pid x refl (omega arith) in
    (q, c ∙ omega arith)
