-- ===== src/Adapter/Supervisor/Stopping.antt =====
-- What a `Stop` does: to the child, and to the `Run` that watches it.
use agent_wharf.Prelude.{
  ℕ, ◌+◌, ◌≡◌, refl, ◌⊎◌, inr, ◌∙◌, true, false, none, some, List, [], ◌∷◌, ok, done, arith, ℤ, pos,
}
use agent_wharf.Adapter.Supervisor.{
  ProcessConfig, ProcessEvent, Child, Machine, Position, top, confirming, watching, observed,
  sleeping, returned, Action, cancels_top, launches, rejects, confirms, observes, cancels_watch,
  decides, wakes, cancels_sleep, stops, settles, dies, step, step_at, run, launch, settle_stop,
  StopWorld, Signalled, sent, process_done, unsupported, refused, Wake, exits, expires, cancels,
  stop_child, wait_child, kill_child,
}

-- The grace that `Stop` gives: none if the platform cannot interrupt.
abbrev pub grace : ProcessConfig → StopWorld → ℤ
grace cfg w = elim w.interrupt [
  | unsupported ↦ pos 0
  | sent ↦ cfg.grace_period
  | process_done ↦ cfg.grace_period
  | refused _ ↦ cfg.grace_period
]

-- How a child ended under a `Stop`: by itself within the grace, or killed after it.
abbrev pub Ended : ProcessConfig → StopWorld → ProcessEvent → Type 0
Ended cfg w e =
    ((w.first (grace cfg w) ≡ exits e.error) × (e.killed ≡ false))
    ⊎ ((w.first (grace cfg w) ≡ expires)
        × (w.kill ≡ done)
        × (w.last ≡ some e.error)
        × (e.killed ≡ true))

kill_child_sound :
    (w : StopWorld) (c : Child) (e : ProcessEvent)
    → kill_child w c ≡ ok e
    → (w.kill ≡ done) × (w.last ≡ some e.error) × (e.killed ≡ true) × (e.attempt ≡ c.attempt)
unfolding kill_child
kill_child_sound w c e h = ground arith

wait_child_sound :
    (w : StopWorld) (c : Child) (g : ℤ) (e : ProcessEvent)
    → wait_child w c g ≡ ok e
    → (((w.first g ≡ exits e.error) × (e.killed ≡ false))
        ⊎ ((w.first g ≡ expires) × (w.kill ≡ done) × (w.last ≡ some e.error) × (e.killed ≡ true)))
      × (e.attempt ≡ c.attempt)
unfolding wait_child
wait_child_sound w c g e h = go (w.first g) refl
  where
    go :
        (x : Wake)
        → w.first g ≡ x
        → (((w.first g ≡ exits e.error) × (e.killed ≡ false))
            ⊎ ((w.first g ≡ expires)
                × (w.kill ≡ done)
                × (w.last ≡ some e.error)
                × (e.killed ≡ true)))
          × (e.attempt ≡ c.attempt)
    go (exits y) q = ground arith
    go expires q = let (k, l, d, n) = kill_child_sound w c e (ground arith) in (inr (q, k, l, d), n)
    go cancels q = absurd (ground arith)

-- `Stop` reports a child stopped only if that child has ended: within the grace period and not killed,
-- or killed after it. Where the platform cannot interrupt, the grace is none; where the interrupt fails
-- otherwise, nothing is reported stopped.
pub stop_child_sound :
    (cfg : ProcessConfig) (w : StopWorld) (c : Child) (e : ProcessEvent)
    → stop_child cfg w c ≡ ok e
    → Ended cfg w e × (e.attempt ≡ c.attempt)
unfolding stop_child
stop_child_sound cfg w c e h = go w.interrupt refl
  where
    go : (x : Signalled) → w.interrupt ≡ x → Ended cfg w e × (e.attempt ≡ c.attempt)
    go sent q = rw (q, grace) (wait_child_sound w c cfg.grace_period e (ground arith))
    go process_done q = rw (q, grace) (wait_child_sound w c cfg.grace_period e (ground arith))
    go unsupported q = rw (q, grace) (wait_child_sound w c (pos 0) e (ground arith))
    go (refused y) q = absurd (ground arith)

-- Positions from which a stopped `Run` starts no child.
abbrev pub Winding : Position → Type 0
Winding (top _ _) = ⊥
Winding (confirming _ _) = Unit
Winding (watching _ _) = Unit
Winding (observed _ _ _) = Unit
Winding (sleeping _ _) = ⊥
Winding (returned _) = Unit

step_at-Winding :
    (cfg : ProcessConfig) (a : Action) (p : Position) (m : Machine)
    → m.position ≡ p
    → Winding p
    → m.supervisor.stopping ≡ true
    → Winding (step_at cfg a p m).position
      × ((step_at cfg a p m).supervisor.stopping ≡ true)
      × ((step_at cfg a p m).children ≡ m.children)
unfolding step_at
step_at-Winding cfg cancels_top p m e v s = ground arith
step_at-Winding cfg (launches r) p m e v s = ground arith
step_at-Winding cfg (rejects x w) p m e v s = ground arith
step_at-Winding cfg confirms p m e v s = ground arith
step_at-Winding cfg observes p m e v s = ground arith
step_at-Winding cfg (cancels_watch w) p m e v s = ground arith
step_at-Winding cfg decides p m e v s = ground arith
step_at-Winding cfg wakes p m e v s = ground arith
step_at-Winding cfg cancels_sleep p m e v s = ground arith
step_at-Winding cfg stops p m e v s = ground arith
step_at-Winding cfg (settles w c) p m e v s = ground arith
step_at-Winding cfg (dies x) p m e v s = ground arith

run-Winding :
    (cfg : ProcessConfig) (actions : List Action) (m : Machine)
    → Winding m.position
    → m.supervisor.stopping ≡ true
    → (run cfg actions m).children ≡ m.children
unfolding run
run-Winding cfg [] m v s = refl
run-Winding cfg (a ∷ actions) m v s =
    let (w, t, same) = step_at-Winding cfg a m.position m refl v s in
    run-Winding cfg actions (step cfg a m) w t ∙ same

-- A `Stop` that comes while `Run` has a child, from its start on until the decision after its exit, is
-- final: whatever steps follow, in whatever order, no other child is started.
pub stop_is_final :
    (cfg : ProcessConfig) (actions : List Action) (m : Machine)
    → Winding m.position
    → (run cfg (stops ∷ actions) m).children ≡ m.children
unfolding run step_at
stop_is_final cfg actions m v =
    run-Winding cfg actions (record m { supervisor = record m.supervisor { stopping = true } }) v
      refl

-- A `Stop` that comes in the backoff between two attempts finds no child, returns success, and is then
-- forgotten: the backoff ends, `Run` starts the next child, and no stop is pending any more.
pub stop_in_backoff_forgotten :
    (cfg : ProcessConfig) (w : StopWorld) (r a pid : ℕ) (m : Machine)
    → m.position ≡ sleeping r a
    → m.supervisor.current ≡ none
    → ((settle_stop cfg w (step cfg stops m).supervisor.current (step cfg stops m).supervisor).0
        ≡ done)
      × ((run cfg (stops ∷ wakes ∷ launches (ok pid) ∷ []) m).children
          ≡ record { attempt = a + 1; pid = pid } ∷ m.children)
      × ((run cfg (stops ∷ wakes ∷ launches (ok pid) ∷ []) m).supervisor.stopping ≡ false)
unfolding run step_at launch settle_stop
stop_in_backoff_forgotten cfg w r a pid m p c =
    (rw (c, settle_stop) refl, rw (p, step_at) refl, rw (p, step_at) refl)
