-- ===== src/Fallback/Wakeup.antt =====
-- The waiter is not forgotten.
use gridpool_sv2_pool.Prelude.{
  ℕ, zero, suc, ◌<◌, ◌≡◌, ◌≢◌, ◌⊎◌, inl, inr, refl, subst, true, false, some, List, [], ◌∷◌, arith,
  Option-cases,
}
use gridpool_sv2_pool.Fallback.Coordinator.{
  counted, checked, Waiter, idle, triggered, waiting, returned, Coordinator, Event, registers,
  counts_down, checks_token, cancels, loads, wakes, new, step, run,
}

-- A waiter that sleeps has a task to wait for, a last handler that will look at the token, or a
-- permit; and once the fallback was triggered, the token is cancelled.
abbrev pub NotForgotten : Coordinator → Type 0
NotForgotten s =
    (s.waiter ≡ waiting → (0 < s.pending_tasks) ⊎ (0 < s.last_handlers) ⊎ (s.permit ≡ true))
    × (s.waiter ≢ idle → s.signal ≡ true)

counted-NotForgotten :
    (s s' : Coordinator) (n : ℕ) → NotForgotten s → counted n s ≡ some s' → NotForgotten s'
counted-NotForgotten s s' zero h e = ground arith
counted-NotForgotten s s' (suc zero) h e = ground arith
counted-NotForgotten s s' (suc (suc n)) h e = ground arith

checked-NotForgotten :
    (s s' : Coordinator) (n : ℕ)
    → s.signal ≡ true ⊎ (s.waiter ≡ idle)
    → NotForgotten s
    → checked n s ≡ some s'
    → NotForgotten s'
checked-NotForgotten s s' zero c h e = ground arith
checked-NotForgotten s s' (suc n) c h e = ground arith

moved-NotForgotten :
    (s s' : Coordinator) (event : Event) (w : Waiter) (n : ℕ)
    → s.waiter ≡ w
    → s.pending_tasks ≡ n
    → NotForgotten s
    → step s event ≡ some s'
    → NotForgotten s'
unfolding step
moved-NotForgotten s s' registers w n p q h e = ground arith
moved-NotForgotten s s' counts_down w n p q h e = counted-NotForgotten s s' s.pending_tasks h e
moved-NotForgotten s s' checks_token idle n p q h e =
    checked-NotForgotten s s' s.last_handlers (inr p) h e
moved-NotForgotten s s' checks_token triggered n p q h e =
    checked-NotForgotten s s' s.last_handlers (inl (ground arith)) h e
moved-NotForgotten s s' checks_token waiting n p q h e =
    checked-NotForgotten s s' s.last_handlers (inl (ground arith)) h e
moved-NotForgotten s s' checks_token returned n p q h e =
    checked-NotForgotten s s' s.last_handlers (inl (ground arith)) h e
moved-NotForgotten s s' cancels idle n p q h e = ground arith
moved-NotForgotten s s' cancels triggered n p q h e = ground arith
moved-NotForgotten s s' cancels waiting n p q h e = ground arith
moved-NotForgotten s s' cancels returned n p q h e = ground arith
moved-NotForgotten s s' loads idle n p q h e = ground arith
moved-NotForgotten s s' loads triggered zero p q h e = ground arith
moved-NotForgotten s s' loads triggered (suc n) p q h e = ground arith
moved-NotForgotten s s' loads waiting n p q h e = ground arith
moved-NotForgotten s s' loads returned n p q h e = ground arith
moved-NotForgotten s s' wakes idle n p q h e = ground arith
moved-NotForgotten s s' wakes triggered n p q h e = ground arith
moved-NotForgotten s s' wakes waiting n p q h e = ground arith
moved-NotForgotten s s' wakes returned n p q h e = ground arith

run-from :
    (s s' : Coordinator) (events : List Event)
    → NotForgotten s
    → run s events ≡ some s'
    → NotForgotten s'
unfolding run
run-from s s' [] h e = let same : s ≡ s' = ground arith in subst NotForgotten same h
run-from s s' (event ∷ events) h e = elim (Option-cases (step s event)) [
  | inl stuck ↦ ground arith
  | inr (next, moved) ↦
      run-from next s' events
        (moved-NotForgotten s next event s.waiter s.pending_tasks refl refl h moved) (ground arith)
]

-- Whatever order the registrations, the endings of tasks and the trigger come in: if the trigger
-- waits while no task is pending and no last handler is still at work, then the permit is there,
-- so that the wait ends with its next step.
pub run-wakes :
    (s : Coordinator) (events : List Event)
    → run new events ≡ some s
    → s.waiter ≡ waiting
    → s.pending_tasks ≡ 0
    → s.last_handlers ≡ 0
    → step s wakes ≡ some (record s { permit = false; waiter = returned })
unfolding new step
run-wakes s events reached asleep none_pending none_left =
    let fresh : NotForgotten new = (λ e. ground arith, λ d. ground arith) in
    let safe = run-from new s events fresh reached in
    let permit : s.permit ≡ true = ground (arith, safe.0 asleep) in rw (asleep, permit) refl
