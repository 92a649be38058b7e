-- ===== src/Fallback/Coordinator.antt =====
-- `FallbackCoordinator` and `FallbackHandler`, one atomic access at a time, in any order of the
-- tasks. The token's lock orders its accesses, so the accesses are taken as one sequence.
use gridpool_sv2_pool.Prelude.{
  ℕ, zero, suc, Bool, true, false, Option, none, some, List, [], ◌∷◌, if◌then◌else◌,
}

-- Where `trigger_fallback_and_wait` is: not called, behind the cancellation, in `notified().await`,
-- or returned.
pub data Waiter : Type 0 where
  idle triggered waiting returned : Waiter

-- The token, the counter, the permit that `notify_one` stores (or hands to the waiter), the
-- handlers that read the counter as 1 and have not looked at the token yet, and the waiter.
pub record Coordinator : Type 0 where
  pub signal : Bool
  pub pending_tasks : ℕ
  pub permit : Bool
  pub last_handlers : ℕ
  pub waiter : Waiter

pub data Event : Type 0 where
  -- `register`
  registers : Event
  -- `fetch_sub` of `done`, and what a handler that was the last does behind it
  counts_down checks_token : Event
  -- `signal.cancel()`, the load of the counter, and the end of `notified().await`
  cancels loads wakes : Event

unfoldable pub new : Coordinator
new = record { signal = false; pending_tasks = 0; permit = false; last_handlers = 0; waiter = idle }

abbrev pub counted : ℕ → Coordinator → Option Coordinator
counted zero s = none
counted (suc zero) s = some (record s { pending_tasks = 0; last_handlers = suc s.last_handlers })
counted (suc (suc n)) s = some (record s { pending_tasks = suc n })

abbrev pub checked : ℕ → Coordinator → Option Coordinator
checked zero s = none
checked (suc n) s =
    some (record s { last_handlers = n; permit = if s.signal then true else s.permit })

abbrev pub loaded : ℕ → Coordinator → Coordinator
loaded zero s = record s { waiter = returned }
loaded (suc n) s = record s { waiter = waiting }

-- `none` is a step that cannot be taken.
unfoldable pub step : Coordinator → Event → Option Coordinator
step s registers = some (record s { pending_tasks = suc s.pending_tasks })
step s counts_down = counted s.pending_tasks s
step s checks_token = checked s.last_handlers s
step s cancels = elim s.waiter [
  | idle ↦ some (record s { signal = true; waiter = triggered })
  | triggered ↦ none
  | waiting ↦ none
  | returned ↦ none
]
step s loads = elim s.waiter [
  | idle ↦ none
  | triggered ↦ some (loaded s.pending_tasks s)
  | waiting ↦ none
  | returned ↦ none
]
step s wakes = elim s.waiter [
  | idle ↦ none
  | triggered ↦ none
  | waiting ↦ if s.permit then some (record s { permit = false; waiter = returned }) else none
  | returned ↦ none
]

unfoldable pub run : Coordinator → List Event → Option Coordinator
run s [] = some s
run s (event ∷ events) = elim (step s event) [ none ↦ none | some s' ↦ run s' events ]
