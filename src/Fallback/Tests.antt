-- ===== src/Fallback/Tests.antt =====
-- Runs of the coordinator, and the theorem at a concrete input.
use gridpool_sv2_pool.Prelude.{◌≡◌, refl, true, false, some, List, [], ◌∷◌}
use gridpool_sv2_pool.Fallback.Coordinator.{
  Coordinator, Event, registers, counts_down, checks_token, cancels, loads, wakes, waiting,
  returned, new, step, run,
}
use gridpool_sv2_pool.Fallback.Wakeup.{run-wakes}

-- One task that ends while the trigger waits.
abbrev one_task : List Event
one_task = registers ∷ cancels ∷ loads ∷ counts_down ∷ checks_token ∷ []

abbrev notified : Coordinator
notified = record {
  signal = true;
  pending_tasks = 0;
  permit = true;
  last_handlers = 0;
  waiter = waiting;
}

run-wakes_example :
    step notified wakes ≡ some (record notified { permit = false; waiter = returned })
unfolding run step new
run-wakes_example = run-wakes notified one_task refl refl refl refl

-- A task that is registered between another's last count and its look at the token is not waited
-- for.
early_return :
    run new (registers ∷ counts_down ∷ registers ∷ cancels ∷ loads ∷ checks_token ∷ wakes ∷ [])
    ≡ some (record {
      signal = true;
      pending_tasks = 1;
      permit = false;
      last_handlers = 0;
      waiter = returned;
    })
unfolding run step new
early_return = refl
