-- ===== src/Jds/Tokens/Tests.antt =====
-- Runs of the token manager, and the theorems at concrete histories.
use gridpool_sv2_pool.Prelude.{ℕ, ◌≡◌, refl, true, some, List, [], ◌∷◌, arith}
use gridpool_sv2_pool.Map
use gridpool_sv2_pool.Jds.Tokens.{
  TokenManager, new, allocate, activate, is_allocated, allocated_from_active, janitor_round,
  remove_downstream,
}
use gridpool_sv2_pool.Jds.Tokens.History.{
  Call, allocates, activates, removes_downstream, janitor_runs, step, run, issued,
}
use gridpool_sv2_pool.Jds.Tokens.Freshness.{
  WellFormed, new-WellFormed, run-WellFormed, IncreasingFrom, issued-IncreasingFrom,
}
use gridpool_sv2_pool.Jds.Tokens.Ownership.{run_keeps_ownership, run-Spares}

abbrev busy : List Call
busy =
    allocates 7 0
    ∷ allocates 8 5
    ∷ activates 0 7 9
    ∷ removes_downstream 8
    ∷ allocates 9 12
    ∷ janitor_runs 20_000_000_000
    ∷ []

-- Client 7 holds token 0.
abbrev one_token : TokenManager
one_token = record { token_factory = 1; allocated_tokens = (0, (3, 7)) ∷ []; active_tokens = [] }

run-new :
    run new busy
    ≡ record { token_factory = 4; allocated_tokens = (3, (12, 9)) ∷ []; active_tokens = [] }
unfolding run step new allocate activate remove_downstream janitor_round Map.empty Map.insert
    Map.remove Map.retain
run-new = refl

run-WellFormed_example : WellFormed (run new busy)
unfolding new
run-WellFormed_example = run-WellFormed new busy new-WellFormed (omega arith)

issued-IncreasingFrom_example : IncreasingFrom 0 (issued new busy)
unfolding new
issued-IncreasingFrom_example = issued-IncreasingFrom new busy (omega arith)

run_keeps_ownership_example :
    ((d : ℕ) → is_allocated (run one_token busy) 0 d ≡ true → is_allocated one_token 0 d ≡ true)
    × ((a : ℕ)
        → allocated_from_active (run one_token busy) 0 ≡ some a
        → allocated_from_active one_token 0 ≡ some a)
run_keeps_ownership_example = run_keeps_ownership one_token busy 0 (omega arith) (omega arith)

run-Spares_example :
    is_allocated (run one_token (allocates 8 5 ∷ removes_downstream 8 ∷ janitor_runs 99 ∷ [])) 0 7
    ≡ true
unfolding Map.get
run-Spares_example =
    run-Spares 0 7 3 one_token (allocates 8 5 ∷ removes_downstream 8 ∷ janitor_runs 99 ∷ [])
      (omega arith) (omega arith) refl (omega arith)
