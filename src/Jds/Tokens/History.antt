-- ===== src/Jds/Tokens/History.antt =====
-- Histories of calls of the token manager, by any interleaving of its users and its janitor.
use gridpool_sv2_pool.Prelude.{ℕ, Option, none, some, List, [], ◌∷◌}
use gridpool_sv2_pool.Jds.Tokens.{
  TokenManager, allocate, deallocate, activate, deactivate, clear, remove_downstream, janitor_round,
}

pub data Call : Type 0 where
  allocates : (downstream_id now : ℕ) → Call
  deallocates : (token : ℕ) → Call
  activates : (allocated_token downstream_id now : ℕ) → Call
  deactivates : (active_token : ℕ) → Call
  clears : Call
  removes_downstream : (downstream_id : ℕ) → Call
  janitor_runs : (now : ℕ) → Call

-- The new state and the token that the call returns, if it returns one.
unfoldable pub step : TokenManager → Call → TokenManager × Option ℕ
step m (allocates d now) = let (m', token) = allocate m d now in (m', some token)
step m (deallocates token) = (deallocate m token, none)
step m (activates allocated d now) =
    let (m', token) = activate m allocated d now in (m', some token)
step m (deactivates token) = (deactivate m token, none)
step m clears = (clear m, none)
step m (removes_downstream d) = (remove_downstream m d, none)
step m (janitor_runs now) = (janitor_round m now, none)

unfoldable pub run : TokenManager → List Call → TokenManager
run m [] = m
run m (c ∷ cs) = run (step m c).0 cs

abbrev pub returned : Option ℕ → List ℕ → List ℕ
returned none tokens = tokens
returned (some token) tokens = token ∷ tokens

-- The tokens that a history returns, in order.
unfoldable pub issued : TokenManager → List Call → List ℕ
issued m [] = []
issued m (c ∷ cs) = returned (step m c).1 (issued (step m c).0 cs)
