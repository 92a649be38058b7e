-- ===== src/Jds/Tokens/Ownership.antt =====
-- Who holds a token: ownership never moves, a token that is gone stays gone, and a token is lost
-- only to the calls that are meant to take it.
use gridpool_sv2_pool.Prelude.{
  ℕ, ◌+◌, ◌^◌, ◌≤◌, ◌<◌, ◌≡◌, ◌≢◌, inl, inr, true, some, List, [], ◌∷◌, arith, length, All,
  Option-cases,
}
use gridpool_sv2_pool.Map
use gridpool_sv2_pool.Map.{get-empty, get-insert, get-remove, get-retain}
use gridpool_sv2_pool.Jds.Timeouts.{allocated_token_timeout_secs, from_secs}
use gridpool_sv2_pool.Jds.Tokens.{
  TokenManager, AllocatedTokenData, ActiveTokenData, allocate, deallocate, activate, deactivate,
  clear, remove_downstream, janitor_round, is_allocated, allocated_from_active,
}
use gridpool_sv2_pool.Jds.Tokens.History.{
  Call, allocates, deallocates, activates, deactivates, clears, removes_downstream, janitor_runs,
  step, run,
}
use gridpool_sv2_pool.Jds.Tokens.Freshness.{step-token_factory}

-- The entries of tokens that are already issued are only ever removed.
record Shrinks (m n : TokenManager) : Type 0 where
  allocated :
      (t : ℕ) (e : AllocatedTokenData)
      → t < m.token_factory
      → Map.get t n.allocated_tokens ≡ some e
      → Map.get t m.allocated_tokens ≡ some e
  active :
      (t : ℕ) (e : ActiveTokenData)
      → t < m.token_factory
      → Map.get t n.active_tokens ≡ some e
      → Map.get t m.active_tokens ≡ some e

step-Shrinks : (m : TokenManager) (c : Call) → Shrinks m (step m c).0
unfolding step allocate activate deallocate deactivate clear remove_downstream janitor_round
step-Shrinks m (allocates d now) = record {
  allocated = λ t e h. rw get-insert (ground arith);
  active = λ t e h p. p;
}
step-Shrinks m (deallocates k) = record {
  allocated = λ t e h. rw get-remove (ground arith);
  active = λ t e h p. p;
}
step-Shrinks m (activates a d now) = record {
  allocated = λ t e h. rw get-remove (ground arith);
  active = λ t e h. rw get-insert (ground arith);
}
step-Shrinks m (deactivates k) = record {
  allocated = λ t e h p. p;
  active = λ t e h. rw get-remove (ground arith);
}
step-Shrinks m clears = record {
  allocated = λ t e h. rw get-empty (λ p. cc);
  active = λ t e h. rw get-empty (λ p. cc);
}
step-Shrinks m (removes_downstream d) = record {
  allocated = λ t e h. rw get-retain (ground arith);
  active = λ t e h p. p;
}
step-Shrinks m (janitor_runs now) = record {
  allocated = λ t e h. rw get-retain (ground arith);
  active = λ t e h. rw get-retain (ground arith);
}

token_factory-step :
    (m : TokenManager) (c : Call)
    → m.token_factory + 1 < 2 ^ 64
    → (m.token_factory ≤ (step m c).0.token_factory)
      × ((step m c).0.token_factory ≤ m.token_factory + 1)
token_factory-step m c h = ground (arith, step-token_factory m c)

run-Shrinks :
    (m : TokenManager) (cs : List Call)
    → m.token_factory + length cs < 2 ^ 64
    → Shrinks m (run m cs)
unfolding run
run-Shrinks m [] h = record { allocated = λ t e _ p. p; active = λ t e _ p. p }
run-Shrinks m (c ∷ cs) h =
    let m' = (step m c).0 in
    let bound = token_factory-step m c (omega arith) in
    let one = step-Shrinks m c in
    let rest = run-Shrinks m' cs (omega arith) in
    record {
      allocated = λ t e b p. one.allocated t e b (rest.allocated t e (omega arith) p);
      active = λ t e b p. one.active t e b (rest.active t e (omega arith) p);
    }

-- Take a token that was issued before a history which cannot exhaust the 64-bit counter. If it is
-- allocated to a client after the history, it was allocated to that client before it; if it is
-- active for an allocated token after it, it was so before. So no token changes hands, and a
-- token that was deallocated, activated, evicted or consumed never comes back.
pub run_keeps_ownership :
    (m : TokenManager) (cs : List Call) (t : ℕ)
    → m.token_factory + length cs < 2 ^ 64
    → t < m.token_factory
    → ((d : ℕ) → is_allocated (run m cs) t d ≡ true → is_allocated m t d ≡ true)
      × ((a : ℕ) → allocated_from_active (run m cs) t ≡ some a → allocated_from_active m t ≡ some a)
unfolding is_allocated allocated_from_active
run_keeps_ownership m cs t h b = (
  λ d p. elim (Option-cases (Map.get t (run m cs).allocated_tokens)) [
    | inl e ↦ ground arith
    | inr (x, e) ↦ ground (arith, (run-Shrinks m cs h).allocated t x b e)
  ],
  λ a p. elim (Option-cases (Map.get t (run m cs).active_tokens)) [
    | inl e ↦ ground arith
    | inr (x, e) ↦ ground (arith, (run-Shrinks m cs h).active t x b e)
  ],
)

-- The calls that take an allocated token from its client: its deallocation or activation, the
-- removal of the client, a clearing, and a janitor's round after the timeout.
abbrev pub Spares : (token downstream_id allocated_at : ℕ) → Call → Type 0
Spares t d at (deallocates k) = k ≢ t
Spares t d at (activates k _ _) = k ≢ t
Spares t d at clears = ⊥
Spares t d at (removes_downstream k) = k ≢ d
Spares t d at (janitor_runs now) = now ≤ at + from_secs allocated_token_timeout_secs
Spares t d at _ = Unit

module _ (t d at : ℕ) where
  step-spared :
      (m : TokenManager) (c : Call)
      → t < m.token_factory
      → Map.get t m.allocated_tokens ≡ some (at, d)
      → Spares t d at c
      → Map.get t (step m c).0.allocated_tokens ≡ some (at, d)
  unfolding step allocate activate deallocate deactivate clear remove_downstream janitor_round
  step-spared m (allocates k now) b e s = rw get-insert (ground arith)
  step-spared m (deallocates k) b e s = rw get-remove (ground arith)
  step-spared m (activates a k now) b e s = rw get-remove (ground arith)
  step-spared m (deactivates k) b e s = e
  step-spared m clears b e s = absurd s
  step-spared m (removes_downstream k) b e s = rw (get-retain, e) (ground arith)
  step-spared m (janitor_runs now) b e s = rw (get-retain, e) (ground arith)

  -- A token that is allocated to a client stays allocated to it through every history in which no
  -- call deallocates or activates the token, removes the client, clears the tokens, or runs the
  -- janitor later than the timeout after the allocation (and which cannot exhaust the counter).
  pub run-Spares :
      (m : TokenManager) (cs : List Call)
      → m.token_factory + length cs < 2 ^ 64
      → t < m.token_factory
      → Map.get t m.allocated_tokens ≡ some (at, d)
      → All (Spares t d at) cs
      → is_allocated (run m cs) t d ≡ true
  unfolding run is_allocated
  run-Spares m [] h b e s = ground arith
  run-Spares m (c ∷ cs) h b e s =
      let bound = token_factory-step m c (omega arith) in
      run-Spares (step m c).0 cs (omega arith) (omega arith) (step-spared m c b e s.0) s.1
