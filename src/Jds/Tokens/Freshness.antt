-- ===== src/Jds/Tokens/Freshness.antt =====
-- No token is given out twice, and an issued token is never found under another meaning.
use gridpool_sv2_pool.Prelude.{
  ℕ, ◌+◌, ◌^◌, ◌≤◌, ◌<◌, ◌≡◌, refl, ◌⊎◌, inl, inr, none, some, List, [], ◌∷◌, arith, length,
  Option-cases, subst,
}
use gridpool_sv2_pool.Map
use gridpool_sv2_pool.Map.{get-empty, get-insert, get-remove, get-retain}
use gridpool_sv2_pool.Jds.Tokens.{
  TokenManager, AllocatedTokenData, ActiveTokenData, new, allocate, deallocate, activate,
  deactivate, clear, remove_downstream, janitor_round,
}
use gridpool_sv2_pool.Jds.Tokens.History.{
  Call, allocates, deallocates, activates, deactivates, clears, removes_downstream, janitor_runs,
  step, run, issued,
}

-- Every token in use is below the counter, and none is allocated and active at once.
pub record WellFormed (m : TokenManager) : Type 0 where
  pub allocated_below :
      (t : ℕ) (e : AllocatedTokenData) → Map.get t m.allocated_tokens ≡ some e → t < m.token_factory
  pub active_below :
      (t : ℕ) (e : ActiveTokenData) → Map.get t m.active_tokens ≡ some e → t < m.token_factory
  pub disjoint :
      (t : ℕ) (e : AllocatedTokenData)
      → Map.get t m.allocated_tokens ≡ some e
      → Map.get t m.active_tokens ≡ none

module _ (m : TokenManager) (w : WellFormed m) where
  inactive_above : (t : ℕ) → m.token_factory ≤ t → Map.get t m.active_tokens ≡ none
  inactive_above t h = elim (Option-cases (Map.get t m.active_tokens)) [
    | inl e ↦ e
    | inr (x, e) ↦ absurd (omega (arith, w.active_below t x e))
  ]

  allocate-WellFormed : (d now : ℕ) → m.token_factory + 1 < 2 ^ 64 → WellFormed (allocate m d now).0
  unfolding allocate
  allocate-WellFormed d now h = record {
    allocated_below = λ t e. rw get-insert (ground (arith, w.allocated_below t e));
    active_below = λ t e. ground (arith, w.active_below t e);
    disjoint = λ t e. rw get-insert (ground (arith, w.disjoint t e, inactive_above t));
  }

  activate-WellFormed :
      (a d now : ℕ) → m.token_factory + 1 < 2 ^ 64 → WellFormed (activate m a d now).0
  unfolding activate
  activate-WellFormed a d now h = record {
    allocated_below = λ t e. rw get-remove (ground (arith, w.allocated_below t e));
    active_below = λ t e. rw get-insert (ground (arith, w.active_below t e));
    disjoint =
        λ t e. rw (get-remove, get-insert) (ground (arith, w.disjoint t e, w.allocated_below t e));
  }

  deallocate-WellFormed : (t : ℕ) → WellFormed (deallocate m t)
  unfolding deallocate
  deallocate-WellFormed k = record {
    allocated_below = λ t e. rw get-remove (ground (arith, w.allocated_below t e));
    active_below = w.active_below;
    disjoint = λ t e. rw get-remove (ground (arith, w.disjoint t e));
  }

  deactivate-WellFormed : (t : ℕ) → WellFormed (deactivate m t)
  unfolding deactivate
  deactivate-WellFormed k = record {
    allocated_below = w.allocated_below;
    active_below = λ t e. rw get-remove (ground (arith, w.active_below t e));
    disjoint = λ t e. rw get-remove (ground (arith, w.disjoint t e));
  }

  remove_downstream-WellFormed : (d : ℕ) → WellFormed (remove_downstream m d)
  unfolding remove_downstream
  remove_downstream-WellFormed d = record {
    allocated_below = λ t e. rw get-retain (ground (arith, w.allocated_below t e));
    active_below = w.active_below;
    disjoint = λ t e. rw get-retain (ground (arith, w.disjoint t e));
  }

  janitor_round-WellFormed : (now : ℕ) → WellFormed (janitor_round m now)
  unfolding janitor_round
  janitor_round-WellFormed now = record {
    allocated_below = λ t e. rw get-retain (ground (arith, w.allocated_below t e));
    active_below = λ t e. rw get-retain (ground (arith, w.active_below t e));
    disjoint = λ t e. simp get-retain (ground (arith, w.disjoint t e));
  }

empty-WellFormed :
    (m : TokenManager) → m.allocated_tokens ≡ Map.empty → m.active_tokens ≡ Map.empty → WellFormed m
empty-WellFormed m e f = record {
  allocated_below = λ t x. rw (e, get-empty) (λ p. cc);
  active_below = λ t x. rw (f, get-empty) (λ p. cc);
  disjoint = λ t x. rw (e, get-empty) (λ p. cc);
}

step-WellFormed :
    (m : TokenManager) (c : Call)
    → WellFormed m
    → m.token_factory + 1 < 2 ^ 64
    → WellFormed (step m c).0
unfolding step clear
step-WellFormed m (allocates d now) w h = allocate-WellFormed m w d now h
step-WellFormed m (deallocates t) w h = deallocate-WellFormed m w t
step-WellFormed m (activates a d now) w h = activate-WellFormed m w a d now h
step-WellFormed m (deactivates t) w h = deactivate-WellFormed m w t
step-WellFormed m clears w h = empty-WellFormed _ refl refl
step-WellFormed m (removes_downstream d) w h = remove_downstream-WellFormed m w d
step-WellFormed m (janitor_runs now) w h = janitor_round-WellFormed m w now

pub new-WellFormed : WellFormed new
unfolding new
new-WellFormed = empty-WellFormed new refl refl

-- A call advances the counter by one and returns its old value, or leaves it.
pub step-token_factory :
    (m : TokenManager) (c : Call)
    → m.token_factory + 1 < 2 ^ 64
    → (((step m c).1 ≡ some m.token_factory) × ((step m c).0.token_factory ≡ m.token_factory + 1))
      ⊎ (((step m c).1 ≡ none) × ((step m c).0.token_factory ≡ m.token_factory))
unfolding step allocate activate deallocate deactivate clear remove_downstream janitor_round
step-token_factory m (allocates d now) h = inl (refl, omega arith)
step-token_factory m (activates a d now) h = inl (refl, omega arith)
step-token_factory m _ h = inr (refl, refl)

-- From any well-formed state, a history that cannot exhaust the 64-bit counter ends well-formed:
-- every token in use was issued, and no token is both allocated and active.
pub run-WellFormed :
    (m : TokenManager) (cs : List Call)
    → WellFormed m
    → m.token_factory + length cs < 2 ^ 64
    → WellFormed (run m cs)
unfolding run
run-WellFormed m [] w h = w
run-WellFormed m (c ∷ cs) w h =
    run-WellFormed (step m c).0 cs (step-WellFormed m c w (omega arith))
      (ground (arith, step-token_factory m c))

-- Every token of the list is at least `n`, and each is below those behind it.
abbrev pub IncreasingFrom : ℕ → List ℕ → Type 0
IncreasingFrom n [] = Unit {0}
IncreasingFrom n (t ∷ ts) = (n ≤ t) × IncreasingFrom (t + 1) ts

-- The tokens that a history returns are strictly increasing from the counter on, so no two calls
-- of `allocate` and `activate` return the same token, if the history cannot exhaust the 64-bit
-- counter.
pub issued-IncreasingFrom :
    (m : TokenManager) (cs : List Call)
    → m.token_factory + length cs < 2 ^ 64
    → IncreasingFrom m.token_factory (issued m cs)
unfolding issued
issued-IncreasingFrom m [] h = tt
issued-IncreasingFrom m (c ∷ cs) h =
    let m' = (step m c).0 in
    elim (step-token_factory m c (omega arith)) [
      | inl (e, f) ↦ rw e (
        omega arith,
        subst (λ n. IncreasingFrom n (issued m' cs)) f (issued-IncreasingFrom m' cs (omega arith)),
      )
      | inr (e, f) ↦ rw e (
          subst (λ n. IncreasingFrom n (issued m' cs)) f
            (issued-IncreasingFrom m' cs (omega arith)))
    ]
