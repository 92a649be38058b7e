-- ===== src/Jds/Tokens.antt =====
-- pool-apps/jd-server/src/lib/job_declarator/token_management/mod.rs: the tokens of the Job
-- Declaration protocol. A method that reads the clock takes the time as an argument; the janitor's
-- task is the round that it makes after each sleep.
pub mod History
pub mod Freshness
pub mod Ownership
pub mod Tests
use gridpool_sv2_pool.Prelude.{
  ℕ, ◌+◌, ◌-◌, ◌%◌, ◌^◌, Bool, false, not, Option, none, some, ◌==◌, leb, if◌then◌else◌,
}
use gridpool_sv2_pool.Map
use gridpool_sv2_pool.Map.{Map}
use gridpool_sv2_pool.Jds.Timeouts.{
  from_secs, allocated_token_timeout_secs, active_token_timeout_secs,
}

-- (allocation time, client)
abbrev pub AllocatedTokenData : Type 0
AllocatedTokenData = ℕ × ℕ

-- (allocated token, activation time, client)
abbrev pub ActiveTokenData : Type 0
ActiveTokenData = ℕ × ℕ × ℕ

pub record TokenManager : Type 0 where
  pub token_factory : ℕ
  pub allocated_tokens : Map AllocatedTokenData
  pub active_tokens : Map ActiveTokenData

unfoldable pub new : TokenManager
new = record { token_factory = 0; allocated_tokens = Map.empty; active_tokens = Map.empty }

-- `AtomicU64::fetch_add(1)` returns the old value and wraps.
abbrev pub fetch_add_one : ℕ → ℕ
fetch_add_one n = (n + 1) % 2 ^ 64

unfoldable pub allocate : TokenManager → (downstream_id now : ℕ) → TokenManager × ℕ
allocate m downstream_id now =
    let token = m.token_factory in
    (
      record m {
        token_factory = fetch_add_one m.token_factory;
        allocated_tokens = Map.insert token (now, downstream_id) m.allocated_tokens;
      },
      token,
    )

unfoldable pub deallocate : TokenManager → (token : ℕ) → TokenManager
deallocate m token = record m { allocated_tokens = Map.remove token m.allocated_tokens }

unfoldable pub is_allocated : TokenManager → (token downstream_id : ℕ) → Bool
is_allocated m token downstream_id = elim (Map.get token m.allocated_tokens) [
  | none ↦ false
  | some (_, owner) ↦ owner == downstream_id
]

unfoldable pub activate : TokenManager → (allocated_token downstream_id now : ℕ) → TokenManager × ℕ
activate m allocated_token downstream_id now =
    let activated_token = m.token_factory in
    (
      record m {
        token_factory = fetch_add_one m.token_factory;
        allocated_tokens = Map.remove allocated_token m.allocated_tokens;
        active_tokens =
            Map.insert activated_token (allocated_token, now, downstream_id) m.active_tokens;
      },
      activated_token,
    )

unfoldable pub deactivate : TokenManager → (active_token : ℕ) → TokenManager
deactivate m active_token = record m { active_tokens = Map.remove active_token m.active_tokens }

unfoldable pub allocated_from_active : TokenManager → (active_token : ℕ) → Option ℕ
allocated_from_active m active_token = elim (Map.get active_token m.active_tokens) [
  | none ↦ none
  | some (allocated, _, _) ↦ some allocated
]

unfoldable pub clear : TokenManager → TokenManager
clear m = record m { allocated_tokens = Map.empty; active_tokens = Map.empty }

unfoldable pub remove_downstream : TokenManager → (downstream_id : ℕ) → TokenManager
remove_downstream m downstream_id = record m {
  allocated_tokens = Map.retain (λ _ entry. not (entry.1 == downstream_id)) m.allocated_tokens;
}

-- `Instant::duration_since` stops at 0.
unfoldable pub janitor_round : TokenManager → (now : ℕ) → TokenManager
janitor_round m now = record m {
  allocated_tokens =
      Map.retain (λ _ entry. leb (now - entry.0) (from_secs allocated_token_timeout_secs))
        m.allocated_tokens;
  active_tokens =
      Map.retain (λ _ entry. leb (now - entry.1) (from_secs active_token_timeout_secs))
        m.active_tokens;
}
