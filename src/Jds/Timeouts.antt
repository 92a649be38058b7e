-- ===== src/Jds/Timeouts.antt =====
-- The timeouts of pool-apps/jd-server/src/lib/job_declarator/mod.rs. An `Instant` is a number of
-- nanoseconds since a fixed start.
use gridpool_sv2_pool.Prelude.{ℕ, ◌*◌}

-- `Duration::from_secs`
abbrev pub from_secs : ℕ → ℕ
from_secs n = n * 1_000_000_000

abbrev pub temporary_timeout_multiplier : ℕ
temporary_timeout_multiplier = 144

abbrev pub allocated_token_timeout_secs : ℕ
allocated_token_timeout_secs = temporary_timeout_multiplier * 60 * 10

abbrev pub active_token_timeout_secs : ℕ
active_token_timeout_secs = 10
