-- ===== src/GridPool/Pulse.antt =====
-- pool-apps/pool/src/lib/gridpool.rs: which shares are submitted to the GridPool node as proofs.
-- The clock is an argument.
pub mod Rate
use gridpool_sv2_pool.Prelude.{
  ℕ, ◌-◌, max, Bool, true, false, not, ◌||◌, Option, none, some, ltb, if◌then◌else◌,
}
use gridpool_sv2_pool.Map
use gridpool_sv2_pool.GridPool.Client.{Libs, GridPoolClient}

-- `unwrap_or(0)`
abbrev pub or_zero : Option ℕ → ℕ
or_zero none = 0
or_zero (some n) = n

module _ (lib : Libs) where
  open lib use {F64, at_least, less_than}

  -- A block, or a share that may enter the reserve.
  abbrev pub is_reserve : GridPoolClient lib → F64 → (is_block : Bool) → Bool
  is_reserve c achieved_difficulty is_block =
      is_block || at_least achieved_difficulty c.work.minimum_difficulty_to_enter_reserve

  unfoldable pub should_submit_proof :
      GridPoolClient lib
      → (now channel_key : ℕ) → F64
      → (is_block : Bool) → Bool × GridPoolClient lib
  should_submit_proof c now channel_key achieved_difficulty is_block =
      let previous = or_zero (Map.get channel_key c.last_pulse) in
      if is_reserve c achieved_difficulty is_block
      then (true, c)
      else (if not c.advice.pulse_proofs_enabled
            || less_than achieved_difficulty c.advice.minimum_pulse_difficulty
          then (false, c)
          else (if ltb (now - previous) (max c.advice.pulse_target_interval_seconds 1)
              then (false, c)
              else (true, record c { last_pulse = Map.insert channel_key now c.last_pulse })))
