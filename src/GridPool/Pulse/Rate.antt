-- ===== src/GridPool/Pulse/Rate.antt =====
-- How often a channel's ordinary shares become proofs.
use gridpool_sv2_pool.Prelude.{ℕ, ◌+◌, ◌≤◌, ◌<◌, ◌≡◌, max, Bool, true, false, arith}
use gridpool_sv2_pool.Map
use gridpool_sv2_pool.Map.{get-insert}
use gridpool_sv2_pool.GridPool.Client.{Libs, WorkSelection, ShareAdvice, GridPoolClient}
use gridpool_sv2_pool.GridPool.Pulse.{or_zero, is_reserve, should_submit_proof}

module _ (lib : Libs) where
  open lib use {F64}

  -- What may happen between two shares: shares of any channel, at any reading of the clock, and
  -- new answers of the node.
  pub data Later : GridPoolClient lib → GridPoolClient lib → Type 0 where
    now : {c : GridPoolClient lib} → Later c c
    submits :
        {c d : GridPoolClient lib} (time channel_key : ℕ) (achieved : F64) (is_block : Bool)
        → Later (should_submit_proof lib c time channel_key achieved is_block).1 d
        → Later c d
    works :
        {c d : GridPoolClient lib} (w : WorkSelection F64)
        → Later (record c { work = w }) d
        → Later c d
    advises :
        {c d : GridPoolClient lib} (a : ShareAdvice F64)
        → Later (record c { advice = a }) d
        → Later c d

  abbrev last : GridPoolClient lib → ℕ → ℕ
  last c key = or_zero (Map.get key c.last_pulse)

  last-should_submit_proof :
      (c : GridPoolClient lib) (time key k : ℕ) (achieved : F64) (is_block : Bool)
      → last c k ≤ last (should_submit_proof lib c time key achieved is_block).1 k
  unfolding should_submit_proof
  last-should_submit_proof c time key k achieved is_block =
      ground (arith, get-insert key k time c.last_pulse)

  last-Later : (c d : GridPoolClient lib) (k : ℕ) → Later c d → last c k ≤ last d k
  last-Later c d k now = omega arith
  last-Later c d k (submits time key achieved is_block later) =
      omega (arith, last-should_submit_proof c time key k achieved is_block, last-Later _ d k later)
  last-Later c d k (works w later) = last-Later _ d k later
  last-Later c d k (advises a later) = last-Later _ d k later

  -- Once a share that is neither a block nor good enough for the reserve is submitted on a channel,
  -- no other such share of the channel is submitted until the interval that the node then advises,
  -- at least a second, has passed, whatever shares and answers of the node come in between.
  pub should_submit_proof-Spaced :
      (c d : GridPoolClient lib) (key time time' : ℕ) (achieved achieved' : F64)
      → is_reserve lib c achieved false ≡ false
      → (should_submit_proof lib c time key achieved false).0 ≡ true
      → Later (should_submit_proof lib c time key achieved false).1 d
      → time' < time + max d.advice.pulse_target_interval_seconds 1
      → is_reserve lib d achieved' false ≡ false
      → (should_submit_proof lib d time' key achieved' false).0 ≡ false
  unfolding should_submit_proof
  should_submit_proof-Spaced c d key time time' achieved achieved' low sent later soon low' =
      let after = (should_submit_proof lib c time key achieved false).1 in
      let kept : last after key ≡ time = ground (arith, get-insert key key time c.last_pulse) in
      ground (arith, last-Later after d key later)
