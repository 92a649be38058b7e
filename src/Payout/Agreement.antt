-- ===== src/Payout/Agreement.antt =====
-- The outputs that a pool builds for a mode add up to the reward, and a client's verification
-- accepts them.
use gridpool_sv2_pool.Prelude.{ℕ, ◌*◌, ◌^◌, ◌<◌, ◌≡◌, false, ok, list_eq, arith, list_eq_refl}
use gridpool_sv2_pool.Payout.Script.{CoinbaseRewardScript}
use gridpool_sv2_pool.Payout.Mode.{
  PayoutMode, solo, legacy_solo, donate, full_donation, BitcoinLib, coinbase_outputs,
  validate_coinbase_outputs,
}
use gridpool_sv2_pool.Payout.Distribution.{
  InRange, total_of, percentage_exact, percentage_bound, Accepts, validate_coinbase_outputs_iff,
}

-- The outputs of a mode add up to the reward, if the reward times 100 fits 64 bits.
total_of-coinbase_outputs :
    (mode : PayoutMode) (total_value : ℕ) (pool_script : CoinbaseRewardScript)
    → InRange mode
    → total_value * 100 < 2 ^ 64
    → total_of (coinbase_outputs mode total_value pool_script) ≡ total_value
unfolding coinbase_outputs
total_of-coinbase_outputs (solo address script) v pool h b = omega arith
total_of-coinbase_outputs (legacy_solo address script) v pool h b = omega arith
total_of-coinbase_outputs (donate p address script) v pool h b =
    omega (arith, percentage_exact v p, percentage_bound v p)
total_of-coinbase_outputs full_donation v pool h b = omega arith

module _ (lib : BitcoinLib) where
  -- The scripts can be spent, and a donation's two scripts differ.
  abbrev pub Payable : PayoutMode → CoinbaseRewardScript → Type 0
  Payable (solo address script) pool = lib.is_op_return script.script_pubkey ≡ false
  Payable (legacy_solo address script) pool = lib.is_op_return script.script_pubkey ≡ false
  Payable (donate percentage address script) pool =
      (lib.is_op_return script.script_pubkey ≡ false)
      × (lib.is_op_return pool.script_pubkey ≡ false)
      × (list_eq pool.script_pubkey script.script_pubkey ≡ false)
  Payable full_donation pool = Unit

  coinbase_outputs-Accepts :
      (mode : PayoutMode) (total_value : ℕ) (pool_script : CoinbaseRewardScript)
      → InRange mode
      → Payable mode pool_script
      → 0 < total_value
      → total_value * 100 < 2 ^ 64
      → Accepts lib mode (coinbase_outputs mode total_value pool_script)
  unfolding coinbase_outputs
  coinbase_outputs-Accepts (solo address script) v pool h d n b =
      ground (arith, list_eq_refl script.script_pubkey)
  coinbase_outputs-Accepts (legacy_solo address script) v pool h d n b =
      ground (arith, list_eq_refl script.script_pubkey)
  coinbase_outputs-Accepts (donate p address script) v pool h d n b =
      ground (arith, list_eq_refl script.script_pubkey, percentage_exact v p, percentage_bound v p)
  coinbase_outputs-Accepts full_donation v pool h d n b = tt

  -- The outputs that the pool builds for a mode pass the verification of that mode, if the
  -- scripts are spendable, a donation's two scripts differ, and the reward is positive and its
  -- hundredfold fits 64 bits.
  pub validate-coinbase_outputs :
      (mode : PayoutMode) (total_value : ℕ) (pool_script : CoinbaseRewardScript)
      → InRange mode
      → Payable mode pool_script
      → 0 < total_value
      → total_value * 100 < 2 ^ 64
      → validate_coinbase_outputs lib mode (coinbase_outputs mode total_value pool_script) ≡ ok tt
  validate-coinbase_outputs mode v pool h d n b =
      (validate_coinbase_outputs_iff lib (coinbase_outputs mode v pool)
          (omega (arith, total_of-coinbase_outputs mode v pool h b)) mode h).1
        (coinbase_outputs-Accepts mode v pool h d n b)
