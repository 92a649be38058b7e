-- ===== src/Payout/Distribution.antt =====
-- What the verification of a coinbase accepts, in exact arithmetic, and its agreement with the
-- outputs that the same module builds.
use gridpool_sv2_pool.Prelude.{
  ℕ, ◌-◌, ◌*◌, ◌/◌, ◌^◌, ◌≤◌, ◌<◌, ◌≡◌, refl, ◌↔◌, Bool, List, [], ◌∷◌, ok, not, list_eq, keep, sum,
  map, arith,
}
use gridpool_sv2_pool.Payout.Script.{Script}
use gridpool_sv2_pool.Payout.Mode.{
  PayoutMode, solo, legacy_solo, donate, full_donation, TxOut, BitcoinLib, u64, sum_u64,
  expected_miner_sats, expected_legacy_solo_miner_sats, total_spendable_sats, actual_miner_sats,
  validate_coinbase_outputs,
}

-- The percentage of a donation that the parser lets through.
abbrev pub InRange : PayoutMode → Type 0
InRange (donate percentage address script) = (1 ≤ percentage) × (percentage < 100)
InRange _ = Unit

abbrev pub total_of : List TxOut → ℕ
total_of outputs = sum (map (λ output. output.value) outputs)

sum_u64-eq-sum : (xs : List ℕ) → sum xs < 2 ^ 64 → sum_u64 xs ≡ sum xs
unfolding sum_u64
sum_u64-eq-sum [] h = refl
sum_u64-eq-sum (x ∷ xs) h = omega (arith, sum_u64-eq-sum xs)

total_of-keep :
    (p : TxOut → Bool) (outputs : List TxOut) → total_of (keep p outputs) ≤ total_of outputs
total_of-keep p [] = omega arith
total_of-keep p (o ∷ outputs) = ground (arith, total_of-keep p outputs)

pub percentage_bound : (s p : ℕ) → p < 100 → s * p ≤ s * 100
percentage_bound s p h = grind arith

pub percentage_exact : (s p : ℕ) → p < 100 → s * 100 < 2 ^ 64 → u64 (s * p) ≡ s * p
percentage_exact s p h b = omega (arith, percentage_bound s p h)

module _ (lib : BitcoinLib) where
  -- What the outputs that are no OP_RETURN pay, and what they pay to a script.
  abbrev pub spendable_value : List TxOut → ℕ
  spendable_value outputs =
      total_of (keep (λ output. not (lib.is_op_return output.script_pubkey)) outputs)

  abbrev pub value_to : Script → List TxOut → ℕ
  value_to script outputs = total_of (
      keep (λ output. list_eq output.script_pubkey script)
        (keep (λ output. not (lib.is_op_return output.script_pubkey)) outputs))

  -- The contract of the verification, over exact sums.
  abbrev pub Accepts : PayoutMode → List TxOut → Type 0
  Accepts (solo address script) outputs =
      (0 < spendable_value outputs)
      × (value_to script.script_pubkey outputs ≡ spendable_value outputs)
  Accepts (legacy_solo address script) outputs =
      (0 < spendable_value outputs)
      × (90 * spendable_value outputs ≤ 100 * value_to script.script_pubkey outputs)
  Accepts (donate percentage address script) outputs =
      (0 < spendable_value outputs)
      × (value_to script.script_pubkey outputs
          ≡ spendable_value outputs - spendable_value outputs * percentage / 100)
  Accepts full_donation outputs = Unit

  module _ (outputs : List TxOut) (small : total_of outputs * 100 < 2 ^ 64) where
    spendable_exact :
        (total_spendable_sats lib outputs ≡ spendable_value outputs)
        × (spendable_value outputs * 100 < 2 ^ 64)
    unfolding total_spendable_sats
    spendable_exact =
        let below = total_of-keep (λ output. not (lib.is_op_return output.script_pubkey)) outputs in
        (omega (arith, sum_u64-eq-sum _), omega arith)

    value_to_exact :
        (script : Script) → actual_miner_sats lib script outputs ≡ value_to script outputs
    unfolding actual_miner_sats
    value_to_exact script =
        let below = total_of-keep (λ output. not (lib.is_op_return output.script_pubkey)) outputs in
        let below' =
          total_of-keep (λ output. list_eq output.script_pubkey script)
            (keep (λ output. not (lib.is_op_return output.script_pubkey)) outputs) in
        sum_u64-eq-sum _ (omega arith)

    -- For outputs whose values times 100 fit 64 bits, and a mode that the parser can produce, the
    -- verification succeeds exactly when the outputs meet the contract of the mode: some
    -- spendable value, all of it to the miner (solo), at least 90 percent (legacy solo), or
    -- exactly what the pool's percentage leaves (donation). A full donation is always accepted.
    pub validate_coinbase_outputs_iff :
        (mode : PayoutMode)
        → InRange mode
        → (validate_coinbase_outputs lib mode outputs ≡ ok tt) ↔ Accepts mode outputs
    unfolding validate_coinbase_outputs expected_miner_sats expected_legacy_solo_miner_sats
    validate_coinbase_outputs_iff (solo address script) h =
        ground (arith, spendable_exact, value_to_exact script.script_pubkey)
    validate_coinbase_outputs_iff (legacy_solo address script) h =
        ground (arith, spendable_exact, value_to_exact script.script_pubkey)
    validate_coinbase_outputs_iff (donate percentage address script) h = ground (
      arith,
      spendable_exact,
      value_to_exact script.script_pubkey,
      percentage_exact (spendable_value outputs) percentage,
    )
    validate_coinbase_outputs_iff full_donation h = (λ _. tt, λ _. refl)
