-- ===== src/Payout/Mode.antt =====
-- `PayoutMode` and its distribution of a reward.
use gridpool_sv2_pool.Prelude.{
  ℕ, ◌+◌, ◌-◌, ◌*◌, ◌/◌, ◌%◌, ◌^◌, Bool, true, false, Option, none, some, List, [], ◌∷◌, Text,
  Result, ok, err, ◌>>=◌, map_err, ◌==◌, ltb, not, list_eq, keep, drop, length, if◌then◌else◌, map,
}
use gridpool_sv2_pool.Payout.Script.{Script, CoinbaseRewardScript}

-- `bitcoin::TxOut`
pub record TxOut : Type 0 where
  pub value : ℕ
  pub script_pubkey : Script

abbrev pub min_legacy_solo_payout_percentage : ℕ
min_legacy_solo_payout_percentage = 90

pub data PayoutMode : Type 0 where
  solo : (address : Text) (script : CoinbaseRewardScript) → PayoutMode
  legacy_solo : (address : Text) (script : CoinbaseRewardScript) → PayoutMode
  donate : (percentage : ℕ) (address : Text) (script : CoinbaseRewardScript) → PayoutMode
  full_donation : PayoutMode

pub data PayoutValidationError : Type 0 where
  no_spendable_outputs : PayoutValidationError
  payout_mismatch :
      (address : Text) (expected_sats expected_percentage total_spendable_sats actual_sats : ℕ)
      → PayoutValidationError
  coinbase_tx_suffix_too_short : PayoutValidationError
  decode_coinbase_outputs : Text → PayoutValidationError

abbrev pub u64 : ℕ → ℕ
u64 n = n % 2 ^ 64

-- `Iterator::sum` over `u64`.
unfoldable pub sum_u64 : List ℕ → ℕ
sum_u64 [] = 0
sum_u64 (x ∷ xs) = u64 (x + sum_u64 xs)

unfoldable pub coinbase_outputs : PayoutMode → ℕ → CoinbaseRewardScript → List TxOut
coinbase_outputs (solo address script) total_value pool_script =
    record { value = total_value; script_pubkey = script.script_pubkey } ∷ []
coinbase_outputs (legacy_solo address script) total_value pool_script =
    record { value = total_value; script_pubkey = script.script_pubkey } ∷ []
coinbase_outputs (donate percentage address script) total_value pool_script =
    let pool_value = u64 (total_value * percentage) / 100 in
    let miner_value = total_value - pool_value in
    record { value = pool_value; script_pubkey = pool_script.script_pubkey }
    ∷ record { value = miner_value; script_pubkey = script.script_pubkey }
    ∷ []
coinbase_outputs full_donation total_value pool_script =
    record { value = total_value; script_pubkey = pool_script.script_pubkey } ∷ []

unfoldable pub miner_address : PayoutMode → Option Text
miner_address (solo address script) = some address
miner_address (legacy_solo address script) = some address
miner_address (donate percentage address script) = some address
miner_address full_donation = none

unfoldable pub miner_script_pubkey : PayoutMode → Option Script
miner_script_pubkey (solo address script) = some script.script_pubkey
miner_script_pubkey (legacy_solo address script) = some script.script_pubkey
miner_script_pubkey (donate percentage address script) = some script.script_pubkey
miner_script_pubkey full_donation = none

unfoldable pub expected_miner_percentage : PayoutMode → ℕ
expected_miner_percentage (solo address script) = 100
expected_miner_percentage (legacy_solo address script) = 100
expected_miner_percentage (donate percentage address script) = 100 - percentage
expected_miner_percentage full_donation = 0

unfoldable pub expected_miner_sats : PayoutMode → ℕ → ℕ
expected_miner_sats (solo address script) total_spendable_sats = total_spendable_sats
expected_miner_sats (legacy_solo address script) total_spendable_sats = total_spendable_sats
expected_miner_sats (donate percentage address script) total_spendable_sats =
    let pool_sats = u64 (total_spendable_sats * percentage) / 100 in
    total_spendable_sats - pool_sats
expected_miner_sats full_donation total_spendable_sats = 0

-- `div_ceil(100)` is exact.
unfoldable pub expected_legacy_solo_miner_sats : ℕ → ℕ
expected_legacy_solo_miner_sats total_spendable_sats =
    (u64 (total_spendable_sats * min_legacy_solo_payout_percentage) + 99) / 100

abbrev pub is_legacy_solo : PayoutMode → Bool
is_legacy_solo (legacy_solo address script) = true
is_legacy_solo _ = false

-- `bitcoin::Script::is_op_return`, and `Vec::<TxOut>::consensus_decode` from a slice, which may
-- leave bytes behind.
pub record BitcoinLib : Type 0 where
  pub is_op_return : Script → Bool
  pub decode_outputs : List ℕ → Result Text (List TxOut)

module _ (lib : BitcoinLib) where
  abbrev spendable : List TxOut → List TxOut
  spendable = keep (λ output. not (lib.is_op_return output.script_pubkey))

  unfoldable pub total_spendable_sats : List TxOut → ℕ
  unfolding sum_u64
  total_spendable_sats outputs = sum_u64 (map (λ output. output.value) (spendable outputs))

  unfoldable pub actual_miner_sats : Script → List TxOut → ℕ
  unfolding sum_u64
  actual_miner_sats script outputs = sum_u64 (
      map (λ output. output.value)
        (keep (λ output. list_eq output.script_pubkey script) (spendable outputs)))

  -- The body behind the `let … else` on the miner's script; `expect` finds an address there.
  unfoldable pub validate_for :
      PayoutMode → (address : Text) → Script → List TxOut → Result PayoutValidationError (Unit {0})
  validate_for mode address script outputs =
      let total = total_spendable_sats outputs in
      let actual = actual_miner_sats script outputs in
      let expected_legacy = expected_legacy_solo_miner_sats total in
      let expected = expected_miner_sats mode total in
      if total == 0
      then err no_spendable_outputs
      else if is_legacy_solo mode
      then (if ltb actual expected_legacy
          then err (
              payout_mismatch address expected_legacy min_legacy_solo_payout_percentage total
                actual)
          else ok tt)
      else if actual == expected
      then ok tt
      else err (payout_mismatch address expected (expected_miner_percentage mode) total actual)

  unfoldable pub validate_coinbase_outputs :
      PayoutMode → List TxOut → Result PayoutValidationError (Unit {0})
  unfolding validate_for
  validate_coinbase_outputs (solo address script) outputs =
      validate_for (solo address script) address script.script_pubkey outputs
  validate_coinbase_outputs (legacy_solo address script) outputs =
      validate_for (legacy_solo address script) address script.script_pubkey outputs
  validate_coinbase_outputs (donate percentage address script) outputs =
      validate_for (donate percentage address script) address script.script_pubkey outputs
  validate_coinbase_outputs full_donation outputs = ok tt

  unfoldable pub validate_coinbase_tx_suffix :
      PayoutMode → List ℕ → Result PayoutValidationError (Unit {0})
  validate_coinbase_tx_suffix mode coinbase_tx_suffix =
      if ltb (length coinbase_tx_suffix) 4 then err coinbase_tx_suffix_too_short else (do
        outputs ← map_err decode_coinbase_outputs (lib.decode_outputs (drop 4 coinbase_tx_suffix))
        validate_coinbase_outputs mode outputs)
