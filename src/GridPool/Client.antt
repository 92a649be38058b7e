-- ===== src/GridPool/Client.antt =====
-- pool-apps/pool/src/lib/gridpool.rs: the fee window, the outputs of a coinbase, and the test for a
-- fee job. The clock is an argument. The locks are held for one read each; the work that the
-- client reads is part of its state.
use gridpool_sv2_pool.Prelude.{
  ℕ, ◌+◌, ◌-◌, ◌%◌, ◌^◌, min, max, Bool, true, false, not, ◌||◌, Option, none, some, List, [], ◌∷◌,
  ltb, Text, Result, ok, err, map_err, ◌>>=◌, list_eq, if◌then◌else◌,
}
use gridpool_sv2_pool.Map.{Map}
use gridpool_sv2_pool.Payout.Script.{Script}
use gridpool_sv2_pool.Payout.Mode.{TxOut, u64}
use gridpool_sv2_pool.GridPool.Network.{Network, parse_network}

pub record GridPoolOutput : Type 0 where
  pub value : ℕ
  pub script_pub_key_hex : Text

-- `WorkSelection`; the difficulty that it names comes with the number type of `Libs`.
pub record WorkSelection (F64 : Type 0) : Type 0 where
  pub bitcoin_network : Text
  pub active_snapshot_id : Text
  pub current_tip_block_hash : Option Text
  pub minimum_difficulty_to_enter_reserve : F64
  pub coinbase_outputs : List GridPoolOutput

pub record ChannelPayout : Type 0 where
  pub payout_address : Text
  pub username : Text

-- `ShareAdvice`
pub record ShareAdvice (F64 : Type 0) : Type 0 where
  pub pulse_proofs_enabled : Bool
  pub minimum_pulse_difficulty : F64
  pub pulse_target_interval_seconds : ℕ

pub record TelemetryDelta (F64 : Type 0) : Type 0 where
  pub channel_id : ℕ
  pub payout_address : Text
  pub username : Text
  pub accepted : Bool
  pub work_difficulty : F64
  pub achieved_difficulty : F64
  pub fee_work : Bool

pub record TelemetryAggregate (F64 : Type 0) : Type 0 where
  pub channel_id : ℕ
  pub payout_address : Text
  pub username : Text
  pub window_start_ms : ℕ
  pub window_end_ms : ℕ
  pub accepted_share_count : ℕ
  pub rejected_share_count : ℕ
  pub accepted_work_difficulty : F64
  pub fee_work_difficulty : F64
  pub best_difficulty : F64

pub data PayoutError : Type 0 where
  suffix_overflow suffix_exceeds : PayoutError
  invalid_address invalid_script : Text → PayoutError

-- The crates `bitcoin`, `hex` and `sha2`, and the machine's `f64`.
pub record Libs : Type 1 where
  -- `Address::from_str`, `require_network` and `script_pubkey`; and `hex::decode`
  pub address_script : (value : Text) → Network → Result Text Script
  pub hex_decode : Text → Result Text Script
  -- the first eight bytes of the SHA-256 digest of two texts, as a big-endian word
  pub digest : Text → Text → ℕ
  -- a percentage, whether it is not `<= 0.0`, and `(cycle as f64 * percent / 100.0).round() as u64`
  pub F64 : Type 0
  pub is_positive : F64 → Bool
  pub rounded_part : (cycle : ℕ) → F64 → ℕ
  -- `0.0`, `+`, `max`, `>=` and `<`, and whether a percentage is in `0.0..=100.0`
  pub f64_zero : F64
  pub f64_add : F64 → F64 → F64
  pub f64_max : F64 → F64 → F64
  pub at_least : F64 → F64 → Bool
  pub less_than : F64 → F64 → Bool
  pub in_percent : F64 → Bool

module _ (lib : Libs) where
  open lib use {address_script, hex_decode, digest, F64, is_positive, rounded_part}

  unfoldable pub parse_address : (value network : Text) → Result Text Script
  unfolding parse_network
  parse_address value network = do known ← parse_network network; address_script value known

  -- The fields of `GridPoolConfig` that are not paths or the node's address.
  pub record GridPoolConfig : Type 0 where
    pub fallback_payout_address : Text
    pub operator_fee_address : Option Text
    pub operator_fee_percent : F64
    pub refresh_seconds : ℕ
    pub telemetry_flush_seconds : ℕ
    pub fee_cycle_seconds : ℕ

  -- `GridPoolClient`; `last_pulse` is keyed by channels, `telemetry` by texts.
  pub record GridPoolClient : Type 0 where
    pub config : GridPoolConfig
    pub token : Text
    pub work : WorkSelection F64
    pub last_template_tip : Option Text
    pub telemetry : List (Text × TelemetryAggregate F64)
    pub advice : ShareAdvice F64
    pub last_pulse : Map ℕ

  abbrev is_none : Option Text → Bool
  is_none none = true
  is_none (some _) = false

  abbrev pub cycle_of : GridPoolClient → ℕ
  cycle_of c = max c.config.fee_cycle_seconds 1

  -- `clamp(1, cycle)`
  unfoldable pub fee_duration : GridPoolClient → ℕ
  fee_duration c =
      let cycle = cycle_of c in min (max (rounded_part cycle c.config.operator_fee_percent) 1) cycle

  unfoldable pub fee_offset : GridPoolClient → (payout_address : Text) → ℕ
  fee_offset c payout_address = digest c.token payout_address % cycle_of c

  -- The sum and the difference wrap at 64 bits.
  unfoldable pub fee_active : GridPoolClient → (payout_address : Text) → (unix_seconds : ℕ) → Bool
  fee_active c payout_address unix_seconds =
      let cycle = cycle_of c in
      let offset = fee_offset c payout_address in
      if not (is_positive c.config.operator_fee_percent) || is_none c.config.operator_fee_address
      then false
      else ltb (u64 (unix_seconds + cycle + (2 ^ 64 - offset)) % cycle) (fee_duration c)

  -- `checked_add` over the values, from a sum on.
  unfoldable pub checked_sum : (sum : ℕ) → List GridPoolOutput → Option ℕ
  checked_sum sum [] = some sum
  checked_sum sum (output ∷ outputs) =
      let rest = checked_sum (sum + output.value) outputs in
      if ltb (sum + output.value) (2 ^ 64) then rest else none

  abbrev or_address : Option Text → Text → Text
  or_address none address = address
  or_address (some operator) address = operator

  unfoldable pub slot_zero_address : GridPoolClient → ChannelPayout → (now : ℕ) → Text
  slot_zero_address c payout now =
      if fee_active c payout.payout_address now
      then or_address c.config.operator_fee_address payout.payout_address
      else payout.payout_address

  unfoldable pub suffix_outputs : List GridPoolOutput → Result PayoutError (List TxOut)
  suffix_outputs [] = ok []
  suffix_outputs (output ∷ outputs) =
      let rest = suffix_outputs outputs in
      do
        script ← map_err invalid_script (hex_decode output.script_pub_key_hex)
        more ← rest
        ok (record { value = output.value; script_pubkey = script } ∷ more)

  unfoldable pub coinbase_outputs :
      GridPoolClient → ChannelPayout → (total_value now : ℕ) → Result PayoutError (List TxOut)
  coinbase_outputs c payout total_value now = elim (checked_sum 0 c.work.coinbase_outputs) [
    | none ↦ err suffix_overflow
    | some suffix_value ↦ if ltb total_value suffix_value then err suffix_exceeds else (do
      script ←
          map_err invalid_address
            (parse_address (slot_zero_address c payout now) c.work.bitcoin_network)
      suffix ← suffix_outputs c.work.coinbase_outputs
      ok (record { value = total_value - suffix_value; script_pubkey = script } ∷ suffix))
  ]

  abbrev pays : Result Text Script → Script → Bool
  pays (ok script) first = list_eq first script
  pays (err _) first = false

  unfoldable pub is_fee_job : GridPoolClient → List TxOut → ChannelPayout → Bool
  is_fee_job c outputs payout = elim c.config.operator_fee_address [
    | none ↦ false
    | some operator ↦ if list_eq operator payout.payout_address then false else elim outputs [
      | [] ↦ false
      | first ∷ _ ↦ pays (parse_address operator c.work.bitcoin_network) first.script_pubkey
    ]
  ]
