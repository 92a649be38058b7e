-- ===== src/Jds/Engine/Coinbase.antt =====
-- `DeclaredCustomJob::get_coinbase_tx` of job_validation/bitcoin_core_ipc.rs.
pub mod Panics
use gridpool_sv2_pool.Prelude.{
  ℕ, ◌+◌, ◌-◌, ◌^◌, Bool, Option, none, some, List, [], ◌∷◌, ◌++◌, ltb, leb, ◌||◌, drop, length,
  replicate, if◌then◌else◌, Outcome, returns, panics,
}
use gridpool_sv2_pool.Jds.Bitcoin.{Bitcoin}

abbrev pub coinbase_prefix_len : ℕ
coinbase_prefix_len = 43

-- A difference of `usize` below 0 wraps to more than `isize::MAX` bytes, or panics where overflow
-- is checked; `vec!` panics for more than `isize::MAX` bytes.
abbrev pub too_large : (size in_prefix : ℕ) → Bool
too_large size in_prefix = ltb size in_prefix || leb (2 ^ 63) (size - in_prefix)

module _ (b : Bitcoin) where
  open b use {Transaction, decode_transaction, decode_var_int, var_int_size}

  -- `returns none` is `Err(())`. A prefix that ends inside the size of the script, by `VarInt::size`,
  -- panics where overflow is checked. The crate leaves none: it decodes a size from as many bytes,
  -- and refuses longer forms.
  unfoldable pub get_coinbase_tx : (prefix suffix : List ℕ) → Outcome (Option Transaction)
  get_coinbase_tx prefix suffix =
      if ltb (length prefix) coinbase_prefix_len
      then panics
      else elim (decode_var_int (drop coinbase_prefix_len prefix)) [
        | none ↦ returns none
        | some script_sig_size ↦
            let script_sig_offset = coinbase_prefix_len + var_int_size script_sig_size in
            let in_prefix = length prefix - script_sig_offset in
            let full_extranonce_size = script_sig_size - in_prefix in
            if ltb (length prefix) script_sig_offset || too_large script_sig_size in_prefix
            then panics
            else returns
                (decode_transaction (prefix ++ (replicate full_extranonce_size 0 ++ suffix)))
      ]
