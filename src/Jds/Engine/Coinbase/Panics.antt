-- ===== src/Jds/Engine/Coinbase/Panics.antt =====
-- When a declared coinbase prefix makes the reconstruction of the coinbase panic.
use gridpool_sv2_pool.Prelude.{
  ℕ, ◌+◌, ◌-◌, ◌^◌, ◌≤◌, ◌<◌, ◌≡◌, ◌↔◌, ◌⊎◌, inl, inr, some, List, drop, length, arith, panics,
  Option-cases, Bool-cases, ltb,
}
use gridpool_sv2_pool.Jds.Bitcoin.{Bitcoin}
use gridpool_sv2_pool.Jds.Engine.Coinbase.{get_coinbase_tx}

module _ (b : Bitcoin) where
  open b use {decode_var_int, var_int_size}

  -- The bytes of the script that the prefix holds, behind the script's declared size.
  abbrev pub script_bytes : List ℕ → ℕ → ℕ
  script_bytes prefix size = length prefix - (43 + var_int_size size)

  -- The prefix ends before the script's size, or holds more of the script than that size, or the
  -- size leaves room for more than `isize::MAX` bytes of extranonce.
  abbrev pub IsMalformed : List ℕ → Type 0
  IsMalformed prefix =
      (length prefix < 43)
      ⊎ ((size : ℕ) × (decode_var_int (drop 43 prefix) ≡ some size)
          × ((length prefix < 43 + var_int_size size)
              ⊎ (size < script_bytes prefix size)
              ⊎ (2 ^ 63 ≤ size - script_bytes prefix size)))

  -- The reconstruction of a declared coinbase panics exactly for a malformed prefix, which nothing
  -- checks before; the suffix plays no part.
  pub get_coinbase_tx_panics_iff :
      (prefix suffix : List ℕ) → (get_coinbase_tx b prefix suffix ≡ panics) ↔ IsMalformed prefix
  unfolding get_coinbase_tx
  get_coinbase_tx_panics_iff prefix suffix = elim (Option-cases (decode_var_int (drop 43 prefix))) [
    | inl e ↦ (
      λ h. inl (ground arith),
      λ m. elim m [ inl short ↦ ground arith | inr (n, e', bad) ↦ ground arith ],
    )
    | inr (size, e) ↦ (
      λ h. elim (Bool-cases (ltb (length prefix) 43)) [
        | inl short ↦ inl (ground arith)
        | inr long ↦ inr (size, e, ground arith)
      ],
      λ m. elim m [ inl short ↦ ground arith | inr (n, e', bad) ↦ ground arith ],
    )
  ]
