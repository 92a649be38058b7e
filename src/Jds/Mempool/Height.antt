-- ===== src/Jds/Mempool/Height.antt =====
-- The height that a coinbase declares in its script.
use gridpool_sv2_pool.Prelude.{
  ℕ, ◌^◌, ◌≤◌, ◌<◌, ◌≡◌, refl, subst, some, List, [], ◌∷◌, ◌++◌, arith, length, take, length-append,
  to_le_bytes, length-to_le_bytes, from_le_bytes-to_le_bytes,
}
use gridpool_sv2_pool.Jds.Mempool.{decode_bip34_height_from_coinbase_script_sig}

take-append : (xs ys : List ℕ) → take (length xs) (xs ++ ys) ≡ xs
take-append [] ys = refl
take-append (x ∷ xs) ys = rw (take-append xs ys)

-- A height that is pushed as one to four little-endian bytes is read back, whatever follows it in
-- the script.
pub decode-push :
    (size height : ℕ) (rest : List ℕ)
    → 1 ≤ size
    → size ≤ 4
    → height < 256 ^ size
    → decode_bip34_height_from_coinbase_script_sig (size ∷ to_le_bytes size height ++ rest)
      ≡ some height
unfolding decode_bip34_height_from_coinbase_script_sig
decode-push size height rest lo hi h = ground (
  arith,
  length-append (to_le_bytes size height) rest,
  length-to_le_bytes size height,
  taken,
  from_le_bytes-to_le_bytes size height h,
)
  where
    taken : take size (to_le_bytes size height ++ rest) ≡ to_le_bytes size height
    taken =
        subst (λ n. take n (to_le_bytes size height ++ rest) ≡ to_le_bytes size height)
          (length-to_le_bytes size height) (take-append (to_le_bytes size height) rest)
