-- ===== src/Jds/Bitcoin.antt =====
-- The crate `bitcoin`, as far as the job declaration code calls it. A hash is the number that its
-- 32 bytes write, and a transaction is seen through the operations that the code calls on it.
use gridpool_sv2_pool.Prelude.{ℕ, Option, List}

-- `TxIn`: the bytes of the script, and the sequence number.
pub record TxIn : Type 0 where
  pub script_sig : List ℕ
  pub sequence : ℕ

pub record Bitcoin : Type 1 where
  pub Transaction : Type 0
  -- the version's 32 bits, and `lock_time.to_consensus_u32()`
  pub version : Transaction → ℕ
  pub lock_time : Transaction → ℕ
  pub input : Transaction → List TxIn
  -- `consensus::serialize(&tx.output)`
  pub serialized_outputs : Transaction → List ℕ
  pub compute_txid : Transaction → ℕ
  pub compute_wtxid : Transaction → ℕ
  -- `consensus_decode` of a transaction and of a `VarInt` from a slice, whose errors the code
  -- only logs; and `VarInt::size`
  pub decode_transaction : List ℕ → Option Transaction
  pub decode_var_int : List ℕ → Option ℕ
  pub var_int_size : ℕ → ℕ
  -- `TxMerkleNode`: the hash of two nodes that are written one behind the other
  pub hash_nodes : (left right : ℕ) → ℕ

-- `Block`: the header's fields that the code reads, and the transactions.
pub record Block (b : Bitcoin) : Type 0 where
  pub prev_blockhash : ℕ
  pub bits : ℕ
  pub time : ℕ
  pub txdata : List b.Transaction
