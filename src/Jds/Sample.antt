-- ===== src/Jds/Sample.antt =====
-- A small stand-in for the crate `bitcoin`, on which the tests run: a transaction is a number and
-- the bytes of its one input's script.
use gridpool_sv2_pool.Prelude.{ℕ, ◌+◌, ◌*◌, Option, none, some, List, [], ◌∷◌, length}
use gridpool_sv2_pool.Jds.Bitcoin.{Bitcoin, Block}

abbrev pub Tx : Type 0
Tx = ℕ × List ℕ

abbrev decode : List ℕ → Option Tx
decode [] = none
decode (x ∷ xs) = some (length (x ∷ xs), x ∷ xs)

abbrev first : List ℕ → Option ℕ
first [] = none
first (x ∷ xs) = some x

abbrev pub sample : Bitcoin
sample = record {
  Transaction = Tx;
  version = λ tx. 2;
  lock_time = λ tx. 0;
  input = λ tx. record { script_sig = tx.1; sequence = 0 } ∷ [];
  serialized_outputs = λ tx. tx.0 ∷ [];
  compute_txid = λ tx. tx.0;
  compute_wtxid = λ tx. tx.0 + 1000;
  decode_transaction = decode;
  decode_var_int = first;
  var_int_size = λ n. 1;
  hash_nodes = λ x y. 2 * x + 3 * y + 1;
}

-- A template at height 5 with two more transactions.
abbrev pub template : Block sample
template = record {
  prev_blockhash = 77;
  bits = 9;
  time = 1_000;
  txdata = (1, 0x55 ∷ []) ∷ (10, []) ∷ (11, []) ∷ [];
}
