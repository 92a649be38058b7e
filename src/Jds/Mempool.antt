-- ===== src/Jds/Mempool.antt =====
-- bitcoin-core-sv2/src/unix_capnp/v31x/job_declaration_protocol/mempool.rs: the mirror of Bitcoin
-- Core's mempool. (The file of v30x differs in a comment only.)
pub mod Contents
pub mod Height
pub mod Tests
use gridpool_sv2_pool.Prelude.{
  ℕ, suc, ◌+◌, ◌-◌, Bool, true, false, ◌&&◌, ◌||◌, Option, none, some, List, [], ◌∷◌, ◌==◌, leb,
  ltb, length, take, from_le_bytes, keep, if◌then◌else◌,
}
use gridpool_sv2_pool.Map
use gridpool_sv2_pool.Map.{Map}
use gridpool_sv2_pool.Jds.Bitcoin.{Bitcoin, Block, TxIn}

pub record MempoolMirror (b : Bitcoin) : Type 0 where
  pub txdata : Map b.Transaction
  pub current_prev_hash : Option ℕ
  pub current_nbits : Option ℕ
  pub current_min_ntime : Option ℕ
  pub current_bip34_height : Option ℕ

-- The first push of a coinbase's script: an opcode for a small number, or up to four bytes.
unfoldable pub decode_bip34_height_from_coinbase_script_sig : List ℕ → Option ℕ
decode_bip34_height_from_coinbase_script_sig [] = none
decode_bip34_height_from_coinbase_script_sig (first ∷ rest) =
    if first == 0x00
    then some 0
    else if leb 0x51 first && leb first 0x60
    then some (first - 0x50)
    else if (first == 0 || ltb 4 first) || ltb (length rest) first
    then none
    else some (from_le_bytes (take first rest))

abbrev pub or_else {ℓ} : {A : Type ℓ} → Option A → A → A
or_else none a = a
or_else (some x) a = x

module _ (b : Bitcoin) where
  open b use {Transaction, input, lock_time, compute_wtxid}

  abbrev first_height : List TxIn → Option ℕ
  first_height [] = none
  first_height (txin ∷ _) = decode_bip34_height_from_coinbase_script_sig txin.script_sig

  -- The height that a coinbase declares, or its lock time.
  unfoldable pub bip34_height : Transaction → ℕ
  bip34_height coinbase = or_else (first_height (input coinbase)) (lock_time coinbase)

  unfoldable pub new : MempoolMirror b
  new = record {
    txdata = Map.empty;
    current_prev_hash = none;
    current_nbits = none;
    current_min_ntime = none;
    current_bip34_height = none;
  }

  unfoldable pub insert_all : List Transaction → Map Transaction → Map Transaction
  insert_all [] m = m
  insert_all (tx ∷ txs) m = insert_all txs (Map.insert (compute_wtxid tx) tx m)

  abbrev pub differs : Option ℕ → ℕ → Bool
  differs none h = true
  differs (some k) h = if k == h then false else true

  abbrev coinbase_height : List Transaction → Option ℕ
  coinbase_height [] = none
  coinbase_height (coinbase ∷ _) = some (bip34_height coinbase)

  abbrev pub without_coinbase : List Transaction → List Transaction
  without_coinbase [] = []
  without_coinbase (_ ∷ txs) = txs

  unfoldable pub update : MempoolMirror b → Block b → MempoolMirror b
  update m block =
      let kept = if differs m.current_prev_hash block.prev_blockhash then Map.empty else m.txdata in
      record {
        txdata = insert_all (without_coinbase block.txdata) kept;
        current_prev_hash = some block.prev_blockhash;
        current_nbits = some block.bits;
        current_min_ntime = some block.time;
        current_bip34_height = coinbase_height block.txdata;
      }

  unfoldable pub add_transactions : MempoolMirror b → List Transaction → MempoolMirror b
  add_transactions m transactions = record m { txdata = insert_all transactions m.txdata }

  abbrev pub cons_some : Option Transaction → List Transaction → List Transaction
  cons_some none txs = txs
  cons_some (some tx) txs = tx ∷ txs

  -- The lookups of a list of wtxids, in order, without those that fail.
  unfoldable pub get_all : Map Transaction → List ℕ → List Transaction
  get_all m [] = []
  get_all m (wtxid ∷ wtxids) = cons_some (Map.get wtxid m) (get_all m wtxids)

  unfoldable pub get_txdata : MempoolMirror b → List ℕ → List Transaction
  get_txdata m wtxids = get_all m.txdata wtxids

  abbrev pub is_missing : Option Transaction → Bool
  is_missing none = true
  is_missing (some tx) = false

  unfoldable pub verify : MempoolMirror b → List ℕ → List ℕ
  verify m wtxids = keep (λ wtxid. is_missing (Map.get wtxid m.txdata)) wtxids
