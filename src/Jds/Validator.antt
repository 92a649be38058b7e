-- ===== src/Jds/Validator.antt =====
-- bitcoin-core-sv2/src/unix_capnp/v31x/job_declaration_protocol/{handlers,mod}.rs and
-- src/common/job_declaration_protocol/io.rs: the validation of a declared job against the mempool
-- mirror and Bitcoin Core's `checkBlock`. What Bitcoin Core answers, and the templates that the
-- monitor task stores while the handler awaits an answer, are arguments.
pub mod Progress
pub mod Verdict
pub mod Tests
use gridpool_sv2_pool.Prelude.{
  ℕ, zero, suc, Bool, true, false, ◌||◌, Option, none, some, List, [], ◌∷◌, map, ◌==◌,
  if◌then◌else◌, Outcome, returns, panics, and_then, expect,
}
use gridpool_sv2_pool.Jds.Bitcoin.{Bitcoin, Block, TxIn}
use gridpool_sv2_pool.Jds.Mempool.{
  MempoolMirror, bip34_height, update, add_transactions, get_txdata, verify,
}

pub record ValidationContext : Type 0 where
  pub prev_hash : ℕ
  pub nbits : ℕ
  pub min_ntime : ℕ

-- The codes of `DeclareMiningJobError`.
pub data DeclareErrorCode : Type 0 where
  invalid_mining_job_token missing_txs internal_error invalid_coinbase_tx : DeclareErrorCode
  invalid_coinbase_tx_input stale_chain_tip invalid_job : DeclareErrorCode

pub data JdResponse : Type 0 where
  success : (prev_hash nbits min_ntime : ℕ) (txid_list : List ℕ) → JdResponse
  error : (error_code : DeclareErrorCode) (validation_context : ValidationContext) → JdResponse
  missing_transactions :
      (missing_wtxids : List ℕ) (validation_context : ValidationContext) → JdResponse

-- What a `checkBlock` request comes to: an error of the connection, which ends it, or the result.
pub data CheckBlock : Type 0 where
  connection_fails : CheckBlock
  result_is : Bool → CheckBlock

-- What one attempt to refresh the template comes to.
pub data Attempt (b : Bitcoin) : Type 0 where
  refreshes : Block b → Attempt b
  thread_busy : Attempt b
  fails : Attempt b

abbrev pub not_equal : ℕ → ℕ → Bool
not_equal x y = if x == y then false else true

-- The comparison of two contexts, field by field.
abbrev pub contexts_differ : ValidationContext → ValidationContext → Bool
contexts_differ x y =
    not_equal x.prev_hash y.prev_hash
    || (not_equal x.nbits y.nbits || not_equal x.min_ntime y.min_ntime)

abbrev pub max_attempts : ℕ
max_attempts = 3

-- The code of a rejection, from the context and height before `checkBlock`, the declared height,
-- and the context and height after the refresh.
unfoldable pub classify :
    ValidationContext × ℕ → (declared_height : ℕ) → ValidationContext × ℕ → DeclareErrorCode
classify (initial, initial_height) declared_height (latest, latest_height) =
    if contexts_differ initial latest
      || (not_equal initial_height latest_height || not_equal declared_height latest_height)
    then stale_chain_tip
    else invalid_job

module _ (b : Bitcoin) where
  open b use {Transaction, compute_txid, input}

  -- `JdRequest::DeclareMiningJob`; `checkBlock` is asked about the version too.
  pub record Declared : Type 0 where
    pub version : ℕ
    pub coinbase_tx : Transaction
    pub wtxid_list : List ℕ
    pub missing_txs : List Transaction

  -- The outside world during one validation.
  pub record World : Type 0 where
    -- templates that the monitor stores while `checkBlock` is awaited, and its answer
    pub during_check : List (Block b)
    pub check_block : (version : ℕ) → Block b → CheckBlock
    -- templates that the monitor stores while the refresh is awaited, and the attempts' ends
    pub during_refresh : List (Block b)
    pub attempt : ℕ → Attempt b
    -- whether messages of the level debug are logged, and so their arguments computed
    pub debug_enabled : Bool

  pub record Jdp : Type 0 where
    pub mempool_mirror : MempoolMirror b
    pub cancelled : Bool

  unfoldable pub monitor : MempoolMirror b → List (Block b) → MempoolMirror b
  monitor m [] = m
  monitor m (block ∷ blocks) = monitor (update b m block) blocks

  -- The attempts that are left, and the number of the next: busy threads are retried, but for the
  -- last attempt. A failed refresh leaves the mirror as it was.
  unfoldable pub refresh : ℕ → ℕ → (ℕ → Attempt b) → MempoolMirror b → MempoolMirror b
  refresh zero number attempt m = m
  refresh (suc left) number attempt m =
      let again = refresh left (suc number) attempt m in
      elim (attempt number) [ refreshes block ↦ update b m block | thread_busy ↦ again | fails ↦ m ]

  unfoldable pub force_update_mempool_mirror : (ℕ → Attempt b) → MempoolMirror b → MempoolMirror b
  unfolding refresh
  force_update_mempool_mirror attempt m = refresh max_attempts 1 attempt m

  -- The fields of the mirror, which a first template sets, and the height.
  unfoldable pub current_context : MempoolMirror b → Outcome (ValidationContext × ℕ)
  current_context m = and_then (expect m.current_prev_hash) λ prev_hash.
      and_then (expect m.current_nbits) λ nbits. and_then (expect m.current_min_ntime) λ min_ntime.
        and_then (expect m.current_bip34_height) λ height.
          returns (record { prev_hash = prev_hash; nbits = nbits; min_ntime = min_ntime }, height)

  -- `checkBlock` rejected the job.
  unfoldable pub reject :
      ValidationContext × ℕ
      → (declared_height : ℕ) → World
      → MempoolMirror b
      → Outcome (MempoolMirror b × JdResponse)
  unfolding classify
  reject initial declared_height w m =
      let m' = force_update_mempool_mirror w.attempt (monitor m w.during_refresh) in
      and_then (current_context m')
        λ latest. returns (m', error (classify initial declared_height latest) latest.0)

  -- The block that `checkBlock` is asked about; its merkle root, which is not checked, is left out,
  -- and the version is passed beside it.
  abbrev pub assembled : ValidationContext → Transaction → List Transaction → Block b
  assembled context coinbase txdata = record {
    prev_blockhash = context.prev_hash;
    bits = context.nbits;
    time = context.min_ntime;
    txdata = coinbase ∷ txdata;
  }

  -- What Bitcoin Core answers about the declared job.
  abbrev pub answer_about : ValidationContext × ℕ → Declared → World → MempoolMirror b → CheckBlock
  answer_about initial job w m =
      w.check_block job.version
        (assembled initial.0 job.coinbase_tx (get_txdata b m job.wtxid_list))

  -- Behind the check that no transaction is missing.
  unfoldable pub judge :
      ValidationContext × ℕ → Declared → World → MempoolMirror b → Bool → Outcome (Jdp × JdResponse)
  judge initial job w m cancelled =
      let txid_list = map compute_txid (get_txdata b m job.wtxid_list) in
      let m' = monitor m w.during_check in
      elim (answer_about initial job w m) [
        | connection_fails ↦
            returns
              (record { mempool_mirror = m'; cancelled = true }, error internal_error initial.0)
        | result_is true ↦ and_then (current_context m') λ _. returns (
          record { mempool_mirror = m'; cancelled = cancelled },
          success initial.0.prev_hash initial.0.nbits initial.0.min_ntime txid_list,
        )
        | result_is false ↦
            and_then (reject initial (bip34_height b job.coinbase_tx) w m') λ (m'', response).
              returns (record { mempool_mirror = m''; cancelled = cancelled }, response)
      ]

  abbrev unless_missing :
      List ℕ
      → ValidationContext × ℕ
      → Declared
      → World
      → MempoolMirror b
      → Bool
      → Outcome (Jdp × JdResponse)
  unless_missing [] initial job w m cancelled = judge initial job w m cancelled
  unless_missing (x ∷ xs) initial job w m cancelled = returns (
    record { mempool_mirror = m; cancelled = cancelled },
    missing_transactions (x ∷ xs) initial.0,
  )

  -- The log of the first input's script, whose index panics without inputs.
  unfoldable pub log_script_sig : World → List TxIn → Outcome (Unit {0})
  log_script_sig w (txin ∷ txins) = returns tt
  log_script_sig w [] = if w.debug_enabled then panics else returns tt

  -- The new state and the one response that is sent.
  unfoldable pub handle_declare_mining_job : Jdp → Declared → World → Outcome (Jdp × JdResponse)
  unfolding log_script_sig
  handle_declare_mining_job s job w =
      let m = add_transactions b s.mempool_mirror job.missing_txs in
      and_then (log_script_sig w (input job.coinbase_tx)) λ _.
        and_then (current_context m)
          λ initial. unless_missing (verify b m job.wtxid_list) initial job w m s.cancelled
