-- ===== src/Jds/Engine/Declare.antt =====
-- `BitcoinCoreIPCEngine::handle_declare_mining_job` of job_validation/bitcoin_core_ipc.rs, in two
-- parts, before and behind the wait for the answer of the Bitcoin Core thread; in between other
-- tasks may change the engine.
pub mod Panics
use gridpool_sv2_pool.Prelude.{
  ℕ, Bool, true, false, ◌&&◌, Option, none, some, List, [], ◌∷◌, if◌then◌else◌, parse_token,
  Outcome, returns, and_then,
}
use gridpool_sv2_pool.Map
use gridpool_sv2_pool.Map.{Map}
use gridpool_sv2_pool.Jds.Bitcoin.{Bitcoin, TxIn}
use gridpool_sv2_pool.Jds.Validator.{
  ValidationContext, DeclareErrorCode, JdResponse, contexts_differ, Declared,
}
use gridpool_sv2_pool.Jds.Engine.Messages.{
  DeclareMiningJob, ProvideMissingTransactionsSuccess, DeclareMiningJobResult,
}
use gridpool_sv2_pool.Jds.Engine.Coinbase.{get_coinbase_tx}
use gridpool_sv2_pool.Jds.Engine.State.{DeclaredCustomJob, IpcEngine, store, forget}

-- `validation_context_drifted`, if there was an earlier context.
unfoldable pub tip_drifted : Option ValidationContext → ValidationContext → Bool
tip_drifted none current = false
tip_drifted (some previous) current = contexts_differ previous current

abbrev pub is_some {ℓ} : {A : Type ℓ} → Option A → Bool
is_some none = false
is_some (some a) = true

-- Behind the wait for the answer; `none` is a closed channel. The previous context is there only
-- if the client provided transactions.
unfoldable pub conclude :
    IpcEngine
    → DeclareMiningJob
    → (token : ℕ) → Option ProvideMissingTransactionsSuccess
    → (previous : Option ValidationContext) → Option JdResponse
    → (now : ℕ) → IpcEngine × DeclareMiningJobResult
unfolding store forget tip_drifted
conclude e job token provided previous none now =
    (e, DeclareMiningJobResult.error DeclareErrorCode.internal_error)
conclude e job token provided previous (some (JdResponse.success prev nbits ntime txids)) now =
    let context : ValidationContext = record {
      prev_hash = prev;
      nbits = nbits;
      min_ntime = ntime;
    } in
    (store e job token context (some txids) true now, DeclareMiningJobResult.success)
conclude e job token provided previous (some (JdResponse.error code context)) now = (
  forget e job token,
  if tip_drifted previous context
      then DeclareMiningJobResult.error DeclareErrorCode.stale_chain_tip
      else DeclareMiningJobResult.error code,
)
conclude e job token provided previous (some (JdResponse.missing_transactions wtxids context)) now =
    if is_some provided && tip_drifted previous context
    then (forget e job token, DeclareMiningJobResult.error DeclareErrorCode.stale_chain_tip)
    else (
      store e job token context none false now,
      DeclareMiningJobResult.missing_transactions wtxids,
    )

module _ (b : Bitcoin) where
  open b use {
    Transaction, version, lock_time, input, serialized_outputs, compute_txid, decode_transaction,
    hash_nodes,
  }

  -- What is known before the wait: the answer, or the request and what the rest needs.
  pub data Started : Type 0 where
    answers : DeclareMiningJobResult → Started
    asks : (token : ℕ) → Declared b → (previous : Option ValidationContext) → Started

  unfoldable pub decode_all : List (List ℕ) → List Transaction
  decode_all [] = []
  decode_all (bytes ∷ rest) = elim (decode_transaction bytes) [
    | none ↦ decode_all rest
    | some tx ↦ tx ∷ decode_all rest
  ]

  abbrev provided_txs : Option ProvideMissingTransactionsSuccess → List Transaction
  provided_txs none = []
  provided_txs (some provided) = decode_all provided.transaction_list

  abbrev context_of : Option DeclaredCustomJob → Option ValidationContext
  context_of none = none
  context_of (some job) = some job.validation_context

  abbrev previous_context :
      IpcEngine → ℕ → Option ProvideMissingTransactionsSuccess → Option ValidationContext
  previous_context e request_id none = none
  previous_context e request_id (some provided) =
      context_of (Map.get request_id e.declared_custom_jobs)

  -- The coinbase must have one input.
  abbrev with_one_input : Transaction → List TxIn → Started → Started
  with_one_input tx (txin ∷ []) started = started
  with_one_input tx _ started =
      answers (DeclareMiningJobResult.error DeclareErrorCode.invalid_coinbase_tx_input)

  abbrev with_coinbase : Option Transaction → (Transaction → Started) → Started
  with_coinbase none f = answers (DeclareMiningJobResult.error DeclareErrorCode.invalid_coinbase_tx)
  with_coinbase (some tx) f = with_one_input tx (input tx) (f tx)

  unfoldable pub begin :
      IpcEngine → DeclareMiningJob → Option ProvideMissingTransactionsSuccess → Outcome Started
  begin e job provided = elim (parse_token job.mining_job_token) [
    | none ↦
        returns (answers (DeclareMiningJobResult.error DeclareErrorCode.invalid_mining_job_token))
    | some token ↦
        and_then (get_coinbase_tx b job.coinbase_tx_prefix job.coinbase_tx_suffix) λ decoded.
          returns (
            with_coinbase decoded λ tx.
              asks token
                (record {
                  version = job.version;
                  coinbase_tx = tx;
                  wtxid_list = job.wtxid_list;
                  missing_txs = provided_txs provided;
                })
                (previous_context e job.request_id provided))
  ]

  -- With nothing else happening during the wait.
  unfoldable pub handle_declare_mining_job :
      (Declared b → Option JdResponse)
      → IpcEngine
      → DeclareMiningJob
      → Option ProvideMissingTransactionsSuccess
      → (now : ℕ) → Outcome (IpcEngine × DeclareMiningJobResult)
  handle_declare_mining_job core e job provided now = and_then (begin e job provided) λ started.
      elim started [
        | answers result ↦ returns (e, result)
        | asks token request previous ↦
            returns (conclude e job token provided previous (core request) now)
      ]
