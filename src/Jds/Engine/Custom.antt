-- ===== src/Jds/Engine/Custom.antt =====
-- `BitcoinCoreIPCEngine::handle_set_custom_mining_job` and `get_merkle_path` of
-- job_validation/bitcoin_core_ipc.rs.
pub mod Consume
pub mod Collision
use gridpool_sv2_pool.Prelude.{
  ℕ, ◌-◌, Bool, true, false, ◌&&◌, ◌||◌, Option, none, some, List, [], ◌∷◌, ◌==◌, ltb, list_eq,
  starts_with, not, if◌then◌else◌, parse_token, Outcome, returns, panics, and_then, expect,
}
use gridpool_sv2_pool.Map
use gridpool_sv2_pool.Map.{Map}
use gridpool_sv2_pool.Jds.Timeouts.{from_secs, allocated_token_timeout_secs}
use gridpool_sv2_pool.Jds.Bitcoin.{Bitcoin, TxIn}
use gridpool_sv2_pool.Jds.Validator
use gridpool_sv2_pool.Jds.Validator.{
  ValidationContext, DeclareErrorCode, JdResponse, contexts_differ, not_equal, Declared,
}
use gridpool_sv2_pool.Jds.Engine.Messages.{
  DeclareMiningJob, ProvideMissingTransactionsSuccess, SetCustomMiningJob, SetErrorCode,
  DeclareMiningJobResult, SetCustomMiningJobResult,
}
use gridpool_sv2_pool.Jds.Engine.Merkle.{merkle_path}
use gridpool_sv2_pool.Jds.Engine.Coinbase.{get_coinbase_tx}
use gridpool_sv2_pool.Jds.Engine.State.{
  DeclaredCustomJob, AllocatedTokenEntry, IpcEngine, store, forget,
}

module _ (b : Bitcoin) where
  open b use {Transaction, version, lock_time, input, serialized_outputs, compute_txid, hash_nodes}

  -- `get_merkle_path`; `returns none` is `Err(())`.
  unfoldable pub get_merkle_path : DeclaredCustomJob → Outcome (Option (List ℕ))
  get_merkle_path job =
      if job.validated
      then (elim job.txid_list [
        | none ↦ returns none
        | some txids ↦
            let declared = job.declare_mining_job in
            and_then (get_coinbase_tx b declared.coinbase_tx_prefix declared.coinbase_tx_suffix)
              λ decoded. and_then (expect decoded) λ tx.
                and_then (expect (merkle_path hash_nodes (compute_txid tx ∷ txids)))
                  λ path. returns (some path)
      ])
      else returns none

  abbrev fails : SetErrorCode → SetCustomMiningJobResult
  fails code = SetCustomMiningJobResult.error code

  unfoldable pub check_path :
      DeclaredCustomJob → SetCustomMiningJob → Outcome SetCustomMiningJobResult
  check_path job msg = and_then (get_merkle_path job) λ declared_path. elim declared_path [
    | none ↦ returns (fails SetErrorCode.job_not_yet_validated)
    | some path ↦
        if list_eq path msg.merkle_path
        then returns SetCustomMiningJobResult.success
        else returns (fails SetErrorCode.invalid_merkle_path)
  ]

  -- `input[0]` panics without an input.
  unfoldable pub check_coinbase :
      Transaction
      → List TxIn
      → SetCustomMiningJob
      → Outcome SetCustomMiningJobResult
      → Outcome SetCustomMiningJobResult
  check_coinbase tx inputs msg rest =
      if not_equal (version tx) msg.coinbase_tx_version
      then returns (fails SetErrorCode.invalid_coinbase_tx_version)
      else elim inputs [
        | [] ↦ panics
        | txin ∷ _ ↦
            if not (starts_with txin.script_sig msg.coinbase_prefix)
            then returns (fails SetErrorCode.invalid_coinbase_prefix)
            else if not_equal txin.sequence msg.coinbase_tx_input_n_sequence
            then returns (fails SetErrorCode.invalid_coinbase_tx_input_n_sequence)
            else if not (list_eq (serialized_outputs tx) msg.coinbase_tx_outputs)
            then returns (fails SetErrorCode.invalid_coinbase_tx_outputs)
            else if not_equal (lock_time tx) msg.coinbase_tx_locktime
            then returns (fails SetErrorCode.invalid_coinbase_tx_locktime)
            else rest
      ]

  -- The checks of a job that was found, in the source's order.
  unfoldable pub check_job :
      DeclaredCustomJob → SetCustomMiningJob → Outcome SetCustomMiningJobResult
  check_job job msg =
      let declared = job.declare_mining_job in
      if not job.validated
      then returns (fails SetErrorCode.job_not_yet_validated)
      else if not_equal msg.prev_hash job.validation_context.prev_hash
      then returns (fails SetErrorCode.stale_chain_tip)
      else if not_equal msg.nbits job.validation_context.nbits
      then returns (fails SetErrorCode.invalid_nbits)
      else if not_equal msg.version declared.version
      then returns (fails SetErrorCode.invalid_version)
      else and_then (get_coinbase_tx b declared.coinbase_tx_prefix declared.coinbase_tx_suffix)
          λ decoded. elim decoded [
            | none ↦ returns (fails SetErrorCode.invalid_coinbase_tx)
            | some tx ↦ check_coinbase tx (input tx) msg (check_path job msg)
          ]

  -- The token is consumed whatever the checks say.
  unfoldable pub handle_set_custom_mining_job :
      IpcEngine
      → SetCustomMiningJob
      → (allocated_token : ℕ) → Outcome (IpcEngine × SetCustomMiningJobResult)
  handle_set_custom_mining_job e msg allocated_token =
      elim (Map.get allocated_token e.allocated_token_entries) [
        | none ↦ returns (e, fails SetErrorCode.invalid_mining_job_token)
        | some entry ↦
            let entries = Map.remove allocated_token e.allocated_token_entries in
            elim (Map.get entry.request_id e.declared_custom_jobs) [
              | none ↦ returns (
                record e { allocated_token_entries = entries },
                fails SetErrorCode.invalid_mining_job_token,
              )
              | some job ↦ and_then (check_job job msg) λ result. returns (
                record {
                  allocated_token_entries = entries;
                  declared_custom_jobs = Map.remove entry.request_id e.declared_custom_jobs;
                },
                result,
              )
            ]
      ]
