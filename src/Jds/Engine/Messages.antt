-- ===== src/Jds/Engine/Messages.antt =====
-- The messages of the crates `job_declaration_sv2` and `mining_sv2` that the engine handles, as
-- far as it reads them, and job_validation/mod.rs: its results and its interface. A byte string is
-- the list of its bytes, a hash the number that its bytes write.
use gridpool_sv2_pool.Prelude.{ℕ, Option, List, Outcome}
use gridpool_sv2_pool.Jds.Validator.{DeclareErrorCode}

pub record DeclareMiningJob : Type 0 where
  pub request_id : ℕ
  pub mining_job_token : List ℕ
  pub version : ℕ
  pub coinbase_tx_prefix : List ℕ
  pub coinbase_tx_suffix : List ℕ
  pub wtxid_list : List ℕ

pub record ProvideMissingTransactionsSuccess : Type 0 where
  pub request_id : ℕ
  pub transaction_list : List (List ℕ)

pub record SetCustomMiningJob : Type 0 where
  pub channel_id : ℕ
  pub request_id : ℕ
  pub token : List ℕ
  pub version : ℕ
  pub prev_hash : ℕ
  pub nbits : ℕ
  pub coinbase_tx_version : ℕ
  pub coinbase_prefix : List ℕ
  pub coinbase_tx_input_n_sequence : ℕ
  pub coinbase_tx_outputs : List ℕ
  pub coinbase_tx_locktime : ℕ
  pub merkle_path : List ℕ

-- The codes of `SetCustomMiningJobError`.
pub data SetErrorCode : Type 0 where
  invalid_mining_job_token job_not_yet_validated stale_chain_tip invalid_nbits : SetErrorCode
  invalid_version invalid_coinbase_tx invalid_coinbase_tx_version : SetErrorCode
  invalid_coinbase_prefix invalid_coinbase_tx_input_n_sequence : SetErrorCode
  invalid_coinbase_tx_outputs invalid_coinbase_tx_locktime invalid_merkle_path : SetErrorCode

pub data DeclareMiningJobResult : Type 0 where
  success : DeclareMiningJobResult
  error : DeclareErrorCode → DeclareMiningJobResult
  missing_transactions : (missing_wtxids : List ℕ) → DeclareMiningJobResult

pub data SetCustomMiningJobResult : Type 0 where
  success : SetCustomMiningJobResult
  error : SetErrorCode → SetCustomMiningJobResult

-- The trait `JobValidationEngine` over an engine's state: each method may panic, and the time is
-- an argument. `handle_push_solution` gives no answer.
pub record JobValidationEngine (E : Type 0) : Type 0 where
  pub handle_declare_mining_job :
      E
      → DeclareMiningJob
      → Option ProvideMissingTransactionsSuccess
      → (now : ℕ) → Outcome (E × DeclareMiningJobResult)
  pub handle_set_custom_mining_job :
      E → SetCustomMiningJob → (allocated_token : ℕ) → Outcome (E × SetCustomMiningJobResult)
