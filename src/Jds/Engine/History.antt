-- ===== src/Jds/Engine/History.antt =====
-- Histories of the engine of job_validation/bitcoin_core_ipc.rs: the ends of its declarations, its
-- `SetCustomMiningJob`s and its janitor's rounds, in any order.
pub mod Accepted
use gridpool_sv2_pool.Prelude.{ℕ, Option, none, some, List, [], ◌∷◌, Outcome, returns, and_then}
use gridpool_sv2_pool.Jds.Bitcoin.{Bitcoin}
use gridpool_sv2_pool.Jds.Validator.{ValidationContext, JdResponse}
use gridpool_sv2_pool.Jds.Engine.Messages.{
  DeclareMiningJob, ProvideMissingTransactionsSuccess, SetCustomMiningJob,
}
use gridpool_sv2_pool.Jds.Engine.State.{IpcEngine, janitor_round}
use gridpool_sv2_pool.Jds.Engine.Declare.{conclude}
use gridpool_sv2_pool.Jds.Engine.Custom.{handle_set_custom_mining_job}

pub data EngineCall : Type 0 where
  concludes :
      (job : DeclareMiningJob) (token : ℕ) (provided : Option ProvideMissingTransactionsSuccess)
      (previous : Option ValidationContext) (response : Option JdResponse) (now : ℕ)
      → EngineCall
  sets : (msg : SetCustomMiningJob) (token : ℕ) → EngineCall
  janitor_runs : (now : ℕ) → EngineCall

module _ (b : Bitcoin) where
  unfoldable pub step : IpcEngine → EngineCall → Outcome IpcEngine
  step e (concludes job token provided previous response now) =
      returns (conclude e job token provided previous response now).0
  step e (sets msg token) = and_then (handle_set_custom_mining_job b e msg token) λ r. returns r.0
  step e (janitor_runs now) = returns (janitor_round e now)

  -- The calls, the oldest first.
  unfoldable pub run : IpcEngine → List EngineCall → Outcome IpcEngine
  run e [] = returns e
  run e (call ∷ calls) = and_then (step e call) λ e'. run e' calls
