-- ===== src/Jds/Engine/Tests.antt =====
-- A declaration on the engine of job_validation/bitcoin_core_ipc.rs and its `SetCustomMiningJob`,
-- and the theorems at concrete inputs.
use gridpool_sv2_pool.Prelude.{
  ℕ, ◌≡◌, ◌↔◌, inl, refl, none, some, List, [], ◌∷◌, arith, returns, panics, parse_token,
}
use gridpool_sv2_pool.Map
use gridpool_sv2_pool.Map.{keep_if}
use gridpool_sv2_pool.Jds.Sample.{sample}
use gridpool_sv2_pool.Jds.Validator.{JdResponse}
use gridpool_sv2_pool.Jds.Engine.Messages.{
  DeclareMiningJob, SetCustomMiningJob, SetErrorCode, SetCustomMiningJobResult,
}
use gridpool_sv2_pool.Jds.Engine.Sample.{
  declaration, started, first, second, message, message-Matches,
}
use gridpool_sv2_pool.Jds.Engine.Merkle.{merkle_path}
use gridpool_sv2_pool.Jds.Engine.Merkle.Root.{tree_root, fold_path, merkle_path-root}
use gridpool_sv2_pool.Jds.Engine.Coinbase.Panics.{IsMalformed}
use gridpool_sv2_pool.Jds.Engine.State.{DeclaredCustomJob, IpcEngine, store}
use gridpool_sv2_pool.Jds.Engine.Declare.{conclude, handle_declare_mining_job}
use gridpool_sv2_pool.Jds.Engine.Declare.Panics.{handle_declare_mining_job_panics_iff}
use gridpool_sv2_pool.Jds.Engine.Custom.{check_job, handle_set_custom_mining_job}
use gridpool_sv2_pool.Jds.Engine.Custom.Consume.{Matches, Agrees, handle_set_custom_mining_job_iff}
use gridpool_sv2_pool.Jds.Engine.Custom.Collision.{
  validate, filed, validate-accepted, validate-request_id,
}
use gridpool_sv2_pool.Jds.Engine.History.{EngineCall, concludes, step, run}
use gridpool_sv2_pool.Jds.Engine.History.Accepted.{WasAccepted, set-WasAccepted}

merkle_path-root_example :
    (path : List ℕ) × (merkle_path sample.hash_nodes (49 ∷ 11 ∷ 10 ∷ []) ≡ some path)
    × ((h : ℕ)
        → tree_root sample.hash_nodes 3 (h ∷ 11 ∷ 10 ∷ [])
          ≡ some (fold_path sample.hash_nodes h path))
merkle_path-root_example = merkle_path-root sample.hash_nodes 49 (11 ∷ 10 ∷ [])

-- A coinbase prefix of one byte.
abbrev short : DeclareMiningJob
short = record declaration { coinbase_tx_prefix = 1 ∷ [] }

handle_declare_mining_job_panics_iff_example :
    (handle_declare_mining_job sample (λ d. none) started short none 5 ≡ panics) ↔ (
      ((token : ℕ) × (parse_token short.mining_job_token ≡ some token))
      × IsMalformed sample short.coinbase_tx_prefix)
handle_declare_mining_job_panics_iff_example =
    handle_declare_mining_job_panics_iff sample (λ d. none) started short none 5

short_panics : handle_declare_mining_job sample (λ d. none) started short none 5 ≡ panics
unfolding parse_token
short_panics =
    (handle_declare_mining_job_panics_iff sample (λ d. none) started short none 5).1
      ((6, refl), inl (omega arith))

handle_set_custom_mining_job_iff_example :
    ((SetCustomMiningJobResult.error SetErrorCode.invalid_mining_job_token
        ≡ SetCustomMiningJobResult.success)
      ↔ Agrees sample started message 6)
    × ((msg : SetCustomMiningJob)
        → handle_set_custom_mining_job sample started msg 6
          ≡ returns (started, SetCustomMiningJobResult.error SetErrorCode.invalid_mining_job_token))
unfolding handle_set_custom_mining_job Map.get Map.empty
handle_set_custom_mining_job_iff_example =
    handle_set_custom_mining_job_iff sample started started message 6
      (SetCustomMiningJobResult.error SetErrorCode.invalid_mining_job_token) refl

validate-accepted_example :
    (e' : IpcEngine) × (handle_set_custom_mining_job sample (validate started first) message 6
      ≡ returns (e', SetCustomMiningJobResult.success))
validate-accepted_example = validate-accepted sample started first message message-Matches

-- What the first client's token leaves once it was presented.
abbrev presented : IpcEngine
presented = record {
  allocated_token_entries = (8, record { request_id = 1; inserted_at = 6 }) ∷ [];
  declared_custom_jobs = [];
}

validate-request_id_example :
    (SetCustomMiningJobResult.error SetErrorCode.invalid_version ≡ SetCustomMiningJobResult.success
      → Matches sample (filed second) message)
    × ((msg : SetCustomMiningJob)
        → (e'' : IpcEngine) × (handle_set_custom_mining_job sample presented msg 8
            ≡ returns (e'', SetCustomMiningJobResult.error SetErrorCode.invalid_mining_job_token)))
unfolding handle_set_custom_mining_job conclude store check_job Map.get Map.empty Map.insert
    Map.remove
validate-request_id_example =
    validate-request_id sample started presented first second message
      (SetCustomMiningJobResult.error SetErrorCode.invalid_version) (omega arith) refl refl

abbrev calls : List EngineCall
calls =
    concludes declaration 6 none none (some (JdResponse.success 77 9 1_000 (11 ∷ 10 ∷ []))) 5 ∷ []

set-WasAccepted_example :
    (job : DeclaredCustomJob) × WasAccepted job calls × Matches sample job message
unfolding run step
set-WasAccepted_example =
    set-WasAccepted sample calls (validate started first)
      (validate-accepted sample started first message message-Matches).0 message 6 refl
      (validate-accepted sample started first message message-Matches).1
