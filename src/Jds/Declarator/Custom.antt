-- ===== src/Jds/Declarator/Custom.antt =====
-- `JobDeclarator::handle_set_custom_mining_job` of job_declarator/mod.rs, which the pool calls.
use gridpool_sv2_pool.Prelude.{none, some, parse_token, Outcome, returns, and_then}
use gridpool_sv2_pool.Jds.Tokens
use gridpool_sv2_pool.Jds.Engine.Messages.{
  SetCustomMiningJob, SetErrorCode, SetCustomMiningJobResult, JobValidationEngine,
}
use gridpool_sv2_pool.Jds.Declarator.State.{
  JobDeclarator, SetCustomMiningJobResponse, accepted, rejected,
}

abbrev pub response_to : SetCustomMiningJob → SetCustomMiningJobResult → SetCustomMiningJobResponse
response_to msg SetCustomMiningJobResult.success = accepted msg.channel_id msg.request_id 0
response_to msg (SetCustomMiningJobResult.error code) = rejected msg.request_id msg.channel_id code

module _ {E : Type 0} (engine : JobValidationEngine E) where
  unfoldable pub handle_set_custom_mining_job :
      JobDeclarator E → SetCustomMiningJob → Outcome (JobDeclarator E × SetCustomMiningJobResponse)
  handle_set_custom_mining_job s msg =
      let invalid = rejected msg.request_id msg.channel_id SetErrorCode.invalid_mining_job_token in
      elim (parse_token msg.token) [
        | none ↦ returns (s, invalid)
        | some active_token ↦ elim (Tokens.allocated_from_active s.token_manager active_token) [
          | none ↦ returns (s, invalid)
          | some allocated_token ↦
              and_then (engine.handle_set_custom_mining_job s.job_validator msg allocated_token)
                λ (e, result). returns (
                  record s {
                    token_manager = Tokens.deactivate s.token_manager active_token;
                    job_validator = e;
                  },
                  response_to msg result,
                )
        ]
      ]
