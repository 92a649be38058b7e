-- ===== src/Jds/Declarator/Tests.antt =====
-- Runs of the job declarator, and the theorems at concrete inputs.
use gridpool_sv2_pool.Prelude.{
  ℕ, ◌≡◌, refl, true, false, Option, none, some, List, [], ◌∷◌, ok, arith, to_le_bytes, parse_token,
  returns,
}
use gridpool_sv2_pool.Map
use gridpool_sv2_pool.Jds.Tokens
use gridpool_sv2_pool.Jds.Sample.{sample}
use gridpool_sv2_pool.Jds.Validator.{JdResponse, Declared}
use gridpool_sv2_pool.Jds.Engine.Messages.{
  DeclareMiningJob, ProvideMissingTransactionsSuccess, SetCustomMiningJob, SetErrorCode,
}
use gridpool_sv2_pool.Jds.Engine.State.{IpcEngine}
use gridpool_sv2_pool.Jds.Engine.Coinbase.{get_coinbase_tx}
use gridpool_sv2_pool.Jds.Engine.Declare
use gridpool_sv2_pool.Jds.Engine.Declare.{begin, conclude}
use gridpool_sv2_pool.Jds.Engine.Custom.Consume.{Matches}
use gridpool_sv2_pool.Jds.Engine.Custom.Collision.{Validated, filed}
use gridpool_sv2_pool.Jds.Engine.Sample.{declaration, started, message}
use gridpool_sv2_pool.Jds.Declarator.State.{
  Downstream, JobDeclarator, Sv2Lib, declare_mining_job_success, accepted, rejected,
}
use gridpool_sv2_pool.Jds.Declarator.Declare.{
  handle_allocate_mining_job_token, handle_declare_mining_job, answer_declaration,
  handle_provide_missing_transactions_success,
}
use gridpool_sv2_pool.Jds.Declarator.Clients.{cleanup_downstream}
use gridpool_sv2_pool.Jds.Declarator.Custom.{handle_set_custom_mining_job}
use gridpool_sv2_pool.Jds.Declarator.Responses.{OneResponse, handlers-OneResponse}
use gridpool_sv2_pool.Jds.Declarator.Authority.{Granted, declare-Granted}
use gridpool_sv2_pool.Jds.Declarator.SingleUse.{set-refused_again}
use gridpool_sv2_pool.Jds.Declarator.Cleanup.{cleanup_downstream-others}
use gridpool_sv2_pool.Jds.Declarator.Reactivation.{quiet, provide-two_active}
use gridpool_sv2_pool.Jds.Declarator.Flow.{ipc, declare-accepted}

abbrev sv2 : Sv2Lib
sv2 = record {
  serialize_outputs = λ outputs. [];
  fits_b0_64k = λ bytes. true;
  fits_seq_064k = λ positions. true;
}

-- Bitcoin Core accepts every job.
abbrev core : Declared sample → Option JdResponse
core request = some (JdResponse.success 77 9 1_000 (11 ∷ 10 ∷ []))

abbrev core_answer : Option JdResponse
core_answer = some (JdResponse.success 77 9 1_000 (11 ∷ 10 ∷ []))

-- Client 4 holds token 6.
abbrev holding : JobDeclarator IpcEngine
holding = record {
  token_manager = record {
    token_factory = 7;
    allocated_tokens = (6, (3, 4)) ∷ [];
    active_tokens = [];
  };
  job_validator = started;
  downstream_client_senders = (4, tt) ∷ [];
  coinbase_reward_script = record { script_pubkey = 0 ∷ []; ok_for_mainnet = true };
  downstream_clients = (4, record { pending_declare_mining_jobs = [] }) ∷ [];
  downstream_id_factory = 5;
}

-- What the declaration leaves.
abbrev declared : JobDeclarator IpcEngine
declared = record holding {
  token_manager = record {
    token_factory = 8;
    allocated_tokens = [];
    active_tokens = (7, (6, 5, 4)) ∷ [];
  };
  job_validator =
      (conclude started declaration 6 none none
        (some (JdResponse.success 77 9 1_000 (11 ∷ 10 ∷ []))) 5).0;
}

abbrev answer : List ℕ
answer = 7 ∷ 0 ∷ 0 ∷ 0 ∷ 0 ∷ 0 ∷ 0 ∷ 0 ∷ []

declares :
    handle_declare_mining_job sv2 (ipc sample core) (quiet 5) holding (some 4) declaration
    ≡ returns (declared, (4, declare_mining_job_success 1 answer) ∷ [], ok tt)
unfolding handle_declare_mining_job answer_declaration conclude Declare.handle_declare_mining_job
    begin parse_token get_coinbase_tx Tokens.is_allocated Tokens.activate Map.get Map.insert
    Map.remove to_le_bytes
declares = refl

declare-Granted_example :
    Granted sv2 (ipc sample core) (quiet 5) holding declared 4 declaration answer
declare-Granted_example =
    declare-Granted sv2 (ipc sample core) (quiet 5) holding declared 4 declaration 1 answer (ok tt)
      declares

declare-accepted_example :
    (v : Validated) × (v.job ≡ declaration)
    × ((msg : SetCustomMiningJob)
        → msg.token ≡ answer
        → Matches sample (filed v) msg
        → (s : JobDeclarator IpcEngine) × (handle_set_custom_mining_job
              (ipc sample core)
              declared
              msg
            ≡ returns (s, accepted msg.channel_id msg.request_id 0)))
declare-accepted_example =
    declare-accepted sample core sv2 5 holding declared 4 1 declaration answer (ok tt) (omega arith)
      declares

abbrev provided : ProvideMissingTransactionsSuccess
provided = record { request_id = 1; transaction_list = [] }

handlers-OneResponse_example :
    (handle_allocate_mining_job_token sv2 (ipc sample core) (quiet 5) holding (some 4) 9
        ≡ returns (declared, (4, declare_mining_job_success 1 answer) ∷ [], ok tt)
      → OneResponse 4 9 (declared, (4, declare_mining_job_success 1 answer) ∷ [], ok tt))
    × (handle_declare_mining_job sv2 (ipc sample core) (quiet 5) holding (some 4) declaration
          ≡ returns (declared, (4, declare_mining_job_success 1 answer) ∷ [], ok tt)
        → OneResponse 4 1 (declared, (4, declare_mining_job_success 1 answer) ∷ [], ok tt))
    × (handle_provide_missing_transactions_success sv2
            (ipc sample core)
            (quiet 5)
            holding
            (some 4)
            provided
          ≡ returns (declared, (4, declare_mining_job_success 1 answer) ∷ [], ok tt)
        → OneResponse 4 1 (declared, (4, declare_mining_job_success 1 answer) ∷ [], ok tt))
handlers-OneResponse_example =
    handlers-OneResponse sv2 (ipc sample core) (quiet 5) holding 4 9 declaration provided
      (declared, (4, declare_mining_job_success 1 answer) ∷ [], ok tt)

-- A `SetCustomMiningJob` with a token that nobody has.
abbrev unknown : SetCustomMiningJob
unknown = record message { token = 9 ∷ 0 ∷ 0 ∷ 0 ∷ 0 ∷ 0 ∷ 0 ∷ 0 ∷ [] }

set-refused_again_example :
    handle_set_custom_mining_job (ipc sample core) declared unknown
    ≡ returns (declared, rejected 30 0 SetErrorCode.invalid_mining_job_token)
unfolding handle_set_custom_mining_job parse_token Tokens.allocated_from_active Map.get
set-refused_again_example =
    set-refused_again (ipc sample core) declared declared unknown unknown
      (rejected 30 0 SetErrorCode.invalid_mining_job_token) refl refl

cleanup_downstream-others_example :
    (Map.get 4 (cleanup_downstream holding 9).downstream_clients
      ≡ Map.get 4 holding.downstream_clients)
    × (Map.get 4 (cleanup_downstream holding 9).downstream_client_senders
        ≡ Map.get 4 holding.downstream_client_senders)
    × (Tokens.is_allocated (cleanup_downstream holding 9).token_manager 6 4
        ≡ Tokens.is_allocated holding.token_manager 6 4)
    × (Tokens.allocated_from_active (cleanup_downstream holding 9).token_manager 6
        ≡ Tokens.allocated_from_active holding.token_manager 6)
cleanup_downstream-others_example = cleanup_downstream-others holding 9 4 6

-- Client 4 has two declarations under token 6 that wait for transactions.
abbrev second_declaration : DeclareMiningJob
second_declaration = record declaration { request_id = 2 }

abbrev two_pending : Downstream
two_pending = record {
  pending_declare_mining_jobs = (1, (5, declaration)) ∷ (2, (5, second_declaration)) ∷ [];
}

abbrev waiting : JobDeclarator IpcEngine
waiting = record holding { downstream_clients = (4, two_pending) ∷ [] }

abbrev second_provided : ProvideMissingTransactionsSuccess
second_provided = record { request_id = 2; transaction_list = [] }

abbrev after_both : IpcEngine
after_both =
    (conclude (conclude started declaration 6 (some provided) none (core_answer) 5).0
      second_declaration 6 (some second_provided) none core_answer 5).0

provide-two_active_example :
    (s' s'' : JobDeclarator IpcEngine) × (handle_provide_missing_transactions_success sv2
        (ipc sample core)
        (quiet 5)
        waiting
        (some 4)
        provided
      ≡ returns (s', (4, declare_mining_job_success 1 (to_le_bytes 8 7)) ∷ [], ok tt))
    × (handle_provide_missing_transactions_success sv2
          (ipc sample core)
          (quiet 5)
          s'
          (some 4)
          second_provided
        ≡ returns (s'', (4, declare_mining_job_success 2 (to_le_bytes 8 8)) ∷ [], ok tt))
    × (Tokens.is_allocated s'.token_manager 6 4 ≡ false)
    × (Tokens.allocated_from_active s''.token_manager 7 ≡ some 6)
    × (Tokens.allocated_from_active s''.token_manager 8 ≡ some 6)
unfolding Declare.handle_declare_mining_job begin conclude parse_token get_coinbase_tx Map.get
provide-two_active_example =
    provide-two_active sv2 (ipc sample core) 5 waiting
      (conclude started declaration 6 (some provided) none core_answer 5).0 after_both 4 two_pending
      declaration second_declaration 6 provided second_provided (refl, refl, (5, refl), refl)
      (refl, refl, (5, refl), refl) (omega arith) refl refl (omega arith)
