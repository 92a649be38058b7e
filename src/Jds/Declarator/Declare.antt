-- ===== src/Jds/Declarator/Declare.antt =====
-- The handlers of job_declarator/job_declaration_message_handler.rs. (`handle_push_solution` only
-- forwards a message to the engine, which answers nothing.)
use gridpool_sv2_pool.Prelude.{
  ℕ, suc, ◌%◌, ◌^◌, not, Option, none, some, List, [], ◌∷◌, ◌==◌, if◌then◌else◌, to_le_bytes,
  parse_token, Outcome, panics, and_then, expect,
}
use gridpool_sv2_pool.Map
use gridpool_sv2_pool.Payout.Mode.{TxOut}
use gridpool_sv2_pool.Jds.Tokens
use gridpool_sv2_pool.Jds.Validator.{DeclareErrorCode}
use gridpool_sv2_pool.Jds.Engine.Messages.{
  DeclareMiningJob, ProvideMissingTransactionsSuccess, DeclareMiningJobResult, JobValidationEngine,
}
use gridpool_sv2_pool.Jds.Declarator.State.{
  Downstream, JobDeclarator, shutdown, disconnect, log, client_not_found, client_sender_not_found,
  pending_declare_mining_job_not_found, binary_sv2, declare_mining_job_success,
  declare_mining_job_error, allocate_mining_job_token_success, provide_missing_transactions, Sv2Lib,
  Env, Handled, fails_with, send,
}

-- `iter().position(..)`, from an index on.
unfoldable pub position : (index : ℕ) → List ℕ → (wtxid : ℕ) → Option ℕ
position index [] wtxid = none
position index (x ∷ xs) wtxid =
    let rest = position (suc index) xs wtxid in if x == wtxid then some index else rest

-- The positions of the missing transactions, as `u16`.
unfoldable pub unknown_positions : (wtxid_list missing : List ℕ) → List ℕ
unknown_positions wtxid_list [] = []
unknown_positions wtxid_list (wtxid ∷ missing) = elim (position 0 wtxid_list wtxid) [
  | none ↦ unknown_positions wtxid_list missing
  | some pos ↦ (pos % 2 ^ 16) ∷ unknown_positions wtxid_list missing
]

abbrev pub activated :
    {E : Type 0} → JobDeclarator E → (token client_id now : ℕ) → JobDeclarator E × ℕ
activated s token client_id now =
    let r = Tokens.activate s.token_manager token client_id now in
    (record s { token_manager = r.0 }, r.1)

abbrev pub deallocated : {E : Type 0} → JobDeclarator E → (token : ℕ) → JobDeclarator E
deallocated s token = record s { token_manager = Tokens.deallocate s.token_manager token }

module _ {E : Type 0} (sv2 : Sv2Lib) (engine : JobValidationEngine E) where
  -- The sender of the client is looked up first; `None` for the client is a bug of the caller.
  abbrev pub with_sender :
      JobDeclarator E → Option ℕ → (ℕ → Outcome (Handled E)) → Outcome (Handled E)
  with_sender s none f = fails_with s (client_not_found 0) shutdown
  with_sender s (some client_id) f = elim (Map.get client_id s.downstream_client_senders) [
    | none ↦ fails_with s (client_sender_not_found client_id) (disconnect client_id)
    | some _ ↦ f client_id
  ]

  -- The token is allocated before the sender is looked up.
  unfoldable pub handle_allocate_mining_job_token :
      Env E → JobDeclarator E → Option ℕ → (request_id : ℕ) → Outcome (Handled E)
  handle_allocate_mining_job_token env s none request_id =
      fails_with s (client_not_found 0) shutdown
  handle_allocate_mining_job_token env s (some client_id) request_id =
      let allocation = Tokens.allocate s.token_manager client_id env.now in
      let s' = record s { token_manager = allocation.0 } in
      let output : TxOut = record {
        value = 0;
        script_pubkey = s.coinbase_reward_script.script_pubkey;
      } in
      let outputs = sv2.serialize_outputs (output ∷ []) in
      if not (sv2.fits_b0_64k outputs)
      then panics
      else with_sender s' (some client_id) λ client_id.
        send env s' client_id
          (allocate_mining_job_token_success request_id (to_le_bytes 8 allocation.1) outputs)

  -- Behind the wait for the engine: the state then, and the engine's answer.
  unfoldable pub answer_declaration :
      Env E
      → JobDeclarator E
      → (client_id : ℕ) → DeclareMiningJob
      → (token : ℕ) → DeclareMiningJobResult
      → Outcome (Handled E)
  answer_declaration env s client_id msg token DeclareMiningJobResult.success =
      let (s', new_token) = activated s token client_id env.later in
      send env s' client_id (declare_mining_job_success msg.request_id (to_le_bytes 8 new_token))
  answer_declaration env s client_id msg token (DeclareMiningJobResult.error code) =
      send env (deallocated s token) client_id (declare_mining_job_error msg.request_id code)
  answer_declaration env s client_id msg token
        (DeclareMiningJobResult.missing_transactions wtxids) =
      elim (Map.get client_id s.downstream_clients) [
        | none ↦ fails_with s (client_not_found client_id) (disconnect client_id)
        | some downstream ↦
            let pending =
              Map.insert msg.request_id (env.later, msg) downstream.pending_declare_mining_jobs in
            let s' = record s {
              downstream_clients =
                  Map.insert client_id (record { pending_declare_mining_jobs = pending })
                    s.downstream_clients;
            } in
            let positions = unknown_positions msg.wtxid_list wtxids in
            if sv2.fits_seq_064k positions
            then send env s' client_id (provide_missing_transactions msg.request_id positions)
            else fails_with s' binary_sv2 shutdown
      ]

  abbrev refuse : Env E → JobDeclarator E → (client_id request_id : ℕ) → Outcome (Handled E)
  refuse env s client_id request_id =
      send env s client_id
        (declare_mining_job_error request_id DeclareErrorCode.invalid_mining_job_token)

  -- The call of the engine, with what other tasks do during the wait.
  abbrev pub ask :
      Env E
      → JobDeclarator E
      → DeclareMiningJob
      → Option ProvideMissingTransactionsSuccess
      → (JobDeclarator E → DeclareMiningJobResult → Outcome (Handled E))
      → Outcome (Handled E)
  ask env s msg provided answer =
      and_then (engine.handle_declare_mining_job s.job_validator msg provided env.now)
        λ (e, result). answer (env.during (record s { job_validator = e })) result

  unfoldable pub handle_declare_mining_job :
      Env E → JobDeclarator E → Option ℕ → DeclareMiningJob → Outcome (Handled E)
  handle_declare_mining_job env s client msg = with_sender s client λ client_id.
      elim (parse_token msg.mining_job_token) [
        | none ↦ refuse env s client_id msg.request_id
        | some token ↦
            if not (Tokens.is_allocated s.token_manager token client_id)
            then refuse env s client_id msg.request_id
            else ask env s msg none
                λ s' result. answer_declaration env s' client_id msg token result
      ]

  -- With the transactions that were missing; if some still are, the declaration is refused.
  unfoldable pub answer_provided :
      Env E
      → JobDeclarator E
      → (client_id request_id token : ℕ) → DeclareMiningJobResult
      → Outcome (Handled E)
  answer_provided env s client_id request_id token DeclareMiningJobResult.success =
      let (s', new_token) = activated s token client_id env.later in
      send env s' client_id (declare_mining_job_success request_id (to_le_bytes 8 new_token))
  answer_provided env s client_id request_id token (DeclareMiningJobResult.error code) =
      send env (deallocated s token) client_id (declare_mining_job_error request_id code)
  answer_provided env s client_id request_id token (DeclareMiningJobResult.missing_transactions _) =
      send env (deallocated s token) client_id
        (declare_mining_job_error request_id DeclareErrorCode.missing_txs)

  abbrev pub without_pending :
      JobDeclarator E → (client_id : ℕ) → Downstream → (request_id : ℕ) → JobDeclarator E
  without_pending s client_id downstream request_id = record s {
    downstream_clients =
        Map.insert client_id
          (record {
            pending_declare_mining_jobs =
                Map.remove request_id downstream.pending_declare_mining_jobs;
          })
          s.downstream_clients;
  }

  unfoldable pub handle_provide_missing_transactions_success :
      Env E → JobDeclarator E → Option ℕ → ProvideMissingTransactionsSuccess → Outcome (Handled E)
  handle_provide_missing_transactions_success env s client msg = with_sender s client λ client_id.
      elim (Map.get client_id s.downstream_clients) [
        | none ↦ fails_with s (client_not_found client_id) (disconnect client_id)
        | some downstream ↦ elim (Map.get msg.request_id downstream.pending_declare_mining_jobs) [
          | none ↦ fails_with s (pending_declare_mining_job_not_found msg.request_id) log
          | some (_, pending) ↦ and_then (expect (parse_token pending.mining_job_token)) λ token.
              ask env (without_pending s client_id downstream msg.request_id) pending (some msg)
                λ s' result. answer_provided env s' client_id msg.request_id token result
        ]
      ]
