-- ===== src/Jds/Declarator/Flow.antt =====
-- The whole way of a job through the server, with the engine of job_validation/bitcoin_core_ipc.rs:
-- from the declaration's success to an accepted `SetCustomMiningJob`.
use gridpool_sv2_pool.Prelude.{
  ℕ, ◌<◌, ◌^◌, ◌≡◌, ◌≢◌, refl, sym, ap, ◌∙◌, Option, none, some, List, [], ◌∷◌, Result, arith, inl,
  inr, parse_token, parse_token-to_le_bytes, returns, Outcome-cases, Option-cases, List-cases,
}
use gridpool_sv2_pool.Jds.Tokens
use gridpool_sv2_pool.Jds.Bitcoin.{Bitcoin}
use gridpool_sv2_pool.Jds.Validator.{ValidationContext, JdResponse, Declared}
use gridpool_sv2_pool.Jds.Engine.Messages.{
  DeclareMiningJob, ProvideMissingTransactionsSuccess, SetCustomMiningJob, DeclareMiningJobResult,
  JobValidationEngine,
}
use gridpool_sv2_pool.Jds.Engine.Coinbase.{get_coinbase_tx}
use gridpool_sv2_pool.Jds.Engine.State.{IpcEngine}
use gridpool_sv2_pool.Jds.Engine.Declare
use gridpool_sv2_pool.Jds.Engine.Declare.{answers, asks, begin, conclude}
use gridpool_sv2_pool.Jds.Engine.Custom
use gridpool_sv2_pool.Jds.Engine.Custom.Consume.{Matches}
use gridpool_sv2_pool.Jds.Engine.Custom.Collision.{Validated, validate, filed, validate-accepted}
use gridpool_sv2_pool.Jds.Declarator.State.{
  JobDeclarator, JdsError, declare_mining_job_success, accepted, Sv2Lib,
}
use gridpool_sv2_pool.Jds.Declarator.Declare.{handle_declare_mining_job}
use gridpool_sv2_pool.Jds.Declarator.Custom.{handle_set_custom_mining_job}
use gridpool_sv2_pool.Jds.Declarator.Authority.{declare-Granted}
use gridpool_sv2_pool.Jds.Declarator.Reactivation.{quiet}

module _ (b : Bitcoin) (core : Declared b → Option JdResponse) where
  -- `impl JobValidationEngine for BitcoinCoreIPCEngine`
  abbrev pub ipc : JobValidationEngine IpcEngine
  ipc = record {
    handle_declare_mining_job = Declare.handle_declare_mining_job b core;
    handle_set_custom_mining_job = Custom.handle_set_custom_mining_job b;
  }

  answers-failure :
      (e : IpcEngine) (job : DeclareMiningJob) (provided : Option ProvideMissingTransactionsSuccess)
      → begin b e job provided ≢ returns (answers DeclareMiningJobResult.success)
  unfolding begin
  answers-failure e job provided h = elim (Option-cases (parse_token job.mining_job_token)) [
    | inl bad ↦ ground arith
    | inr (token, good) ↦
        elim (Outcome-cases (get_coinbase_tx b job.coinbase_tx_prefix job.coinbase_tx_suffix)) [
          | inr panicked ↦ ground arith
          | inl (none, decoded) ↦ ground arith
          | inl (some tx, decoded) ↦ elim (List-cases (b.input tx)) [
            | inl empty ↦ ground arith
            | inr (x, xs, more) ↦ elim (List-cases xs) [
              | inl one ↦ ground arith
              | inr (y, ys, two) ↦ ground arith
            ]
          ]
        ]
  ]

  asks-token :
      (e : IpcEngine) (job : DeclareMiningJob) (provided : Option ProvideMissingTransactionsSuccess)
      (token : ℕ) (request : Declared b) (previous : Option ValidationContext)
      → begin b e job provided ≡ returns (asks token request previous)
      → parse_token job.mining_job_token ≡ some token
  unfolding begin
  asks-token e job provided token request previous h =
      elim (Option-cases (parse_token job.mining_job_token)) [
        | inl bad ↦ ground arith
        | inr (token, good) ↦
            elim (Outcome-cases (get_coinbase_tx b job.coinbase_tx_prefix job.coinbase_tx_suffix)) [
              | inr panicked ↦ ground arith
              | inl (none, decoded) ↦ ground arith
              | inl (some tx, decoded) ↦ elim (List-cases (b.input tx)) [
                | inl empty ↦ ground arith
                | inr (x, xs, more) ↦ elim (List-cases xs) [
                  | inl one ↦ ground arith
                  | inr (y, ys, two) ↦ ground arith
                ]
              ]
            ]
      ]

  concluded :
      (e e' : IpcEngine) (job : DeclareMiningJob) (token : ℕ) (previous : Option ValidationContext)
      (now : ℕ) (response : Option JdResponse)
      → parse_token job.mining_job_token ≡ some token
      → conclude e job token none previous response now ≡ (e', DeclareMiningJobResult.success)
      → (v : Validated) × (v.job ≡ job)
        × (parse_token job.mining_job_token ≡ some v.token)
        × (validate e v ≡ e')
  unfolding conclude
  concluded e e' job token previous now none good h = ground arith
  concluded e e' job token previous now (some (JdResponse.error code c)) good h = ground arith
  concluded e e' job token previous now (some (JdResponse.missing_transactions w c)) good h =
      ground arith
  concluded e e' job token previous now (some (JdResponse.success p n t txids)) good h =
      let v : Validated = record {
        job = job;
        token = token;
        provided = none;
        previous = previous;
        context = record { prev_hash = p; nbits = n; min_ntime = t };
        txids = txids;
        now = now;
      } in
      (v, refl, good, ap (λ r. r.0) h)

  -- An accepted declaration was validated.
  success-validate :
      (e e' : IpcEngine) (job : DeclareMiningJob) (now : ℕ)
      → Declare.handle_declare_mining_job b core e job none now
        ≡ returns (e', DeclareMiningJobResult.success)
      → (v : Validated) × (v.job ≡ job)
        × (parse_token job.mining_job_token ≡ some v.token)
        × (validate e v ≡ e')
  unfolding Declare.handle_declare_mining_job
  success-validate e e' job now h = elim (Outcome-cases (begin b e job none)) [
    | inr panicked ↦ ground arith
    | inl (answers result, begun) ↦ ground (arith, answers-failure e job none)
    | inl (asks token request previous, begun) ↦
        concluded e e' job token previous now (core request)
          (asks-token e job none token request previous begun) (ground arith)
  ]

  module _ (sv2 : Sv2Lib) (now : ℕ) where
    set-accepted :
        (s : JobDeclarator IpcEngine) (e : IpcEngine) (active : ℕ) (v : Validated)
        (msg : SetCustomMiningJob)
        → parse_token msg.token ≡ some active
        → Tokens.allocated_from_active s.token_manager active ≡ some v.token
        → s.job_validator ≡ validate e v
        → Matches b (filed v) msg
        → (s' : JobDeclarator IpcEngine) × (handle_set_custom_mining_job ipc s msg
            ≡ returns (s', accepted msg.channel_id msg.request_id 0))
    unfolding handle_set_custom_mining_job
    set-accepted s e active v msg good known state m =
        let (e', valid) = validate-accepted b e v msg m in
        rw (good, handle_set_custom_mining_job, known, state, valid) (_, refl)

    -- A client whose declaration was answered with a success has a job on file: the one that it
    -- declared. The next `SetCustomMiningJob` with the token of that answer that matches the job is
    -- accepted, if nothing happens in between and the 64-bit counter of tokens did not overflow.
    pub declare-accepted :
        (s s' : JobDeclarator IpcEngine) (c id : ℕ) (job : DeclareMiningJob) (new_token : List ℕ)
        (r : Result JdsError (Unit {0}))
        → s.token_manager.token_factory < 2 ^ 64
        → handle_declare_mining_job sv2 ipc (quiet now) s (some c) job
          ≡ returns (s', (c, declare_mining_job_success id new_token) ∷ [], r)
        → (v : Validated) × (v.job ≡ job)
          × ((msg : SetCustomMiningJob)
              → msg.token ≡ new_token
              → Matches b (filed v) msg
              → (s'' : JobDeclarator IpcEngine) × (handle_set_custom_mining_job ipc s' msg
                  ≡ returns (s'', accepted msg.channel_id msg.request_id 0)))
    declare-accepted s s' c id job new_token r bound h =
        let (token, e, parsed, own, answered, fresh, active, spent, state) =
          declare-Granted sv2 ipc (quiet now) s s' c job id new_token r h in
        let (v, same, parsed', valid) = success-validate s.job_validator e job now answered in
        let token_of : token ≡ v.token = ground arith in
        (
          v,
          same,
          λ msg sent m.
              set-accepted s' s.job_validator s.token_manager.token_factory v msg
                (rw (sent, fresh) (parse_token-to_le_bytes s.token_manager.token_factory bound))
                (active ∙ ap some token_of) (state ∙ sym valid) m,
        )
