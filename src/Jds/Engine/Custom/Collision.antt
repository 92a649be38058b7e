-- ===== src/Jds/Engine/Custom/Collision.antt =====
-- From a validated declaration to its `SetCustomMiningJob`, and what becomes of two declarations
-- that carry the same request id: jobs are filed by the request id alone, which each client
-- chooses for itself.
use gridpool_sv2_pool.Prelude.{
  ℕ, ◌≡◌, ◌≢◌, refl, sym, subst, Outcome-cases, inl, inr, true, Option, none, some, List, arith,
  returns,
}
use gridpool_sv2_pool.Map
use gridpool_sv2_pool.Map.{get-insert, get-remove}
use gridpool_sv2_pool.Jds.Bitcoin.{Bitcoin}
use gridpool_sv2_pool.Jds.Validator.{ValidationContext, JdResponse}
use gridpool_sv2_pool.Jds.Engine.Messages.{
  DeclareMiningJob, ProvideMissingTransactionsSuccess, SetCustomMiningJob, SetErrorCode,
  SetCustomMiningJobResult,
}
use gridpool_sv2_pool.Jds.Engine.State.{DeclaredCustomJob, IpcEngine, AllocatedTokenEntry, store}
use gridpool_sv2_pool.Jds.Engine.Declare.{conclude}
use gridpool_sv2_pool.Jds.Engine.Custom.{check_job, handle_set_custom_mining_job}
use gridpool_sv2_pool.Jds.Engine.Custom.Consume.{
  Matches, check_job_iff, handle_set_custom_mining_job_iff,
}

-- A validated declaration: the job, its token, and the context and txids of the answer.
pub record Validated : Type 0 where
  pub job : DeclareMiningJob
  pub token : ℕ
  pub provided : Option ProvideMissingTransactionsSuccess
  pub previous : Option ValidationContext
  pub context : ValidationContext
  pub txids : List ℕ
  pub now : ℕ

-- What the engine is left with, and the job that it files.
abbrev pub validate : IpcEngine → Validated → IpcEngine
validate e v =
    (conclude e v.job v.token v.provided v.previous
      (some (JdResponse.success v.context.prev_hash v.context.nbits v.context.min_ntime v.txids))
      v.now).0

abbrev pub filed : Validated → DeclaredCustomJob
filed v = record {
  declare_mining_job = v.job;
  validation_context = v.context;
  txid_list = some v.txids;
  validated = true;
}

module _ (b : Bitcoin) where
  known_token :
      (e : IpcEngine) (msg : SetCustomMiningJob) (token : ℕ) (entry : AllocatedTokenEntry)
      (job : DeclaredCustomJob)
      → Map.get token e.allocated_token_entries ≡ some entry
      → Map.get entry.request_id e.declared_custom_jobs ≡ some job
      → Matches b job msg
      → (e' : IpcEngine) × (handle_set_custom_mining_job b e msg token
          ≡ returns (e', SetCustomMiningJobResult.success))
  unfolding handle_set_custom_mining_job
  known_token e msg token entry job known found m =
      let ok = (check_job_iff b job msg).1 m in
      rw (known, handle_set_custom_mining_job, found, ok) (_, refl)

  module _ (e : IpcEngine) (v : Validated) where
    -- A message that agrees with a job that was just validated is accepted under its token.
    pub validate-accepted :
        (msg : SetCustomMiningJob)
        → Matches b (filed v) msg
        → (e' : IpcEngine) × (handle_set_custom_mining_job b (validate e v) msg v.token
            ≡ returns (e', SetCustomMiningJobResult.success))
    unfolding conclude store
    validate-accepted msg m =
        known_token (validate e v) msg v.token
          (record { request_id = v.job.request_id; inserted_at = v.now }) (filed v)
          (rw get-insert (ground arith)) (rw get-insert (ground arith)) m

  module _ (e e' : IpcEngine) (msg : SetCustomMiningJob) (token : ℕ) (entry : AllocatedTokenEntry)
      (job : DeclaredCustomJob) (result : SetCustomMiningJobResult)
      (known : Map.get token e.allocated_token_entries ≡ some entry)
      (found : Map.get entry.request_id e.declared_custom_jobs ≡ some job)
      (h : handle_set_custom_mining_job b e msg token ≡ returns (e', result)) where
    matches : result ≡ SetCustomMiningJobResult.success → Matches b job msg
    matches s =
        let (entry', job', known', found', m) =
          (handle_set_custom_mining_job_iff b e e' msg token result h).0.0 s in
        let same_entry : entry ≡ entry' = ground arith in
        let same_job : job ≡ job' = ground arith in subst (λ j. Matches b j msg) (sym same_job) m

    leaves :
        (e'.allocated_token_entries ≡ Map.remove token e.allocated_token_entries)
        × (e'.declared_custom_jobs ≡ Map.remove entry.request_id e.declared_custom_jobs)
    unfolding handle_set_custom_mining_job
    leaves = elim (Outcome-cases (check_job b job msg)) [
      | inl (r, c) ↦ (ground arith, ground arith)
      | inr c ↦ ground arith
    ]

  -- A token whose job is gone.
  orphan_token :
      (e : IpcEngine) (msg : SetCustomMiningJob) (token : ℕ) (entry : AllocatedTokenEntry)
      → Map.get token e.allocated_token_entries ≡ some entry
      → Map.get entry.request_id e.declared_custom_jobs ≡ none
      → (e'' : IpcEngine) × (handle_set_custom_mining_job b e msg token
          ≡ returns (e'', SetCustomMiningJobResult.error SetErrorCode.invalid_mining_job_token))
  unfolding handle_set_custom_mining_job
  orphan_token e msg token entry known gone =
      rw (known, handle_set_custom_mining_job, gone) (_, refl)

  -- Two validated declarations under different tokens that carry one request id: the first token
  -- is accepted only for a message that agrees with the second declaration's job, and once the
  -- first token is presented, whatever the answer, the second is refused.
  pub validate-request_id :
      (e e' : IpcEngine) (v w : Validated) (msg : SetCustomMiningJob)
      (result : SetCustomMiningJobResult)
      → v.token ≢ w.token
      → v.job.request_id ≡ w.job.request_id
      → handle_set_custom_mining_job b (validate (validate e v) w) msg v.token
        ≡ returns (e', result)
      → (result ≡ SetCustomMiningJobResult.success → Matches b (filed w) msg)
        × ((msg' : SetCustomMiningJob)
            → (e'' : IpcEngine) × (handle_set_custom_mining_job b e' msg' w.token
                ≡ returns
                    (e'', SetCustomMiningJobResult.error SetErrorCode.invalid_mining_job_token)))
  unfolding conclude store
  validate-request_id e e' v w msg result different same h =
      let two = validate (validate e v) w in
      let entry : AllocatedTokenEntry = record {
        request_id = v.job.request_id;
        inserted_at = v.now;
      } in
      let entry' : AllocatedTokenEntry = record {
        request_id = w.job.request_id;
        inserted_at = w.now;
      } in
      let known : Map.get v.token two.allocated_token_entries ≡ some entry =
        rw (get-insert, get-insert) (ground arith) in
      let known' : Map.get w.token two.allocated_token_entries ≡ some entry' =
        rw get-insert (ground arith) in
      let found : Map.get entry.request_id two.declared_custom_jobs ≡ some (filed w) =
        rw get-insert (ground arith) in
      let (tokens, jobs) = leaves two e' msg v.token entry (filed w) result known found h in
      (
        matches two e' msg v.token entry (filed w) result known found h,
        λ msg'.
            orphan_token e' msg' w.token entry' (rw (tokens, get-remove) (ground arith))
              (rw (jobs, get-remove) (ground arith)),
      )
