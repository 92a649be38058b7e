-- ===== src/Jds/Engine/History/Accepted.antt =====
-- A custom job is accepted only for a declaration that Bitcoin Core accepted.
use gridpool_sv2_pool.Prelude.{
  ℕ, ◌≡◌, ◌⊎◌, inl, inr, refl, sym, subst, true, false, Option, none, some, List, [], ◌∷◌, arith,
  returns, Outcome-cases, Option-cases,
}
use gridpool_sv2_pool.Map
use gridpool_sv2_pool.Map.{Map}
use gridpool_sv2_pool.Map.{get-empty, get-insert, get-remove}
use gridpool_sv2_pool.Jds.Bitcoin.{Bitcoin}
use gridpool_sv2_pool.Jds.Validator.{ValidationContext, JdResponse}
use gridpool_sv2_pool.Jds.Engine.Messages.{
  DeclareMiningJob, ProvideMissingTransactionsSuccess, SetCustomMiningJob, SetCustomMiningJobResult,
}
use gridpool_sv2_pool.Jds.Engine.State.{
  DeclaredCustomJob, IpcEngine, expired_tokens, remove_token, remove_tokens, janitor_round, store,
  forget,
}
use gridpool_sv2_pool.Jds.Engine.Declare.{conclude}
use gridpool_sv2_pool.Jds.Engine.Custom.{check_job, handle_set_custom_mining_job}
use gridpool_sv2_pool.Jds.Engine.Custom.Consume.{Matches, handle_set_custom_mining_job_iff}
use gridpool_sv2_pool.Jds.Engine.History.{EngineCall, concludes, sets, janitor_runs, step, run}

-- The response is a success with what the job on file holds.
abbrev Accepts : DeclaredCustomJob → DeclareMiningJob → Option JdResponse → Type 0
Accepts filed job (some (JdResponse.success prev_hash nbits min_ntime txids)) = filed ≡ record {
  declare_mining_job = job;
  validation_context = record { prev_hash = prev_hash; nbits = nbits; min_ntime = min_ntime };
  txid_list = some txids;
  validated = true;
}
Accepts filed job _ = ⊥

-- The call ends a declaration with that success.
abbrev AcceptedBy : DeclaredCustomJob → EngineCall → Type 0
AcceptedBy filed (concludes job token provided previous response now) = Accepts filed job response
AcceptedBy filed _ = ⊥

-- Some call of the list does.
abbrev pub WasAccepted : DeclaredCustomJob → List EngineCall → Type 0
WasAccepted filed [] = ⊥
WasAccepted filed (call ∷ calls) = AcceptedBy filed call ⊎ WasAccepted filed calls

-- The job is on file, and validated.
abbrev IsFiled : IpcEngine → ℕ → DeclaredCustomJob → Type 0
IsFiled e id job = (Map.get id e.declared_custom_jobs ≡ some job) × (job.validated ≡ true)

remove_token-IsFiled :
    (e : IpcEngine) (token id : ℕ) (job : DeclaredCustomJob)
    → IsFiled (remove_token e token) id job
    → IsFiled e id job
unfolding remove_token
remove_token-IsFiled e token id job h =
    elim (Option-cases (Map.get token e.allocated_token_entries)) [
      | inl unknown ↦ ground arith
      | inr (entry, known) ↦ ground (arith, get-remove entry.request_id id e.declared_custom_jobs)
    ]

remove_tokens-IsFiled :
    (e : IpcEngine) (tokens : List ℕ) (id : ℕ) (job : DeclaredCustomJob)
    → IsFiled (remove_tokens e tokens) id job
    → IsFiled e id job
unfolding remove_tokens
remove_tokens-IsFiled e [] id job h = h
remove_tokens-IsFiled e (token ∷ tokens) id job h =
    remove_token-IsFiled e token id job
      (remove_tokens-IsFiled (remove_token e token) tokens id job h)

inserted :
    (k id : ℕ) (v job : DeclaredCustomJob) (m : Map DeclaredCustomJob)
    → Map.get id (Map.insert k v m) ≡ some job
    → (job ≡ v) ⊎ (Map.get id m ≡ some job)
inserted k id v job m h = let h' = rw get-insert at h in ground arith

conclude-IsFiled :
    (e : IpcEngine) (job : DeclareMiningJob) (token : ℕ)
    (provided : Option ProvideMissingTransactionsSuccess) (previous : Option ValidationContext)
    (response : Option JdResponse) (now id : ℕ) (filed : DeclaredCustomJob)
    → IsFiled (conclude e job token provided previous response now).0 id filed
    → Accepts filed job response ⊎ IsFiled e id filed
unfolding conclude store forget
conclude-IsFiled e job token provided previous none now id filed h = inr h
conclude-IsFiled e job token provided previous (some (JdResponse.success p n t txids)) now id filed
      h =
    elim (inserted job.request_id id _ filed e.declared_custom_jobs h.0) [
      | inl new ↦ inl new
      | inr old ↦ inr (old, h.1)
    ]
conclude-IsFiled e job token provided previous (some (JdResponse.error code c)) now id filed h =
    ground (arith, get-remove job.request_id id e.declared_custom_jobs)
conclude-IsFiled e job token provided previous (some (JdResponse.missing_transactions w c)) now id
      filed h =
    ground (
      arith,
      inserted job.request_id id
          (record {
            declare_mining_job = job;
            validation_context = c;
            txid_list = none;
            validated = false;
          })
          filed e.declared_custom_jobs,
      get-remove job.request_id id e.declared_custom_jobs,
    )

module _ (b : Bitcoin) where
  set-IsFiled :
      (e e' : IpcEngine) (msg : SetCustomMiningJob) (token : ℕ) (result : SetCustomMiningJobResult)
      (id : ℕ) (job : DeclaredCustomJob)
      → handle_set_custom_mining_job b e msg token ≡ returns (e', result)
      → IsFiled e' id job
      → IsFiled e id job
  unfolding handle_set_custom_mining_job
  set-IsFiled e e' msg token result id job h f =
      elim (Option-cases (Map.get token e.allocated_token_entries)) [
        | inl unknown ↦ ground arith
        | inr (entry, known) ↦
            elim (Option-cases (Map.get entry.request_id e.declared_custom_jobs)) [
              | inl gone ↦ ground arith
              | inr (found_job, found) ↦ elim (Outcome-cases (check_job b found_job msg)) [
                | inl (r, c) ↦ ground (arith, get-remove entry.request_id id e.declared_custom_jobs)
                | inr c ↦ ground arith
              ]
            ]
      ]

  step-IsFiled :
      (e e' : IpcEngine) (call : EngineCall) (id : ℕ) (job : DeclaredCustomJob)
      → step b e call ≡ returns e'
      → IsFiled e' id job
      → AcceptedBy job call ⊎ IsFiled e id job
  unfolding step janitor_round
  step-IsFiled e e' (concludes job token provided previous response now) id filed h f =
      let e'' = (conclude e job token provided previous response now).0 in
      let same : e'' ≡ e' = ground arith in
      conclude-IsFiled e job token provided previous response now id filed
        (subst (λ x. IsFiled x id filed) (sym same) f)
  step-IsFiled e e' (sets msg token) id filed h f =
      elim (Outcome-cases (handle_set_custom_mining_job b e msg token)) [
        | inl ((e'', r), c) ↦ inr (set-IsFiled e e' msg token r id filed (ground arith) f)
        | inr c ↦ ground arith
      ]
  step-IsFiled e e' (janitor_runs now) id filed h f =
      let same : janitor_round e now ≡ e' = ground arith in
      inr (
        remove_tokens-IsFiled e (expired_tokens now (Map.entries e.allocated_token_entries)) id
          filed (subst (λ x. IsFiled x id filed) (sym same) f))

  run-IsFiled :
      (e e' : IpcEngine) (calls : List EngineCall) (id : ℕ) (job : DeclaredCustomJob)
      → run b e calls ≡ returns e'
      → IsFiled e' id job
      → WasAccepted job calls ⊎ IsFiled e id job
  unfolding run
  run-IsFiled e e' [] id job h f =
      let same : e ≡ e' = ground arith in inr (subst (λ x. IsFiled x id job) (sym same) f)
  run-IsFiled e e' (call ∷ calls) id job h f = elim (Outcome-cases (step b e call)) [
    | inr c ↦ ground arith
    | inl (e'', c) ↦ elim (run-IsFiled e'' e' calls id job (ground arith) f) [
      | inl was ↦ inl (inr was)
      | inr f' ↦ elim (step-IsFiled e e'' call id job c f') [
        | inl by ↦ inl (inl by)
        | inr f'' ↦ inr f''
      ]
    ]
  ]

  -- In any history from the start, a `SetCustomMiningJob` succeeds only if some earlier declaration
  -- of the history ended with Bitcoin Core's acceptance, and the message agrees with the job that
  -- was filed for that acceptance: in the context, the version, the coinbase and the merkle path.
  pub set-WasAccepted :
      (calls : List EngineCall) (e e' : IpcEngine) (msg : SetCustomMiningJob) (token : ℕ)
      → run b
          (record { allocated_token_entries = Map.empty; declared_custom_jobs = Map.empty })
          calls
        ≡ returns e
      → handle_set_custom_mining_job b e msg token ≡ returns (e', SetCustomMiningJobResult.success)
      → (job : DeclaredCustomJob) × WasAccepted job calls × Matches b job msg
  set-WasAccepted calls e e' msg token r h =
      let (entry, job, known, found, m) =
        (handle_set_custom_mining_job_iff b e e' msg token SetCustomMiningJobResult.success h).0.0
          refl in
      elim (run-IsFiled _ e calls entry.request_id job r (found, m.0)) [
        | inl was ↦ (job, was, m)
        | inr (f, v) ↦ ground (arith, get-empty {V = DeclaredCustomJob} entry.request_id)
      ]
