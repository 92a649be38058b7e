-- ===== src/Jds/Declarator/Authority.antt =====
-- What a `DeclareMiningJobSuccess` rests on.
use gridpool_sv2_pool.Prelude.{
  ℕ, ◌≡◌, refl, subst, ap, ◌∙◌, sym, true, false, none, some, List, [], ◌∷◌, Result, arith, inl,
  inr, parse_token, to_le_bytes, returns, Outcome-cases, Option-cases, Bool-cases,
}
use gridpool_sv2_pool.Map
use gridpool_sv2_pool.Map.{get-insert, get-remove}
use gridpool_sv2_pool.Jds.Tokens
use gridpool_sv2_pool.Jds.Engine.Messages.{
  DeclareMiningJob, DeclareMiningJobResult, JobValidationEngine,
}
use gridpool_sv2_pool.Jds.Declarator.State.{
  JobDeclarator, JdsError, declare_mining_job_success, Sv2Lib, Env,
}
use gridpool_sv2_pool.Jds.Declarator.Declare.{
  with_sender, answer_declaration, handle_declare_mining_job, activated,
}

pub activate-tokens :
    (m : Tokens.TokenManager) (token c now d : ℕ)
    → (Tokens.allocated_from_active (Tokens.activate m token c now).0 m.token_factory ≡ some token)
      × (Tokens.is_allocated (Tokens.activate m token c now).0 token d ≡ false)
unfolding Tokens.activate Tokens.allocated_from_active Tokens.is_allocated
activate-tokens m token c now d =
    let active : Map.get m.token_factory (Tokens.activate m token c now).0.active_tokens
        ≡ some (token, now, c) =
      rw get-insert (ground arith) in
    let spent : Map.get token (Tokens.activate m token c now).0.allocated_tokens ≡ none =
      rw get-remove (ground arith) in
    (rw (Tokens.allocated_from_active, active) refl, rw (Tokens.is_allocated, spent) refl)

module _ {E : Type 0} (sv2 : Sv2Lib) (engine : JobValidationEngine E) (env : Env E) where
  -- The state when the engine has answered.
  abbrev pub resumed : JobDeclarator E → E → JobDeclarator E
  resumed s e = env.during (record s { job_validator = e })

  -- The client was allocated the declaration's token, the engine accepted the job, and the new
  -- token is active for that token, which is allocated no more.
  abbrev pub Granted :
      JobDeclarator E → JobDeclarator E → (client_id : ℕ) → DeclareMiningJob → List ℕ → Type 0
  Granted s s' c msg new_token =
      (token : ℕ) × (e : E) × (parse_token msg.mining_job_token ≡ some token)
      × (Tokens.is_allocated s.token_manager token c ≡ true)
      × (engine.handle_declare_mining_job s.job_validator msg none env.now
          ≡ returns (e, DeclareMiningJobResult.success))
      × (new_token ≡ to_le_bytes 8 (resumed s e).token_manager.token_factory)
      × (Tokens.allocated_from_active s'.token_manager (resumed s e).token_manager.token_factory
          ≡ some token)
      × ((d : ℕ) → Tokens.is_allocated s'.token_manager token d ≡ false)
      × (s'.job_validator ≡ (resumed s e).job_validator)

  answer-success :
      (s s' : JobDeclarator E) (c : ℕ) (msg : DeclareMiningJob) (token id : ℕ) (new_token : List ℕ)
      (result : DeclareMiningJobResult) (r : Result JdsError (Unit {0}))
      → answer_declaration sv2 engine env s c msg token result
        ≡ returns (s', (c, declare_mining_job_success id new_token) ∷ [], r)
      → (result ≡ DeclareMiningJobResult.success)
        × (id ≡ msg.request_id)
        × (new_token ≡ to_le_bytes 8 s.token_manager.token_factory)
        × ((activated s token c env.later).0 ≡ s')
  unfolding answer_declaration Tokens.activate
  answer-success s s' c msg token id new_token DeclareMiningJobResult.success r h =
      (refl, ground arith, ground arith, ground arith)
  answer-success s s' c msg token id new_token (DeclareMiningJobResult.error code) r h =
      ground arith
  answer-success s s' c msg token id new_token (DeclareMiningJobResult.missing_transactions w) r h =
      elim (Option-cases (Map.get c s.downstream_clients)) [
        | inl gone ↦ ground arith
        | inr (downstream, there) ↦ ground arith
      ]

  -- A `DeclareMiningJobSuccess` in answer to a declaration: the client that gets it was allocated
  -- the declaration's token, the engine accepted the job, and the token it gets is active for that
  -- token, which is allocated to no client any more; whatever other tasks did during the wait.
  pub declare-Granted :
      (s s' : JobDeclarator E) (c : ℕ) (msg : DeclareMiningJob) (id : ℕ) (new_token : List ℕ)
      (r : Result JdsError (Unit {0}))
      → handle_declare_mining_job sv2 engine env s (some c) msg
        ≡ returns (s', (c, declare_mining_job_success id new_token) ∷ [], r)
      → Granted s s' c msg new_token
  unfolding handle_declare_mining_job
  declare-Granted s s' c msg id new_token r h =
      elim (Option-cases (Map.get c s.downstream_client_senders)) [
        | inl gone ↦ ground arith
        | inr (_, there) ↦ elim (Option-cases (parse_token msg.mining_job_token)) [
          | inl bad ↦ ground arith
          | inr (token, good) ↦ elim (Bool-cases (Tokens.is_allocated s.token_manager token c)) [
            | inr foreign ↦ ground arith
            | inl own ↦
                elim (Outcome-cases
                  (engine.handle_declare_mining_job s.job_validator msg none env.now)) [
                    | inr panicked ↦ ground arith
                    | inl ((e, result), answered) ↦
                        let h' = rw (with_sender, there, good, own, answered) at h in
                        let (success, _, fresh, state) =
                          answer-success (resumed s e) s' c msg token id new_token result r h' in
                        let tokens =
                          activate-tokens (resumed s e).token_manager token c env.later c in
                        (
                          token,
                          e,
                          good,
                          own,
                          answered ∙ ap (λ x. returns (e, x)) success,
                          fresh,
                          subst
                              (λ x.
                                Tokens.allocated_from_active x.token_manager
                                  (resumed s e).token_manager.token_factory
                                ≡ some token)
                              state tokens.0,
                          λ d.
                              subst (λ x. Tokens.is_allocated x.token_manager token d ≡ false) state
                                (activate-tokens (resumed s e).token_manager token c env.later d).1,
                          ap (λ x. x.job_validator) (sym state),
                        )
                  ]
          ]
        ]
      ]
