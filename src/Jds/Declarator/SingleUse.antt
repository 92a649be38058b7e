-- ===== src/Jds/Declarator/SingleUse.antt =====
-- An active token buys one `SetCustomMiningJob`.
use gridpool_sv2_pool.Prelude.{
  ℕ, ◌≡◌, refl, subst, none, some, arith, inl, inr, parse_token, returns, Outcome-cases,
  Option-cases,
}
use gridpool_sv2_pool.Map
use gridpool_sv2_pool.Map.{get-remove}
use gridpool_sv2_pool.Jds.Tokens
use gridpool_sv2_pool.Jds.Engine.Messages.{SetCustomMiningJob, SetErrorCode, JobValidationEngine}
use gridpool_sv2_pool.Jds.Declarator.State.{JobDeclarator, SetCustomMiningJobResponse, rejected}
use gridpool_sv2_pool.Jds.Declarator.Custom.{handle_set_custom_mining_job}

allocated_from_active-deactivate :
    (m : Tokens.TokenManager) (t : ℕ)
    → Tokens.allocated_from_active (Tokens.deactivate m t) t ≡ none
unfolding Tokens.allocated_from_active Tokens.deactivate
allocated_from_active-deactivate m t =
    let gone : Map.get t (Map.remove t m.active_tokens) ≡ none = rw get-remove (ground arith) in
    rw (Tokens.allocated_from_active, gone) refl

module _ {E : Type 0} (engine : JobValidationEngine E) where
  refused :
      (s : JobDeclarator E) (msg : SetCustomMiningJob) (t : ℕ)
      → parse_token msg.token ≡ some t
      → Tokens.allocated_from_active s.token_manager t ≡ none
      → handle_set_custom_mining_job engine s msg
        ≡ returns (s, rejected msg.request_id msg.channel_id SetErrorCode.invalid_mining_job_token)
  unfolding handle_set_custom_mining_job
  refused s msg t e n = rw (e, handle_set_custom_mining_job, n) refl

  unparsed :
      (s : JobDeclarator E) (msg : SetCustomMiningJob)
      → parse_token msg.token ≡ none
      → handle_set_custom_mining_job engine s msg
        ≡ returns (s, rejected msg.request_id msg.channel_id SetErrorCode.invalid_mining_job_token)
  unfolding handle_set_custom_mining_job
  unparsed s msg e = rw (e, handle_set_custom_mining_job) refl

  -- Once a `SetCustomMiningJob` was answered, whatever the engine and the answer, the next message
  -- with the same token is refused as one of an unknown token, and changes nothing.
  pub set-refused_again :
      (s s' : JobDeclarator E) (msg again : SetCustomMiningJob) (r : SetCustomMiningJobResponse)
      → again.token ≡ msg.token
      → handle_set_custom_mining_job engine s msg ≡ returns (s', r)
      → handle_set_custom_mining_job engine s' again
        ≡ returns
            (s', rejected again.request_id again.channel_id SetErrorCode.invalid_mining_job_token)
  unfolding handle_set_custom_mining_job
  set-refused_again s s' msg again r same h = elim (Option-cases (parse_token msg.token)) [
    | inl bad ↦ unparsed s' again (rw (same, bad) refl)
    | inr (t, good) ↦ elim (Option-cases (Tokens.allocated_from_active s.token_manager t)) [
      | inl unknown ↦
          let kept : s.token_manager ≡ s'.token_manager = ground arith in
          refused s' again t (rw (same, good) refl)
            (subst (λ m. Tokens.allocated_from_active m t ≡ none) kept unknown)
      | inr (a, known) ↦
          elim (Outcome-cases (engine.handle_set_custom_mining_job s.job_validator msg a)) [
            | inr panicked ↦ ground arith
            | inl ((e, result), answered) ↦
                let spent : Tokens.deactivate s.token_manager t ≡ s'.token_manager = ground arith in
                refused s' again t (rw (same, good) refl) (
                  subst (λ m. Tokens.allocated_from_active m t ≡ none) spent
                    (allocated_from_active-deactivate s.token_manager t))
          ]
    ]
  ]
