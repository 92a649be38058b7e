-- ===== src/Jds/Declarator/Reactivation.antt =====
-- `handle_provide_missing_transactions_success` of job_declaration_message_handler.rs activates the
-- token of a pending declaration without asking whether it is still allocated.
use gridpool_sv2_pool.Prelude.{
  ℕ, ◌+◌, ◌<◌, ◌^◌, ◌≡◌, ◌≢◌, refl, subst, true, false, some, [], ◌∷◌, ok, arith, parse_token,
  to_le_bytes, returns,
}
use gridpool_sv2_pool.Map
use gridpool_sv2_pool.Map.{get-insert, get-remove}
use gridpool_sv2_pool.Jds.Tokens
use gridpool_sv2_pool.Jds.Tokens.{fetch_add_one}
use gridpool_sv2_pool.Jds.Engine.Messages.{
  DeclareMiningJob, ProvideMissingTransactionsSuccess, DeclareMiningJobResult, JobValidationEngine,
}
use gridpool_sv2_pool.Jds.Declarator.State.{
  Downstream, JobDeclarator, declare_mining_job_success, Sv2Lib, Env,
}
use gridpool_sv2_pool.Jds.Declarator.Authority.{activate-tokens}
use gridpool_sv2_pool.Jds.Declarator.Declare.{
  with_sender, activated, answer_provided, without_pending,
  handle_provide_missing_transactions_success,
}

-- Every channel is open, and no other task does anything.
abbrev pub quiet : {E : Type 0} → (now : ℕ) → Env E
quiet now = record { now = now; later = now; is_open = λ _. true; during = λ s. s }

-- The client is there, and its pending declaration has the token.
abbrev pub Pending :
    {E : Type 0}
    → JobDeclarator E
    → (client_id : ℕ) → Downstream
    → (request_id : ℕ) → DeclareMiningJob
    → (token : ℕ) → Type 0
Pending s c d request_id job token =
    (Map.get c s.downstream_client_senders ≡ some tt)
    × (Map.get c s.downstream_clients ≡ some d)
    × ((at : ℕ) × (Map.get request_id d.pending_declare_mining_jobs ≡ some (at, job)))
    × (parse_token job.mining_job_token ≡ some token)

abbrev after : Tokens.TokenManager → (token c now : ℕ) → Tokens.TokenManager
after m token c now = (Tokens.activate m token c now).0

activate_twice :
    (m : Tokens.TokenManager) (token c now : ℕ)
    → m.token_factory + 1 < 2 ^ 64
    → ((after m token c now).token_factory ≡ m.token_factory + 1)
      × (Tokens.is_allocated (after m token c now) token c ≡ false)
      × (Tokens.allocated_from_active (after (after m token c now) token c now) m.token_factory
          ≡ some token)
      × (Tokens.allocated_from_active
            (after (after m token c now) token c now)
            (m.token_factory + 1)
          ≡ some token)
unfolding Tokens.activate Tokens.allocated_from_active
activate_twice m token c now bound =
    let m' = after m token c now in
    let counter : m'.token_factory ≡ m.token_factory + 1 = omega arith in
    let kept : Map.get m.token_factory (after m' token c now).active_tokens ≡ some (token, now, c) =
      rw (get-insert, get-insert) (ground arith) in
    (
      counter,
      (activate-tokens m token c now c).1,
      rw (Tokens.allocated_from_active, kept) refl,
      subst (λ n. Tokens.allocated_from_active (after m' token c now) n ≡ some token) counter
          (activate-tokens m' token c now c).0,
    )

module _ {E : Type 0} (sv2 : Sv2Lib) (engine : JobValidationEngine E) (now : ℕ) where
  abbrev granted :
      JobDeclarator E → E → (c : ℕ) → Downstream → (request_id token : ℕ) → JobDeclarator E
  granted s e c d request_id token =
      (activated (record (without_pending sv2 engine s c d request_id) { job_validator = e }) token
        c now).0

  provide-granted :
      (s : JobDeclarator E) (e : E) (c : ℕ) (d : Downstream) (job : DeclareMiningJob) (token : ℕ)
      (msg : ProvideMissingTransactionsSuccess)
      → Pending s c d msg.request_id job token
      → engine.handle_declare_mining_job s.job_validator job (some msg) now
        ≡ returns (e, DeclareMiningJobResult.success)
      → handle_provide_missing_transactions_success sv2 engine (quiet now) s (some c) msg
        ≡ returns (
          granted s e c d msg.request_id token,
          (
            c,
            declare_mining_job_success msg.request_id (to_le_bytes 8 s.token_manager.token_factory),
          )
              ∷ [],
          ok tt,
        )
  unfolding handle_provide_missing_transactions_success answer_provided Tokens.activate
  provide-granted s e c d job token msg (there, here, (at, known), good) answered =
      rw (with_sender, there, here, known, good, answered) refl

  module _ (s : JobDeclarator E) (e f : E) (c : ℕ) (d : Downstream) (job job' : DeclareMiningJob)
      (token : ℕ) (msg msg' : ProvideMissingTransactionsSuccess) where
    still-Pending :
        Pending s c d msg'.request_id job' token
        → msg.request_id ≢ msg'.request_id
        → Pending
            (granted s e c d msg.request_id token)
            c
            (record {
              pending_declare_mining_jobs = Map.remove msg.request_id d.pending_declare_mining_jobs;
            })
            msg'.request_id
            job'
            token
    still-Pending (there, here, (at, known), good) other =
        (there, rw get-insert (ground arith), (at, rw get-remove (ground arith)), good)

    -- Two declarations of a client under one token, both of which wait for transactions: if the
    -- engine accepts both, the client gets two different tokens that are both active for the one
    -- token, though that token was used up by the first (below the end of the 64-bit counter).
    pub provide-two_active :
        Pending s c d msg.request_id job token
        → Pending s c d msg'.request_id job' token
        → msg.request_id ≢ msg'.request_id
        → engine.handle_declare_mining_job s.job_validator job (some msg) now
          ≡ returns (e, DeclareMiningJobResult.success)
        → engine.handle_declare_mining_job e job' (some msg') now
          ≡ returns (f, DeclareMiningJobResult.success)
        → s.token_manager.token_factory + 1 < 2 ^ 64
        → (s' s'' : JobDeclarator E) × (handle_provide_missing_transactions_success sv2 engine
              (quiet now)
              s
              (some c)
              msg
            ≡ returns (
              s',
              (
                c,
                declare_mining_job_success msg.request_id
                    (to_le_bytes 8 s.token_manager.token_factory),
              )
                  ∷ [],
              ok tt,
            ))
          × (handle_provide_missing_transactions_success sv2 engine (quiet now) s' (some c) msg'
              ≡ returns (
                s'',
                (
                  c,
                  declare_mining_job_success msg'.request_id
                      (to_le_bytes 8 (s.token_manager.token_factory + 1)),
                )
                    ∷ [],
                ok tt,
              ))
          × (Tokens.is_allocated s'.token_manager token c ≡ false)
          × (Tokens.allocated_from_active s''.token_manager s.token_manager.token_factory
              ≡ some token)
          × (Tokens.allocated_from_active s''.token_manager (s.token_manager.token_factory + 1)
              ≡ some token)
    provide-two_active p p' other accepts accepts' bound =
        let first = granted s e c d msg.request_id token in
        let d' : Downstream = record {
          pending_declare_mining_jobs = Map.remove msg.request_id d.pending_declare_mining_jobs;
        } in
        let second = granted first f c d' msg'.request_id token in
        let (counter, spent, active, active') = activate_twice s.token_manager token c now bound in
        (
          first,
          second,
          provide-granted s e c d job token msg p accepts,
          subst
              (λ n.
                handle_provide_missing_transactions_success sv2 engine (quiet now) first (some c)
                  msg'
                ≡ returns (
                  second,
                  (c, declare_mining_job_success msg'.request_id (to_le_bytes 8 n)) ∷ [],
                  ok tt,
                ))
              counter
              (provide-granted first f c d' job' token msg' (still-Pending p' other) accepts'),
          spent,
          active,
          active',
        )
