-- ===== src/Jds/Declarator/Responses.antt =====
-- Every request gets one response, under its own id, or an error and none.
use gridpool_sv2_pool.Prelude.{
  ℕ, ◌≡◌, refl, subst, none, some, [], ◌∷◌, ok, err, inl, inr, parse_token, Outcome, returns,
  panics, Outcome-cases, Option-cases, Bool-cases,
}
use gridpool_sv2_pool.Map
use gridpool_sv2_pool.Payout.Mode.{TxOut}
use gridpool_sv2_pool.Jds.Tokens
use gridpool_sv2_pool.Jds.Engine.Messages.{
  DeclareMiningJob, ProvideMissingTransactionsSuccess, DeclareMiningJobResult, JobValidationEngine,
}
use gridpool_sv2_pool.Jds.Declarator.State.{
  JobDeclarator, JobDeclaration, declare_mining_job_success, declare_mining_job_error,
  allocate_mining_job_token_success, provide_missing_transactions, Sv2Lib, Env, Handled, send,
}
use gridpool_sv2_pool.Jds.Declarator.Declare.{
  handle_allocate_mining_job_token, answer_declaration, handle_declare_mining_job, answer_provided,
  unknown_positions, handle_provide_missing_transactions_success,
}

abbrev pub request_id_of : JobDeclaration → ℕ
request_id_of (allocate_mining_job_token_success id _ _) = id
request_id_of (declare_mining_job_success id _) = id
request_id_of (declare_mining_job_error id _) = id
request_id_of (provide_missing_transactions id _) = id

-- One response to the client under the request's id if the call is fine, and else no message.
abbrev pub OneResponse : {E : Type 0} → (client_id request_id : ℕ) → Handled E → Type 0
OneResponse client_id request_id (s, sent, ok _) =
    (m : JobDeclaration) × (sent ≡ (client_id, m) ∷ []) × (request_id_of m ≡ request_id)
OneResponse client_id request_id (s, sent, err e) = sent ≡ []

-- If the outcome is a return.
abbrev Responding : {E : Type 0} → (client_id request_id : ℕ) → Outcome (Handled E) → Type 0
Responding client_id request_id (returns h) = OneResponse client_id request_id h
Responding client_id request_id panics = Unit

module _ {E : Type 0} (sv2 : Sv2Lib) (engine : JobValidationEngine E) (env : Env E) where
  send-Responding :
      (s : JobDeclarator E) (c : ℕ) (m : JobDeclaration)
      → Responding c (request_id_of m) (send env s c m)
  send-Responding s c m = elim (Bool-cases (env.is_open c)) [
    | inl e ↦ rw e (m, refl, refl)
    | inr e ↦ rw e refl
  ]

  answer_declaration-Responding :
      (s : JobDeclarator E) (c : ℕ) (msg : DeclareMiningJob) (token : ℕ)
      (r : DeclareMiningJobResult)
      → Responding c msg.request_id (answer_declaration sv2 engine env s c msg token r)
  unfolding answer_declaration
  answer_declaration-Responding s c msg token DeclareMiningJobResult.success = send-Responding _ c _
  answer_declaration-Responding s c msg token (DeclareMiningJobResult.error code) =
      send-Responding _ c _
  answer_declaration-Responding s c msg token (DeclareMiningJobResult.missing_transactions wtxids) =
      elim (Option-cases (Map.get c s.downstream_clients)) [
        | inl gone ↦ rw (Responding, gone) refl
        | inr (downstream, there) ↦
            elim (Bool-cases (sv2.fits_seq_064k (unknown_positions msg.wtxid_list wtxids))) [
              | inl fits ↦ rw (Responding, there, fits) (send-Responding _ c _)
              | inr fits ↦ rw (Responding, there, fits) refl
            ]
      ]

  answer_provided-Responding :
      (s : JobDeclarator E) (c request_id token : ℕ) (r : DeclareMiningJobResult)
      → Responding c request_id (answer_provided sv2 engine env s c request_id token r)
  unfolding answer_provided
  answer_provided-Responding s c id token DeclareMiningJobResult.success = send-Responding _ c _
  answer_provided-Responding s c id token (DeclareMiningJobResult.error code) =
      send-Responding _ c _
  answer_provided-Responding s c id token (DeclareMiningJobResult.missing_transactions w) =
      send-Responding _ c _

  allocate-Responding :
      (s : JobDeclarator E) (c request_id : ℕ)
      → Responding c request_id
          (handle_allocate_mining_job_token sv2 engine env s (some c) request_id)
  unfolding handle_allocate_mining_job_token
  allocate-Responding s c id =
      let output : TxOut = record {
        value = 0;
        script_pubkey = s.coinbase_reward_script.script_pubkey;
      } in
      elim (Bool-cases (sv2.fits_b0_64k (sv2.serialize_outputs (output ∷ [])))) [
        | inr long ↦ rw (Responding, long) tt
        | inl fits ↦ elim (Option-cases (Map.get c s.downstream_client_senders)) [
          | inl gone ↦ rw (Responding, fits, gone) refl
          | inr (_, there) ↦ rw (Responding, fits, there) (send-Responding _ c _)
        ]
      ]

  declare-Responding :
      (s : JobDeclarator E) (c : ℕ) (msg : DeclareMiningJob)
      → Responding c msg.request_id (handle_declare_mining_job sv2 engine env s (some c) msg)
  unfolding handle_declare_mining_job
  declare-Responding s c msg = elim (Option-cases (Map.get c s.downstream_client_senders)) [
    | inl gone ↦ rw (Responding, gone) refl
    | inr (_, there) ↦ elim (Option-cases (parse_token msg.mining_job_token)) [
      | inl bad ↦ rw (Responding, there, bad) (send-Responding _ c _)
      | inr (token, good) ↦ elim (Bool-cases (Tokens.is_allocated s.token_manager token c)) [
        | inr foreign ↦ rw (Responding, there, good, foreign) (send-Responding _ c _)
        | inl own ↦
            elim (Outcome-cases
              (engine.handle_declare_mining_job s.job_validator msg none env.now)) [
                | inr panicked ↦ rw (Responding, there, good, own, panicked) tt
                | inl ((e, r), answered) ↦
                    rw (Responding, there, good, own, answered)
                      (answer_declaration-Responding _ c msg token r)
              ]
      ]
    ]
  ]

  provide-Responding :
      (s : JobDeclarator E) (c : ℕ) (msg : ProvideMissingTransactionsSuccess)
      → Responding c msg.request_id
          (handle_provide_missing_transactions_success sv2 engine env s (some c) msg)
  unfolding handle_provide_missing_transactions_success
  provide-Responding s c msg = elim (Option-cases (Map.get c s.downstream_client_senders)) [
    | inl gone ↦ rw (Responding, gone) refl
    | inr (_, there) ↦ elim (Option-cases (Map.get c s.downstream_clients)) [
      | inl left ↦ rw (Responding, there, left) refl
      | inr (downstream, here) ↦
          elim (Option-cases (Map.get msg.request_id downstream.pending_declare_mining_jobs)) [
            | inl unknown ↦ rw (Responding, there, here, unknown) refl
            | inr ((at, pending), known) ↦
                elim (Option-cases (parse_token pending.mining_job_token)) [
                  | inl bad ↦ rw (Responding, there, here, known, bad) tt
                  | inr (token, good) ↦
                      elim (Outcome-cases (
                        engine.handle_declare_mining_job s.job_validator pending (some msg)
                          env.now)) [
                            | inr panicked ↦ rw (Responding, there, here, known, good, panicked) tt
                            | inl ((e, r), answered) ↦
                                rw (Responding, there, here, known, good, answered)
                                  (answer_provided-Responding _ c msg.request_id token r)
                          ]
                ]
          ]
    ]
  ]

  responded :
      (c request_id : ℕ) (o : Outcome (Handled E)) (h : Handled E)
      → o ≡ returns h
      → Responding c request_id o
      → OneResponse c request_id h
  responded c id o h e = subst (Responding c id) e

  -- For each request of a client, a handler that ends without an error has sent one message: to
  -- that client, under the id of the request. A handler that ends with an error has sent none.
  pub handlers-OneResponse :
      (s : JobDeclarator E) (c request_id : ℕ) (declared : DeclareMiningJob)
      (provided : ProvideMissingTransactionsSuccess) (h : Handled E)
      → (handle_allocate_mining_job_token sv2 engine env s (some c) request_id ≡ returns h
          → OneResponse c request_id h)
        × (handle_declare_mining_job sv2 engine env s (some c) declared ≡ returns h
            → OneResponse c declared.request_id h)
        × (handle_provide_missing_transactions_success sv2 engine env s (some c) provided
              ≡ returns h
            → OneResponse c provided.request_id h)
  handlers-OneResponse s c id declared provided h = (
    λ e. responded c id _ h e (allocate-Responding s c id),
    λ e. responded c declared.request_id _ h e (declare-Responding s c declared),
    λ e. responded c provided.request_id _ h e (provide-Responding s c provided),
  )
