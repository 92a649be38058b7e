-- ===== src/Jds/Engine/Custom/Consume.antt =====
-- What `SetCustomMiningJob` is accepted for, and what it leaves behind.
use gridpool_sv2_pool.Prelude.{
  ℕ, ◌≡◌, ◌↔◌, refl, true, Option, none, some, List, [], ◌∷◌, arith, starts_with, list_eq_sound,
  list_eq_refl, Outcome, returns, Outcome-cases, Option-cases, inl, inr,
}
use gridpool_sv2_pool.Map
use gridpool_sv2_pool.Map.{get-remove}
use gridpool_sv2_pool.Jds.Bitcoin.{Bitcoin, TxIn}
use gridpool_sv2_pool.Jds.Engine.Messages.{
  SetCustomMiningJob, SetErrorCode, SetCustomMiningJobResult,
}
use gridpool_sv2_pool.Jds.Engine.Coinbase.{get_coinbase_tx}
use gridpool_sv2_pool.Jds.Engine.State.{DeclaredCustomJob, AllocatedTokenEntry, IpcEngine}
use gridpool_sv2_pool.Jds.Engine.Custom.{
  get_merkle_path, check_path, check_coinbase, check_job, handle_set_custom_mining_job,
}

module _ (b : Bitcoin) where
  open b use {Transaction, version, lock_time, input, serialized_outputs}

  -- The message agrees with a coinbase transaction.
  abbrev pub MatchesCoinbase : Transaction → List TxIn → SetCustomMiningJob → Type 0
  MatchesCoinbase tx [] msg = ⊥
  MatchesCoinbase tx (txin ∷ _) msg =
      (version tx ≡ msg.coinbase_tx_version)
      × (starts_with txin.script_sig msg.coinbase_prefix ≡ true)
      × (txin.sequence ≡ msg.coinbase_tx_input_n_sequence)
      × (serialized_outputs tx ≡ msg.coinbase_tx_outputs)
      × (lock_time tx ≡ msg.coinbase_tx_locktime)

  -- The message agrees with a declared job: in the validation's context, the version, the
  -- coinbase, and the path.
  abbrev pub Matches : DeclaredCustomJob → SetCustomMiningJob → Type 0
  Matches job msg =
      (job.validated ≡ true)
      × (msg.prev_hash ≡ job.validation_context.prev_hash)
      × (msg.nbits ≡ job.validation_context.nbits)
      × (msg.version ≡ job.declare_mining_job.version)
      × ((tx : Transaction) × (get_coinbase_tx b job.declare_mining_job.coinbase_tx_prefix
              job.declare_mining_job.coinbase_tx_suffix
            ≡ returns (some tx))
          × MatchesCoinbase tx (input tx) msg)
      × (get_merkle_path b job ≡ returns (some msg.merkle_path))

  abbrev coinbase_of : DeclaredCustomJob → Outcome (Option Transaction)
  coinbase_of job =
      get_coinbase_tx b job.declare_mining_job.coinbase_tx_prefix
        job.declare_mining_job.coinbase_tx_suffix

  check_path_iff :
      (job : DeclaredCustomJob) (msg : SetCustomMiningJob)
      → (check_path b job msg ≡ returns SetCustomMiningJobResult.success)
        ↔ (get_merkle_path b job ≡ returns (some msg.merkle_path))
  unfolding check_path
  check_path_iff job msg = (
    λ h. elim (Outcome-cases (get_merkle_path b job)) [
      | inr e ↦ ground arith
      | inl (o, e) ↦ elim (Option-cases o) [
        | inl e' ↦ ground arith
        | inr (path, e') ↦ ground (arith, list_eq_sound path msg.merkle_path)
      ]
    ],
    λ e. ground (arith, list_eq_refl msg.merkle_path),
  )

  check_coinbase_iff :
      (tx : Transaction) (inputs : List TxIn) (msg : SetCustomMiningJob)
      (rest : Outcome SetCustomMiningJobResult)
      → (check_coinbase b tx inputs msg rest ≡ returns SetCustomMiningJobResult.success)
        ↔ (MatchesCoinbase tx inputs msg × (rest ≡ returns SetCustomMiningJobResult.success))
  unfolding check_coinbase
  check_coinbase_iff tx [] msg rest = (λ h. ground arith, λ h. absurd h.0)
  check_coinbase_iff tx (txin ∷ more) msg rest = (
    λ h. ground (arith, list_eq_sound (serialized_outputs tx) msg.coinbase_tx_outputs),
    λ h. ground (arith, list_eq_refl (serialized_outputs tx)),
  )

  pub check_job_iff :
      (job : DeclaredCustomJob) (msg : SetCustomMiningJob)
      → (check_job b job msg ≡ returns SetCustomMiningJobResult.success) ↔ Matches job msg
  unfolding check_job
  check_job_iff job msg = (
    λ h. elim (Outcome-cases (coinbase_of job)) [
      | inr e ↦ ground arith
      | inl (o, e) ↦ elim (Option-cases o) [
        | inl e' ↦ ground arith
        | inr (tx, e') ↦
            let coinbase = check_coinbase_iff tx (input tx) msg (check_path b job msg) in
            let path = check_path_iff job msg in
            (
              ground arith,
              ground arith,
              ground arith,
              ground arith,
              (tx, ground arith, ground (arith, coinbase.0)),
              ground (arith, coinbase.0, path.0),
            )
      ]
    ],
    λ (v, p, n, w, (tx, e, c), m). ground (
      arith,
      (check_coinbase_iff tx (input tx) msg (check_path b job msg)).1,
      (check_path_iff job msg).1,
    ),
  )

  -- The token is on file, with a job that the message agrees with.
  abbrev pub Agrees : IpcEngine → SetCustomMiningJob → ℕ → Type 0
  Agrees e msg token =
      (entry : AllocatedTokenEntry) × (job : DeclaredCustomJob) × (Map.get token
          e.allocated_token_entries
        ≡ some entry)
      × (Map.get entry.request_id e.declared_custom_jobs ≡ some job)
      × Matches job msg

  pub unknown_token :
      (e : IpcEngine) (msg : SetCustomMiningJob) (token : ℕ)
      → Map.get token e.allocated_token_entries ≡ none
      → handle_set_custom_mining_job b e msg token
        ≡ returns (e, SetCustomMiningJobResult.error SetErrorCode.invalid_mining_job_token)
  unfolding handle_set_custom_mining_job
  unknown_token e msg token n = rw (n, handle_set_custom_mining_job) refl

  module _ (e e' : IpcEngine) (msg : SetCustomMiningJob) (token : ℕ)
      (result : SetCustomMiningJobResult)
      (h : handle_set_custom_mining_job b e msg token ≡ returns (e', result)) where
    spent : Map.get token e'.allocated_token_entries ≡ none
    unfolding handle_set_custom_mining_job
    spent = elim (Option-cases (Map.get token e.allocated_token_entries)) [
      | inl unknown ↦ ground arith
      | inr (entry, known) ↦ elim (Option-cases (Map.get entry.request_id e.declared_custom_jobs)) [
        | inl unknown ↦ ground (arith, get-remove token token e.allocated_token_entries)
        | inr (job, found) ↦ elim (Outcome-cases (check_job b job msg)) [
          | inl (r, c) ↦ ground (arith, get-remove token token e.allocated_token_entries)
          | inr c ↦ ground arith
        ]
      ]
    ]

    agrees : result ≡ SetCustomMiningJobResult.success → Agrees e msg token
    unfolding handle_set_custom_mining_job
    agrees s = elim (Option-cases (Map.get token e.allocated_token_entries)) [
      | inl unknown ↦ ground arith
      | inr (entry, known) ↦ elim (Option-cases (Map.get entry.request_id e.declared_custom_jobs)) [
        | inl unknown ↦ ground arith
        | inr (job, found) ↦ elim (Outcome-cases (check_job b job msg)) [
          | inl (r, c) ↦
              let ok : check_job b job msg ≡ returns SetCustomMiningJobResult.success =
                ground arith in
              (entry, job, known, found, (check_job_iff job msg).0 ok)
          | inr c ↦ ground arith
        ]
      ]
    ]

    succeeds : Agrees e msg token → result ≡ SetCustomMiningJobResult.success
    unfolding handle_set_custom_mining_job
    succeeds (entry, job, known, found, m) = let ok = (check_job_iff job msg).1 m in ground arith

  -- Whatever the engine answers to a `SetCustomMiningJob`: the answer is a success exactly if the
  -- token was on file, with a declared job that the message agrees with in every respect; and the
  -- token is spent, so that a later message with it is refused and changes nothing.
  pub handle_set_custom_mining_job_iff :
      (e e' : IpcEngine) (msg : SetCustomMiningJob) (token : ℕ) (result : SetCustomMiningJobResult)
      → handle_set_custom_mining_job b e msg token ≡ returns (e', result)
      → ((result ≡ SetCustomMiningJobResult.success) ↔ Agrees e msg token)
        × ((msg' : SetCustomMiningJob)
            → handle_set_custom_mining_job b e' msg' token
              ≡ returns (e', SetCustomMiningJobResult.error SetErrorCode.invalid_mining_job_token))
  handle_set_custom_mining_job_iff e e' msg token result h = (
    (agrees e e' msg token result h, succeeds e e' msg token result h),
    λ msg'. unknown_token e' msg' token (spent e e' msg token result h),
  )
