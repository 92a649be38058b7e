-- ===== src/Jds/Engine/Declare/Panics.antt =====
-- The declarations on which the engine of job_validation/bitcoin_core_ipc.rs panics.
use gridpool_sv2_pool.Prelude.{
  ℕ, ◌≡◌, ◌↔◌, refl, inl, inr, Option, some, arith, parse_token, panics, Outcome-cases,
  Option-cases,
}
use gridpool_sv2_pool.Jds.Bitcoin.{Bitcoin}
use gridpool_sv2_pool.Jds.Validator.{JdResponse, Declared}
use gridpool_sv2_pool.Jds.Engine.Messages.{DeclareMiningJob, ProvideMissingTransactionsSuccess}
use gridpool_sv2_pool.Jds.Engine.State.{IpcEngine}
use gridpool_sv2_pool.Jds.Engine.Coinbase.{get_coinbase_tx}
use gridpool_sv2_pool.Jds.Engine.Coinbase.Panics.{IsMalformed, get_coinbase_tx_panics_iff}
use gridpool_sv2_pool.Jds.Engine.Declare.{answers, asks, begin, handle_declare_mining_job}

module _ (b : Bitcoin) where
  begin_panics_iff :
      (e : IpcEngine) (job : DeclareMiningJob) (provided : Option ProvideMissingTransactionsSuccess)
      → (begin b e job provided ≡ panics) ↔ (
          ((token : ℕ) × (parse_token job.mining_job_token ≡ some token))
          × (get_coinbase_tx b job.coinbase_tx_prefix job.coinbase_tx_suffix ≡ panics))
  unfolding begin
  begin_panics_iff e job provided = elim (Option-cases (parse_token job.mining_job_token)) [
    | inl e ↦ ground arith
    | inr (token, e) ↦
        elim (Outcome-cases (get_coinbase_tx b job.coinbase_tx_prefix job.coinbase_tx_suffix)) [
          | inl (o, e') ↦ ground arith
          | inr e' ↦ ground arith
        ]
  ]

  conclude_begun :
      (core : Declared b → Option JdResponse) (e : IpcEngine) (job : DeclareMiningJob)
      (provided : Option ProvideMissingTransactionsSuccess) (now : ℕ)
      → (handle_declare_mining_job b core e job provided now ≡ panics)
        ↔ (begin b e job provided ≡ panics)
  unfolding handle_declare_mining_job
  conclude_begun core e job provided now = (
    λ h. elim (Outcome-cases (begin b e job provided)) [
      | inl (answers result, started) ↦ ground arith
      | inl (asks token request previous, started) ↦ ground arith
      | inr panicked ↦ panicked
    ],
    λ h. rw h refl,
  )

  -- A declaration makes the engine panic exactly if its token is eight bytes and its coinbase
  -- prefix is malformed, whatever the engine holds and Bitcoin Core answers.
  pub handle_declare_mining_job_panics_iff :
      (core : Declared b → Option JdResponse) (e : IpcEngine) (job : DeclareMiningJob)
      (provided : Option ProvideMissingTransactionsSuccess) (now : ℕ)
      → (handle_declare_mining_job b core e job provided now ≡ panics) ↔ (
          ((token : ℕ) × (parse_token job.mining_job_token ≡ some token))
          × IsMalformed b job.coinbase_tx_prefix)
  handle_declare_mining_job_panics_iff core e job provided now =
      let malformed = get_coinbase_tx_panics_iff b job.coinbase_tx_prefix job.coinbase_tx_suffix in
      let begins = begin_panics_iff e job provided in
      let finishes = conclude_begun core e job provided now in
      (
        λ h. ground (arith, finishes.0, begins.0, malformed.0),
        λ m. finishes.1 (begins.1 (m.0, malformed.1 m.1)),
      )
