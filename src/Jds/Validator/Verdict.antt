-- ===== src/Jds/Validator/Verdict.antt =====
-- What the responses of the validation mean.
use gridpool_sv2_pool.Prelude.{
  ℕ, ◌≡◌, ◌≢◌, ◌↔◌, refl, sym, subst, Bool, true, false, some, List, map, arith, returns,
  Outcome-cases, List-cases, inl, inr, ◌⊎◌,
}
use gridpool_sv2_pool.Jds.Bitcoin.{Bitcoin}
use gridpool_sv2_pool.Jds.Mempool.{
  MempoolMirror, bip34_height, add_transactions, get_txdata, verify,
}
use gridpool_sv2_pool.Jds.Mempool.Contents.{Keyed, get_txdata-wtxids, insert_all-Keyed}
use gridpool_sv2_pool.Jds.Validator.{
  answer_about, assembled, ValidationContext, stale_chain_tip, invalid_job, internal_error, success,
  error, DeclareErrorCode, force_update_mempool_mirror, CheckBlock, connection_fails, result_is,
  Declared, World, Jdp, monitor, current_context, classify, reject, judge,
  handle_declare_mining_job, log_script_sig, JdResponse,
}

classify_iff :
    (initial latest : ValidationContext × ℕ) (declared_height : ℕ)
    → ((classify initial declared_height latest ≡ invalid_job)
        ↔ ((initial ≡ latest) × (declared_height ≡ latest.1)))
      × ((classify initial declared_height latest ≡ invalid_job)
          ⊎ (classify initial declared_height latest ≡ stale_chain_tip))
unfolding classify
classify_iff (initial, h) (latest, h') d = (ground arith, ground arith)

abbrev Means : DeclareErrorCode → (initial latest : ValidationContext × ℕ) → (height : ℕ) → Type 0
Means code initial latest height =
    ((code ≡ invalid_job) ↔ ((initial ≡ latest) × (height ≡ latest.1)))
    × ((code ≡ invalid_job) ⊎ (code ≡ stale_chain_tip))

classify-Means :
    (initial latest : ValidationContext × ℕ) (height : ℕ) (code : DeclareErrorCode)
    → code ≡ classify initial height latest
    → Means code initial latest height
classify-Means initial latest height code e =
    subst (λ c. Means c initial latest height) (sym e) (classify_iff initial latest height)

module _ (b : Bitcoin) where
  open b use {Transaction, compute_txid, compute_wtxid, input}

  mirror_add-Keyed :
      (m : MempoolMirror b) (txs : List Transaction)
      → Keyed b m.txdata
      → Keyed b (add_transactions b m txs).txdata
  unfolding add_transactions
  mirror_add-Keyed m txs = insert_all-Keyed b txs m.txdata

  current_context-fields :
      (m : MempoolMirror b) (c : ValidationContext × ℕ)
      → current_context b m ≡ returns c
      → (m.current_prev_hash ≡ some c.0.prev_hash)
        × (m.current_nbits ≡ some c.0.nbits)
        × (m.current_min_ntime ≡ some c.0.min_ntime)
        × (m.current_bip34_height ≡ some c.1)
  unfolding current_context
  current_context-fields m c h = ground arith

  reject-ne-success :
      (initial : ValidationContext × ℕ) (height : ℕ) (w : World b) (m m' : MempoolMirror b)
      (p n t : ℕ) (ids : List ℕ)
      → reject b initial height w m ≢ returns (m', success p n t ids)
  unfolding reject
  reject-ne-success initial height w m m' p n t ids h = ground arith

  judge-success :
      (initial : ValidationContext × ℕ) (job : Declared b) (w : World b) (m : MempoolMirror b)
      (cancelled : Bool) (s' : Jdp b) (p n t : ℕ) (ids : List ℕ) (answer : CheckBlock)
      → answer_about b initial job w m ≡ answer
      → judge b initial job w m cancelled ≡ returns (s', success p n t ids)
      → (answer ≡ result_is true)
        × (initial.0 ≡ record { prev_hash = p; nbits = n; min_ntime = t })
        × (map compute_txid (get_txdata b m job.wtxid_list) ≡ ids)
  unfolding judge
  judge-success initial job w m cancelled s' p n t ids connection_fails e h = ground arith
  judge-success initial job w m cancelled s' p n t ids (result_is true) e h = ground arith
  judge-success initial job w m cancelled s' p n t ids (result_is false) e h =
      let height = bip34_height b job.coinbase_tx in
      let m' = monitor b m w.during_check in
      elim (Outcome-cases (reject b initial height w m')) [
        | inr e' ↦ ground arith
        | inl ((m'', response), e') ↦
            ground (arith, reject-ne-success initial height w m' m'' p n t ids)
      ]

  -- A validation that ends has logged the first input's script, or skipped it.
  returns-logged :
      (s s' : Jdp b) (job : Declared b) (w : World b) (response : JdResponse)
      → handle_declare_mining_job b s job w ≡ returns (s', response)
      → log_script_sig b w (input job.coinbase_tx) ≡ returns tt
  unfolding handle_declare_mining_job
  returns-logged s s' job w response h =
      elim (Outcome-cases (log_script_sig b w (input job.coinbase_tx))) [
        | inl (tt, e) ↦ e
        | inr e ↦ absurd (ground (arith, rw (handle_declare_mining_job, e) at h))
      ]

  reject-latest :
      (initial : ValidationContext × ℕ) (height : ℕ) (w : World b) (m m' : MempoolMirror b)
      (response : JdResponse)
      → reject b initial height w m ≡ returns (m', response)
      → (latest : ValidationContext × ℕ) × (current_context b m' ≡ returns latest)
        × (response ≡ error (classify initial height latest) latest.0)
  unfolding reject
  reject-latest initial height w m m' response h =
      let after = force_update_mempool_mirror b w.attempt (monitor b m w.during_refresh) in
      elim (Outcome-cases (current_context b after)) [
        | inr e ↦ absurd (ground (arith, rw (reject, e) at h))
        | inl (latest, e) ↦
            let h' = rw (reject, e) at h in
            let here : after ≡ m' = ground arith in
            (latest, subst (λ x. current_context b x ≡ returns latest) here e, ground arith)
      ]

  judge-error :
      (initial : ValidationContext × ℕ) (job : Declared b) (w : World b) (m : MempoolMirror b)
      (cancelled : Bool) (s' : Jdp b) (code : DeclareErrorCode) (context : ValidationContext)
      (answer : CheckBlock)
      → answer_about b initial job w m ≡ answer
      → judge b initial job w m cancelled ≡ returns (s', error code context)
      → code ≢ internal_error
      → (answer ≡ result_is false)
        × ((latest : ValidationContext × ℕ) × (current_context b s'.mempool_mirror ≡ returns latest)
            × (context ≡ latest.0)
            × (code ≡ classify initial (bip34_height b job.coinbase_tx) latest))
  unfolding judge
  judge-error initial job w m cancelled s' code context connection_fails e h other =
      absurd (ground arith)
  judge-error initial job w m cancelled s' code context (result_is true) e h other =
      absurd (ground arith)
  judge-error initial job w m cancelled s' code context (result_is false) e h other =
      let height = bip34_height b job.coinbase_tx in
      let m' = monitor b m w.during_check in
      elim (Outcome-cases (reject b initial height w m')) [
        | inr e' ↦ absurd (ground arith)
        | inl ((m'', response), e') ↦
            let (latest, now, same) = reject-latest initial height w m' m'' response e' in
            let here : m'' ≡ s'.mempool_mirror = ground arith in
            let sent : response ≡ error code context = ground arith in
            (
              refl,
              (
                latest,
                subst (λ x. current_context b x ≡ returns latest) here now,
                ground arith,
                ground arith,
              ),
            )
      ]

  -- An error of the validation other than an internal one comes after Bitcoin Core rejected the
  -- block of the context that the mirror had before. It names the context that the mirror has
  -- afterwards. It counts as an invalid job exactly if context and height are those from before and
  -- the height is the declared one, and else as a stale chain tip.
  pub handle_declare_mining_job-rejection :
      (s s' : Jdp b) (job : Declared b) (w : World b) (initial : ValidationContext × ℕ)
      (code : DeclareErrorCode) (context : ValidationContext)
      → current_context b s.mempool_mirror ≡ returns initial
      → handle_declare_mining_job b s job w ≡ returns (s', error code context)
      → code ≢ internal_error
      → (answer_about b initial job w (add_transactions b s.mempool_mirror job.missing_txs)
          ≡ result_is false)
        × ((latest : ValidationContext × ℕ) × (current_context b s'.mempool_mirror ≡ returns latest)
            × (context ≡ latest.0)
            × ((code ≡ invalid_job)
                ↔ ((initial ≡ latest) × (bip34_height b job.coinbase_tx ≡ latest.1)))
            × ((code ≡ invalid_job) ⊎ (code ≡ stale_chain_tip)))
  unfolding handle_declare_mining_job add_transactions current_context
  handle_declare_mining_job-rejection s s' job w initial code context before h other =
      let m = add_transactions b s.mempool_mirror job.missing_txs in
      let logged = returns-logged s s' job w _ h in
      let e : current_context b m ≡ returns initial = before in
      elim (List-cases (verify b m job.wtxid_list)) [
        | inr (x, xs, some_missing) ↦ absurd (ground (arith, rw (logged, e, some_missing) at h))
        | inl none_missing ↦
            let h' = rw (logged, e, none_missing) at h in
            let (rejected, (latest, now, same, classed)) =
              judge-error initial job w m s.cancelled s' code context
                (answer_about b initial job w m) refl h' other in
            let means =
              classify-Means initial latest (bip34_height b job.coinbase_tx) code classed in
            (rejected, (latest, now, same, means.0, means.1))
      ]

  -- A success names the context that the mirror had before `checkBlock`. There are transactions
  -- whose wtxids are the declared ones, in the declared order, and whose txids are those of the
  -- success, such that Bitcoin Core accepted the block of that context with the declared coinbase
  -- and these transactions.
  pub handle_declare_mining_job-success :
      (s s' : Jdp b) (job : Declared b) (w : World b) (context : ValidationContext)
      (txid_list : List ℕ)
      → Keyed b s.mempool_mirror.txdata
      → handle_declare_mining_job b s job w
        ≡ returns (s', success context.prev_hash context.nbits context.min_ntime txid_list)
      → (s.mempool_mirror.current_prev_hash ≡ some context.prev_hash)
        × (s.mempool_mirror.current_nbits ≡ some context.nbits)
        × (s.mempool_mirror.current_min_ntime ≡ some context.min_ntime)
        × ((txs : List Transaction) × (map compute_wtxid txs ≡ job.wtxid_list)
            × (map compute_txid txs ≡ txid_list)
            × (w.check_block job.version (assembled b context job.coinbase_tx txs)
                ≡ result_is true))
  unfolding handle_declare_mining_job add_transactions
  handle_declare_mining_job-success s s' job w context ids k h =
      let m = add_transactions b s.mempool_mirror job.missing_txs in
      let logged = returns-logged s s' job w _ h in
      elim (Outcome-cases (current_context b m)) [
        | inr e ↦ absurd (ground (arith, rw (logged, e) at h))
        | inl (initial, e) ↦ elim (List-cases (verify b m job.wtxid_list)) [
          | inr (x, xs, some_missing) ↦ absurd (ground (arith, rw (logged, e, some_missing) at h))
          | inl none_missing ↦
              let h' = rw (logged, e, none_missing) at h in
              let (accepted, same, txids) =
                judge-success initial job w m s.cancelled s' context.prev_hash context.nbits
                  context.min_ntime ids (answer_about b initial job w m) refl h' in
              let fields = current_context-fields m initial e in
              let keyed = (mirror_add-Keyed s.mempool_mirror job.missing_txs k) in
              (
                ground arith,
                ground arith,
                ground arith,
                (
                  get_txdata b m job.wtxid_list,
                  (get_txdata-wtxids b m job.wtxid_list keyed).1 none_missing,
                  txids,
                  subst
                      (λ c.
                        w.check_block job.version
                          (assembled b c job.coinbase_tx (get_txdata b m job.wtxid_list))
                        ≡ result_is true)
                      same accepted,
                ),
              )
        ]
      ]
