-- ===== src/Jds/Validator/Progress.antt =====
-- The validation always ends with a response.
use gridpool_sv2_pool.Prelude.{
  ℕ, zero, suc, ◌≡◌, ◌≢◌, refl, Bool, true, false, none, List, [], ◌∷◌, arith, All, Outcome,
  returns, Option-cases, List-cases, inl, inr,
}
use gridpool_sv2_pool.Jds.Bitcoin.{Bitcoin, Block, TxIn}
use gridpool_sv2_pool.Jds.Mempool.{MempoolMirror, bip34_height, update, add_transactions, verify}
use gridpool_sv2_pool.Jds.Validator.{
  answer_about, ValidationContext, JdResponse, error, CheckBlock, connection_fails, result_is,
  Attempt, refreshes, thread_busy, fails, Declared, World, Jdp, monitor, refresh,
  force_update_mempool_mirror, current_context, classify, answer_about, reject, judge,
  log_script_sig, handle_declare_mining_job,
}

module _ (b : Bitcoin) where
  open b use {Transaction, compute_txid, compute_wtxid, input}

  -- A template has a coinbase.
  abbrev pub HasCoinbase : Block b → Type 0
  HasCoinbase block = block.txdata ≢ []

  abbrev pub AttemptHasCoinbase : Attempt b → Type 0
  AttemptHasCoinbase (refreshes block) = HasCoinbase block
  AttemptHasCoinbase _ = Unit

  -- The mirror has seen a template.
  abbrev pub Ready : MempoolMirror b → Type 0
  Ready m =
      (m.current_prev_hash ≢ none)
      × (m.current_nbits ≢ none)
      × (m.current_min_ntime ≢ none)
      × (m.current_bip34_height ≢ none)

  update-Ready :
      (m : MempoolMirror b) (block : Block b) → HasCoinbase block → Ready (update b m block)
  unfolding update
  update-Ready m block h = ground arith

  monitor-Ready :
      (m : MempoolMirror b) (blocks : List (Block b))
      → All HasCoinbase blocks
      → Ready m
      → Ready (monitor b m blocks)
  unfolding monitor
  monitor-Ready m [] h r = r
  monitor-Ready m (block ∷ blocks) h r =
      monitor-Ready (update b m block) blocks h.1 (update-Ready m block h.0)

  after_attempt-Ready :
      (m : MempoolMirror b) (a : Attempt b) (again : MempoolMirror b)
      → AttemptHasCoinbase a
      → Ready m
      → Ready again
      → Ready (elim a [ refreshes block ↦ update b m block | thread_busy ↦ again | fails ↦ m ])
  after_attempt-Ready m (refreshes block) again h r r' = update-Ready m block h
  after_attempt-Ready m thread_busy again h r r' = r'
  after_attempt-Ready m fails again h r r' = r

  refresh-Ready :
      (left number : ℕ) (attempt : ℕ → Attempt b) (m : MempoolMirror b)
      → ((i : ℕ) → AttemptHasCoinbase (attempt i))
      → Ready m
      → Ready (refresh b left number attempt m)
  unfolding refresh
  refresh-Ready zero number attempt m h r = r
  refresh-Ready (suc left) number attempt m h r =
      after_attempt-Ready m (attempt number) _ (h number) r
        (refresh-Ready left (suc number) attempt m h r)

  current_context-Ready :
      (m : MempoolMirror b)
      → Ready m
      → (c : ValidationContext × ℕ) × (current_context b m ≡ returns c)
  unfolding current_context
  current_context-Ready m r = elim (Option-cases m.current_prev_hash) [
    | inl e ↦ absurd (r.0 e)
    | inr (p, ep) ↦ elim (Option-cases m.current_nbits) [
      | inl e ↦ absurd (r.1 e)
      | inr (n, en) ↦ elim (Option-cases m.current_min_ntime) [
        | inl e ↦ absurd (r.2 e)
        | inr (t, et) ↦ elim (Option-cases m.current_bip34_height) [
          | inl e ↦ absurd (r.3 e)
          | inr (h, eh) ↦
              ((record { prev_hash = p; nbits = n; min_ntime = t }, h), rw (ep, en, et, eh) refl)
        ]
      ]
    ]
  ]

  -- The templates of the outside world have coinbases.
  abbrev pub Complete : World b → Type 0
  Complete w =
      All HasCoinbase w.during_check
      × All HasCoinbase w.during_refresh
      × ((i : ℕ) → AttemptHasCoinbase (w.attempt i))

  -- The validation ends with a response, and the mirror it leaves is ready.
  abbrev pub Responds : Outcome (Jdp b × JdResponse) → Type 0
  Responds o = (s : Jdp b) × (r : JdResponse) × (o ≡ returns (s, r)) × Ready s.mempool_mirror

  reject-Ready :
      (initial : ValidationContext × ℕ) (height : ℕ) (w : World b) (m : MempoolMirror b)
      → Complete w
      → Ready m
      → (m' : MempoolMirror b) × (r : JdResponse) × (reject b initial height w m ≡ returns (m', r))
        × Ready m'
  unfolding reject force_update_mempool_mirror
  reject-Ready initial height w m c r =
      let m' = force_update_mempool_mirror b w.attempt (monitor b m w.during_refresh) in
      let r' : Ready m' =
        refresh-Ready 3 1 w.attempt _ c.2 (monitor-Ready m w.during_refresh c.1 r) in
      let (latest, e) = current_context-Ready m' r' in
      (m', error (classify initial height latest) latest.0, rw e refl, r')

  judge-Responds :
      (initial : ValidationContext × ℕ) (job : Declared b) (w : World b) (m : MempoolMirror b)
      (cancelled : Bool) (answer : CheckBlock)
      → answer_about b initial job w m ≡ answer
      → Complete w
      → Ready m
      → Responds (judge b initial job w m cancelled)
  unfolding judge reject
  judge-Responds initial job w m cancelled connection_fails e c r =
      rw (judge, e) (_, _, refl, monitor-Ready m w.during_check c.0 r)
  judge-Responds initial job w m cancelled (result_is true) e c r =
      let r' = monitor-Ready m w.during_check c.0 r in
      let (latest, e') = current_context-Ready (monitor b m w.during_check) r' in
      rw (judge, e, e') (_, _, refl, r')
  judge-Responds initial job w m cancelled (result_is false) e c r =
      let r' = monitor-Ready m w.during_check c.0 r in
      let (m', response, e', r'') =
        reject-Ready initial (bip34_height b job.coinbase_tx) w (monitor b m w.during_check) c r' in
      rw (judge, e, e') (_, _, refl, r'')

  added-Ready :
      (m : MempoolMirror b) (txs : List Transaction) → Ready m → Ready (add_transactions b m txs)
  unfolding add_transactions
  added-Ready m txs r = r

  log_script_sig-returns :
      (w : World b) (txins : List TxIn)
      → (txins ≡ [] → w.debug_enabled ≡ false)
      → log_script_sig b w txins ≡ returns tt
  unfolding log_script_sig
  log_script_sig-returns w (txin ∷ txins) h = refl
  log_script_sig-returns w [] h = rw (h refl) refl

  -- Once the mirror has seen a template, if every template has a coinbase and the declared coinbase
  -- has an input or debug messages are not logged, no validation panics: it ends with a response,
  -- and leaves a mirror that can serve the next one.
  pub handle_declare_mining_job-Responds :
      (s : Jdp b) (job : Declared b) (w : World b)
      → Complete w
      → Ready s.mempool_mirror
      → (input job.coinbase_tx ≡ [] → w.debug_enabled ≡ false)
      → Responds (handle_declare_mining_job b s job w)
  unfolding handle_declare_mining_job
  handle_declare_mining_job-Responds s job w c r logs =
      let logged = log_script_sig-returns w (input job.coinbase_tx) logs in
      let m = add_transactions b s.mempool_mirror job.missing_txs in
      let r' = added-Ready s.mempool_mirror job.missing_txs r in
      let (initial, e) = current_context-Ready m r' in
      elim (List-cases (verify b m job.wtxid_list)) [
        | inl none_missing ↦
            rw (logged, e, none_missing) (judge-Responds initial job w m s.cancelled _ refl c r')
        | inr (x, xs, some_missing) ↦ rw (logged, e, some_missing) (_, _, refl, r')
      ]
