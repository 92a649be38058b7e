-- ===== src/Jds/Validator/Tests.antt =====
-- The validation of a declared job against a sample template, and the theorems at concrete inputs.
use gridpool_sv2_pool.Prelude.{
  ℕ, ◌≡◌, ◌↔◌, ◌⊎◌, refl, true, false, some, List, [], ◌∷◌, map, arith, returns,
}
use gridpool_sv2_pool.Map
use gridpool_sv2_pool.Jds.Sample.{Tx, sample, template}
use gridpool_sv2_pool.Jds.Mempool.{
  new, update, add_transactions, insert_all, bip34_height, verify, get_txdata, get_all,
  decode_bip34_height_from_coinbase_script_sig,
}
use gridpool_sv2_pool.Jds.Mempool.Contents.{new-Keyed, mirror-Keyed}
use gridpool_sv2_pool.Jds.Validator.{
  assembled, ValidationContext, DeclareErrorCode, JdResponse, CheckBlock, Attempt, World, Declared,
  Jdp, classify, handle_declare_mining_job, judge, reject, refresh, force_update_mempool_mirror,
  log_script_sig, answer_about, monitor, current_context,
}
use gridpool_sv2_pool.Jds.Validator.Progress.{Responds, handle_declare_mining_job-Responds}
use gridpool_sv2_pool.Jds.Validator.Verdict.{
  handle_declare_mining_job-rejection, handle_declare_mining_job-success,
}

abbrev context : ValidationContext
context = record { prev_hash = 77; nbits = 9; min_ntime = 1_000 }

abbrev idle : Jdp sample
idle = record { mempool_mirror = update sample (new sample) template; cancelled = false }

abbrev job : Declared sample
job = record {
  version = 2;
  coinbase_tx = (1, 0x55 ∷ []);
  wtxid_list = 1011 ∷ 1010 ∷ [];
  missing_txs = [];
}

-- Bitcoin Core accepts the job, and nothing else happens.
abbrev accepts : World sample
accepts = record {
  during_check = [];
  check_block = λ version block. CheckBlock.result_is true;
  during_refresh = [];
  attempt = λ i. Attempt.thread_busy;
  debug_enabled = true;
}

-- Bitcoin Core rejects the job, and the second refresh brings the template.
abbrev rejects : World sample
rejects = record {
  during_check = template ∷ [];
  check_block = λ version block. CheckBlock.result_is false;
  during_refresh = template ∷ [];
  attempt = λ i. Attempt.refreshes template;
  debug_enabled = true;
}

accepted :
    handle_declare_mining_job sample idle job accepts
    ≡ returns (
      record { mempool_mirror = update sample (new sample) template; cancelled = false },
      JdResponse.success 77 9 1_000 (11 ∷ 10 ∷ []),
    )
unfolding handle_declare_mining_job judge monitor current_context update new insert_all verify
    get_txdata get_all add_transactions bip34_height decode_bip34_height_from_coinbase_script_sig
    Map.get Map.insert Map.empty
accepted = refl

handle_declare_mining_job-Responds_example :
    Responds sample (handle_declare_mining_job sample idle job rejects)
unfolding update
handle_declare_mining_job-Responds_example =
    handle_declare_mining_job-Responds sample idle job rejects
      ((λ e. ground arith, tt), (λ e. ground arith, tt), λ i e. ground arith) (ground arith)
      (λ e. ground arith)

abbrev again : Jdp sample
again = record {
  mempool_mirror =
      update sample (update sample (update sample idle.mempool_mirror template) template) template;
  cancelled = false;
}

rejected :
    handle_declare_mining_job sample idle job rejects
    ≡ returns (again, JdResponse.error DeclareErrorCode.invalid_job context)
unfolding handle_declare_mining_job judge reject monitor refresh force_update_mempool_mirror
    classify current_context update new insert_all verify get_txdata get_all add_transactions
    bip34_height decode_bip34_height_from_coinbase_script_sig log_script_sig Map.get Map.insert
    Map.empty
rejected = refl

before : current_context sample idle.mempool_mirror ≡ returns (context, 5)
unfolding current_context update new bip34_height decode_bip34_height_from_coinbase_script_sig
before = refl

handle_declare_mining_job-rejection_example :
    (answer_about sample
        (context, 5)
        job
        rejects
        (add_transactions sample idle.mempool_mirror job.missing_txs)
      ≡ CheckBlock.result_is false)
    × ((latest : ValidationContext × ℕ) × (current_context sample again.mempool_mirror
          ≡ returns latest)
        × (context ≡ latest.0)
        × ((DeclareErrorCode.invalid_job ≡ DeclareErrorCode.invalid_job)
            ↔ (((context, 5) ≡ latest) × (bip34_height sample job.coinbase_tx ≡ latest.1)))
        × ((DeclareErrorCode.invalid_job ≡ DeclareErrorCode.invalid_job)
            ⊎ (DeclareErrorCode.invalid_job ≡ DeclareErrorCode.stale_chain_tip)))
handle_declare_mining_job-rejection_example =
    handle_declare_mining_job-rejection sample idle again job rejects (context, 5)
      DeclareErrorCode.invalid_job context before rejected (λ e. ground arith)

handle_declare_mining_job-success_example :
    (idle.mempool_mirror.current_prev_hash ≡ some 77)
    × (idle.mempool_mirror.current_nbits ≡ some 9)
    × (idle.mempool_mirror.current_min_ntime ≡ some 1_000)
    × ((txs : List Tx) × (map sample.compute_wtxid txs ≡ 1011 ∷ 1010 ∷ [])
        × (map sample.compute_txid txs ≡ 11 ∷ 10 ∷ [])
        × (accepts.check_block 2 (assembled sample context (1, 0x55 ∷ []) txs)
            ≡ CheckBlock.result_is true))
handle_declare_mining_job-success_example =
    handle_declare_mining_job-success sample idle idle job accepts context (11 ∷ 10 ∷ [])
      (mirror-Keyed sample (new sample) template [] (new-Keyed sample)).0 accepted
