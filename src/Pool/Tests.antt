-- ===== src/Pool/Tests.antt =====
-- Runs of the channel manager, and its theorems at concrete inputs. A channel is the outputs of its
-- active job, and a share is refused when its nonce is 0.
use gridpool_sv2_pool.Prelude.{
  ℕ, ◌+◌, ◌≡◌, ◌≢◌, refl, true, false, Option, none, some, List, [], ◌∷◌, Text, codes, Result, ok,
  err, arith, ◌==◌, if◌then◌else◌, to_le_bytes,
}
use gridpool_sv2_pool.Map
use gridpool_sv2_pool.Map.{Map}
use gridpool_sv2_pool.Pool.Pairs
use gridpool_sv2_pool.Payout.Script.{Miniscript}
use gridpool_sv2_pool.Payout.Mode.{TxOut}
use gridpool_sv2_pool.GridPool.Network.{parse_network, to_ascii_lowercase}
use gridpool_sv2_pool.GridPool.Client.{
  WorkSelection, checked_sum, suffix_outputs, slot_zero_address, fee_active, fee_offset,
  fee_duration, parse_address, coinbase_outputs,
}
use gridpool_sv2_pool.GridPool.Sample.{libs, client, miner}
use gridpool_sv2_pool.Pool.Channels.{
  SubmitShares, NewTemplate, Channels, valid, block_found, stale, ShareValidationError,
  ShareValidationResult,
}
use gridpool_sv2_pool.Pool.State.{Crates, Downstream, ChannelManager}
use gridpool_sv2_pool.Pool.Shares.{Handling, standard_code, extended_code}
use gridpool_sv2_pool.Pool.Submit.{Kind, submit, standard_kind}
use gridpool_sv2_pool.Pool.Submit.Reports
use gridpool_sv2_pool.Pool.Submit.Held.{share}
use gridpool_sv2_pool.Pool.Submit.Reports.{
  shares, flushes, run, total_sent, total_validated, reported_option, reported-submit,
}
use gridpool_sv2_pool.Pool.Submit.Isolation.{Concerns, IsUnsendable, submit-Concerns}
use gridpool_sv2_pool.Pool.Open.{OpenMiningChannel, answers}
use gridpool_sv2_pool.Pool.Open.Paid.{implies, Paid, needs_payout, has_payout}
use gridpool_sv2_pool.Pool.Templates.{
  Messages, template_job, group_job, refreshed, handle_new_template,
}
use gridpool_sv2_pool.Pool.Templates.Work.{TakesTemplate}
use gridpool_sv2_pool.Pool.Templates.Announce.{Announced, handle_new_template-announces}
use gridpool_sv2_pool.Pool.FeeJobs.{commit_gridpool_job_refresh}
use gridpool_sv2_pool.Pool.FeeJobs.Fresh.{commit_gridpool_job_refresh-Fresh}
use gridpool_sv2_pool.Pool.History
use gridpool_sv2_pool.Pool.History.{
  connects, opens_standard, submits_standard, updates, adjusts, rotates, templates, leaves,
  run-Paid,
}

abbrev Outputs : Type 0
Outputs = Option (List TxOut)

abbrev verdict : SubmitShares → Result ShareValidationError ShareValidationResult
verdict msg =
    if msg.nonce == 0
    then err (stale (codes "stale-share"))
    else (if msg.nonce == 1
        then ok (block_found (1 ∷ []) (some 5) (2 ∷ []))
        else ok (valid (9 ∷ [])))

abbrev sample : Channels ℕ ℕ (List TxOut)
sample = record {
  Channel = Outputs;
  Job = List TxOut;
  get_job_id = λ job. 1;
  get_coinbase_outputs = λ job. job;
  new_for_pool = λ c identity prefix target rate. ok none;
  get_target = λ channel. 7;
  get_nominal_hashrate = λ channel. 100;
  get_shares_per_minute = λ channel. 6;
  set_stable_hashrate = λ stable channel. channel;
  get_extranonce_prefix = λ channel. [];
  get_rollable_extranonce_size = λ channel. 16;
  get_full_extranonce_size = λ channel. 20;
  get_active_job = λ channel. channel;
  get_future_job_id_from_template_id = λ channel id. some 1;
  get_future_job = λ channel id. channel;
  on_new_template = λ template outputs channel. ok (some outputs);
  failed_on_new_template = λ template outputs channel. channel;
  on_set_new_prev_hash = λ hash channel. ok channel;
  on_group_channel_job = λ job channel. ok (some job);
  validate_share = λ msg channel. (verdict msg, channel);
  should_acknowledge = λ channel. true;
  get_last_share_sequence_number = λ channel. 3;
  get_last_batch_accepted = λ channel. 1;
  get_last_batch_work_sum = λ channel. 10;
  update_channel = λ rate target channel. (ok tt, channel);
}

-- No descriptor parses, so that every identity is without a payout mode.
abbrev no_descriptors : Miniscript
no_descriptors = record {
  Tree = Text;
  tree_from_str = λ s. ok s;
  name = λ s. [];
  parse_descriptor = λ s. err [];
  descriptor_from_tree = λ s. err [];
  terminal_address = λ s. err [];
  terminal_hex = λ s. err [];
  script_from_hex = λ s. err [];
}

abbrev crates : Crates
crates = record {
  libs = libs;
  F32 = ℕ;
  GroupJob = List TxOut;
  standard = sample;
  extended = sample;
  miniscript = no_descriptors;
  Vardiff = ℕ;
  new_vardiff = ok 0;
  increment_shares_since_last_update = λ n. n + 1;
  try_vardiff = λ n rate target shares. (ok (some 200), 0);
  difficulty_float = λ target. target;
  Group = Outputs;
  get_group_channel_id = λ group. 1;
  has_channel_id = λ c group. true;
  add_channel_id = λ c size group. ok group;
  remove_channel_id = λ c group. group;
  is_empty = λ group. false;
  group_on_new_template = λ template outputs group. ok (some outputs);
  group_on_set_new_prev_hash = λ hash group. ok group;
  group_future_job_id_from_template_id = λ group id. some 1;
  group_future_job = λ group id. group;
  group_active_job = λ group. group;
  group_job_id = λ job. 1;
}

abbrev template : NewTemplate
template = record {
  template_id = 5;
  future_template = false;
  version = 2;
  coinbase_tx_version = 2;
  coinbase_prefix = 3 ∷ 1 ∷ 2 ∷ 3 ∷ [];
  coinbase_tx_input_sequence = 0;
  coinbase_tx_value_remaining = 1_000;
  coinbase_tx_outputs_count = 0;
  coinbase_tx_outputs = [];
  coinbase_tx_locktime = 0;
  merkle_path = [];
}

abbrev output : TxOut
output = record { value = 0; script_pubkey = 0 ∷ [] }

abbrev worker : Downstream crates
worker = record {
  group_channel = none;
  extended_channels = [];
  standard_channels = (2, none) ∷ [];
  channel_id_factory = 3;
  negotiated_extensions = [];
  payout_mode = none;
  requires_standard_jobs = false;
  requires_custom_work = false;
}

-- A client with the open channel 2, for which the miner is paid.
abbrev manager : ChannelManager crates
manager = record {
  downstreams = (1, worker) ∷ [];
  vardiff = ((1, 2), 0) ∷ [];
  coinbase_outputs = output ∷ [];
  last_new_prev_hash = some (record { prev_hash = []; header_timestamp = 0; n_bits = 0 });
  last_future_template = some template;
  downstream_sender = (1, tt) ∷ [];
  pool_tag_string = codes "pool";
  coinbase_reward_script = record { script_pubkey = 0 ∷ []; ok_for_mainnet = true };
  gridpool = some client;
  gridpool_channels = ((1, 2), miner) ∷ [];
}

abbrev standard_handling : Handling crates ℕ sample
standard_handling = record {
  code = λ e. standard_code e;
  build_gridpool_proof = λ tag channel msg payout difficulty. some difficulty;
}

abbrev extended_handling : Handling crates ℕ sample
extended_handling = record {
  code = λ e. extended_code e;
  build_gridpool_proof = λ tag channel msg payout difficulty. some difficulty;
}

abbrev kind : Kind crates ℕ
kind = standard_kind crates ℕ standard_handling extended_handling

abbrev with_nonce : ℕ → SubmitShares
with_nonce nonce = record {
  channel_id = 2;
  sequence_number = 1;
  job_id = 1;
  nonce = nonce;
  ntime = 0;
  version = 2;
  extranonce = [];
}

abbrev shared : List (Reports.Event crates ℕ)
shared =
    shares (share kind 1 (with_nonce 0) 10 10)
    ∷ shares (share kind 1 (with_nonce 1) 20 20)
    ∷ flushes true
    ∷ shares (share kind 1 (with_nonce 2) 30 30)
    ∷ flushes false
    ∷ shares (share kind 2 (with_nonce 2) 40 40)
    ∷ []

reported-submit_example :
    total_sent crates ℕ true true manager shared
      + total_sent crates ℕ false true manager shared
      + reported_option crates ℕ true (run crates ℕ manager shared).gridpool
    ≡ total_validated crates ℕ true manager shared
reported-submit_example =
    reported-submit crates ℕ true manager client shared refl refl (omega arith)

submit-Concerns_example :
    let r = submit crates ℕ kind manager 1 (with_nonce 1) 20 20 in
    Concerns 1 (IsUnsendable crates ℕ kind manager 1 (with_nonce 1)) r.result
    × (Map.get 7 r.manager.downstreams ≡ Map.get 7 manager.downstreams)
    × (Pairs.get (7, 2) r.manager.vardiff ≡ Pairs.get (7, 2) manager.vardiff)
    × (r.manager.gridpool_channels ≡ manager.gridpool_channels)
submit-Concerns_example =
    submit-Concerns crates ℕ kind manager 1 7 2 (with_nonce 1) 20 20 (λ e. ground arith)

-- Nobody is connected yet.
abbrev started : ChannelManager crates
started = record manager { downstreams = []; vardiff = []; gridpool_channels = [] }

abbrev opening : OpenMiningChannel ℕ
opening = record {
  request_id = 9;
  user_identity = codes "bc1qm.w";
  nominal_hash_rate = 100;
  max_target = 50;
  min_extranonce_size = 4;
}

abbrev no_work : ℕ → Result Text (WorkSelection ℕ)
no_work attempt = err []

abbrev events : List (History.Event crates ℕ standard_handling extended_handling)
events =
    connects 1 none
    ∷ opens_standard 1 opening (ok []) 20
    ∷ submits_standard 1 (with_nonce 2) 30 30
    ∷ updates 1 (record { channel_id = 2; nominal_hash_rate = 300; maximum_target = 9 })
    ∷ adjusts ((1, 2) ∷ (8, 2) ∷ [])
    ∷ rotates 40
    ∷ templates template no_work 40
    ∷ leaves 4
    ∷ []

abbrev after : ChannelManager crates
after = History.run crates ℕ standard_handling extended_handling started events

started-Paid : Paid crates started
unfolding needs_payout has_payout Map.get
started-Paid d c = refl

run-Paid_example : implies (needs_payout crates after 1 2) (has_payout crates after 1 2) ≡ true
run-Paid_example =
    run-Paid crates ℕ standard_handling extended_handling started events started-Paid 1 2

abbrev paid_outputs : List TxOut
paid_outputs =
    record { value = 900; script_pubkey = codes "bc1qc" }
    ∷ record { value = 100; script_pubkey = codes "0014" }
    ∷ []

takes : TakesTemplate crates manager client template 20
unfolding template_job group_job coinbase_outputs checked_sum suffix_outputs slot_zero_address
    fee_active fee_offset fee_duration parse_address parse_network to_ascii_lowercase Map.get
    Pairs.get
takes = (
  λ d c entry channel payout here there paid.
      (paid_outputs, refl, (some paid_outputs, paid_outputs, refl, refl)),
  λ d c entry channel payout here there paid.
      (paid_outputs, refl, (some paid_outputs, paid_outputs, refl, refl)),
  λ d entry outputs here first. (_, _, refl, refl),
)

manager-Paid : Paid crates manager
unfolding needs_payout has_payout Map.get Pairs.get
manager-Paid d c = ground arith

handle_new_template-announces_example :
    let r = handle_new_template crates manager template no_work 20 in
    (messages : Messages crates) × (r.0 ≡ answers messages)
    × ((d : ℕ) (entry : Downstream crates)
        → Map.get d manager.downstreams ≡ some entry
        → entry.requires_custom_work ≡ false
        → (after : Downstream crates) × (Map.get d r.1.downstreams ≡ some after)
          × Announced crates manager template client 20 d entry after messages)
unfolding refreshed
handle_new_template-announces_example =
    handle_new_template-announces crates manager manager template no_work 20 client output []
      manager-Paid refl refl refl takes

abbrev committed : List ℕ → NewTemplate
committed bytes = record template { coinbase_prefix = 3 ∷ 1 ∷ 2 ∷ 3 ∷ 8 ∷ bytes }

abbrev first : NewTemplate
first = committed (100 ∷ 0 ∷ 0 ∷ 0 ∷ 0 ∷ 0 ∷ 0 ∷ 0 ∷ [])

abbrev second : NewTemplate
second = committed (101 ∷ 0 ∷ 0 ∷ 0 ∷ 0 ∷ 0 ∷ 0 ∷ 0 ∷ [])

commit_gridpool_job_refresh-Fresh_example :
    (first.coinbase_prefix ≢ second.coinbase_prefix)
    × (first.coinbase_prefix ≢ template.coinbase_prefix)
unfolding commit_gridpool_job_refresh to_le_bytes
commit_gridpool_job_refresh-Fresh_example =
    commit_gridpool_job_refresh-Fresh template first second 100 101 (omega arith) (omega arith)
      (λ e. ground arith) refl refl
