-- ===== src/GridPool/Sample.antt =====
-- A GridPool client for tests, with the configuration of the source's. An address is its own script,
-- the digest is 7, and two percent of a cycle are a fiftieth.
use gridpool_sv2_pool.Prelude.{ℕ, ◌+◌, ◌/◌, max, true, none, some, [], ◌∷◌, ltb, leb, codes, ok}
use gridpool_sv2_pool.GridPool.Client.{Libs, ChannelPayout, GridPoolClient}

abbrev pub libs : Libs
libs = record {
  address_script = λ value network. ok value;
  hex_decode = λ text. ok text;
  digest = λ token address. 7;
  F64 = ℕ;
  is_positive = λ percent. true;
  rounded_part = λ cycle percent. cycle / 50;
  f64_zero = 0;
  f64_add = λ a b. a + b;
  f64_max = λ a b. max a b;
  at_least = λ a b. leb b a;
  less_than = λ a b. ltb a b;
  in_percent = λ percent. leb percent 100;
}

abbrev pub client : GridPoolClient libs
client = record {
  config = record {
    fallback_payout_address = codes "bc1qr";
    operator_fee_address = some (codes "bc1qc");
    operator_fee_percent = 2;
    refresh_seconds = 10;
    telemetry_flush_seconds = 5;
    fee_cycle_seconds = 1_500;
  };
  token = codes "0123";
  work = record {
    bitcoin_network = codes "mainnet";
    active_snapshot_id = codes "snapshot";
    current_tip_block_hash = none;
    minimum_difficulty_to_enter_reserve = 1_000;
    coinbase_outputs = record { value = 100; script_pub_key_hex = codes "0014" } ∷ [];
  };
  last_template_tip = none;
  telemetry = [];
  advice = record {
    pulse_proofs_enabled = true;
    minimum_pulse_difficulty = 10;
    pulse_target_interval_seconds = 60;
  };
  last_pulse = [];
}

abbrev pub miner : ChannelPayout
miner = record { payout_address = codes "bc1qm"; username = codes "w" }
