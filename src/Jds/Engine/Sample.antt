-- ===== src/Jds/Engine/Sample.antt =====
-- A declaration and a message that matches it, on which the tests run.
use gridpool_sv2_pool.Prelude.{refl, none, [], ◌∷◌, ◌++◌, replicate}
use gridpool_sv2_pool.Map
use gridpool_sv2_pool.Map.{keep_if}
use gridpool_sv2_pool.Jds.Sample.{sample}
use gridpool_sv2_pool.Jds.Validator.{ValidationContext}
use gridpool_sv2_pool.Jds.Engine.Messages.{DeclareMiningJob, SetCustomMiningJob}
use gridpool_sv2_pool.Jds.Engine.Merkle.{next_level, merkle_branch, merkle_path}
use gridpool_sv2_pool.Jds.Engine.Coinbase.{get_coinbase_tx}
use gridpool_sv2_pool.Jds.Engine.State.{IpcEngine}
use gridpool_sv2_pool.Jds.Engine.Custom.{get_merkle_path}
use gridpool_sv2_pool.Jds.Engine.Custom.Consume.{Matches}
use gridpool_sv2_pool.Jds.Engine.Custom.Collision.{Validated, filed}

abbrev pub declaration : DeclareMiningJob
declaration = record {
  request_id = 1;
  mining_job_token = 6 ∷ replicate 7 0;
  version = 2;
  coinbase_tx_prefix = replicate 43 0 ++ 4 ∷ [];
  coinbase_tx_suffix = 7 ∷ [];
  wtxid_list = 1011 ∷ 1010 ∷ [];
}

abbrev pub context : ValidationContext
context = record { prev_hash = 77; nbits = 9; min_ntime = 1_000 }

abbrev pub started : IpcEngine
started = record { allocated_token_entries = Map.empty; declared_custom_jobs = Map.empty }

abbrev pub first : Validated
first = record {
  job = declaration;
  token = 6;
  provided = none;
  previous = none;
  context = context;
  txids = 11 ∷ 10 ∷ [];
  now = 5;
}

-- Another client's declaration of another version under the same request id.
abbrev pub second : Validated
second = record first { job = record declaration { version = 3 }; token = 8; now = 6 }

abbrev pub message : SetCustomMiningJob
message = record {
  channel_id = 0;
  request_id = 30;
  token = 6 ∷ replicate 7 0;
  version = 2;
  prev_hash = 77;
  nbits = 9;
  coinbase_tx_version = 2;
  coinbase_prefix = 0 ∷ 0 ∷ [];
  coinbase_tx_input_n_sequence = 0;
  coinbase_tx_outputs = 49 ∷ [];
  coinbase_tx_locktime = 0;
  merkle_path = 11 ∷ 51 ∷ [];
}

pub message-Matches : Matches sample (filed first) message
unfolding get_coinbase_tx get_merkle_path merkle_path merkle_branch next_level
message-Matches = (refl, refl, refl, refl, (_, refl, (refl, refl, refl, refl, refl)), refl)
