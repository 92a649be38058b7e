-- ===== src/GridPool/Tests.antt =====
-- Runs of the GridPool client on the inputs of its unit tests, and the theorems at concrete inputs.
use gridpool_sv2_pool.Prelude.{
  ℕ, ◌≡◌, refl, true, false, some, Text, Result, err, split, to_string, ◌==◌, if◌then◌else◌, List,
  [], ◌∷◌, codes, ok, arith,
}
use gridpool_sv2_pool.Payout.Script.{Script}
use gridpool_sv2_pool.Payout.Mode.{TxOut}
use gridpool_sv2_pool.GridPool.Network.{parse_network, to_ascii_lowercase}
use gridpool_sv2_pool.GridPool.Client.{
  ChannelPayout, WorkSelection, ShareAdvice, parse_address, GridPoolClient, fee_duration,
  fee_offset, fee_active, checked_sum, suffix_outputs, slot_zero_address, coinbase_outputs,
  is_fee_job,
}
use gridpool_sv2_pool.Map.{get}
use gridpool_sv2_pool.GridPool.Time.{iso8601_millis, utc, civil, of_year, month_of, day_of}
use gridpool_sv2_pool.GridPool.Pulse.{should_submit_proof}
use gridpool_sv2_pool.GridPool.Pulse.Rate.{now, should_submit_proof-Spaced}
use gridpool_sv2_pool.GridPool.Refresh.Advance.{TakesOver, refresh_for_chain_tip-TakesOver}
use gridpool_sv2_pool.GridPool.Address.{
  trim, explicit_address, first_piece, looks_like_address, resolve_channel, validate_config,
  connect,
}
use gridpool_sv2_pool.GridPool.Address.Payable.{coinbase_outputs-resolve_channel}
use gridpool_sv2_pool.GridPool.Sample.{libs, client, miner}
use gridpool_sv2_pool.GridPool.Outputs.{Pays, coinbase_outputs-Pays, is_fee_job-coinbase_outputs}
use gridpool_sv2_pool.GridPool.Fee.{count, count-fee_active}

abbrev outputs_to : Script → List TxOut
outputs_to script =
    record { value = 900; script_pubkey = script }
    ∷ record { value = 100; script_pubkey = codes "0014" }
    ∷ []

two_percent : fee_duration libs client ≡ 30
unfolding fee_duration
two_percent = refl

in_window : coinbase_outputs libs client miner 1_000 20 ≡ ok (outputs_to (codes "bc1qc"))
unfolding parse_address parse_network to_ascii_lowercase coinbase_outputs checked_sum suffix_outputs
    slot_zero_address fee_active fee_offset fee_duration
in_window = refl

coinbase_outputs-Pays_example : Pays libs client miner 1_000 20 (outputs_to (codes "bc1qc"))
coinbase_outputs-Pays_example =
    coinbase_outputs-Pays libs client miner 1_000 20 (outputs_to (codes "bc1qc")) in_window

is_fee_job-coinbase_outputs_example :
    is_fee_job libs client (outputs_to (codes "bc1qc")) miner ≡ true
unfolding parse_address parse_network to_ascii_lowercase fee_active fee_offset fee_duration
is_fee_job-coinbase_outputs_example =
    is_fee_job-coinbase_outputs libs client miner 1_000 20 (outputs_to (codes "bc1qc"))
      (codes "bc1qc") in_window refl (λ e. ground arith) refl

count-fee_active_example :
    count (fee_active libs client (codes "bc1qm")) 1_500 1_700_000_000 ≡ fee_duration libs client
count-fee_active_example =
    count-fee_active libs client (codes "bc1qm") 1_700_000_000 (refl, λ e. ground arith)
      (omega arith)

day_of_clock : iso8601_millis 1_709_210_096_007 ≡ codes "2024-02-29T12:34:56.007Z"
unfolding iso8601_millis utc civil of_year month_of day_of to_string
day_of_clock = refl

should_submit_proof-Spaced_example :
    (should_submit_proof libs (should_submit_proof libs client 100 7 20 false).1 159 7 30 false).0
    ≡ false
unfolding should_submit_proof get
should_submit_proof-Spaced_example =
    should_submit_proof-Spaced libs client (should_submit_proof libs client 100 7 20 false).1 7 100
      159 20 30 refl refl now (omega arith) refl

abbrev work_at : Text → WorkSelection ℕ
work_at tip = record client.work { current_tip_block_hash = some tip }

-- The node answers on its third attempt with a new tip.
abbrev answers : ℕ → Result Text (WorkSelection ℕ)
answers attempt =
    if attempt == 0
    then err (codes "409")
    else (if attempt == 1 then ok (work_at (codes "aa")) else ok (work_at (codes "bb")))

abbrev at_tip : GridPoolClient libs
at_tip = record client { last_template_tip = some (codes "aa") }

refresh_for_chain_tip-TakesOver_example : TakesOver libs at_tip answers
refresh_for_chain_tip-TakesOver_example =
    (refresh_for_chain_tip-TakesOver libs at_tip answers).1 2 (work_at (codes "bb")) (omega arith)
      (refl, refl)

abbrev advice : ShareAdvice ℕ
advice = client.advice

abbrev token_text : Text
token_text = codes "0123456789abcdef0123456789abcdef"

abbrev connected : GridPoolClient libs
connected = record client { token = token_text }

abbrev worker : ChannelPayout
worker = record { payout_address = codes "bc1qm"; username = codes "bc1qm.w" }

coinbase_outputs-resolve_channel_example :
    (outputs : List TxOut) × (coinbase_outputs libs connected worker 1_000 20 ≡ ok outputs)
unfolding resolve_channel trim explicit_address first_piece split looks_like_address connect
    validate_config parse_address parse_network to_ascii_lowercase suffix_outputs
coinbase_outputs-resolve_channel_example =
    coinbase_outputs-resolve_channel libs client.config (ok token_text) (ok client.work) (ok advice)
      connected client.work (codes "bc1qm.w") worker
      (record { value = 100; script_pubkey = codes "0014" } ∷ []) 1_000 20 refl refl refl
      (omega arith) (omega arith) refl
