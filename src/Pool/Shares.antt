-- ===== src/Pool/Shares.antt =====
-- pool-apps/pool/src/lib/channel_manager/mining_message_handler.rs: the shares of both kinds of
-- channels. The clock's milliseconds and seconds are arguments. The answers are in the order in
-- which they are forwarded; the proof is the one that is handed to `submit_proof`.

use gridpool_sv2_pool.Prelude.{
  ℕ, ◌+◌, ◌*◌, ◌^◌, Bool, true, false, Option, none, some, List, [], ◌∷◌, ltb, Text, length,
  from_le_bytes, Result, ok, err, if◌then◌else◌,
}
use gridpool_sv2_pool.Payout.Mode.{u64}
use gridpool_sv2_pool.GridPool.Client.{
  ChannelPayout, TelemetryDelta, GridPoolClient, is_fee_job, parse_address,
}
use gridpool_sv2_pool.GridPool.Network.{parse_network, to_ascii_lowercase}
use gridpool_sv2_pool.GridPool.Pulse.{should_submit_proof}
use gridpool_sv2_pool.GridPool.Telemetry.{record_telemetry}
use gridpool_sv2_pool.Pool.Channels.{
  SubmitShares, Channels, valid, block_found, ShareValidationError, invalid, stale, invalid_job_id,
  does_not_meet_target, duplicate_share, version_rolling_not_allowed, bad_extranonce_size, other,
}
use gridpool_sv2_pool.Pool.State.{
  Crates, PoolError, RouteMessageTo, template_provider, downstream, submit_shares_success,
  submit_shares_error, of_crate, channel_error, disconnect, shutdown,
}

-- The errors that are answered with their code; the others disconnect the client.
unfoldable pub standard_code : ShareValidationError → Option Text
standard_code (invalid code) = some code
standard_code (stale code) = some code
standard_code (invalid_job_id code) = some code
standard_code (does_not_meet_target code) = some code
standard_code (duplicate_share code) = some code
standard_code (version_rolling_not_allowed code) = some code
standard_code (bad_extranonce_size code) = none
standard_code (other code) = none

unfoldable pub extended_code : ShareValidationError → Option Text
unfolding standard_code
extended_code (bad_extranonce_size code) = some code
extended_code e = standard_code e

abbrev pub error_text : ShareValidationError → Text
error_text (invalid code) = code
error_text (stale code) = code
error_text (invalid_job_id code) = code
error_text (does_not_meet_target code) = code
error_text (duplicate_share code) = code
error_text (version_rolling_not_allowed code) = code
error_text (bad_extranonce_size code) = code
error_text (other code) = code

-- `((downstream_id as u64) << 32) | channel_id as u64`, for 32-bit channel ids
unfoldable pub channel_key : (downstream_id channel_id : ℕ) → ℕ
channel_key d c = u64 (d * 2 ^ 32) + c

module _ (crates : Crates) (Proof : Type 0) where
  open crates use {
    libs, F32, GroupJob, Vardiff, difficulty_float, increment_shares_since_last_update,
  }

  abbrev F : Type 0
  F = libs.F64

  abbrev pub Client : Type 0
  Client = GridPoolClient libs

  unfoldable pub rejected_delta : (channel_id : ℕ) → ChannelPayout → TelemetryDelta F
  rejected_delta c payout = record {
    channel_id = c;
    payout_address = payout.payout_address;
    username = payout.username;
    accepted = false;
    work_difficulty = libs.f64_zero;
    achieved_difficulty = libs.f64_zero;
    fee_work = false;
  }

  module _ (kind : Channels F32 F GroupJob) where
    open kind use {Channel, Job}

    -- How a kind of channel answers errors, and its builder of proofs.
    pub record Handling : Type 0 where
      pub code : ShareValidationError → Option Text
      pub build_gridpool_proof :
          (pool_tag : Text)
          → Channel
          → SubmitShares
          → ChannelPayout
          → (achieved_difficulty : F) → Option Proof

    abbrev is_fee_channel : Client → Channel → ChannelPayout → Bool
    is_fee_channel client channel payout = elim (kind.get_active_job channel) [
      | none ↦ false
      | some job ↦ is_fee_job libs client (kind.get_coinbase_outputs job) payout
    ]

    unfoldable pub accepted_delta :
        Client
        → (channel_id : ℕ) → ChannelPayout
        → Channel
        → (share_hash : List ℕ) → TelemetryDelta F
    unfolding is_fee_job parse_address parse_network to_ascii_lowercase from_le_bytes
    accepted_delta client c payout channel share_hash = record {
      channel_id = c;
      payout_address = payout.payout_address;
      username = payout.username;
      accepted = true;
      work_difficulty = difficulty_float (kind.get_target channel);
      achieved_difficulty = difficulty_float (from_le_bytes share_hash);
      fee_work = is_fee_channel client channel payout;
    }

    unfoldable pub success :
        (channel_id : ℕ) → (downstream_id : ℕ) → Channel → RouteMessageTo crates
    success c d channel = downstream d (
        submit_shares_success (record {
          channel_id = c;
          last_sequence_number = kind.get_last_share_sequence_number channel;
          new_submits_accepted_count = kind.get_last_batch_accepted channel;
          new_shares_sum = kind.get_last_batch_work_sum channel;
        }))

    -- What a share on a channel leads to.
    pub record Response : Type 0 where
      pub result : Result PoolError (List (RouteMessageTo crates))
      pub channel : Channel
      pub gridpool : Option Client
      pub proof : Option Proof

    -- A client and the payout of a channel, if there are both.
    pub data Payer : Type 0 where
      no_payer : Option Client → Payer
      payer : Client → ChannelPayout → Payer

    unfoldable pub payer_of : Option Client → Option ChannelPayout → Payer
    payer_of (some client) (some payout) = payer client payout
    payer_of (some client) none = no_payer (some client)
    payer_of none payout = no_payer none

    module _ (h : Handling) (pool_tag : Text) (d : ℕ) (msg : SubmitShares) (now_ms now : ℕ) where
      unfoldable pub on_error : Payer → ShareValidationError → Channel → Response
      unfolding record_telemetry rejected_delta
      on_error p e channel =
          let answer : Result PoolError (List (RouteMessageTo crates)) = elim (h.code e) [
            | some code ↦ ok (
                downstream d
                  (submit_shares_error msg.channel_id msg.sequence_number (of_crate code))
                ∷ [])
            | none ↦ err (record { kind = channel_error (error_text e); action = disconnect d })
          ] in
          elim p [
            | no_payer client ↦ record {
              result = answer;
              channel = channel;
              gridpool = client;
              proof = none;
            }
            | payer client payout ↦ record {
              result = answer;
              channel = channel;
              gridpool =
                  some (record_telemetry libs client now_ms (rejected_delta msg.channel_id payout));
              proof = none;
            }
          ]

      unfoldable pub on_valid : Payer → (share_hash : List ℕ) → Channel → Response
      unfolding record_telemetry accepted_delta should_submit_proof channel_key success
      on_valid p share_hash channel =
          let answer : Result PoolError (List (RouteMessageTo crates)) = ok (
            if kind.should_acknowledge channel
            then success msg.channel_id d channel ∷ []
            else []) in
          elim p [
            | no_payer client ↦ record {
              result = answer;
              channel = channel;
              gridpool = client;
              proof = none;
            }
            | payer client payout ↦
                let delta = accepted_delta client msg.channel_id payout channel share_hash in
                let (submits, client') =
                  should_submit_proof libs (record_telemetry libs client now_ms delta) now
                    (channel_key d msg.channel_id) delta.achieved_difficulty false in
                record {
                  result = answer;
                  channel = channel;
                  gridpool = some client';
                  proof =
                      if submits
                      then h.build_gridpool_proof pool_tag channel msg payout
                          delta.achieved_difficulty
                      else none;
                }
          ]

      -- The messages of a found block; a coinbase of more bytes than a `B064K` holds is an error.
      unfoldable pub block_messages :
          (template_id : Option ℕ)
          → (coinbase : List ℕ) → Channel
          → Result PoolError (List (RouteMessageTo crates))
      unfolding success
      block_messages none coinbase channel = ok (success msg.channel_id d channel ∷ [])
      block_messages (some template_id) coinbase channel =
          if ltb (length coinbase) (2 ^ 16)
          then ok (
              template_provider (record {
                template_id = template_id;
                version = msg.version;
                header_timestamp = msg.ntime;
                header_nonce = msg.nonce;
                coinbase_tx = coinbase;
              })
              ∷ success msg.channel_id d channel
              ∷ [])
          else err (record { kind = channel_error []; action = shutdown })

      unfoldable pub on_block :
          Payer → (share_hash : List ℕ) → Option ℕ → List ℕ → Channel → Response
      unfolding record_telemetry accepted_delta block_messages success
      on_block p share_hash template_id coinbase channel =
          let answer = block_messages template_id coinbase channel in
          elim p [
            | no_payer client ↦ record {
              result = answer;
              channel = channel;
              gridpool = client;
              proof = none;
            }
            | payer client payout ↦
                let delta = accepted_delta client msg.channel_id payout channel share_hash in
                record {
                  result = answer;
                  channel = channel;
                  gridpool = some (record_telemetry libs client now_ms delta);
                  proof =
                      h.build_gridpool_proof pool_tag channel msg payout delta.achieved_difficulty;
                }
          ]

      unfoldable pub respond : Payer → Channel → Response
      unfolding on_error on_valid on_block block_messages success
      respond p channel =
          let (res, channel') = kind.validate_share msg channel in
          elim res [
            | err e ↦ on_error p e channel'
            | ok found ↦ elim found [
              | valid share_hash ↦ on_valid p share_hash channel'
              | block_found share_hash template_id coinbase ↦
                  on_block p share_hash template_id coinbase channel'
            ]
          ]
