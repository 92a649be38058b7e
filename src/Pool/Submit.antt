-- ===== src/Pool/Submit.antt =====
-- pool-apps/pool/src/lib/channel_manager/mining_message_handler.rs: `handle_submit_shares_standard`
-- and `handle_submit_shares_extended`. The worker's identity in a share's fields is read and not
-- used, so it is left out.
pub mod Isolation
pub mod Held
pub mod Reports
pub mod Keeps
use gridpool_sv2_pool.Prelude.{ℕ, Option, none, some, List, [], ◌∷◌, Result, ok, err}
use gridpool_sv2_pool.Map
use gridpool_sv2_pool.Map.{Map}
use gridpool_sv2_pool.Pool.Pairs
use gridpool_sv2_pool.Pool.Channels.{SubmitShares, Channels}
use gridpool_sv2_pool.Pool.State.{
  Crates, PoolError, Downstream, ChannelManager, RouteMessageTo, downstream, submit_shares_error,
  close_channel, invalid_channel_id, not_registered,
}
use gridpool_sv2_pool.Pool.Shares.{
  Handling, Response, payer_of, respond, on_error, on_valid, on_block, block_messages, success,
}

module _ (crates : Crates) (Proof : Type 0) where
  open crates use {libs, F32, GroupJob, increment_shares_since_last_update}

  pub record Submitted : Type 0 where
    pub result : Result PoolError (List (RouteMessageTo crates))
    pub manager : ChannelManager crates
    pub proof : Option Proof

  -- The channels of one kind of a downstream.
  pub record Kind : Type 1 where
    pub kind : Channels F32 libs.F64 GroupJob
    pub handling : Handling crates Proof kind
    pub channels_of : Downstream crates → Map kind.Channel
    pub with_channels : Map kind.Channel → Downstream crates → Downstream crates

  unfoldable pub submit :
      Kind
      → ChannelManager crates
      → (downstream_id : ℕ) → SubmitShares
      → (now_ms now : ℕ) → Submitted
  unfolding respond on_error on_valid on_block block_messages success payer_of
  submit k s d msg now_ms now =
      let c = msg.channel_id in
      elim (Map.get d s.downstreams) [
        | none ↦ record { result = err (not_registered d); manager = s; proof = none }
        | some entry ↦ elim (Map.get c (k.channels_of entry)) [
          | none ↦ record {
            result =
                ok (
                  downstream d (submit_shares_error c msg.sequence_number invalid_channel_id) ∷ []);
            manager = s;
            proof = none;
          }
          | some channel ↦ elim (Pairs.get (d, c) s.vardiff) [
            | none ↦ record {
              result = ok (downstream d (close_channel c invalid_channel_id) ∷ []);
              manager = s;
              proof = none;
            }
            | some vardiff ↦
                let payer =
                  payer_of crates Proof k.kind s.gridpool (Pairs.get (d, c) s.gridpool_channels) in
                let r =
                  respond crates Proof k.kind k.handling s.pool_tag_string d msg now_ms now payer
                    channel in
                let entry' = k.with_channels (Map.insert c r.channel (k.channels_of entry)) entry in
                record {
                  result = r.result;
                  manager = record s {
                    downstreams = Map.insert d entry' s.downstreams;
                    vardiff =
                        Pairs.insert (d, c) (increment_shares_since_last_update vardiff) s.vardiff;
                    gridpool = r.gridpool;
                  };
                  proof = r.proof;
                }
          ]
        ]
      ]

  module _ (standard_handling : Handling crates Proof crates.standard)
      (extended_handling : Handling crates Proof crates.extended) where
    abbrev pub standard_kind : Kind
    standard_kind = record {
      kind = crates.standard;
      handling = standard_handling;
      channels_of = λ entry. entry.standard_channels;
      with_channels = λ m entry. record entry { standard_channels = m };
    }

    abbrev pub extended_kind : Kind
    extended_kind = record {
      kind = crates.extended;
      handling = extended_handling;
      channels_of = λ entry. entry.extended_channels;
      with_channels = λ m entry. record entry { extended_channels = m };
    }

    unfoldable pub handle_submit_shares_standard :
        ChannelManager crates → (downstream_id : ℕ) → SubmitShares → (now_ms now : ℕ) → Submitted
    unfolding submit respond on_error on_valid on_block block_messages success payer_of
    handle_submit_shares_standard = submit standard_kind

    unfoldable pub handle_submit_shares_extended :
        ChannelManager crates → (downstream_id : ℕ) → SubmitShares → (now_ms now : ℕ) → Submitted
    unfolding submit respond on_error on_valid on_block block_messages success payer_of
    handle_submit_shares_extended = submit extended_kind
