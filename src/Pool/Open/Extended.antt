-- ===== src/Pool/Open/Extended.antt =====
-- pool-apps/pool/src/lib/channel_manager/mining_message_handler.rs:
-- `handle_open_extended_mining_channel`.
use gridpool_sv2_pool.Prelude.{
  ℕ, Option, none, some, List, [], ◌∷◌, ltb, Text, length, Result, ok, err, ◌>>=◌, map_err,
  if◌then◌else◌,
}
use gridpool_sv2_pool.Map
use gridpool_sv2_pool.Payout.Mode.{PayoutMode}
use gridpool_sv2_pool.GridPool.Client.{ChannelPayout}
use gridpool_sv2_pool.Pool.Channels.{
  OpenError, invalid_nominal_hashrate, requested_min_extranonce_size_too_large, other_error,
}
use gridpool_sv2_pool.Pool.State.{
  Crates, channel_error, Downstream, ChannelManager, Mining, RouteMessageTo, downstream, of_crate,
  min_extranonce_size_too_large, extended_not_supported_for_standard_jobs,
  open_extended_mining_channel_success, new_extended_mining_job, set_new_prev_hash, not_registered,
}
use gridpool_sv2_pool.Pool.Open.{
  OpenMiningChannel, Reply, fails, shuts_down, promised, refuses, disconnects, channel_outputs,
  prev_hash_of, template_of, gridpool_payout, payout_mode, start_vardiff, numbered, with_entry,
  insert_payout,
}

module _ (crates : Crates) where
  open crates use {libs, F32, get_group_channel_id, add_channel_id}

  module _ (d : ℕ) (msg : OpenMiningChannel F32) where
    abbrev extended_refusal : OpenError → Reply crates
    extended_refusal (invalid_nominal_hashrate code) = refuses crates d msg (of_crate code)
    extended_refusal (requested_min_extranonce_size_too_large code) =
        refuses crates d msg (of_crate code)
    extended_refusal (other_error code) = disconnects crates d msg (channel_error code)

    -- A `B032` holds the prefix.
    abbrev prefix_fits : crates.extended.Channel → Result (Reply crates) (Unit {0})
    prefix_fits channel =
        if ltb 32 (length (crates.extended.get_extranonce_prefix channel))
        then err (shuts_down [])
        else ok tt

    abbrev Opened : Type 0
    Opened = crates.extended.Channel × List (RouteMessageTo crates) × crates.Group

    -- A client with custom work gets no job, and its channel does not join the group.
    unfoldable pub extended_jobs :
        ChannelManager crates
        → Downstream crates
        → Option ChannelPayout
        → PayoutMode
        → (channel_id now : ℕ) → crates.extended.Channel
        → Result (Reply crates) Opened
    unfolding channel_outputs
    extended_jobs s entry payout mode c now channel =
        let kind = crates.extended in
        do
          fits ← prefix_fits channel
          prev_hash ← prev_hash_of crates d msg s
          template ← template_of crates d msg s
          let opened : Mining crates =
              open_extended_mining_channel_success msg.request_id c (kind.get_target channel)
                (kind.get_extranonce_prefix channel) (kind.get_rollable_extranonce_size channel)
                (get_group_channel_id entry.group_channel)
          if entry.requires_custom_work
              then (do
                channel' ← map_err shuts_down (kind.on_set_new_prev_hash prev_hash channel)
                ok (channel', downstream d opened ∷ [], entry.group_channel))
              else (do
                outputs ←
                    channel_outputs crates d msg s payout mode template.coinbase_tx_value_remaining
                      now
                channel' ← map_err shuts_down (kind.on_new_template template outputs channel)
                job_id ←
                    promised (kind.get_future_job_id_from_template_id channel' template.template_id)
                job ← promised (kind.get_future_job channel' job_id)
                channel'' ← map_err shuts_down (kind.on_set_new_prev_hash prev_hash channel')
                group ←
                    map_err shuts_down (
                      add_channel_id c (kind.get_full_extranonce_size channel'')
                        entry.group_channel)
                ok (
                  channel'',
                  downstream d opened
                      ∷ downstream d (new_extended_mining_job job)
                      ∷ downstream d (set_new_prev_hash c job_id prev_hash)
                      ∷ [],
                  group,
                ))

    unfoldable pub extended_offer :
        ChannelManager crates
        → Downstream crates
        → (prefix : Result Text (List ℕ))
        → Result (Reply crates) (List ℕ × Option ChannelPayout × PayoutMode)
    unfolding gridpool_payout payout_mode
    extended_offer s entry prefix =
        if entry.requires_standard_jobs
        then err (refuses crates d msg extended_not_supported_for_standard_jobs)
        else (do
          extranonce_prefix ←
              map_err (λ e. refuses crates d msg min_extranonce_size_too_large) prefix
          payout ← gridpool_payout crates d msg s.gridpool
          mode ← payout_mode crates d msg
          ok (extranonce_prefix, payout, mode))

    unfoldable pub open_extended :
        ChannelManager crates
        → Downstream crates
        → (extranonce_prefix : List ℕ) → Option ChannelPayout
        → PayoutMode
        → (now : ℕ) → Reply crates × ChannelManager crates
    unfolding extended_jobs channel_outputs start_vardiff
    open_extended s entry extranonce_prefix payout mode now =
        let c = entry.channel_id_factory in
        let entry' = numbered crates d msg entry mode in
        let s' = with_entry crates d msg s entry' in
        elim (crates.extended.new_for_pool c msg.user_identity extranonce_prefix msg.max_target
          msg.nominal_hash_rate) [
            | err e ↦ (extended_refusal e, s')
            | ok channel ↦
                let paid = insert_payout crates d msg s' c payout in
                elim (extended_jobs s entry payout mode c now channel) [
                  | err reply ↦ (reply, paid)
                  | ok (channel', messages, group) ↦
                      let opened = record entry' {
                        extended_channels = Map.insert c channel' entry.extended_channels;
                        group_channel = group;
                      } in
                      start_vardiff crates d msg (with_entry crates d msg paid opened) c messages
                ]
          ]

    unfoldable pub handle_open_extended_mining_channel :
        ChannelManager crates
        → (prefix : Result Text (List ℕ)) → (now : ℕ) → Reply crates × ChannelManager crates
    unfolding extended_offer gridpool_payout payout_mode open_extended extended_jobs channel_outputs
        start_vardiff
    handle_open_extended_mining_channel s prefix now = elim (Map.get d s.downstreams) [
      | none ↦ (fails (not_registered d), s)
      | some entry ↦ elim (extended_offer s entry prefix) [
        | err reply ↦ (reply, s)
        | ok (extranonce_prefix, payout, mode) ↦
            open_extended s entry extranonce_prefix payout mode now
      ]
    ]
