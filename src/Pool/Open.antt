-- ===== src/Pool/Open.antt =====
-- pool-apps/pool/src/lib/channel_manager/mining_message_handler.rs:
-- `handle_open_standard_mining_channel`, and what it shares with the handler for extended channels.
-- The answer of the extranonce allocator and the clock are arguments; a dropped prefix goes back to
-- the allocator by itself.
pub mod Extended
pub mod Paid
pub mod Opens
use gridpool_sv2_pool.Prelude.{
  ℕ, ◌+◌, ◌^◌, ◌%◌, Bool, true, false, not, Option, none, some, List, [], ◌∷◌, ltb, Text, length,
  Result, ok, err, ◌>>=◌, map_err, if◌then◌else◌,
}
use gridpool_sv2_pool.Map
use gridpool_sv2_pool.Pool.Pairs
use gridpool_sv2_pool.Payout.Mode
use gridpool_sv2_pool.Payout.Mode.{TxOut, PayoutMode, full_donation}
use gridpool_sv2_pool.Payout.Identity.{PayoutModeError, no_payout_mode, try_from}
use gridpool_sv2_pool.GridPool.Client
use gridpool_sv2_pool.GridPool.Client.{ChannelPayout, GridPoolClient, PayoutError}
use gridpool_sv2_pool.GridPool.Address.{resolve_channel}
use gridpool_sv2_pool.Pool.Channels.{
  NewTemplate, PrevHash, Channels, OpenError, invalid_nominal_hashrate,
  requested_min_extranonce_size_too_large, other_error,
}
use gridpool_sv2_pool.Pool.State.{
  Crates, PoolErrorKind, PoolError, Action, shutdown, disconnect, configuration, channel_error,
  channel_error_sender, last_new_prevhash_not_found, future_template_not_present, Downstream,
  ChannelManager, Mining, RouteMessageTo, downstream, ErrorCode, of_crate, invalid_user_identity,
  min_extranonce_size_too_large, standard_not_supported_for_custom_work,
  extended_not_supported_for_standard_jobs, open_mining_channel_error,
  open_standard_mining_channel_success, open_extended_mining_channel_success, new_mining_job,
  new_extended_mining_job, set_new_prev_hash, not_registered,
}

pub record OpenMiningChannel (F32 : Type 0) : Type 0 where
  pub request_id : ℕ
  pub user_identity : Text
  pub nominal_hash_rate : F32
  pub max_target : ℕ
  -- of `OpenExtendedMiningChannel` only
  pub min_extranonce_size : ℕ

-- A handler answers with messages, fails, or panics where the crate breaks its promise.
pub data Reply (crates : Crates) : Type 0 where
  answers : List (RouteMessageTo crates) → Reply crates
  fails : PoolError → Reply crates
  panics : Reply crates

abbrev pub shuts_down : {crates : Crates} → Text → Reply crates
shuts_down e = fails (record { kind = channel_error e; action = shutdown })

-- `expect` on an option that the crate promises to fill
abbrev pub promised : {crates : Crates} {A : Type 0} → Option A → Result (Reply crates) A
promised (some a) = ok a
promised none = err panics

module _ (crates : Crates) where
  open crates use {
    libs, F32, GroupJob, miniscript, new_vardiff, get_group_channel_id, add_channel_id,
  }

  module _ (d : ℕ) (msg : OpenMiningChannel F32) where
    abbrev pub refuses : ErrorCode → Reply crates
    refuses code = answers (downstream d (open_mining_channel_error msg.request_id code) ∷ [])

    abbrev pub disconnects : PoolErrorKind → Reply crates
    disconnects kind = fails (record { kind = kind; action = disconnect d })

    -- The payout of the channel when a GridPool node selects the work.
    unfoldable pub gridpool_payout :
        Option (GridPoolClient libs) → Result (Reply crates) (Option ChannelPayout)
    unfolding resolve_channel
    gridpool_payout none = ok none
    gridpool_payout (some client) = elim (resolve_channel libs client msg.user_identity) [
      | ok payout ↦ ok (some payout)
      | err reason ↦ err (refuses invalid_user_identity)
    ]

    abbrev mode_or_refuse : Result PayoutModeError PayoutMode → Result (Reply crates) PayoutMode
    mode_or_refuse (ok mode) = ok mode
    mode_or_refuse (err (no_payout_mode _)) = ok full_donation
    mode_or_refuse (err _) = err (refuses invalid_user_identity)

    unfoldable pub payout_mode : Result (Reply crates) PayoutMode
    unfolding try_from
    payout_mode = mode_or_refuse (try_from miniscript msg.user_identity)

    unfoldable pub channel_outputs :
        ChannelManager crates
        → Option ChannelPayout
        → PayoutMode
        → (total now : ℕ) → Result (Reply crates) (List TxOut)
    unfolding Client.coinbase_outputs Mode.coinbase_outputs
    channel_outputs s none mode total now =
        ok (Mode.coinbase_outputs mode total s.coinbase_reward_script)
    channel_outputs s (some payout) mode total now = elim s.gridpool [
      | none ↦ ok (Mode.coinbase_outputs mode total s.coinbase_reward_script)
      | some client ↦
          map_err (λ e. disconnects (configuration e))
            (Client.coinbase_outputs libs client payout total now)
    ]

    abbrev pub template_of : ChannelManager crates → Result (Reply crates) NewTemplate
    template_of s = elim s.last_future_template [
      | none ↦ err (disconnects future_template_not_present)
      | some template ↦ ok template
    ]

    abbrev pub prev_hash_of : ChannelManager crates → Result (Reply crates) PrevHash
    prev_hash_of s = elim s.last_new_prev_hash [
      | none ↦ err (disconnects last_new_prevhash_not_found)
      | some prev_hash ↦ ok prev_hash
    ]

    -- What a standard channel is opened with, before anything changes.
    pub record Offer : Type 0 where
      pub template : NewTemplate
      pub prev_hash : PrevHash
      pub payout : Option ChannelPayout
      pub mode : PayoutMode
      pub outputs : List TxOut

    unfoldable pub standard_offer :
        ChannelManager crates → Downstream crates → (now : ℕ) → Result (Reply crates) Offer
    unfolding gridpool_payout payout_mode channel_outputs
    standard_offer s entry now =
        if entry.requires_custom_work
        then err (refuses standard_not_supported_for_custom_work)
        else (do
          template ← template_of s
          prev_hash ← prev_hash_of s
          payout ← gridpool_payout s.gridpool
          mode ← payout_mode
          outputs ← channel_outputs s payout mode template.coinbase_tx_value_remaining now
          ok (record {
            template = template;
            prev_hash = prev_hash;
            payout = payout;
            mode = mode;
            outputs = outputs;
          }))

    abbrev pub insert_payout :
        ChannelManager crates → (channel_id : ℕ) → Option ChannelPayout → ChannelManager crates
    insert_payout s c none = s
    insert_payout s c (some payout) = record s {
      gridpool_channels = Pairs.insert (d, c) payout s.gridpool_channels;
    }

    -- `fetch_add(1)` on the 32-bit factory, after `payout_mode.set`
    abbrev pub numbered : Downstream crates → PayoutMode → Downstream crates
    numbered entry mode = record entry {
      payout_mode = some mode;
      channel_id_factory = (entry.channel_id_factory + 1) % 2 ^ 32;
    }

    abbrev pub with_entry : ChannelManager crates → Downstream crates → ChannelManager crates
    with_entry s entry = record s { downstreams = Map.insert d entry s.downstreams }

    -- The jobs of a new standard channel: the channel with the template's job activated, and the
    -- messages for them.
    unfoldable pub standard_jobs :
        Offer
        → (channel_id : ℕ) → (group_channel_id : ℕ) → crates.standard.Channel
        → Result (Reply crates) (crates.standard.Channel × List (RouteMessageTo crates))
    standard_jobs offer c group_id channel =
        let kind = crates.standard in
        do
          channel' ← map_err shuts_down (kind.on_new_template offer.template offer.outputs channel)
          job_id ←
              promised (kind.get_future_job_id_from_template_id channel' offer.template.template_id)
          job ← promised (kind.get_future_job channel' job_id)
          channel'' ← map_err shuts_down (kind.on_set_new_prev_hash offer.prev_hash channel')
          ok (
            channel'',
            downstream d (
                  open_standard_mining_channel_success msg.request_id c (kind.get_target channel)
                    (kind.get_extranonce_prefix channel) group_id)
                ∷ downstream d (new_mining_job job)
                ∷ downstream d (set_new_prev_hash c job_id offer.prev_hash)
                ∷ [],
          )

    -- `VardiffState::new` and the new entry for it.
    unfoldable pub start_vardiff :
        ChannelManager crates
        → (channel_id : ℕ) → List (RouteMessageTo crates)
        → Reply crates × ChannelManager crates
    start_vardiff s c messages = elim new_vardiff [
      | err e ↦ (shuts_down e, s)
      | ok vardiff ↦
          (answers messages, record s { vardiff = Pairs.insert (d, c) vardiff s.vardiff })
    ]

    abbrev standard_refusal : OpenError → Reply crates
    standard_refusal (invalid_nominal_hashrate code) = refuses (of_crate code)
    standard_refusal (requested_min_extranonce_size_too_large code) =
        disconnects channel_error_sender
    standard_refusal (other_error code) = disconnects channel_error_sender

    abbrev pub joined :
        (needed : Bool) → Downstream crates → (channel_id size : ℕ) → Result Text crates.Group
    joined true entry c size = add_channel_id c size entry.group_channel
    joined false entry c size = ok entry.group_channel

    unfoldable pub open_standard :
        ChannelManager crates
        → Downstream crates
        → Offer
        → (prefix : Result Text (List ℕ)) → Reply crates × ChannelManager crates
    unfolding standard_jobs start_vardiff
    open_standard s entry offer prefix = elim prefix [
      | err e ↦ (shuts_down e, with_entry s (record entry { payout_mode = some offer.mode }))
      | ok extranonce_prefix ↦
          let c = entry.channel_id_factory in
          let entry' = numbered entry offer.mode in
          let s' = with_entry s entry' in
          elim (crates.standard.new_for_pool c msg.user_identity extranonce_prefix msg.max_target
            msg.nominal_hash_rate) [
              | err e ↦ (standard_refusal e, s')
              | ok channel ↦
                  let paid = insert_payout s' c offer.payout in
                  let group_id = get_group_channel_id entry.group_channel in
                  elim (standard_jobs offer c group_id channel) [
                    | err reply ↦ (reply, paid)
                    | ok (channel', messages) ↦
                        let opened = record entry' {
                          standard_channels = Map.insert c channel' entry.standard_channels;
                        } in
                        let size = length (crates.standard.get_extranonce_prefix channel) in
                        elim (joined (not entry.requires_standard_jobs) entry c size) [
                          | err e ↦ (shuts_down e, with_entry paid opened)
                          | ok group ↦
                              start_vardiff
                                (with_entry paid (record opened { group_channel = group })) c
                                messages
                        ]
                  ]
            ]
    ]

    unfoldable pub handle_open_standard_mining_channel :
        ChannelManager crates
        → (prefix : Result Text (List ℕ)) → (now : ℕ) → Reply crates × ChannelManager crates
    unfolding standard_offer gridpool_payout payout_mode channel_outputs open_standard standard_jobs
        start_vardiff
    handle_open_standard_mining_channel s prefix now = elim (Map.get d s.downstreams) [
      | none ↦ (fails (not_registered d), s)
      | some entry ↦ elim (standard_offer s entry now) [
        | err reply ↦ (reply, s)
        | ok offer ↦ open_standard s entry offer prefix
      ]
    ]
