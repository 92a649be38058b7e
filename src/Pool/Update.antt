-- ===== src/Pool/Update.antt =====
-- pool-apps/pool/src/lib/channel_manager/: the targets that a client asks for
-- (`handle_update_channel` of mining_message_handler.rs), and those that the difficulty adjustment
-- sets every minute (`run_vardiff` of mod.rs).
pub mod Keeps
use gridpool_sv2_pool.Prelude.{
  ℕ, Bool, true, false, Option, none, some, List, [], ◌∷◌, ◌++◌, Text, Result, ok, err,
}
use gridpool_sv2_pool.Map
use gridpool_sv2_pool.Pool.Pairs
use gridpool_sv2_pool.Pool.Channels.{Channels}
use gridpool_sv2_pool.Pool.State.{
  Crates, PoolError, Downstream, ChannelManager, RouteMessageTo, downstream, set_target,
  update_channel_error, invalid_channel_id, of_crate, not_registered,
}

-- `UpdateChannel`
pub record UpdateChannel (F32 : Type 0) : Type 0 where
  pub channel_id : ℕ
  pub nominal_hash_rate : F32
  pub maximum_target : ℕ

module _ (crates : Crates) where
  open crates use {libs, F32, GroupJob, Vardiff, try_vardiff}

  abbrev pub Messages : Type 0
  Messages = List (RouteMessageTo crates)

  module _ (kind : Channels F32 libs.F64 GroupJob) (d : ℕ) where
    -- The channel with the target that is asked for, if it can be had, and the answers.
    unfoldable pub retarget : UpdateChannel F32 → kind.Channel → kind.Channel × Messages
    retarget msg channel =
        let (res, channel') =
          kind.update_channel msg.nominal_hash_rate (some msg.maximum_target) channel in
        let told : Messages =
          downstream d (set_target msg.channel_id (kind.get_target channel')) ∷ [] in
        elim res [
          | ok done ↦ (channel', told)
          | err code ↦
              (channel', downstream d (update_channel_error msg.channel_id (of_crate code)) ∷ told)
        ]

    -- `run_vardiff_on_standard_channel` and `run_vardiff_on_extended_channel`
    unfoldable pub run_vardiff_on_channel :
        (channel_id : ℕ) → kind.Channel → Vardiff → kind.Channel × Vardiff × Messages
    run_vardiff_on_channel c channel vardiff =
        let (res, vardiff') =
          try_vardiff vardiff (kind.get_nominal_hashrate channel) (kind.get_target channel)
            (kind.get_shares_per_minute channel) in
        elim res [
          | err failed ↦ (channel, vardiff', [])
          | ok none ↦ (kind.set_stable_hashrate true channel, vardiff', [])
          | ok (some new_hashrate) ↦
              let (updated, channel') =
                kind.update_channel new_hashrate none (kind.set_stable_hashrate false channel) in
              elim updated [
                | ok done ↦ (
                  channel',
                  vardiff',
                  downstream d (set_target c (kind.get_target channel')) ∷ [],
                )
                | err failed ↦ (channel', vardiff', [])
              ]
        ]

  unfoldable pub handle_update_channel :
      ChannelManager crates
      → (downstream_id : ℕ) → UpdateChannel F32
      → Result PoolError Messages × ChannelManager crates
  unfolding retarget
  handle_update_channel s d msg = elim (Map.get d s.downstreams) [
    | none ↦ (err (not_registered d), s)
    | some entry ↦ elim (Map.get msg.channel_id entry.standard_channels) [
      | some channel ↦
          let (channel', messages) = retarget crates.standard d msg channel in
          let entry' = record entry {
            standard_channels = Map.insert msg.channel_id channel' entry.standard_channels;
          } in
          (ok messages, record s { downstreams = Map.insert d entry' s.downstreams })
      | none ↦ elim (Map.get msg.channel_id entry.extended_channels) [
        | some channel ↦
            let (channel', messages) = retarget crates.extended d msg channel in
            let entry' = record entry {
              extended_channels = Map.insert msg.channel_id channel' entry.extended_channels;
            } in
            (ok messages, record s { downstreams = Map.insert d entry' s.downstreams })
        | none ↦
            (ok (downstream d (update_channel_error msg.channel_id invalid_channel_id) ∷ []), s)
      ]
    ]
  ]

  -- The adjustment of the standard channel of an id, if there is one.
  unfoldable pub adjust_standard :
      (d c : ℕ) → Downstream crates → Vardiff → Downstream crates × Vardiff × Messages
  unfolding run_vardiff_on_channel
  adjust_standard d c entry vardiff = elim (Map.get c entry.standard_channels) [
    | none ↦ (entry, vardiff, [])
    | some channel ↦
        let (channel', vardiff', messages) =
          run_vardiff_on_channel crates.standard d c channel vardiff in
        (
          record entry { standard_channels = Map.insert c channel' entry.standard_channels },
          vardiff',
          messages,
        )
  ]

  unfoldable pub adjust_extended :
      (d c : ℕ) → Downstream crates → Vardiff → Downstream crates × Vardiff × Messages
  unfolding run_vardiff_on_channel
  adjust_extended d c entry vardiff = elim (Map.get c entry.extended_channels) [
    | none ↦ (entry, vardiff, [])
    | some channel ↦
        let (channel', vardiff', messages) =
          run_vardiff_on_channel crates.extended d c channel vardiff in
        (
          record entry { extended_channels = Map.insert c channel' entry.extended_channels },
          vardiff',
          messages,
        )
  ]

  unfoldable pub run_vardiff_on_key :
      ChannelManager crates → (downstream_id channel_id : ℕ) → Messages × ChannelManager crates
  unfolding adjust_standard adjust_extended
  run_vardiff_on_key s d c = elim (Map.get d s.downstreams) [
    | none ↦ ([], record s { vardiff = Pairs.remove (d, c) s.vardiff })
    | some entry ↦ elim (Pairs.get (d, c) s.vardiff) [
      | none ↦ ([], s)
      | some vardiff ↦
          let (entry', vardiff', messages) = adjust_standard d c entry vardiff in
          let (entry'', vardiff'', messages') = adjust_extended d c entry' vardiff' in
          (
            messages ++ messages',
            record s {
              downstreams = Map.insert d entry'' s.downstreams;
              vardiff = Pairs.insert (d, c) vardiff'' s.vardiff;
            },
          )
    ]
  ]

  -- The keys of the map, in the order in which it lists them, are an argument.
  unfoldable pub run_vardiff :
      ChannelManager crates → (keys : List (ℕ × ℕ)) → Messages × ChannelManager crates
  unfolding run_vardiff_on_key
  run_vardiff s [] = ([], s)
  run_vardiff s ((d, c) ∷ keys) =
      let (messages, s') = run_vardiff_on_key s d c in
      let (messages', s'') = run_vardiff s' keys in (messages ++ messages', s'')
