-- ===== src/Pool/PrevHash.antt =====
-- pool-apps/pool/src/lib/channel_manager/template_distribution_message_handler.rs:
-- `handle_set_new_prev_hash`. An error shuts the pool down, as for templates.
pub mod Keeps
use gridpool_sv2_pool.Prelude.{
  ℕ, Bool, true, false, not, ◌&&◌, Option, none, some, List, [], ◌∷◌, ◌++◌, Text, Result, ok, err,
  ◌>>=◌, map_err, if◌then◌else◌,
}
use gridpool_sv2_pool.Map
use gridpool_sv2_pool.Map.{Map}
use gridpool_sv2_pool.Pool.Each.{try_each, try_list}
use gridpool_sv2_pool.Pool.Channels.{PrevHash}
use gridpool_sv2_pool.Pool.State.{
  Crates, Downstream, ChannelManager, RouteMessageTo, downstream, set_new_prev_hash,
}
use gridpool_sv2_pool.Pool.Open.{Reply, answers, shuts_down, promised}
use gridpool_sv2_pool.Pool.Templates.{Messages, found}

module _ (crates : Crates) where
  open crates use {Group}

  module _ (msg : PrevHash) (d : ℕ) where
    unfoldable pub extended_prev_hash :
        (channel_id : ℕ)
        → crates.extended.Channel
        → Result (Reply crates) (crates.extended.Channel × Messages crates)
    extended_prev_hash c channel = do
      channel' ← map_err shuts_down (crates.extended.on_set_new_prev_hash msg channel)
      ok (channel', [])

    unfoldable pub standard_prev_hash :
        (requires_standard_jobs : Bool)
        → (channel_id : ℕ) → crates.standard.Channel
        → Result (Reply crates) (crates.standard.Channel × Messages crates)
    standard_prev_hash requires_standard_jobs c channel = do
      channel' ← map_err shuts_down (crates.standard.on_set_new_prev_hash msg channel)
      if requires_standard_jobs
          then (do
            job ← found crates (crates.standard.get_active_job channel')
            ok (
              channel',
              downstream d (set_new_prev_hash c (crates.standard.get_job_id job) msg) ∷ [],
            ))
          else ok (channel', [])

    abbrev pub group_messages : Downstream crates → Group → Result (Reply crates) (Messages crates)
    group_messages entry group =
        if not entry.requires_standard_jobs && not (crates.is_empty group)
        then (do
          job ← promised (crates.group_active_job group)
          ok (
              downstream d (
                set_new_prev_hash (crates.get_group_channel_id group) (crates.group_job_id job) msg)
              ∷ []))
        else ok []

    unfoldable pub downstream_prev_hash :
        Downstream crates → Result (Reply crates) (Downstream crates × Messages crates)
    unfolding extended_prev_hash standard_prev_hash try_each try_list Map.entries
    downstream_prev_hash entry = if entry.requires_custom_work then ok (entry, []) else (do
      group ← map_err shuts_down (crates.group_on_set_new_prev_hash msg entry.group_channel)
      first ← group_messages entry group
      extended ← try_each extended_prev_hash entry.extended_channels
      standard ← try_each (standard_prev_hash entry.requires_standard_jobs) entry.standard_channels
      ok (
        record entry {
          group_channel = group;
          standard_channels = standard.0;
          extended_channels = extended.0;
        },
        first ++ standard.1,
      ))

  unfoldable pub handle_set_new_prev_hash :
      ChannelManager crates → PrevHash → Reply crates × ChannelManager crates
  unfolding downstream_prev_hash extended_prev_hash standard_prev_hash try_each try_list Map.entries
  handle_set_new_prev_hash s msg =
      let current = record s { last_new_prev_hash = some msg } in
      elim (try_each (λ d entry. downstream_prev_hash msg d entry) s.downstreams) [
        | err reply ↦ (reply, current)
        | ok (downstreams, messages) ↦
            (answers messages, record current { downstreams = downstreams })
      ]
