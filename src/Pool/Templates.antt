-- ===== src/Pool/Templates.antt =====
-- pool-apps/pool/src/lib/channel_manager/template_distribution_message_handler.rs: new templates
-- and new previous hashes. An error in the middle shuts the pool down; the channels that were
-- changed before it are not kept track of. The node's answers and the clock are arguments.
pub mod Work
pub mod PaidJob
pub mod Announce
pub mod Keeps
use gridpool_sv2_pool.Prelude.{
  ℕ, Bool, true, false, not, ◌&&◌, ◌||◌, Option, none, some, List, [], ◌∷◌, ◌++◌, Text, Result, ok,
  err, ◌>>=◌, map_err, ◌==◌, if◌then◌else◌,
}
use gridpool_sv2_pool.Map
use gridpool_sv2_pool.Map.{Map}
use gridpool_sv2_pool.Pool.Pairs
use gridpool_sv2_pool.Pool.Each.{try_each, try_list}
use gridpool_sv2_pool.Payout.Mode
use gridpool_sv2_pool.Payout.Mode.{TxOut, PayoutMode}
use gridpool_sv2_pool.GridPool.Client
use gridpool_sv2_pool.GridPool.Client.{WorkSelection, ChannelPayout, GridPoolClient, PayoutError}
use gridpool_sv2_pool.GridPool.Refresh.{refresh_for_chain_tip, poll}
use gridpool_sv2_pool.Pool.Channels.{NewTemplate, PrevHash, Channels}
use gridpool_sv2_pool.Pool.State.{
  Crates, PoolErrorKind, PoolError, shutdown, configuration, not_refreshed, job_not_found,
  Downstream, ChannelManager, RouteMessageTo, downstream, new_mining_job, new_extended_mining_job,
  new_group_mining_job, set_new_prev_hash,
}
use gridpool_sv2_pool.Pool.Open.{Reply, answers, fails, panics, shuts_down, promised}

module _ (crates : Crates) where
  open crates use {libs, F32, Group, GroupJob}

  abbrev pub Messages : Type 0
  Messages = List (RouteMessageTo crates)

  abbrev pub stops : PoolErrorKind → Reply crates
  stops kind = fails (record { kind = kind; action = shutdown })

  -- `ok_or_else` with a missing job
  abbrev pub found : {A : Type 0} → Option A → Result (Reply crates) A
  found (some a) = ok a
  found none = err (stops job_not_found)

  -- The job that a template became: a future one, or the active one.
  unfoldable pub template_job :
      (kind : Channels F32 libs.F64 GroupJob) → NewTemplate → kind.Channel → Option kind.Job
  template_job kind template channel =
      if template.future_template
      then elim (kind.get_future_job_id_from_template_id channel template.template_id) [
        | none ↦ none
        | some job_id ↦ kind.get_future_job channel job_id
      ]
      else kind.get_active_job channel

  unfoldable pub group_job : NewTemplate → Group → Option GroupJob
  group_job template group =
      if template.future_template
      then elim (crates.group_future_job_id_from_template_id group template.template_id) [
        | none ↦ none
        | some job_id ↦ crates.group_future_job group job_id
      ]
      else crates.group_active_job group

  -- The outputs of a channel under a GridPool client.
  unfoldable pub paid_outputs :
      GridPoolClient libs
      → Option ChannelPayout
      → (total now : ℕ) → Result (Reply crates) (List TxOut)
  unfolding Client.coinbase_outputs
  paid_outputs client none total now = err (stops job_not_found)
  paid_outputs client (some payout) total now =
      map_err (λ e. stops (configuration e)) (Client.coinbase_outputs libs client payout total now)

  module _ (s : ChannelManager crates) (template : NewTemplate) (d now : ℕ) where
    abbrev pub own_outputs :
        GridPoolClient libs → (channel_id : ℕ) → Result (Reply crates) (List TxOut)
    own_outputs client c =
        paid_outputs client (Pairs.get (d, c) s.gridpool_channels)
          template.coinbase_tx_value_remaining now

    abbrev standard_outputs :
        Option (GridPoolClient libs)
        → List TxOut
        → (channel_id : ℕ) → Result (Reply crates) (List TxOut)
    standard_outputs none outputs c = ok outputs
    standard_outputs (some client) outputs c = own_outputs client c

    abbrev is_some : Option (GridPoolClient libs) → Bool
    is_some none = false
    is_some (some _) = true

    unfoldable pub standard_template :
        (requires_standard_jobs : Bool)
        → List TxOut
        → GroupJob
        → (channel_id : ℕ) → crates.standard.Channel
        → Result (Reply crates) (crates.standard.Channel × Messages)
    unfolding template_job paid_outputs
    standard_template requires_standard_jobs outputs job c channel =
        if not requires_standard_jobs && not (is_some s.gridpool)
        then (do
          channel' ← map_err shuts_down (crates.standard.on_group_channel_job job channel)
          ok (channel', []))
        else (do
          own ← standard_outputs s.gridpool outputs c
          channel' ← map_err shuts_down (crates.standard.on_new_template template own channel)
          new ← promised (template_job crates.standard template channel')
          ok (channel', downstream d (new_mining_job new) ∷ []))

    unfoldable pub extended_template :
        GroupJob
        → (channel_id : ℕ) → crates.extended.Channel
        → Result (Reply crates) (crates.extended.Channel × Messages)
    unfolding template_job paid_outputs
    extended_template job c channel = elim s.gridpool [
      | some client ↦ (do
        own ← own_outputs client c
        channel' ← map_err shuts_down (crates.extended.on_new_template template own channel)
        new ← found (template_job crates.extended template channel')
        ok (channel', downstream d (new_extended_mining_job new) ∷ []))
      | none ↦ (do
        channel' ← map_err shuts_down (crates.extended.on_group_channel_job job channel)
        ok (channel', []))
    ]

    abbrev pub downstream_outputs : Option PayoutMode → List TxOut → List TxOut
    downstream_outputs none outputs = outputs
    downstream_outputs (some mode) outputs =
        Mode.coinbase_outputs mode template.coinbase_tx_value_remaining s.coinbase_reward_script

    unfoldable pub downstream_template :
        (coinbase_output : List TxOut)
        → Downstream crates
        → Result (Reply crates) (Downstream crates × Messages)
    unfolding template_job group_job paid_outputs standard_template extended_template try_each
        try_list Map.entries Mode.coinbase_outputs
    downstream_template coinbase_output entry =
        let outputs = downstream_outputs entry.payout_mode coinbase_output in
        if entry.requires_custom_work then ok (entry, []) else (do
          group ←
              map_err shuts_down (crates.group_on_new_template template outputs entry.group_channel)
          job ← found (group_job template group)
          standard ←
              try_each (standard_template entry.requires_standard_jobs outputs job)
                entry.standard_channels
          extended ← try_each (extended_template job) entry.extended_channels
          ok (
            record entry {
              group_channel = group;
              standard_channels = standard.0;
              extended_channels = extended.0;
            },
            (if not entry.requires_standard_jobs
                    && not (crates.is_empty group)
                    && not (is_some s.gridpool)
                  then downstream d (new_group_mining_job job) ∷ []
                  else [])
                ++ standard.1
                ++ extended.1,
          ))

  abbrev pub with_first_value : List TxOut → (total : ℕ) → Result (Reply crates) (List TxOut)
  with_first_value [] total = err panics
  with_first_value (output ∷ outputs) total = ok (record output { value = total } ∷ outputs)

  abbrev bootstrapped : Option NewTemplate → Bool
  bootstrapped none = false
  bootstrapped (some _) = true

  abbrev pub brings_tip : ChannelManager crates → NewTemplate → Bool
  brings_tip s template =
      template.future_template
      && not (template.template_id == 0)
      && bootstrapped s.last_future_template

  -- The GridPool client's work for a new chain tip, when a template brings one.
  unfoldable pub refreshed :
      ChannelManager crates
      → NewTemplate
      → (fetch_work : ℕ → Result Text (WorkSelection libs.F64))
      → Result (Reply crates) (ChannelManager crates)
  unfolding refresh_for_chain_tip poll
  refreshed s template fetch_work =
      if brings_tip s template
      then elim s.gridpool [
        | none ↦ ok s
        | some client ↦
            let (result, client') = refresh_for_chain_tip libs client fetch_work in
            elim result [
              | err e ↦ err (stops (not_refreshed e))
              | ok done ↦ ok (record s { gridpool = some client' })
            ]
      ]
      else ok s

  abbrev pub remembered : ChannelManager crates → NewTemplate → ChannelManager crates
  remembered s template = record s {
    last_future_template =
        if template.future_template then some template else s.last_future_template;
  }

  unfoldable pub distribute :
      ChannelManager crates
      → NewTemplate
      → (now : ℕ) → Result (Reply crates) (Map (Downstream crates) × Messages)
  unfolding downstream_template template_job group_job paid_outputs standard_template
      extended_template try_each try_list Map.entries
  distribute s template now = do
    coinbase_output ← with_first_value s.coinbase_outputs template.coinbase_tx_value_remaining
    try_each (λ d entry. downstream_template s template d now coinbase_output entry) s.downstreams

  unfoldable pub handle_new_template :
      ChannelManager crates
      → NewTemplate
      → (fetch_work : ℕ → Result Text (WorkSelection libs.F64)) → (now : ℕ)
      → Reply crates × ChannelManager crates
  unfolding refreshed distribute
  handle_new_template s template fetch_work now = elim (refreshed s template fetch_work) [
    | err reply ↦ (reply, s)
    | ok s' ↦
        let current = remembered s' template in
        elim (distribute current template now) [
          | err reply ↦ (reply, current)
          | ok (downstreams, messages) ↦
              (answers messages, record current { downstreams = downstreams })
        ]
  ]
