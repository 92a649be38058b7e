-- ===== src/Pool/FeeJobs/Rounds.antt =====
-- pool-apps/pool/src/lib/channel_manager/mod.rs: `refresh_gridpool_fee_jobs`, which runs every
-- second and gives a channel a new job when the outputs of its active job are no longer those of
-- its payout. An error is only logged: what was changed before it stays, and the messages are lost.
pub mod Keeps
use gridpool_sv2_pool.Prelude.{
  ℕ, Bool, true, false, Option, none, some, List, [], ◌∷◌, ◌++◌, Text, list_eq, Result, ok, err,
  ◌>>=◌, map_err, ◌==◌, if◌then◌else◌, ◌&&◌,
}
use gridpool_sv2_pool.Map
use gridpool_sv2_pool.Map.{Map}
use gridpool_sv2_pool.Pool.Pairs
use gridpool_sv2_pool.Pool.Kept.{kept_each}
use gridpool_sv2_pool.Payout.Mode.{TxOut}
use gridpool_sv2_pool.GridPool.Client
use gridpool_sv2_pool.GridPool.Client.{ChannelPayout, GridPoolClient}
use gridpool_sv2_pool.Pool.Channels.{NewTemplate, Channels}
use gridpool_sv2_pool.Pool.State.{
  not_committed, Crates, PoolErrorKind, PoolError, shutdown, configuration, job_not_found,
  channel_error, Downstream, ChannelManager, Mining, RouteMessageTo, downstream, new_mining_job,
  new_extended_mining_job,
}
use gridpool_sv2_pool.Pool.FeeJobs.{commit_gridpool_job_refresh}

abbrev pub shut : PoolErrorKind → PoolError
shut kind = record { kind = kind; action = shutdown }

-- `starts_with` of slices of outputs
unfoldable pub starts_with_outputs : (outputs prefix : List TxOut) → Bool
starts_with_outputs outputs [] = true
starts_with_outputs [] (p ∷ ps) = false
starts_with_outputs (o ∷ os) (p ∷ ps) =
    let rest = starts_with_outputs os ps in
    (o.value == p.value) && list_eq o.script_pubkey p.script_pubkey && rest

module _ (crates : Crates) where
  open crates use {libs, F32, GroupJob}

  abbrev pub Messages : Type 0
  Messages = List (RouteMessageTo crates)

  module _ (kind : Channels F32 libs.F64 GroupJob) where
    unfoldable pub works_on : kind.Channel → (outputs : List TxOut) → Bool
    unfolding starts_with_outputs
    works_on channel outputs = elim (kind.get_active_job channel) [
      | none ↦ false
      | some job ↦ starts_with_outputs (kind.get_coinbase_outputs job) outputs
    ]

    module _ (announce : kind.Job → Mining crates) (client : GridPoolClient libs)
        (template : NewTemplate) (now d : ℕ) where
      -- The new job of a channel whose active job does not have the outputs.
      unfoldable pub rotate :
          (outputs : List TxOut) → kind.Channel → Result PoolError Messages × kind.Channel
      rotate outputs channel = elim (kind.on_new_template template outputs channel) [
        | err e ↦
            (err (shut (channel_error e)), kind.failed_on_new_template template outputs channel)
        | ok channel' ↦ elim (kind.get_active_job channel') [
          | none ↦ (err (shut job_not_found), channel')
          | some job ↦ (ok (downstream d (announce job) ∷ []), channel')
        ]
      ]

      unfoldable pub refresh_channel :
          Option ChannelPayout → kind.Channel → Result PoolError Messages × kind.Channel
      unfolding Client.coinbase_outputs works_on rotate
      refresh_channel none channel = (ok [], channel)
      refresh_channel (some payout) channel =
          elim (Client.coinbase_outputs libs client payout template.coinbase_tx_value_remaining
            now) [
              | err e ↦ (err (shut (configuration e)), channel)
              | ok outputs ↦
                  if works_on channel outputs then (ok [], channel) else rotate outputs channel
            ]

  module _ (payouts : Pairs.Pairs ChannelPayout) (client : GridPoolClient libs)
      (template : NewTemplate) (now : ℕ) where
    -- The extended channels are left alone when a standard one fails.
    unfoldable pub refresh_downstream :
        (downstream_id : ℕ) → Downstream crates → Result PoolError Messages × Downstream crates
    unfolding refresh_channel kept_each
    refresh_downstream d entry =
        let (result, standard) =
          kept_each
            (λ c channel.
              refresh_channel crates.standard (λ job. new_mining_job job) client template now d
                (Pairs.get (d, c) payouts) channel)
            entry.standard_channels in
        let (result', extended) =
          kept_each
            (λ c channel.
              refresh_channel crates.extended (λ job. new_extended_mining_job job) client template
                now d (Pairs.get (d, c) payouts) channel)
            entry.extended_channels in
        elim result [
          | err e ↦ (err e, record entry { standard_channels = standard })
          | ok messages ↦ (
            (do others ← result'; ok (messages ++ others)),
            record entry { standard_channels = standard; extended_channels = extended },
          )
        ]

  unfoldable pub refresh_gridpool_fee_jobs :
      ChannelManager crates → (now : ℕ) → Result PoolError Messages × ChannelManager crates
  unfolding commit_gridpool_job_refresh refresh_downstream kept_each
  refresh_gridpool_fee_jobs s now = elim s.gridpool [
    | none ↦ (ok [], s)
    | some client ↦ elim s.last_future_template [
      | none ↦ (ok [], s)
      | some template ↦
          elim (commit_gridpool_job_refresh (record template { future_template = false }) now) [
            | err e ↦ (err (shut (not_committed e)), s)
            | ok committed ↦
                let (result, downstreams) =
                  kept_each (refresh_downstream s.gridpool_channels client committed now)
                    s.downstreams in
                (result, record s { downstreams = downstreams })
          ]
    ]
  ]
