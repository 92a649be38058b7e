-- ===== src/Pool/FeeJobs/Rounds/Keeps.antt =====
-- A round of fee jobs opens and closes no channel, also when it fails on the way.
use gridpool_sv2_pool.Prelude.{ℕ, ◌≡◌, refl, false, inl, inr, Option-cases, Result-cases}
use gridpool_sv2_pool.Pool.Pairs
use gridpool_sv2_pool.Pool.Kept.{kept_each, get-kept_each}
use gridpool_sv2_pool.GridPool.Client.{ChannelPayout, GridPoolClient}
use gridpool_sv2_pool.Pool.Channels.{NewTemplate}
use gridpool_sv2_pool.Pool.State.{
  Crates, Downstream, ChannelManager, new_mining_job, new_extended_mining_job,
}
use gridpool_sv2_pool.Pool.Open.Paid.{is_some, open_in, open_at, Paid}
use gridpool_sv2_pool.Pool.Templates.Keeps.{downstreams-Paid}
use gridpool_sv2_pool.Pool.FeeJobs.{commit_gridpool_job_refresh}
use gridpool_sv2_pool.Pool.FeeJobs.Rounds.{
  refresh_channel, refresh_downstream, refresh_gridpool_fee_jobs,
}

module _ (crates : Crates) where
  open crates use {libs}

  refresh_downstream-open_in :
      (payouts : Pairs.Pairs ChannelPayout) (client : GridPoolClient libs) (template : NewTemplate)
      (now d c : ℕ) (entry : Downstream crates)
      → open_in crates (refresh_downstream crates payouts client template now d entry).1 c
        ≡ open_in crates entry c
  unfolding refresh_downstream
  refresh_downstream-open_in payouts client template now d c entry =
      let on_standard = λ (b : ℕ) (channel : crates.standard.Channel).
        refresh_channel crates crates.standard (λ job. new_mining_job job) client template now d
          (Pairs.get (d, b) payouts) channel in
      let on_extended = λ (b : ℕ) (channel : crates.extended.Channel).
        refresh_channel crates crates.extended (λ job. new_extended_mining_job job) client template
          now d (Pairs.get (d, b) payouts) channel in
      let standard =
        get-kept_each on_standard (λ x. is_some x) (λ b channel. refl) entry.standard_channels c in
      let extended =
        get-kept_each on_extended (λ x. is_some x) (λ b channel. refl) entry.extended_channels c in
      elim (Result-cases (kept_each on_standard entry.standard_channels).0) [
        | inl (messages, done) ↦ rw (refresh_downstream, done, standard, extended) refl
        | inr (e, failed) ↦ rw (refresh_downstream, failed, standard) refl
      ]

  pub refresh_gridpool_fee_jobs-Paid :
      (s : ChannelManager crates) (now : ℕ)
      → Paid crates s
      → Paid crates (refresh_gridpool_fee_jobs crates s now).1
  unfolding refresh_gridpool_fee_jobs
  refresh_gridpool_fee_jobs-Paid s now paid = elim (Option-cases s.gridpool) [
    | inl without ↦ rw (refresh_gridpool_fee_jobs, without) paid
    | inr (client, with_client) ↦ elim (Option-cases s.last_future_template) [
      | inl no_template ↦ rw (refresh_gridpool_fee_jobs, with_client, no_template) paid
      | inr (template, last) ↦
          elim (Result-cases
            (commit_gridpool_job_refresh (record template { future_template = false }) now)) [
              | inr (e, refused) ↦ rw (refresh_gridpool_fee_jobs, with_client, last, refused) paid
              | inl (committed, done) ↦
                  let f = refresh_downstream crates s.gridpool_channels client committed now in
                  rw (refresh_gridpool_fee_jobs, with_client, last, done)
                    (downstreams-Paid crates s (kept_each f s.downstreams).1 paid (λ d c.
                      get-kept_each f (λ x. open_at crates x c)
                        (λ e entry.
                          refresh_downstream-open_in s.gridpool_channels client committed now e c
                            entry)
                        s.downstreams d))
            ]
    ]
  ]
