-- ===== src/Pool/FeeJobs.antt =====
-- pool-apps/pool/src/lib/channel_manager/mod.rs: the jobs of a GridPool client between templates.
-- Each refresh writes its second into the coinbase, so that its jobs are new ones.
pub mod Fresh
pub mod Rounds
use gridpool_sv2_pool.Prelude.{
  ℕ, ◌+◌, ◌^◌, Bool, true, false, ◌&&◌, ◌||◌, Option, none, some, List, [], ◌∷◌, ◌++◌, Text, length,
  ltb, list_eq, to_le_bytes, Result, ok, err, ◌>>=◌, map_err, ◌==◌, if◌then◌else◌,
}
use gridpool_sv2_pool.Map
use gridpool_sv2_pool.Map.{Map}
use gridpool_sv2_pool.Pool.Pairs
use gridpool_sv2_pool.Payout.Mode.{TxOut}
use gridpool_sv2_pool.GridPool.Client
use gridpool_sv2_pool.GridPool.Client.{ChannelPayout, GridPoolClient}
use gridpool_sv2_pool.Pool.Channels.{NewTemplate, Channels}
use gridpool_sv2_pool.Pool.State.{
  CommitError, prefix_exceeds_limit, prefix_exceeds_b0255, not_committed, Crates, PoolErrorKind,
  PoolError, shutdown, configuration, job_not_found, channel_error, Downstream, ChannelManager,
  Mining, RouteMessageTo, downstream, new_mining_job, new_extended_mining_job,
}

-- `commit_gridpool_job_refresh`
unfoldable pub commit_gridpool_job_refresh :
    NewTemplate → (refresh_id : ℕ) → Result CommitError NewTemplate
unfolding to_le_bytes
commit_gridpool_job_refresh template refresh_id =
    let prefix = template.coinbase_prefix ++ 8 ∷ to_le_bytes 8 refresh_id in
    if ltb 100 (length prefix)
    then err prefix_exceeds_limit
    else (if ltb 255 (length prefix)
        then err prefix_exceeds_b0255
        else ok (record template { coinbase_prefix = prefix }))
