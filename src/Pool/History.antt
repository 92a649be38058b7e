-- ===== src/Pool/History.antt =====
-- Any interleaving of the channel manager's handlers, and the payouts of the channels through it.
use gridpool_sv2_pool.Prelude.{
  ℕ, refl, inl, inr, Bool, true, false, List, [], ◌∷◌, Text, Result, ◌==◌, Bool-cases,
}
use gridpool_sv2_pool.Map
use gridpool_sv2_pool.GridPool.Client.{WorkSelection}
use gridpool_sv2_pool.Pool.Channels.{SubmitShares, NewTemplate, PrevHash}
use gridpool_sv2_pool.Pool.State.{
  Crates, PoolError, Action, acted, log, disconnect, shutdown, ChannelManager, register,
  remove_downstream, handle_close_channel, handle_error_action,
}
use gridpool_sv2_pool.Pool.Shares.{Handling}
use gridpool_sv2_pool.Pool.Open.Extended.{handle_open_extended_mining_channel}
use gridpool_sv2_pool.Pool.Open.{OpenMiningChannel, handle_open_standard_mining_channel}
use gridpool_sv2_pool.Pool.Open.Opens.{
  handle_open_standard_mining_channel-Paid, handle_open_extended_mining_channel-Paid,
}
use gridpool_sv2_pool.Pool.Open.Paid.{
  Paid, needs_payout, has_payout, handle_close_channel-Paid, remove_downstream-Paid,
}
use gridpool_sv2_pool.Pool.Submit.{handle_submit_shares_standard, handle_submit_shares_extended}
use gridpool_sv2_pool.Pool.Submit.Keeps.{
  handle_submit_shares_standard-Paid, handle_submit_shares_extended-Paid,
}
use gridpool_sv2_pool.Pool.Templates.{handle_new_template}
use gridpool_sv2_pool.Pool.Templates.Keeps.{handle_new_template-Paid}
use gridpool_sv2_pool.Pool.FeeJobs.Rounds.{refresh_gridpool_fee_jobs}
use gridpool_sv2_pool.Pool.FeeJobs.Rounds.Keeps.{refresh_gridpool_fee_jobs-Paid}
use gridpool_sv2_pool.Pool.Update.{UpdateChannel, handle_update_channel, run_vardiff}
use gridpool_sv2_pool.Pool.Update.Keeps.{handle_update_channel-Paid, run_vardiff-Paid}
use gridpool_sv2_pool.Pool.PrevHash.{handle_set_new_prev_hash}
use gridpool_sv2_pool.Pool.PrevHash.Keeps.{handle_set_new_prev_hash-Paid}

module _ (crates : Crates) (Proof : Type 0)
    (standard_handling : Handling crates Proof crates.standard)
    (extended_handling : Handling crates Proof crates.extended) where
  open crates use {libs, F32, Group}

  pub data Event : Type 0 where
    connects : (downstream_id : ℕ) (group_channel : Group) → Event
    opens_standard opens_extended :
        (downstream_id : ℕ) (msg : OpenMiningChannel F32) (prefix : Result Text (List ℕ)) (now : ℕ)
        → Event
    closes : (downstream_id channel_id : ℕ) → Event
    submits_standard submits_extended :
        (downstream_id : ℕ) (msg : SubmitShares) (now_ms now : ℕ) → Event
    templates :
        (template : NewTemplate) (fetch_work : ℕ → Result Text (WorkSelection libs.F64)) (now : ℕ)
        → Event
    prev_hashes : (msg : PrevHash) → Event
    updates : (downstream_id : ℕ) (msg : UpdateChannel F32) → Event
    -- a round of `run_vardiff`, with the keys in the order of the map
    adjusts : (keys : List (ℕ × ℕ)) → Event
    -- a round of `refresh_gridpool_fee_jobs`
    rotates : (now : ℕ) → Event
    errors : (is_cancelled : Bool) (e : PoolError) → Event
    leaves : (downstream_id : ℕ) → Event

  unfoldable pub step : ChannelManager crates → Event → ChannelManager crates
  step s (connects d group) = register crates s d group
  step s (opens_standard d msg prefix now) =
      (handle_open_standard_mining_channel crates d msg s prefix now).1
  step s (opens_extended d msg prefix now) =
      (handle_open_extended_mining_channel crates d msg s prefix now).1
  step s (closes d c) = (handle_close_channel crates s d c).1
  step s (submits_standard d msg now_ms now) =
      (handle_submit_shares_standard crates Proof standard_handling extended_handling s d msg now_ms
        now).manager
  step s (submits_extended d msg now_ms now) =
      (handle_submit_shares_extended crates Proof standard_handling extended_handling s d msg now_ms
        now).manager
  step s (templates template fetch_work now) =
      (handle_new_template crates s template fetch_work now).1
  step s (prev_hashes msg) = (handle_set_new_prev_hash crates s msg).1
  step s (updates d msg) = (handle_update_channel crates s d msg).1
  step s (adjusts keys) = (run_vardiff crates s keys).1
  step s (rotates now) = (refresh_gridpool_fee_jobs crates s now).1
  step s (errors is_cancelled e) = (handle_error_action crates s is_cancelled e).2
  step s (leaves d) = remove_downstream crates s d

  unfoldable pub run : ChannelManager crates → List Event → ChannelManager crates
  run s [] = s
  run s (e ∷ es) = run (step s e) es

  register-Paid :
      (s : ChannelManager crates) (d : ℕ) (group : Group)
      → Paid crates s
      → Paid crates (register crates s d group)
  unfolding register needs_payout has_payout
  register-Paid s d group paid e c = rw Map.get-insert (elim (Bool-cases (d == e)) [
    | inl this ↦ rw (this, Map.get-empty, Map.get-empty) refl
    | inr other ↦ rw other (paid e c)
  ])

  acted-Paid :
      (s : ChannelManager crates) (a : Action) → Paid crates s → Paid crates (acted crates s a).2
  unfolding acted
  acted-Paid s log paid = paid
  acted-Paid s (disconnect d) paid = remove_downstream-Paid crates s d paid
  acted-Paid s shutdown paid = paid

  handle_error_action-Paid :
      (s : ChannelManager crates) (is_cancelled : Bool) (e : PoolError)
      → Paid crates s
      → Paid crates (handle_error_action crates s is_cancelled e).2
  unfolding handle_error_action
  handle_error_action-Paid s true e paid = paid
  handle_error_action-Paid s false e paid = acted-Paid s e.action paid

  step-Paid : (s : ChannelManager crates) (e : Event) → Paid crates s → Paid crates (step s e)
  unfolding step
  step-Paid s (connects d group) paid = register-Paid s d group paid
  step-Paid s (opens_standard d msg prefix now) paid =
      handle_open_standard_mining_channel-Paid crates d msg s prefix now paid
  step-Paid s (opens_extended d msg prefix now) paid =
      handle_open_extended_mining_channel-Paid crates d msg s prefix now paid
  step-Paid s (closes d c) paid = handle_close_channel-Paid crates s d c paid
  step-Paid s (submits_standard d msg now_ms now) paid =
      handle_submit_shares_standard-Paid crates Proof standard_handling extended_handling s d msg
        now_ms now paid
  step-Paid s (submits_extended d msg now_ms now) paid =
      handle_submit_shares_extended-Paid crates Proof standard_handling extended_handling s d msg
        now_ms now paid
  step-Paid s (templates template fetch_work now) paid =
      handle_new_template-Paid crates s template fetch_work now paid
  step-Paid s (prev_hashes msg) paid = handle_set_new_prev_hash-Paid crates s msg paid
  step-Paid s (updates d msg) paid = handle_update_channel-Paid crates s d msg paid
  step-Paid s (adjusts keys) paid = run_vardiff-Paid crates s keys paid
  step-Paid s (rotates now) paid = refresh_gridpool_fee_jobs-Paid crates s now paid
  step-Paid s (errors is_cancelled e) paid = handle_error_action-Paid s is_cancelled e paid
  step-Paid s (leaves d) paid = remove_downstream-Paid crates s d paid

  -- While a GridPool node selects the work, every open channel of every client has a payout,
  -- whatever clients, shares, templates, previous hashes, new targets, rounds of fee jobs and errors
  -- come in whichever order.
  pub run-Paid :
      (s : ChannelManager crates) (es : List Event) → Paid crates s → Paid crates (run s es)
  unfolding run
  run-Paid s [] paid = paid
  run-Paid s (e ∷ es) paid = run-Paid (step s e) es (step-Paid s e paid)
