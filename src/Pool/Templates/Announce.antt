-- ===== src/Pool/Templates/Announce.antt =====
-- A template becomes a job of every channel, which pays the channel and is sent to its client.
use gridpool_sv2_pool.Prelude.{
  ℕ, ◌≡◌, refl, sym, subst, false, some, List, ◌∷◌, ◌++◌, Text, Result, ok, bind-ok, ok-inj,
  map_err,
}
use mathlib.Core.List.{Memᴰ}
use mathlib.Core.List.Memᴰ
use gridpool_sv2_pool.Map
use gridpool_sv2_pool.Map.{Map}
use gridpool_sv2_pool.Pool.Pairs
use gridpool_sv2_pool.Pool.Each.{try_each, try_each-Keeps}
use gridpool_sv2_pool.Payout.Mode.{TxOut}
use gridpool_sv2_pool.GridPool.Client.{WorkSelection, GridPoolClient}
use gridpool_sv2_pool.Pool.Channels.{NewTemplate}
use gridpool_sv2_pool.Pool.State.{Crates, Downstream, ChannelManager}
use gridpool_sv2_pool.Pool.Open.{answers, shuts_down}
use gridpool_sv2_pool.Pool.Open.Paid.{Paid, needs_payout, has_payout}
use gridpool_sv2_pool.Pool.Templates.{
  Messages, group_job, found, standard_template, extended_template, downstream_outputs,
  downstream_template, with_first_value, refreshed, remembered, distribute, handle_new_template,
}
use gridpool_sv2_pool.Pool.Templates.PaidJob.{
  PaidJob, job_to, extended_job_to, standard_template-PaidJob, extended_template-PaidJob,
}
use gridpool_sv2_pool.Pool.Templates.Work.{
  TakesTemplate, distribute-ok, refreshed-Paid, refreshed-downstreams,
}

module _ (crates : Crates) where
  open crates use {libs, F32, GroupJob}

  module _ (s : ChannelManager crates) (template : NewTemplate) (client : GridPoolClient libs)
      (now : ℕ) where
    -- A client's channels after the template, their new jobs, and the messages for them.
    abbrev pub Announced : (d : ℕ) → (before after : Downstream crates) → Messages crates → Type 0
    Announced d before after messages =
        ((c : ℕ) (channel : crates.standard.Channel)
          → Map.get c before.standard_channels ≡ some channel
          → (made : crates.standard.Channel) × (job : crates.standard.Job) × (Map.get c
                after.standard_channels
              ≡ some made)
            × PaidJob crates crates.standard (Pairs.get (d, c) s.gridpool_channels) client template
                now channel made job
            × Memᴰ (job_to crates d job) messages)
        × ((c : ℕ) (channel : crates.extended.Channel)
            → Map.get c before.extended_channels ≡ some channel
            → (made : crates.extended.Channel) × (job : crates.extended.Job) × (Map.get c
                  after.extended_channels
                ≡ some made)
              × PaidJob crates crates.extended (Pairs.get (d, c) s.gridpool_channels) client
                  template now channel made job
              × Memᴰ (extended_job_to crates d job) messages)

  module _ (s : ChannelManager crates) (template : NewTemplate) (client : GridPoolClient libs)
      (now : ℕ) (on : s.gridpool ≡ some client) where
    -- The rounds over the channels of both kinds that a client's template consists of.
    abbrev Rounds : (d : ℕ) → Downstream crates → Downstream crates × Messages crates → Type 0
    Rounds d entry q =
        (outputs : List TxOut) × (group : GroupJob) × (standard : Map crates.standard.Channel
          × Messages crates)
        × (extended : Map crates.extended.Channel × Messages crates) × (others : Messages crates)
        × (try_each
              (standard_template crates s template d now entry.requires_standard_jobs outputs group)
              entry.standard_channels
            ≡ ok standard)
        × (try_each (extended_template crates s template d now group) entry.extended_channels
            ≡ ok extended)
        × (q.0.standard_channels ≡ standard.0)
        × (q.0.extended_channels ≡ extended.0)
        × (q.1 ≡ (others ++ standard.1) ++ extended.1)

    downstream_template-Rounds :
        (d : ℕ) (output : List TxOut) (entry : Downstream crates)
        (q : Downstream crates × Messages crates)
        → entry.requires_custom_work ≡ false
        → downstream_template crates s template d now output entry ≡ ok q
        → Rounds d entry q
    unfolding downstream_template
    downstream_template-Rounds d output entry q plain h =
        let h0 = simp (downstream_template, plain) at h in
        let outputs = downstream_outputs crates s template d now entry.payout_mode output in
        let (group, _, h1) =
          bind-ok
            (map_err (shuts_down {crates = crates})
              (crates.group_on_new_template template outputs entry.group_channel))
            _ h0 in
        let (job, _, h2) = bind-ok (found crates (group_job crates template group)) _ h1 in
        let standard_step =
          standard_template crates s template d now entry.requires_standard_jobs outputs job in
        let (standard, each, h3) = bind-ok (try_each standard_step entry.standard_channels) _ h2 in
        let extended_step = extended_template crates s template d now job in
        let (extended, other, h4) = bind-ok (try_each extended_step entry.extended_channels) _ h3 in
        subst (λ (x : Downstream crates × Messages crates). Rounds d entry x) (ok-inj _ q _ refl h4)
          (outputs, job, standard, extended, _, each, other, refl, refl, refl)

    downstream_template-Announced :
        (d : ℕ) (entry : Downstream crates) (q : Downstream crates × Messages crates)
        → Rounds d entry q
        → Announced s template client now d entry q.0 q.1
    downstream_template-Announced d entry q
          (outputs, group, standard, extended, others, each, other, same, same', all) =
        (
          λ c channel there.
              let step =
                standard_template crates s template d now entry.requires_standard_jobs outputs
                  group in
              let (r, stepped, kept, sent) =
                try_each-Keeps step entry.standard_channels standard c channel each there in
              let (new, pays, message) =
                standard_template-PaidJob crates s template client now on d c
                  entry.requires_standard_jobs outputs group channel r stepped in
              let told : Memᴰ (job_to crates d new) ((others ++ standard.1) ++ extended.1) =
                Memᴰ.append_left extended.1
                  (Memᴰ.append_right others (sent (job_to crates d new) message)) in
              (
                r.0,
                new,
                subst (λ m. Map.get c m ≡ some r.0) (sym same) kept,
                pays,
                subst (λ l. Memᴰ (job_to crates d new) l) (sym all) told,
              ),
          λ c channel there.
              let step = extended_template crates s template d now group in
              let (r, stepped, kept, sent) =
                try_each-Keeps step entry.extended_channels extended c channel other there in
              let (new, pays, message) =
                extended_template-PaidJob crates s template client now on d c group channel r
                  stepped in
              let told : Memᴰ (extended_job_to crates d new)
                  ((others ++ standard.1) ++ extended.1) =
                Memᴰ.append_right (others ++ standard.1)
                  (sent (extended_job_to crates d new) message) in
              (
                r.0,
                new,
                subst (λ m. Map.get c m ≡ some r.0) (sym same') kept,
                pays,
                subst (λ l. Memᴰ (extended_job_to crates d new) l) (sym all) told,
              ),
        )

    distribute-Announced :
        (d : ℕ) (entry : Downstream crates) (r : Map (Downstream crates) × Messages crates)
        → distribute crates s template now ≡ ok r
        → Map.get d s.downstreams ≡ some entry
        → entry.requires_custom_work ≡ false
        → (after : Downstream crates) × (Map.get d r.0 ≡ some after)
          × Announced s template client now d entry after r.1
    unfolding distribute
    distribute-Announced d entry r h here plain =
        let (output, _, each) =
          bind-ok (with_first_value crates s.coinbase_outputs template.coinbase_tx_value_remaining)
            _ h in
        let step =
          λ (e : ℕ) (x : Downstream crates). downstream_template crates s template e now output x in
        let (q, stepped, kept, sent) = try_each-Keeps step s.downstreams r d entry each here in
        let told =
          downstream_template-Announced d entry q
            (downstream_template-Rounds d output entry q plain stepped) in
        (
          q.0,
          kept,
          (
            λ c channel there.
                let (made, job, after, pays, message) = told.0 c channel there in
                (made, job, after, pays, sent _ message),
            λ c channel there.
                let (made, job, after, pays, message) = told.1 c channel there in
                (made, job, after, pays, sent _ message),
          ),
        )

  -- Whenever every open channel has a payout, the pool answers a template and goes on, also when
  -- the template brings a new chain tip that the GridPool node answers for. Every channel of every
  -- client that does not require custom work then has the template with the outputs of its own
  -- payout, and its new job is among the messages to its client. It relies on the channels to take
  -- the template with these outputs, on the client to build them, on the groups to take the
  -- template, and on a configured output.
  pub handle_new_template-announces :
      (s s' : ChannelManager crates) (template : NewTemplate)
      (fetch_work : ℕ → Result Text (WorkSelection libs.F64)) (now : ℕ)
      (client : GridPoolClient libs) (output : TxOut) (outputs : List TxOut)
      → Paid crates s
      → refreshed crates s template fetch_work ≡ ok s'
      → s'.gridpool ≡ some client
      → s'.coinbase_outputs ≡ output ∷ outputs
      → TakesTemplate crates s' client template now
      → let r = handle_new_template crates s template fetch_work now in
        (messages : Messages crates) × (r.0 ≡ answers messages)
        × ((d : ℕ) (entry : Downstream crates)
            → Map.get d s.downstreams ≡ some entry
            → entry.requires_custom_work ≡ false
            → (after : Downstream crates) × (Map.get d r.1.downstreams ≡ some after)
              × Announced s' template client now d entry after messages)
  unfolding handle_new_template needs_payout has_payout
  handle_new_template-announces s s' template fetch_work now client output outputs paid fresh on
        configured takes =
      let current = remembered crates s' template in
      let paid' : Paid crates current = refreshed-Paid crates s s' template fetch_work paid fresh in
      let (r, sent) =
        distribute-ok crates current template client now on takes paid' output outputs configured in
      rw (handle_new_template, fresh, sent)
        (
          r.1,
          refl,
          λ d entry here plain.
              distribute-Announced current template client now on d entry r sent
                (subst (λ m. Map.get d m ≡ some entry)
                  (refreshed-downstreams crates s s' template fetch_work fresh) here)
                plain,
        )
