-- ===== src/Pool/Templates/PaidJob.antt =====
-- The job that a template becomes on one channel: it pays the channel, and is sent to its client.
use gridpool_sv2_pool.Prelude.{
  ℕ, ◌≡◌, refl, subst, inl, inr, Bool, arith, Option, none, some, List, [], ◌∷◌, ok, ◌>>=◌, bind-ok,
  ok-inj, map_err, map_err-ok, Bool-cases,
}
use mathlib.Core.List.{Memᴰ}
use gridpool_sv2_pool.Pool.Pairs
use gridpool_sv2_pool.Payout.Mode.{TxOut}
use gridpool_sv2_pool.GridPool.Client
use gridpool_sv2_pool.GridPool.Client.{WorkSelection, ChannelPayout, GridPoolClient}
use gridpool_sv2_pool.Pool.Channels.{NewTemplate, Channels}
use gridpool_sv2_pool.Pool.State.{
  Crates, ChannelManager, RouteMessageTo, downstream, new_mining_job, new_extended_mining_job,
}
use gridpool_sv2_pool.Pool.Open.{shuts_down, promised}
use gridpool_sv2_pool.Pool.Templates.{
  Messages, template_job, found, paid_outputs, own_outputs, standard_template, extended_template,
}

module _ (crates : Crates) where
  open crates use {libs, F32, GroupJob}

  abbrev pub job_to : (downstream_id : ℕ) → crates.standard.Job → RouteMessageTo crates
  job_to d job = downstream d (new_mining_job job)

  abbrev pub extended_job_to : (downstream_id : ℕ) → crates.extended.Job → RouteMessageTo crates
  extended_job_to d job = downstream d (new_extended_mining_job job)

  promised-some :
      {A : Type 0} (o : Option A) {a : A} → promised {crates = crates} o ≡ ok a → o ≡ some a
  promised-some none h = absurd (ground arith)
  promised-some (some a) h = ground arith

  found-some : {A : Type 0} (o : Option A) {a : A} → found crates o ≡ ok a → o ≡ some a
  found-some none h = absurd (ground arith)
  found-some (some a) h = ground arith

  -- The outputs that the channel's payout has, the channel with the template, and its job.
  abbrev pub PaidJob :
      (kind : Channels F32 libs.F64 GroupJob)
      → Option ChannelPayout
      → GridPoolClient libs
      → NewTemplate
      → (now : ℕ) → (before after : kind.Channel) → kind.Job
      → Type 0
  PaidJob kind found_payout client template now before after job =
      (payout : ChannelPayout) × (outputs : List TxOut) × (found_payout ≡ some payout)
      × (Client.coinbase_outputs libs client payout template.coinbase_tx_value_remaining now
          ≡ ok outputs)
      × (kind.on_new_template template outputs before ≡ ok after)
      × (template_job crates kind template after ≡ some job)

  paid_outputs-ok :
      (client : GridPoolClient libs) (o : Option ChannelPayout) (total now : ℕ)
      (outputs : List TxOut)
      → paid_outputs crates client o total now ≡ ok outputs
      → (payout : ChannelPayout) × (o ≡ some payout)
        × (Client.coinbase_outputs libs client payout total now ≡ ok outputs)
  unfolding paid_outputs
  paid_outputs-ok client none total now outputs h = absurd (ground arith)
  paid_outputs-ok client (some payout) total now outputs h =
      (payout, refl, map_err-ok _ (Client.coinbase_outputs libs client payout total now) h)

  module _ (s : ChannelManager crates) (template : NewTemplate) (client : GridPoolClient libs)
      (now : ℕ) (on : s.gridpool ≡ some client) where
    pub standard_template-PaidJob :
        (d c : ℕ) (b : Bool) (outputs : List TxOut) (group : GroupJob)
        (channel : crates.standard.Channel) (q : crates.standard.Channel × Messages crates)
        → standard_template crates s template d now b outputs group c channel ≡ ok q
        → (job : crates.standard.Job) × PaidJob crates.standard
            (Pairs.get (d, c) s.gridpool_channels)
            client
            template
            now
            channel
            q.0
            job
          × Memᴰ (job_to d job) q.1
    unfolding standard_template
    standard_template-PaidJob d c b outputs group channel q h =
        let h0 : (own_outputs crates s template d now client c >>= (λ own.
          map_err shuts_down (crates.standard.on_new_template template own channel) >>= (λ made.
            promised (template_job crates crates.standard template made)
            >>= (λ new. ok (made, downstream d (new_mining_job new) ∷ [])))))
            ≡ ok q =
          elim (Bool-cases b) [
            | inl yes_b ↦ simp (standard_template, yes_b, on) at h
            | inr no_b ↦ simp (standard_template, no_b, on) at h
          ] in
        let (own, offered, h1) = bind-ok (own_outputs crates s template d now client c) _ h0 in
        let (made, took, h2) =
          bind-ok
            (map_err (shuts_down {crates = crates})
              (crates.standard.on_new_template template own channel))
            _ h1 in
        let (job, has, h3) =
          bind-ok (promised {crates = crates} (template_job crates crates.standard template made)) _
            h2 in
        let (payout, known, built) =
          paid_outputs-ok client (Pairs.get (d, c) s.gridpool_channels)
            template.coinbase_tx_value_remaining now own offered in
        let result : crates.standard.Channel × Messages crates =
          (made, downstream d (new_mining_job job) ∷ []) in
        subst
          (λ (x : crates.standard.Channel × Messages crates).
            (j : crates.standard.Job) × PaidJob crates.standard
              (Pairs.get (d, c) s.gridpool_channels) client template now channel x.0 j
            × Memᴰ (job_to d j) x.1)
          (ok-inj result q _ refl h3)
          (
            job,
            (
              payout,
              own,
              known,
              built,
              map_err-ok _ (crates.standard.on_new_template template own channel) took,
              promised-some (template_job crates crates.standard template made) has,
            ),
            Memᴰ.head refl,
          )

    pub extended_template-PaidJob :
        (d c : ℕ) (group : GroupJob) (channel : crates.extended.Channel)
        (q : crates.extended.Channel × Messages crates)
        → extended_template crates s template d now group c channel ≡ ok q
        → (job : crates.extended.Job) × PaidJob crates.extended
            (Pairs.get (d, c) s.gridpool_channels)
            client
            template
            now
            channel
            q.0
            job
          × Memᴰ (extended_job_to d job) q.1
    unfolding extended_template
    extended_template-PaidJob d c group channel q h =
        let h0 = simp (extended_template, on) at h in
        let (own, offered, h1) = bind-ok (own_outputs crates s template d now client c) _ h0 in
        let (made, took, h2) =
          bind-ok
            (map_err (shuts_down {crates = crates})
              (crates.extended.on_new_template template own channel))
            _ h1 in
        let (job, has, h3) =
          bind-ok (found crates (template_job crates crates.extended template made)) _ h2 in
        let (payout, known, built) =
          paid_outputs-ok client (Pairs.get (d, c) s.gridpool_channels)
            template.coinbase_tx_value_remaining now own offered in
        let result : crates.extended.Channel × Messages crates =
          (made, downstream d (new_extended_mining_job job) ∷ []) in
        subst
          (λ (x : crates.extended.Channel × Messages crates).
            (j : crates.extended.Job) × PaidJob crates.extended
              (Pairs.get (d, c) s.gridpool_channels) client template now channel x.0 j
            × Memᴰ (extended_job_to d j) x.1)
          (ok-inj result q _ refl h3)
          (
            job,
            (
              payout,
              own,
              known,
              built,
              map_err-ok _ (crates.extended.on_new_template template own channel) took,
              found-some (template_job crates crates.extended template made) has,
            ),
            Memᴰ.head refl,
          )
