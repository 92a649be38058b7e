-- ===== src/Pool/Templates/Work.antt =====
-- A template becomes a job of every paid channel.
use gridpool_sv2_pool.Prelude.{
  ℕ, ◌≡◌, refl, ap, subst, inl, inr, Bool, true, ◌||◌, arith, some, List, ◌∷◌, Text, Result, ok,
  ok-inj, Option-cases, Result-cases, Bool-cases,
}
use gridpool_sv2_pool.Map
use gridpool_sv2_pool.Map.{Map}
use gridpool_sv2_pool.Pool.Pairs
use gridpool_sv2_pool.Pool.Pairs.{Pairs}
use gridpool_sv2_pool.Pool.Each.{try_each-ok}
use gridpool_sv2_pool.Payout.Mode.{TxOut}
use gridpool_sv2_pool.GridPool.Client
use gridpool_sv2_pool.GridPool.Client.{WorkSelection, ChannelPayout, GridPoolClient}
use gridpool_sv2_pool.GridPool.Refresh.{refresh_for_chain_tip}
use gridpool_sv2_pool.Pool.Channels.{NewTemplate, Channels}
use gridpool_sv2_pool.Pool.State.{Crates, Downstream, ChannelManager}
use gridpool_sv2_pool.Pool.Open.Paid.{is_some, Paid, needs_payout, has_payout}
use gridpool_sv2_pool.Pool.Templates.{
  Messages, template_job, group_job, paid_outputs, standard_template, extended_template,
  downstream_outputs, downstream_template, brings_tip, refreshed, distribute, with_first_value,
}

module _ (crates : Crates) where
  open crates use {libs, F32, Group, GroupJob}

  -- A channel takes the template and has its job.
  abbrev Taken :
      (kind : Channels F32 libs.F64 GroupJob) → NewTemplate → List TxOut → kind.Channel → Type 0
  Taken kind template outputs channel =
      (made : kind.Channel) × (job : kind.Job) × (kind.on_new_template template outputs channel
        ≡ ok made)
      × (template_job crates kind template made ≡ some job)

  abbrev GroupTaken : NewTemplate → List TxOut → Group → Type 0
  GroupTaken template outputs group =
      (made : Group) × (job : GroupJob) × (crates.group_on_new_template template outputs group
        ≡ ok made)
      × (group_job crates template made ≡ some job)

  -- The client builds the outputs of a channel's payout, and the channel takes the template with
  -- them.
  abbrev Works :
      (kind : Channels F32 libs.F64 GroupJob)
      → GridPoolClient libs
      → ChannelPayout
      → NewTemplate
      → (now : ℕ) → kind.Channel
      → Type 0
  Works kind client payout template now channel =
      (outputs : List TxOut) × (Client.coinbase_outputs libs client payout
          template.coinbase_tx_value_remaining now
        ≡ ok outputs)
      × Taken kind template outputs channel

  -- The channels of the clients, and their groups, take the template with the outputs that the pool
  -- has for them.
  abbrev pub TakesTemplate :
      ChannelManager crates → GridPoolClient libs → NewTemplate → (now : ℕ) → Type 0
  TakesTemplate s client template now =
      ((d c : ℕ) (entry : Downstream crates) (channel : crates.standard.Channel)
          (payout : ChannelPayout)
        → Map.get d s.downstreams ≡ some entry
        → Map.get c entry.standard_channels ≡ some channel
        → Pairs.get (d, c) s.gridpool_channels ≡ some payout
        → Works crates.standard client payout template now channel)
      × ((d c : ℕ) (entry : Downstream crates) (channel : crates.extended.Channel)
            (payout : ChannelPayout)
          → Map.get d s.downstreams ≡ some entry
          → Map.get c entry.extended_channels ≡ some channel
          → Pairs.get (d, c) s.gridpool_channels ≡ some payout
          → Works crates.extended client payout template now channel)
      × ((d : ℕ) (entry : Downstream crates) (outputs : List TxOut)
          → Map.get d s.downstreams ≡ some entry
          → with_first_value crates s.coinbase_outputs template.coinbase_tx_value_remaining
            ≡ ok outputs
          → GroupTaken template
              (downstream_outputs crates s template d now entry.payout_mode outputs)
              entry.group_channel)

  module _ (s : ChannelManager crates) (template : NewTemplate) (client : GridPoolClient libs)
      (now : ℕ) (on : s.gridpool ≡ some client) (takes : TakesTemplate s client template now) where
    standard_template-ok :
        (d c : ℕ) (payout : ChannelPayout) (b : Bool) (outputs : List TxOut) (job : GroupJob)
        (channel : crates.standard.Channel)
        → Pairs.get (d, c) s.gridpool_channels ≡ some payout
        → Works crates.standard client payout template now channel
        → (r : crates.standard.Channel × Messages crates) × (standard_template crates s template d
              now b outputs job c channel
            ≡ ok r)
    unfolding standard_template paid_outputs
    standard_template-ok d c payout b outputs job channel there
          (own, built, (made, new, took, has)) =
        elim (Bool-cases b) [
          | inl yes_b ↦
              rw (standard_template, yes_b, on, there, paid_outputs, built, took, has) (_, refl)
          | inr no_b ↦
              rw (standard_template, no_b, on, there, paid_outputs, built, took, has) (_, refl)
        ]

    extended_template-ok :
        (d c : ℕ) (payout : ChannelPayout) (job : GroupJob) (channel : crates.extended.Channel)
        → Pairs.get (d, c) s.gridpool_channels ≡ some payout
        → Works crates.extended client payout template now channel
        → (r : crates.extended.Channel × Messages crates) × (extended_template crates s template d
              now job c channel
            ≡ ok r)
    unfolding extended_template paid_outputs
    extended_template-ok d c payout job channel there (own, built, (made, new, took, has)) =
        rw (extended_template, on, there, paid_outputs, built, took, has) (_, refl)

    module _ (paid : Paid crates s) where
      payout_of :
          (d c : ℕ) (entry : Downstream crates)
          → Map.get d s.downstreams ≡ some entry
          → (is_some (Map.get c entry.standard_channels)
              || is_some (Map.get c entry.extended_channels))
            ≡ true
          → (payout : ChannelPayout) × (Pairs.get (d, c) s.gridpool_channels ≡ some payout)
      unfolding needs_payout has_payout
      payout_of d c entry here opened =
          let known = rw (needs_payout, has_payout, here, opened, on) at (paid d c) in
          elim (Option-cases (Pairs.get (d, c) s.gridpool_channels)) [
            | inl missing ↦ absurd (ground arith)
            | inr (payout, there) ↦ (payout, there)
          ]

      downstream_template-ok :
          (d : ℕ) (entry : Downstream crates) (coinbase_output : List TxOut)
          → Map.get d s.downstreams ≡ some entry
          → with_first_value crates s.coinbase_outputs template.coinbase_tx_value_remaining
            ≡ ok coinbase_output
          → (r : Downstream crates × Messages crates) × (downstream_template crates s template d now
                coinbase_output entry
              ≡ ok r)
      unfolding downstream_template
      downstream_template-ok d entry coinbase_output here first =
          let outputs =
            downstream_outputs crates s template d now entry.payout_mode coinbase_output in
          let (group, job, took, has) = takes.2 d entry coinbase_output here first in
          let (standard, each) =
            try_each-ok
              (standard_template crates s template d now entry.requires_standard_jobs outputs job)
              entry.standard_channels
              (λ c channel there.
                let (payout, known) = payout_of d c entry here (ground arith) in
                standard_template-ok d c payout entry.requires_standard_jobs outputs job channel
                  known (takes.0 d c entry channel payout here there known)) in
          let (extended, other) =
            try_each-ok (extended_template crates s template d now job) entry.extended_channels
              (λ c channel there.
                let (payout, known) = payout_of d c entry here (ground arith) in
                extended_template-ok d c payout job channel known
                  (takes.1 d c entry channel payout here there known)) in
          elim (Bool-cases entry.requires_custom_work) [
            | inl custom ↦ rw (downstream_template, custom) (_, refl)
            | inr plain ↦ rw (downstream_template, plain, took, has, each, other) (_, refl)
          ]

      pub distribute-ok :
          (output : TxOut) (outputs : List TxOut)
          → s.coinbase_outputs ≡ output ∷ outputs
          → (r : Map (Downstream crates) × Messages crates) × (distribute crates s template now
              ≡ ok r)
      unfolding distribute
      distribute-ok output outputs configured =
          let first : List TxOut =
            record output { value = template.coinbase_tx_value_remaining } ∷ outputs in
          let (r, each) =
            try_each-ok (λ d entry. downstream_template crates s template d now first entry)
              s.downstreams
              (λ d entry here. downstream_template-ok d entry first here (rw configured refl)) in
          (r, rw (distribute, configured) each)

  pub refreshed-Paid :
      (s s' : ChannelManager crates) (template : NewTemplate)
      (fetch_work : ℕ → Result Text (WorkSelection libs.F64))
      → Paid crates s
      → refreshed crates s template fetch_work ≡ ok s'
      → Paid crates s'
  unfolding refreshed needs_payout has_payout
  refreshed-Paid s s' template fetch_work paid h =
      elim (Bool-cases (brings_tip crates s template)) [
        | inr plain ↦
            let same = ok-inj s s' _ refl (rw (refreshed, plain) at h) in
            subst (Paid crates) same paid
        | inl tip ↦ elim (Option-cases s.gridpool) [
          | inl off ↦
              let same = ok-inj s s' _ refl (rw (refreshed, tip, off) at h) in
              subst (Paid crates) same paid
          | inr (client, on) ↦
              let (result, client') = refresh_for_chain_tip libs client fetch_work in
              elim (Result-cases (refresh_for_chain_tip libs client fetch_work).0) [
                | inr (e, failed) ↦ absurd (ground (arith, rw (refreshed, tip, on, failed) at h))
                | inl (u, done) ↦
                    let new = record s { gridpool = some client' } in
                    let same = ok-inj new s' _ refl (rw (refreshed, tip, on, done) at h) in
                    let paid' : Paid crates new = λ d c. ground (arith, paid d c) in
                    subst (Paid crates) same paid'
              ]
        ]
      ]

  pub refreshed-downstreams :
      (s s' : ChannelManager crates) (template : NewTemplate)
      (fetch_work : ℕ → Result Text (WorkSelection libs.F64))
      → refreshed crates s template fetch_work ≡ ok s'
      → s.downstreams ≡ s'.downstreams
  unfolding refreshed
  refreshed-downstreams s s' template fetch_work h =
      elim (Bool-cases (brings_tip crates s template)) [
        | inr plain ↦
            ap (λ (x : ChannelManager crates). x.downstreams)
              (ok-inj s s' _ refl (rw (refreshed, plain) at h))
        | inl tip ↦ elim (Option-cases s.gridpool) [
          | inl off ↦
              ap (λ (x : ChannelManager crates). x.downstreams)
                (ok-inj s s' _ refl (rw (refreshed, tip, off) at h))
          | inr (client, on) ↦
              let (result, client') = refresh_for_chain_tip libs client fetch_work in
              elim (Result-cases (refresh_for_chain_tip libs client fetch_work).0) [
                | inr (e, failed) ↦ absurd (ground (arith, rw (refreshed, tip, on, failed) at h))
                | inl (u, done) ↦
                    let new = record s { gridpool = some client' } in
                    ap (λ (x : ChannelManager crates). x.downstreams)
                      (ok-inj new s' _ refl (rw (refreshed, tip, on, done) at h))
              ]
        ]
      ]
