-- ===== src/Pool/Templates/Keeps.antt =====
-- Templates and previous hashes open and close no channel.
use gridpool_sv2_pool.Prelude.{
  ℕ, ◌≡◌, refl, sym, ap, subst, inl, inr, Option, none, some, List, [], Text, Result, ok, bind-ok,
  ok-inj, map_err, Result-cases, Bool-cases,
}
use gridpool_sv2_pool.Map
use gridpool_sv2_pool.Map.{Map}
use gridpool_sv2_pool.Pool.Each.{try_each, get-try_each, Made, Made-is_some}
use gridpool_sv2_pool.Payout.Mode.{TxOut}
use gridpool_sv2_pool.GridPool.Client.{WorkSelection}
use gridpool_sv2_pool.Pool.Channels.{NewTemplate}
use gridpool_sv2_pool.Pool.State.{Crates, Downstream, ChannelManager}
use gridpool_sv2_pool.Pool.Open.{shuts_down}
use gridpool_sv2_pool.Pool.Open.Paid.{open_in, open_at, Paid, needs_payout, has_payout}
use gridpool_sv2_pool.Pool.Templates.{
  Messages, found, group_job, standard_template, extended_template, downstream_outputs,
  downstream_template, with_first_value, refreshed, remembered, distribute, handle_new_template,
}
use gridpool_sv2_pool.Pool.Templates.Work.{refreshed-Paid}

module _ (crates : Crates) where
  open crates use {libs}

  -- A step on every downstream that keeps its channels open.
  abbrev Same : Downstream crates → Downstream crates → Type 0
  Same entry entry' = (c : ℕ) → open_in crates entry' c ≡ open_in crates entry c

  -- A change of the downstreams that opens no channel.
  pub downstreams-Paid :
      (s : ChannelManager crates) (downstreams : Map (Downstream crates))
      → Paid crates s
      → ((d c : ℕ)
          → open_at crates (Map.get d downstreams) c ≡ open_at crates (Map.get d s.downstreams) c)
      → Paid crates (record s { downstreams = downstreams })
  unfolding needs_payout has_payout
  downstreams-Paid s downstreams paid same d c = rw (same d c) (paid d c)

  pub open_at-try_each :
      {E : Type 0} (f : ℕ → Downstream crates → Result E (Downstream crates × Messages crates))
      (m : Map (Downstream crates)) (r : Map (Downstream crates) × Messages crates) (d c : ℕ)
      → try_each f m ≡ ok r
      → ((entry : Downstream crates) (q : Downstream crates × Messages crates)
          → f d entry ≡ ok q
          → open_in crates q.0 c ≡ open_in crates entry c)
      → open_at crates (Map.get d r.0) c ≡ open_at crates (Map.get d m) c
  open_at-try_each f m r d c h same = go (Map.get d m) (Map.get d r.0) (get-try_each f m r d h)
    where
      go :
          (a b : Option (Downstream crates))
          → Made f a b d
          → open_at crates b c ≡ open_at crates a c
      go none none h = refl
      go none (some w) h = absurd h
      go (some v) none h = absurd h
      go (some v) (some w) (messages, h) = same v (w, messages) h

  downstream_template-open_in :
      (s : ChannelManager crates) (template : NewTemplate) (d now c : ℕ) (output : List TxOut)
      (entry : Downstream crates) (q : Downstream crates × Messages crates)
      → downstream_template crates s template d now output entry ≡ ok q
      → open_in crates q.0 c ≡ open_in crates entry c
  unfolding downstream_template
  downstream_template-open_in s template d now c output entry q h =
      elim (Bool-cases entry.requires_custom_work) [
        | inl custom ↦
            let same = ok-inj (entry, []) q _ refl (simp (downstream_template, custom) at h) in
            ap (λ (x : Downstream crates × Messages crates). open_in crates x.0 c) (sym same)
        | inr plain ↦
            let h0 = simp (downstream_template, plain) at h in
            let outputs = downstream_outputs crates s template d now entry.payout_mode output in
            let (group, _, h1) =
              bind-ok
                (map_err shuts_down
                  (crates.group_on_new_template template outputs entry.group_channel))
                _ h0 in
            let (job, _, h2) = bind-ok (found crates (group_job crates template group)) _ h1 in
            let standard_step =
              standard_template crates s template d now entry.requires_standard_jobs outputs job in
            let (standard, each, h3) =
              bind-ok (try_each standard_step entry.standard_channels) _ h2 in
            let extended_step = extended_template crates s template d now job in
            let (extended, other, h4) =
              bind-ok (try_each extended_step entry.extended_channels) _ h3 in
            let standard_same =
              Made-is_some standard_step _ _ c
                (get-try_each standard_step entry.standard_channels standard c each) in
            let extended_same =
              Made-is_some extended_step _ _ c
                (get-try_each extended_step entry.extended_channels extended c other) in
            let same = ok-inj _ q _ refl h4 in
            subst
              (λ (x : Downstream crates × Messages crates).
                open_in crates x.0 c ≡ open_in crates entry c)
              same (rw (standard_same, extended_same) refl)
      ]

  pub handle_new_template-Paid :
      (s : ChannelManager crates) (template : NewTemplate)
      (fetch_work : ℕ → Result Text (WorkSelection libs.F64)) (now : ℕ)
      → Paid crates s
      → Paid crates (handle_new_template crates s template fetch_work now).1
  unfolding handle_new_template distribute needs_payout has_payout
  handle_new_template-Paid s template fetch_work now paid =
      elim (Result-cases (refreshed crates s template fetch_work)) [
        | inr (reply, failed) ↦ rw (handle_new_template, failed) paid
        | inl (s', fresh) ↦
            let current = remembered crates s' template in
            let paid' = refreshed-Paid crates s s' template fetch_work paid fresh in
            let kept : Paid crates current = paid' in
            elim (Result-cases (distribute crates current template now)) [
              | inr (reply, failed) ↦ rw (handle_new_template, fresh, failed) kept
              | inl ((downstreams, messages), sent) ↦
                  let (output, _, each) =
                    bind-ok
                      (with_first_value crates current.coinbase_outputs
                        template.coinbase_tx_value_remaining)
                      _ sent in
                  rw (handle_new_template, fresh, sent)
                    (downstreams-Paid current downstreams kept (λ d c.
                      open_at-try_each
                        (λ e entry. downstream_template crates current template e now output entry)
                        current.downstreams (downstreams, messages) d c each
                        (λ entry q h.
                          downstream_template-open_in current template d now c output entry q h)))
            ]
      ]
