-- ===== src/Pool/Open/Opens.antt =====
-- A handler that opens a channel files its payout.
use gridpool_sv2_pool.Prelude.{
  ℕ, ◌≡◌, refl, subst, inl, inr, true, not, ◌||◌, arith, Option, some, List, Text, length, Result,
  ok, err, bind-ok, ok-inj, map_err, ◌==◌, Option-cases, Result-cases, Bool-cases,
}
use gridpool_sv2_pool.Map
use gridpool_sv2_pool.GridPool.Client.{ChannelPayout}
use gridpool_sv2_pool.Payout.Mode.{PayoutMode}
use gridpool_sv2_pool.Pool.State.{min_extranonce_size_too_large, Crates, Downstream, ChannelManager}
use gridpool_sv2_pool.Pool.Open.Extended.{
  extended_offer, extended_jobs, open_extended, handle_open_extended_mining_channel,
}
use gridpool_sv2_pool.Pool.Open.{
  OpenMiningChannel, Offer, gridpool_payout, payout_mode, standard_offer, with_entry, numbered,
  open_standard, standard_jobs, handle_open_standard_mining_channel, channel_outputs, refuses,
  template_of, prev_hash_of, joined,
}
use gridpool_sv2_pool.Pool.Open.Paid.{
  Paid, covers, open_in, is_some, implies, same_entry-Paid, insert_payout-Paid, start_vardiff-Paid,
  new_channel-Paid, gridpool_payout-covers,
}

module _ (crates : Crates) where
  open crates use {libs, F32}

  module _ (d : ℕ) (msg : OpenMiningChannel F32) where
    open_standard-Paid :
        (s : ChannelManager crates) (entry : Downstream crates) (offer : Offer crates d msg)
        (prefix : Result Text (List ℕ))
        → Paid crates s
        → Map.get d s.downstreams ≡ some entry
        → covers crates s.gridpool offer.payout ≡ true
        → Paid crates (open_standard crates d msg s entry offer prefix).1
    unfolding open_standard
    open_standard-Paid s entry offer (err e) paid here known =
        same_entry-Paid crates d msg s entry _ paid here (λ c. refl)
    open_standard-Paid s entry offer (ok prefix) paid here known =
        let c = entry.channel_id_factory in
        let entry' = numbered crates d msg entry offer.mode in
        let s' = with_entry crates d msg s entry' in
        let paid' = same_entry-Paid crates d msg s entry entry' paid here (λ b. refl) in
        let fresh =
          crates.standard.new_for_pool c msg.user_identity prefix msg.max_target
            msg.nominal_hash_rate in
        elim (Result-cases fresh) [
          | inr (e, refused) ↦ rw (open_standard, refused) paid'
          | inl (channel, made) ↦
              let group_id = crates.get_group_channel_id entry.group_channel in
              elim (Result-cases (standard_jobs crates d msg offer c group_id channel)) [
                | inr (reply, failed) ↦
                    rw (open_standard, made, failed)
                      (insert_payout-Paid crates d msg s' c offer.payout paid')
                | inl ((channel', messages), works) ↦
                    let size = length (crates.standard.get_extranonce_prefix channel) in
                    let less : (b : ℕ)
                        → implies
                            (is_some (Map.get b (Map.insert c channel' entry.standard_channels))
                              || is_some (Map.get b entry.extended_channels))
                            (open_in crates entry b || (c == b))
                          ≡ true =
                      λ b. rw Map.get-insert (ground arith) in
                    elim (Result-cases
                      (joined crates d msg (not entry.requires_standard_jobs) entry c size)) [
                        | inr (e, full) ↦
                            rw (open_standard, made, works, full)
                              (new_channel-Paid crates d msg s entry' _ c offer.payout paid' known
                                less)
                        | inl (group, in_group) ↦
                            rw (open_standard, made, works, in_group)
                              (start_vardiff-Paid crates d msg _ c messages (
                                new_channel-Paid crates d msg s entry' _ c offer.payout paid' known
                                  less))
                      ]
              ]
        ]

    standard_offer-covers :
        (s : ChannelManager crates) (entry : Downstream crates) (now : ℕ)
        (offer : Offer crates d msg)
        → standard_offer crates d msg s entry now ≡ ok offer
        → covers crates s.gridpool offer.payout ≡ true
    unfolding standard_offer
    standard_offer-covers s entry now offer h = elim (Bool-cases entry.requires_custom_work) [
      | inl custom ↦ absurd (ground arith)
      | inr plain ↦
          let h0 = rw (standard_offer, plain) at h in
          let (template, _, h1) = bind-ok (template_of crates d msg s) _ h0 in
          let (prev_hash, _, h2) = bind-ok (prev_hash_of crates d msg s) _ h1 in
          let (payout, resolved, h3) = bind-ok (gridpool_payout crates d msg s.gridpool) _ h2 in
          let (mode, _, h4) = bind-ok (payout_mode crates d msg) _ h3 in
          let (outputs, _, h5) =
            bind-ok
              (channel_outputs crates d msg s payout mode template.coinbase_tx_value_remaining now)
              _ h4 in
          let same = ok-inj _ offer _ refl h5 in
          subst (λ (o : Offer crates d msg). covers crates s.gridpool o.payout ≡ true) same
            (gridpool_payout-covers crates d msg s.gridpool payout resolved)
    ]

    pub handle_open_standard_mining_channel-Paid :
        (s : ChannelManager crates) (prefix : Result Text (List ℕ)) (now : ℕ)
        → Paid crates s
        → Paid crates (handle_open_standard_mining_channel crates d msg s prefix now).1
    unfolding handle_open_standard_mining_channel
    handle_open_standard_mining_channel-Paid s prefix now paid =
        elim (Option-cases (Map.get d s.downstreams)) [
          | inl gone ↦ rw (handle_open_standard_mining_channel, gone) paid
          | inr (entry, here) ↦ elim (Result-cases (standard_offer crates d msg s entry now)) [
            | inr (reply, refused) ↦ rw (handle_open_standard_mining_channel, here, refused) paid
            | inl (offer, offered) ↦
                rw (handle_open_standard_mining_channel, here, offered)
                  (open_standard-Paid s entry offer prefix paid here
                    (standard_offer-covers s entry now offer offered))
          ]
        ]

    open_extended-Paid :
        (s : ChannelManager crates) (entry : Downstream crates) (prefix : List ℕ)
        (payout : Option ChannelPayout) (mode : _) (now : ℕ)
        → Paid crates s
        → Map.get d s.downstreams ≡ some entry
        → covers crates s.gridpool payout ≡ true
        → Paid crates (open_extended crates d msg s entry prefix payout mode now).1
    unfolding open_extended
    open_extended-Paid s entry prefix payout mode now paid here known =
        let c = entry.channel_id_factory in
        let entry' = numbered crates d msg entry mode in
        let s' = with_entry crates d msg s entry' in
        let paid' = same_entry-Paid crates d msg s entry entry' paid here (λ b. refl) in
        let fresh =
          crates.extended.new_for_pool c msg.user_identity prefix msg.max_target
            msg.nominal_hash_rate in
        elim (Result-cases fresh) [
          | inr (e, refused) ↦ rw (open_extended, refused) paid'
          | inl (channel, made) ↦
              elim (Result-cases (extended_jobs crates d msg s entry payout mode c now channel)) [
                | inr (reply, failed) ↦
                    rw (open_extended, made, failed)
                      (insert_payout-Paid crates d msg s' c payout paid')
                | inl ((channel', messages, group), works) ↦
                    let less : (b : ℕ)
                        → implies
                            (is_some (Map.get b entry.standard_channels)
                              || is_some
                                  (Map.get b (Map.insert c channel' entry.extended_channels)))
                            (open_in crates entry b || (c == b))
                          ≡ true =
                      λ b. rw Map.get-insert (ground arith) in
                    rw (open_extended, made, works)
                      (start_vardiff-Paid crates d msg _ c messages
                        (new_channel-Paid crates d msg s entry' _ c payout paid' known less))
              ]
        ]

    extended_offer-covers :
        (s : ChannelManager crates) (entry : Downstream crates) (prefix : Result Text (List ℕ))
        (used : List ℕ) (payout : Option ChannelPayout) (mode : PayoutMode)
        → extended_offer crates d msg s entry prefix ≡ ok (used, payout, mode)
        → covers crates s.gridpool payout ≡ true
    unfolding extended_offer
    extended_offer-covers s entry prefix used payout mode h =
        elim (Bool-cases entry.requires_standard_jobs) [
          | inl standard ↦ absurd (ground arith)
          | inr plain ↦
              let h0 = rw (extended_offer, plain) at h in
              let (p, _, h1) =
                bind-ok (map_err (λ e. refuses crates d msg min_extranonce_size_too_large) prefix) _
                  h0 in
              let (payout', resolved, h2) =
                bind-ok (gridpool_payout crates d msg s.gridpool) _ h1 in
              let (mode', _, h3) = bind-ok (payout_mode crates d msg) _ h2 in
              let same = ok-inj _ (used, payout, mode) _ refl h3 in
              subst
                (λ (o : List ℕ × Option ChannelPayout × PayoutMode).
                  covers crates s.gridpool o.1 ≡ true)
                same (gridpool_payout-covers crates d msg s.gridpool payout' resolved)
        ]

    pub handle_open_extended_mining_channel-Paid :
        (s : ChannelManager crates) (prefix : Result Text (List ℕ)) (now : ℕ)
        → Paid crates s
        → Paid crates (handle_open_extended_mining_channel crates d msg s prefix now).1
    unfolding handle_open_extended_mining_channel
    handle_open_extended_mining_channel-Paid s prefix now paid =
        elim (Option-cases (Map.get d s.downstreams)) [
          | inl gone ↦ rw (handle_open_extended_mining_channel, gone) paid
          | inr (entry, here) ↦ elim (Result-cases (extended_offer crates d msg s entry prefix)) [
            | inr (reply, refused) ↦ rw (handle_open_extended_mining_channel, here, refused) paid
            | inl ((used, payout, mode), offered) ↦
                rw (handle_open_extended_mining_channel, here, offered)
                  (open_extended-Paid s entry used payout mode now paid here
                    (extended_offer-covers s entry prefix used payout mode offered))
          ]
        ]
