-- ===== src/Pool/Open/Paid.antt =====
-- Every open channel has a payout while a GridPool node selects the work.
use gridpool_sv2_pool.Prelude.{
  ℕ, ◌≡◌, refl, sym, inl, inr, Bool, true, false, not, ◌&&◌, ◌||◌, arith, Option, none, some, List,
  ok, ◌==◌, Option-cases, Result-cases, Bool-cases,
}
use gridpool_sv2_pool.Map
use gridpool_sv2_pool.Pool.Pairs
use gridpool_sv2_pool.GridPool.Client.{ChannelPayout, GridPoolClient}
use gridpool_sv2_pool.GridPool.Address.{resolve_channel}
use gridpool_sv2_pool.Pool.State.{
  Crates, Downstream, ChannelManager, handle_close_channel, remove_downstream,
}
use gridpool_sv2_pool.Pool.Open.{
  OpenMiningChannel, gridpool_payout, insert_payout, with_entry, start_vardiff,
}

abbrev pub is_some {ℓ} : {A : Type ℓ} → Option A → Bool
is_some none = false
is_some (some a) = true

abbrev pub implies : Bool → Bool → Bool
implies a b = not a || b

module _ (crates : Crates) where
  open crates use {libs, F32}

  abbrev pub open_in : Downstream crates → (channel_id : ℕ) → Bool
  open_in entry c =
      is_some (Map.get c entry.standard_channels) || is_some (Map.get c entry.extended_channels)

  abbrev pub open_at : Option (Downstream crates) → (channel_id : ℕ) → Bool
  open_at none c = false
  open_at (some entry) c = open_in entry c

  -- The channel is open, and a node selects the work.
  unfoldable pub needs_payout : ChannelManager crates → (downstream_id channel_id : ℕ) → Bool
  needs_payout s d c = open_at (Map.get d s.downstreams) c && is_some s.gridpool

  unfoldable pub has_payout : ChannelManager crates → (downstream_id channel_id : ℕ) → Bool
  has_payout s d c = is_some (Pairs.get (d, c) s.gridpool_channels)

  abbrev pub Paid : ChannelManager crates → Type 0
  Paid s = (d c : ℕ) → implies (needs_payout s d c) (has_payout s d c) ≡ true

  -- A payout for a channel, or no node.
  abbrev pub covers : Option (GridPoolClient libs) → Option ChannelPayout → Bool
  covers g payout = implies (is_some g) (is_some payout)

  module _ (d : ℕ) (msg : OpenMiningChannel F32) where
    pub gridpool_payout-covers :
        (g : Option (GridPoolClient libs)) (payout : Option ChannelPayout)
        → gridpool_payout crates d msg g ≡ ok payout
        → covers g payout ≡ true
    unfolding gridpool_payout
    gridpool_payout-covers none payout h = refl
    gridpool_payout-covers (some client) none h =
        elim (Result-cases (resolve_channel libs client msg.user_identity)) [
          | inl (found, resolved) ↦ absurd (ground arith)
          | inr (reason, refused) ↦ absurd (ground arith)
        ]
    gridpool_payout-covers (some client) (some payout) h = refl

    pub same_entry-Paid :
        (s : ChannelManager crates) (entry entry' : Downstream crates)
        → Paid s
        → Map.get d s.downstreams ≡ some entry
        → ((c : ℕ) → open_in entry' c ≡ open_in entry c)
        → Paid (with_entry crates d msg s entry')
    unfolding needs_payout has_payout
    same_entry-Paid s entry entry' paid here same e c =
        rw Map.get-insert (elim (Bool-cases (d == e)) [
          | inl this ↦
              let at : d ≡ e = ground arith in
              let before = rw (sym at, here) at (paid e c) in rw (this, same c, sym at) before
          | inr other ↦ rw other (paid e c)
        ])

    pub insert_payout-Paid :
        (s : ChannelManager crates) (c : ℕ) (payout : Option ChannelPayout)
        → Paid s
        → Paid (insert_payout crates d msg s c payout)
    unfolding needs_payout has_payout
    insert_payout-Paid s c none paid e b = paid e b
    insert_payout-Paid s c (some payout) paid e b = rw Pairs.get-insert (ground (arith, paid e b))

    -- Opening a channel whose payout is known, or for which there need be none.
    opened-Paid :
        (s : ChannelManager crates) (entry entry' : Downstream crates) (c : ℕ)
        → Paid s
        → Map.get d s.downstreams ≡ some entry
        → ((b : ℕ) → implies (open_in entry' b) (open_in entry b || (c == b)) ≡ true)
        → implies (is_some s.gridpool) (has_payout s d c) ≡ true
        → Paid (with_entry crates d msg s entry')
    unfolding needs_payout has_payout
    opened-Paid s entry entry' c paid here less known e b =
        rw Map.get-insert (elim (Bool-cases (d == e)) [
          | inr other ↦ rw other (paid e b)
          | inl this ↦
              let at : d ≡ e = ground arith in
              let before = rw (sym at, here) at (paid e b) in
              elim (Bool-cases (c == b)) [
                | inl new ↦
                    let there : c ≡ b = ground arith in
                    let known' = rw there at known in rw (this, sym at) (ground arith)
                | inr old ↦ rw (this, sym at) (ground (arith, less b, before))
              ]
        ])

    inserted-covers :
        (s : ChannelManager crates) (c : ℕ) (payout : Option ChannelPayout)
        → covers s.gridpool payout ≡ true
        → implies (is_some s.gridpool) (has_payout (insert_payout crates d msg s c payout) d c)
          ≡ true
    unfolding has_payout
    inserted-covers s c none h = ground arith
    inserted-covers s c (some payout) h = rw Pairs.get-insert (ground arith)

    pub start_vardiff-Paid :
        (s : ChannelManager crates) (c : ℕ) (messages : List _)
        → Paid s
        → Paid (start_vardiff crates d msg s c messages).1
    unfolding start_vardiff needs_payout has_payout
    start_vardiff-Paid s c messages paid e b = elim (Result-cases crates.new_vardiff) [
      | inr (_, failed) ↦ rw failed (paid e b)
      | inl (vardiff, started) ↦ rw started (paid e b)
    ]

    entry-insert_payout :
        (s : ChannelManager crates) (entry : Downstream crates) (c : ℕ)
        (payout : Option ChannelPayout)
        → Map.get d
            (insert_payout crates d msg (with_entry crates d msg s entry) c payout).downstreams
          ≡ some entry
    entry-insert_payout s entry c none = rw Map.get-insert (ground arith)
    entry-insert_payout s entry c (some payout) = rw Map.get-insert (ground arith)

    gridpool-insert_payout :
        (s : ChannelManager crates) (c : ℕ) (payout : Option ChannelPayout)
        → (insert_payout crates d msg s c payout).gridpool ≡ s.gridpool
    gridpool-insert_payout s c none = refl
    gridpool-insert_payout s c (some payout) = refl

    -- A new channel, once its payout is known.
    pub new_channel-Paid :
        (s : ChannelManager crates) (entry entry' : Downstream crates) (c : ℕ)
        (payout : Option ChannelPayout)
        → Paid (with_entry crates d msg s entry)
        → covers s.gridpool payout ≡ true
        → ((b : ℕ) → implies (open_in entry' b) (open_in entry b || (c == b)) ≡ true)
        → Paid (
            with_entry crates d msg
              (insert_payout crates d msg (with_entry crates d msg s entry) c payout)
              entry')
    new_channel-Paid s entry entry' c payout paid known less =
        let s' = with_entry crates d msg s entry in
        let s'' = insert_payout crates d msg s' c payout in
        opened-Paid s'' entry entry' c (insert_payout-Paid s' c payout paid)
          (entry-insert_payout s entry c payout) less
          (rw (gridpool-insert_payout s' c payout) (inserted-covers s' c payout known))

  pub handle_close_channel-Paid :
      (s : ChannelManager crates) (d c : ℕ) → Paid s → Paid (handle_close_channel crates s d c).1
  unfolding handle_close_channel needs_payout has_payout
  handle_close_channel-Paid s d c paid e b = elim (Option-cases (Map.get d s.downstreams)) [
    | inl gone ↦ rw (handle_close_channel, gone) (paid e b)
    | inr (entry, here) ↦
        rw (handle_close_channel, here, Map.get-insert, Pairs.get-remove)
          (elim (Bool-cases (d == e)) [
            | inr other ↦ rw other (paid e b)
            | inl this ↦
                let at : d ≡ e = ground arith in
                let before = rw (sym at, here) at (paid e b) in
                rw
                  (
                    this,
                    sym at,
                    Map.get-remove c b entry.standard_channels,
                    Map.get-remove c b entry.extended_channels,
                  )
                  (ground (arith, before))
          ])
  ]

  pub remove_downstream-Paid :
      (s : ChannelManager crates) (d : ℕ) → Paid s → Paid (remove_downstream crates s d)
  unfolding remove_downstream needs_payout has_payout
  remove_downstream-Paid s d paid e b =
      rw (Map.get-remove, Pairs.get-remove_first) (ground (arith, paid e b))
