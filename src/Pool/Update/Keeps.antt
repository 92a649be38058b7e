-- ===== src/Pool/Update/Keeps.antt =====
-- New targets open and close no channel.
use gridpool_sv2_pool.Prelude.{
  ℕ, ◌≡◌, refl, ◌∙◌, sym, inl, inr, arith, some, List, [], ◌∷◌, ◌==◌, Option-cases, Bool-cases,
}
use gridpool_sv2_pool.Map
use gridpool_sv2_pool.Pool.Pairs
use gridpool_sv2_pool.Pool.State.{Crates, Downstream, ChannelManager}
use gridpool_sv2_pool.Pool.Open.Paid.{open_in, open_at, Paid, needs_payout, has_payout}
use gridpool_sv2_pool.Pool.Templates.Keeps.{downstreams-Paid}
use gridpool_sv2_pool.Pool.Update.{
  UpdateChannel, handle_update_channel, adjust_standard, adjust_extended, run_vardiff_on_key,
  run_vardiff,
}

module _ (crates : Crates) where
  open crates use {F32, Vardiff}

  -- A client's entry is replaced by one with the same open channels.
  replaced-Paid :
      (s : ChannelManager crates) (d : ℕ) (entry entry' : Downstream crates)
      → Map.get d s.downstreams ≡ some entry
      → ((c : ℕ) → open_in crates entry' c ≡ open_in crates entry c)
      → Paid crates s
      → Paid crates (record s { downstreams = Map.insert d entry' s.downstreams })
  replaced-Paid s d entry entry' here same paid =
      downstreams-Paid crates s (Map.insert d entry' s.downstreams) paid (λ e c. replaced e c)
    where
      replaced :
          (e c : ℕ)
          → open_at crates (Map.get e (Map.insert d entry' s.downstreams)) c
            ≡ open_at crates (Map.get e s.downstreams) c
      replaced e c = rw Map.get-insert (elim (Bool-cases (d == e)) [
        | inl this ↦ let at : d ≡ e = ground arith in rw (this, sym at, here) (same c)
        | inr other ↦ rw other refl
      ])

  standard-open_in :
      (entry : Downstream crates) (c b : ℕ) (old new : crates.standard.Channel)
      → Map.get c entry.standard_channels ≡ some old
      → open_in crates
          (record entry { standard_channels = Map.insert c new entry.standard_channels })
          b
        ≡ open_in crates entry b
  standard-open_in entry c b old new there = rw Map.get-insert (ground arith)

  extended-open_in :
      (entry : Downstream crates) (c b : ℕ) (old new : crates.extended.Channel)
      → Map.get c entry.extended_channels ≡ some old
      → open_in crates
          (record entry { extended_channels = Map.insert c new entry.extended_channels })
          b
        ≡ open_in crates entry b
  extended-open_in entry c b old new there = rw Map.get-insert (ground arith)

  pub handle_update_channel-Paid :
      (s : ChannelManager crates) (d : ℕ) (msg : UpdateChannel F32)
      → Paid crates s
      → Paid crates (handle_update_channel crates s d msg).1
  unfolding handle_update_channel
  handle_update_channel-Paid s d msg paid = elim (Option-cases (Map.get d s.downstreams)) [
    | inl gone ↦ rw (handle_update_channel, gone) paid
    | inr (entry, here) ↦ elim (Option-cases (Map.get msg.channel_id entry.standard_channels)) [
      | inr (channel, there) ↦
          rw (handle_update_channel, here, there)
            (replaced-Paid s d entry _ here
              (λ c. standard-open_in entry msg.channel_id c channel _ there) paid)
      | inl missing ↦ elim (Option-cases (Map.get msg.channel_id entry.extended_channels)) [
        | inr (channel, there) ↦
            rw (handle_update_channel, here, missing, there)
              (replaced-Paid s d entry _ here
                (λ c. extended-open_in entry msg.channel_id c channel _ there) paid)
        | inl closed ↦ rw (handle_update_channel, here, missing, closed) paid
      ]
    ]
  ]

  adjust_standard-open_in :
      (d c b : ℕ) (entry : Downstream crates) (vardiff : Vardiff)
      → open_in crates (adjust_standard crates d c entry vardiff).0 b ≡ open_in crates entry b
  unfolding adjust_standard
  adjust_standard-open_in d c b entry vardiff =
      elim (Option-cases (Map.get c entry.standard_channels)) [
        | inl missing ↦ rw (adjust_standard, missing) refl
        | inr (channel, there) ↦
            rw (adjust_standard, there) (standard-open_in entry c b channel _ there)
      ]

  adjust_extended-open_in :
      (d c b : ℕ) (entry : Downstream crates) (vardiff : Vardiff)
      → open_in crates (adjust_extended crates d c entry vardiff).0 b ≡ open_in crates entry b
  unfolding adjust_extended
  adjust_extended-open_in d c b entry vardiff =
      elim (Option-cases (Map.get c entry.extended_channels)) [
        | inl missing ↦ rw (adjust_extended, missing) refl
        | inr (channel, there) ↦
            rw (adjust_extended, there) (extended-open_in entry c b channel _ there)
      ]

  run_vardiff_on_key-Paid :
      (s : ChannelManager crates) (d c : ℕ)
      → Paid crates s
      → Paid crates (run_vardiff_on_key crates s d c).1
  unfolding run_vardiff_on_key needs_payout has_payout
  run_vardiff_on_key-Paid s d c paid = elim (Option-cases (Map.get d s.downstreams)) [
    | inl gone ↦ rw (run_vardiff_on_key, gone) paid
    | inr (entry, here) ↦ elim (Option-cases (Pairs.get (d, c) s.vardiff)) [
      | inl missing ↦ rw (run_vardiff_on_key, here, missing) paid
      | inr (vardiff, there) ↦
          let r = adjust_standard crates d c entry vardiff in
          rw (run_vardiff_on_key, here, there)
            (replaced-Paid s d entry (adjust_extended crates d c r.0 r.1).0 here
              (λ b.
                adjust_extended-open_in d c b r.0 r.1 ∙ adjust_standard-open_in d c b entry vardiff)
              paid)
    ]
  ]

  pub run_vardiff-Paid :
      (s : ChannelManager crates) (keys : List (ℕ × ℕ))
      → Paid crates s
      → Paid crates (run_vardiff crates s keys).1
  unfolding run_vardiff
  run_vardiff-Paid s [] paid = paid
  run_vardiff-Paid s ((d, c) ∷ keys) paid =
      run_vardiff-Paid (run_vardiff_on_key crates s d c).1 keys (run_vardiff_on_key-Paid s d c paid)
