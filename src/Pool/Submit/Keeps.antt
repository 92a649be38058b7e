-- ===== src/Pool/Submit/Keeps.antt =====
-- A share opens and closes no channel, and leaves the payouts and the GridPool client in place.
use gridpool_sv2_pool.Prelude.{
  ℕ, ◌≡◌, refl, sym, ap, inl, inr, arith, Option, none, some, Text, Option-cases, Result-cases,
  Bool-cases, ◌==◌,
}
use gridpool_sv2_pool.Map
use gridpool_sv2_pool.Map.{Map}
use gridpool_sv2_pool.Pool.Pairs
use gridpool_sv2_pool.GridPool.Client.{ChannelPayout, GridPoolClient}
use gridpool_sv2_pool.Pool.Channels.{SubmitShares, Channels, valid, block_found}
use gridpool_sv2_pool.Pool.State.{Crates, Downstream, ChannelManager}
use gridpool_sv2_pool.Pool.Open.Paid.{is_some, open_in, Paid, needs_payout, has_payout}
use gridpool_sv2_pool.Pool.Shares.{
  Handling, Payer, payer, no_payer, payer_of, respond, on_error, on_valid, on_block,
}
use gridpool_sv2_pool.Pool.Submit.{
  Kind, submit, standard_kind, extended_kind, handle_submit_shares_standard,
  handle_submit_shares_extended,
}

module _ (crates : Crates) (Proof : Type 0) where
  open crates use {libs, F32, GroupJob}

  module _ (kind : Channels F32 libs.F64 GroupJob) (h : Handling crates Proof kind) (tag : Text)
      (d : ℕ) (msg : SubmitShares) (now_ms now : ℕ) where
    abbrev client_of : Payer crates Proof kind → Option (GridPoolClient libs)
    client_of (no_payer client) = client
    client_of (payer client payout) = some client

    respond-client_of :
        (p : Payer crates Proof kind) (channel : kind.Channel)
        → is_some (respond crates Proof kind h tag d msg now_ms now p channel).gridpool
          ≡ is_some (client_of p)
    unfolding respond on_error on_valid on_block
    respond-client_of (no_payer client) channel =
        elim (Result-cases (kind.validate_share msg channel).0) [
          | inr (e, refused) ↦ rw (respond, refused) refl
          | inl (valid hash, found) ↦ rw (respond, found) refl
          | inl (block_found hash template_id coinbase, found) ↦ rw (respond, found) refl
        ]
    respond-client_of (payer client payout) channel =
        elim (Result-cases (kind.validate_share msg channel).0) [
          | inr (e, refused) ↦ rw (respond, refused) refl
          | inl (valid hash, found) ↦ rw (respond, found) refl
          | inl (block_found hash template_id coinbase, found) ↦ rw (respond, found) refl
        ]

    client_of-payer_of :
        (g : Option (GridPoolClient libs)) (payout : Option ChannelPayout)
        → client_of (payer_of crates Proof kind g payout) ≡ g
    unfolding payer_of
    client_of-payer_of none payout = refl
    client_of-payer_of (some client) none = refl
    client_of-payer_of (some client) (some payout) = refl

  -- The channels of a kind are those of a downstream, and inserting one that is there opens none.
  abbrev Fits : Kind crates Proof → Type 0
  Fits k =
      (entry : Downstream crates) (c b : ℕ) (old new : k.kind.Channel)
      → Map.get c (k.channels_of entry) ≡ some old
      → open_in crates (k.with_channels (Map.insert c new (k.channels_of entry)) entry) b
        ≡ open_in crates entry b

  submit-Paid :
      (k : Kind crates Proof) (s : ChannelManager crates) (d : ℕ) (msg : SubmitShares)
      (now_ms now : ℕ)
      → Fits k
      → Paid crates s
      → Paid crates (submit crates Proof k s d msg now_ms now).manager
  unfolding submit needs_payout has_payout
  submit-Paid k s d msg now_ms now fits paid e b = elim (Option-cases (Map.get d s.downstreams)) [
    | inl gone ↦ rw (submit, gone) (paid e b)
    | inr (entry, here) ↦ elim (Option-cases (Map.get msg.channel_id (k.channels_of entry))) [
      | inl closed ↦ rw (submit, here, closed) (paid e b)
      | inr (channel, opened) ↦ elim (Option-cases (Pairs.get (d, msg.channel_id) s.vardiff)) [
        | inl missing ↦ rw (submit, here, opened, missing) (paid e b)
        | inr (vardiff, there) ↦
            let payout = Pairs.get (d, msg.channel_id) s.gridpool_channels in
            let p = payer_of crates Proof k.kind s.gridpool payout in
            let r =
              respond crates Proof k.kind k.handling s.pool_tag_string d msg now_ms now p channel in
            let same : is_some r.gridpool ≡ is_some s.gridpool =
              rw (respond-client_of k.kind k.handling s.pool_tag_string d msg now_ms now p channel)
                (ap is_some (
                  client_of-payer_of k.kind k.handling s.pool_tag_string d msg now_ms now s.gridpool
                    payout)) in
            rw (submit, here, opened, there, Map.get-insert, same)
              (elim (Bool-cases (d == e)) [
                | inr other ↦ rw other (paid e b)
                | inl this ↦
                    let at : d ≡ e = ground arith in
                    let before = rw (sym at, here) at (paid e b) in
                    rw (this, fits entry msg.channel_id b channel r.channel opened, sym at) before
              ])
      ]
    ]
  ]

  module _ (standard_handling : Handling crates Proof crates.standard)
      (extended_handling : Handling crates Proof crates.extended) where
    standard_kind-Fits : Fits (standard_kind crates Proof standard_handling extended_handling)
    standard_kind-Fits entry c b old new there = rw Map.get-insert (ground arith)

    extended_kind-Fits : Fits (extended_kind crates Proof standard_handling extended_handling)
    extended_kind-Fits entry c b old new there = rw Map.get-insert (ground arith)

    pub handle_submit_shares_standard-Paid :
        (s : ChannelManager crates) (d : ℕ) (msg : SubmitShares) (now_ms now : ℕ)
        → Paid crates s
        → Paid crates
            (handle_submit_shares_standard crates Proof standard_handling extended_handling s d msg
              now_ms now).manager
    unfolding handle_submit_shares_standard
    handle_submit_shares_standard-Paid s d msg now_ms now paid =
        submit-Paid (standard_kind crates Proof standard_handling extended_handling) s d msg now_ms
          now standard_kind-Fits paid

    pub handle_submit_shares_extended-Paid :
        (s : ChannelManager crates) (d : ℕ) (msg : SubmitShares) (now_ms now : ℕ)
        → Paid crates s
        → Paid crates
            (handle_submit_shares_extended crates Proof standard_handling extended_handling s d msg
              now_ms now).manager
    unfolding handle_submit_shares_extended
    handle_submit_shares_extended-Paid s d msg now_ms now paid =
        submit-Paid (extended_kind crates Proof standard_handling extended_handling) s d msg now_ms
          now extended_kind-Fits paid
