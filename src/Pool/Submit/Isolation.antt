-- ===== src/Pool/Submit/Isolation.antt =====
-- What a client's share leaves of the other clients.
use gridpool_sv2_pool.Prelude.{
  ℕ, ◌^◌, ◌≤◌, ◌≡◌, ◌≢◌, refl, inl, inr, ◌⊎◌, false, arith, Option, none, some, List, All, Text,
  Result, ok, err, ltb, length, ◌==◌, Option-cases, Result-cases, Bool-cases,
}
use gridpool_sv2_pool.Map
use gridpool_sv2_pool.Pool.Pairs
use gridpool_sv2_pool.Pool.Channels.{
  SubmitShares, Channels, valid, block_found, ShareValidationError, ShareValidationResult,
}
use gridpool_sv2_pool.Pool.State.{
  Crates, PoolError, Downstream, ChannelManager, RouteMessageTo, template_provider, downstream,
  shutdown, disconnect,
}
use gridpool_sv2_pool.Pool.Shares.{
  Handling, Payer, payer, no_payer, payer_of, respond, on_error, on_valid, on_block, block_messages,
  success,
}
use gridpool_sv2_pool.Pool.Submit.{Kind, submit}

module _ {crates : Crates} (d : ℕ) where
  abbrev pub To : RouteMessageTo crates → Type 0
  To (template_provider solution) = Unit
  To (downstream e message) = d ≡ e

  -- Answers to one client and solutions for the template provider, or an error that disconnects
  -- that client or, in the given case only, shuts the pool down.
  abbrev pub Concerns : (Fatal : Type 0) → Result PoolError (List (RouteMessageTo crates)) → Type 0
  Concerns Fatal (ok messages) = All To messages
  Concerns Fatal (err e) = (e.action ≡ disconnect d) ⊎ ((e.action ≡ shutdown) × Fatal)

  Concerns-widen :
      {Fatal Wider : Type 0} (r : Result PoolError (List (RouteMessageTo crates)))
      → (Fatal → Wider)
      → Concerns Fatal r
      → Concerns Wider r
  Concerns-widen (ok messages) wider h = h
  Concerns-widen (err e) wider (inl h) = inl h
  Concerns-widen (err e) wider (inr (h, f)) = inr (h, wider f)

-- A found block of a template whose coinbase a `SubmitSolution` cannot hold.
abbrev TooLong : Option ℕ → List ℕ → Type 0
TooLong none coinbase = ⊥
TooLong (some template_id) coinbase = 2 ^ 16 ≤ length coinbase

abbrev pub UnsendableBlock : Result ShareValidationError ShareValidationResult → Type 0
UnsendableBlock (err e) = ⊥
UnsendableBlock (ok (valid share_hash)) = ⊥
UnsendableBlock (ok (block_found share_hash template_id coinbase)) = TooLong template_id coinbase

module _ (crates : Crates) (Proof : Type 0) where
  open crates use {libs, F32, GroupJob}

  module _ (kind : Channels F32 libs.F64 GroupJob) (h : Handling crates Proof kind) (tag : Text)
      (d : ℕ) (msg : SubmitShares) (now_ms now : ℕ) where
    on_error-Concerns :
        (p : Payer crates Proof kind) (e : _) (channel : kind.Channel)
        → Concerns d ⊥ (on_error crates Proof kind h tag d msg now_ms now p e channel).result
    unfolding on_error
    on_error-Concerns (no_payer client) e channel = elim (Option-cases (h.code e)) [
      | inl other ↦ rw (on_error, other) (inl refl)
      | inr (code, known) ↦ rw (on_error, known) (refl, tt)
    ]
    on_error-Concerns (payer client payout) e channel = elim (Option-cases (h.code e)) [
      | inl other ↦ rw (on_error, other) (inl refl)
      | inr (code, known) ↦ rw (on_error, known) (refl, tt)
    ]

    on_valid-Concerns :
        (p : Payer crates Proof kind) (hash : List ℕ) (channel : kind.Channel)
        → Concerns d ⊥ (on_valid crates Proof kind h tag d msg now_ms now p hash channel).result
    unfolding on_valid success
    on_valid-Concerns (no_payer client) hash channel =
        elim (Bool-cases (kind.should_acknowledge channel)) [
          | inl acknowledged ↦ rw acknowledged (refl, tt)
          | inr silent ↦ rw silent tt
        ]
    on_valid-Concerns (payer client payout) hash channel =
        elim (Bool-cases (kind.should_acknowledge channel)) [
          | inl acknowledged ↦ rw acknowledged (refl, tt)
          | inr silent ↦ rw silent tt
        ]

    block_messages-Concerns :
        (template_id : Option ℕ) (coinbase : List ℕ) (channel : kind.Channel)
        → Concerns d
            (TooLong template_id coinbase)
            (block_messages crates Proof kind h tag d msg now_ms now template_id coinbase channel)
    unfolding block_messages success
    block_messages-Concerns none coinbase channel = (refl, tt)
    block_messages-Concerns (some template_id) coinbase channel =
        elim (Bool-cases (ltb (length coinbase) (2 ^ 16))) [
          | inl fits ↦ rw fits (tt, (refl, tt))
          | inr long ↦ rw long (inr (refl, ground arith))
        ]

    on_block-Concerns :
        (p : Payer crates Proof kind) (hash : List ℕ) (template_id : Option ℕ) (coinbase : List ℕ)
        (channel : kind.Channel)
        → Concerns d
            (TooLong template_id coinbase)
            (on_block crates Proof kind h tag d msg now_ms now p hash template_id coinbase
              channel).result
    unfolding on_block
    on_block-Concerns (no_payer client) hash template_id coinbase channel =
        block_messages-Concerns template_id coinbase channel
    on_block-Concerns (payer client payout) hash template_id coinbase channel =
        block_messages-Concerns template_id coinbase channel

    respond-Concerns :
        (p : Payer crates Proof kind) (channel : kind.Channel)
        → Concerns d
            (UnsendableBlock (kind.validate_share msg channel).0)
            (respond crates Proof kind h tag d msg now_ms now p channel).result
    unfolding respond
    respond-Concerns p channel =
        let channel' = (kind.validate_share msg channel).1 in
        elim (Result-cases (kind.validate_share msg channel).0) [
          | inr (e, refused) ↦ rw (respond, refused) (on_error-Concerns p e channel')
          | inl (valid hash, found) ↦ rw (respond, found) (on_valid-Concerns p hash channel')
          | inl (block_found hash template_id coinbase, found) ↦
              rw (respond, found) (on_block-Concerns p hash template_id coinbase channel')
        ]

  -- The share is a found block, on an open channel of its client under difficulty control, whose
  -- coinbase is too long to be sent.
  abbrev pub IsUnsendable :
      (k : Kind crates Proof) → ChannelManager crates → (d : ℕ) → SubmitShares → Type 0
  IsUnsendable k s d msg =
      (entry : Downstream crates) × (channel : k.kind.Channel) × (Map.get d s.downstreams
        ≡ some entry)
      × (Map.get msg.channel_id (k.channels_of entry) ≡ some channel)
      × (Pairs.get (d, msg.channel_id) s.vardiff ≢ none)
      × UnsendableBlock (k.kind.validate_share msg channel).0

  -- A share answers its own client only, and its errors disconnect that client only, unless it is a
  -- found block whose coinbase does not fit the message for the template provider: only then may
  -- the pool shut down. The entry of every other client stays as it is with its channels, so does
  -- its difficulty control, and the payouts of all channels do.
  pub submit-Concerns :
      (k : Kind crates Proof) (s : ChannelManager crates) (d e c : ℕ) (msg : SubmitShares)
      (now_ms now : ℕ)
      → d ≢ e
      → let r = submit crates Proof k s d msg now_ms now in
        Concerns d (IsUnsendable k s d msg) r.result
        × (Map.get e r.manager.downstreams ≡ Map.get e s.downstreams)
        × (Pairs.get (e, c) r.manager.vardiff ≡ Pairs.get (e, c) s.vardiff)
        × (r.manager.gridpool_channels ≡ s.gridpool_channels)
  unfolding submit
  submit-Concerns k s d e c msg now_ms now other = elim (Option-cases (Map.get d s.downstreams)) [
    | inl gone ↦ rw (submit, gone) (inl refl, refl, refl, refl)
    | inr (entry, here) ↦ elim (Option-cases (Map.get msg.channel_id (k.channels_of entry))) [
      | inl closed ↦ rw (submit, here, closed) ((refl, tt), refl, refl, refl)
      | inr (channel, opened) ↦ elim (Option-cases (Pairs.get (d, msg.channel_id) s.vardiff)) [
        | inl missing ↦ rw (submit, here, opened, missing) ((refl, tt), refl, refl, refl)
        | inr (vardiff, there) ↦
            let p =
              payer_of crates Proof k.kind s.gridpool
                (Pairs.get (d, msg.channel_id) s.gridpool_channels) in
            let apart : (d == e) ≡ false = ground arith in
            rw (submit, here, opened, there, Map.get-insert, Pairs.get-insert, apart)
              (
                Concerns-widen d _
                    (λ unsendable.
                      (entry, channel, refl, opened, (λ missing. ground arith), unsendable))
                    (respond-Concerns k.kind k.handling s.pool_tag_string d msg now_ms now p
                      channel),
                refl,
                refl,
                refl,
              )
      ]
    ]
  ]
