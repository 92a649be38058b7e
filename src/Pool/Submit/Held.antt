-- ===== src/Pool/Submit/Held.antt =====
-- How a share of any client gets into the telemetry that is held for the GridPool node.
use gridpool_sv2_pool.Prelude.{
  ℕ, ◌+◌, ◌^◌, ◌≤◌, ◌<◌, ◌≡◌, refl, inl, inr, Bool, true, false, arith, Option, none, some, Text,
  Result, ok, err, Option-cases, Result-cases,
}
use gridpool_sv2_pool.Map
use gridpool_sv2_pool.Pool.Pairs
use gridpool_sv2_pool.GridPool.Client.{ChannelPayout, GridPoolClient}
use gridpool_sv2_pool.GridPool.Pulse.{should_submit_proof}
use gridpool_sv2_pool.GridPool.Telemetry.Counts.{held, same, same-le, held-record_telemetry}
use gridpool_sv2_pool.Pool.Channels.{SubmitShares, Channels, valid, block_found}
use gridpool_sv2_pool.Pool.State.{Crates, ChannelManager}
use gridpool_sv2_pool.Pool.Shares.{
  Handling, Payer, payer, no_payer, payer_of, accepted_delta, rejected_delta, respond, on_error,
  on_valid, on_block,
}
use gridpool_sv2_pool.Pool.Submit.{Kind, submit}

module _ (crates : Crates) (Proof : Type 0) where
  open crates use {libs, F32, GroupJob}

  pub data Share : Type 1 where
    share : Kind crates Proof → (downstream_id : ℕ) → SubmitShares → (now_ms now : ℕ) → Share

  unfoldable pub step : ChannelManager crates → Share → ChannelManager crates
  step s (share k d msg now_ms now) = (submit crates Proof k s d msg now_ms now).manager

  abbrev pub held_option : (accepted : Bool) → Option (GridPoolClient libs) → ℕ
  held_option accepted none = 0
  held_option accepted (some client) = held libs accepted client.telemetry

  telemetry-should_submit_proof :
      (c : GridPoolClient libs) (now key : ℕ) (achieved : libs.F64) (is_block : Bool)
      → (should_submit_proof libs c now key achieved is_block).1.telemetry ≡ c.telemetry
  unfolding should_submit_proof
  telemetry-should_submit_proof c now key achieved is_block = ground arith

  module _ (kind : Channels F32 libs.F64 GroupJob) (h : Handling crates Proof kind) (tag : Text)
      (d : ℕ) (msg : SubmitShares) (now_ms now : ℕ) where
    -- The shares that a verdict of the validation adds to the telemetry.
    abbrev told : {A B : Type 0} (accepted : Bool) → Payer crates Proof kind → Result A B → ℕ
    told accepted (no_payer client) verdict = 0
    told accepted (payer client payout) (ok found) = same libs accepted true
    told accepted (payer client payout) (err e) = same libs accepted false

    abbrev held_by_payer : (accepted : Bool) → Payer crates Proof kind → ℕ
    held_by_payer accepted (no_payer client) = held_option accepted client
    held_by_payer accepted (payer client _) = held libs accepted client.telemetry

    told-le :
        {A B : Type 0} (accepted : Bool) (p : Payer crates Proof kind) (verdict : Result A B)
        → told accepted p verdict ≤ 1
    told-le accepted (no_payer client) verdict = omega arith
    told-le accepted (payer client payout) (ok found) = same-le libs accepted true
    told-le accepted (payer client payout) (err e) = same-le libs accepted false

    held-respond :
        (accepted : Bool) (p : Payer crates Proof kind) (channel : kind.Channel)
        → held_by_payer true p + 1 < 2 ^ 64
        → held_by_payer false p + 1 < 2 ^ 64
        → held_option accepted (respond crates Proof kind h tag d msg now_ms now p channel).gridpool
          ≡ held_by_payer accepted p + told accepted p (kind.validate_share msg channel).0
    unfolding respond on_error on_valid on_block rejected_delta accepted_delta
    held-respond accepted (no_payer client) channel x y =
        elim (Result-cases (kind.validate_share msg channel).0) [
          | inr (e, refused) ↦ rw (respond, refused) (omega arith)
          | inl (valid share_hash, found) ↦ rw (respond, found) (omega arith)
          | inl (block_found share_hash template_id coinbase, found) ↦
              rw (respond, found) (omega arith)
        ]
    held-respond accepted (payer client payout) channel x y =
        let channel' = (kind.validate_share msg channel).1 in
        elim (Result-cases (kind.validate_share msg channel).0) [
          | inr (e, refused) ↦
              let delta = rejected_delta crates Proof msg.channel_id payout in
              rw (respond, refused)
                (omega (arith, held-record_telemetry libs accepted client now_ms delta x y))
          | inl (valid share_hash, found) ↦
              let delta =
                accepted_delta crates Proof kind client msg.channel_id payout channel' share_hash in
              rw (respond, found, telemetry-should_submit_proof)
                (omega (arith, held-record_telemetry libs accepted client now_ms delta x y))
          | inl (block_found share_hash template_id coinbase, found) ↦
              let delta =
                accepted_delta crates Proof kind client msg.channel_id payout channel' share_hash in
              rw (respond, found)
                (omega (arith, held-record_telemetry libs accepted client now_ms delta x y))
        ]

  -- The shares that an event adds to the telemetry: one, if the channel is open under difficulty
  -- control and has a payout, and the verdict of its validation is the given one.
  unfoldable pub validated : (accepted : Bool) → ChannelManager crates → Share → ℕ
  unfolding payer_of
  validated accepted s (share k d msg now_ms now) = elim (Map.get d s.downstreams) [
    | none ↦ 0
    | some entry ↦ elim (Map.get msg.channel_id (k.channels_of entry)) [
      | none ↦ 0
      | some channel ↦ elim (Pairs.get (d, msg.channel_id) s.vardiff) [
        | none ↦ 0
        | some vardiff ↦
            told k.kind k.handling s.pool_tag_string d msg now_ms now accepted
              (payer_of crates Proof k.kind s.gridpool
                (Pairs.get (d, msg.channel_id) s.gridpool_channels))
              (k.kind.validate_share msg channel).0
      ]
    ]
  ]

  held_by_payer-payer_of :
      (kind : Channels F32 libs.F64 GroupJob) (h : Handling crates Proof kind) (tag : Text) (d : ℕ)
      (msg : SubmitShares) (now_ms now : ℕ) (accepted : Bool) (g : Option (GridPoolClient libs))
      (p : Option ChannelPayout)
      → held_by_payer kind h tag d msg now_ms now accepted (payer_of crates Proof kind g p)
        ≡ held_option accepted g
  unfolding payer_of
  held_by_payer-payer_of kind h tag d msg now_ms now accepted (some client) (some payout) = refl
  held_by_payer-payer_of kind h tag d msg now_ms now accepted (some client) none = refl
  held_by_payer-payer_of kind h tag d msg now_ms now accepted none p = refl

  pub held-step :
      (accepted : Bool) (s : ChannelManager crates) (e : Share)
      → held_option true s.gridpool + 1 < 2 ^ 64
      → held_option false s.gridpool + 1 < 2 ^ 64
      → held_option accepted (step s e).gridpool
        ≡ held_option accepted s.gridpool + validated accepted s e
  unfolding step submit validated
  held-step accepted s (share k d msg now_ms now) x y =
      elim (Option-cases (Map.get d s.downstreams)) [
        | inl gone ↦ rw (step, submit, validated, gone) (omega arith)
        | inr (entry, here) ↦ elim (Option-cases (Map.get msg.channel_id (k.channels_of entry))) [
          | inl closed ↦ rw (step, submit, validated, here, closed) (omega arith)
          | inr (channel, opened) ↦ elim (Option-cases (Pairs.get (d, msg.channel_id) s.vardiff)) [
            | inl missing ↦ rw (step, submit, validated, here, opened, missing) (omega arith)
            | inr (vardiff, there) ↦
                let p =
                  payer_of crates Proof k.kind s.gridpool
                    (Pairs.get (d, msg.channel_id) s.gridpool_channels) in
                let keeps = λ (b : Bool).
                  held_by_payer-payer_of k.kind k.handling s.pool_tag_string d msg now_ms now b
                    s.gridpool (Pairs.get (d, msg.channel_id) s.gridpool_channels) in
                rw (step, submit, validated, here, opened, there)
                  (omega (
                    arith,
                    keeps accepted,
                    held-respond k.kind k.handling s.pool_tag_string d msg now_ms now accepted p
                        channel (omega (arith, keeps true)) (omega (arith, keeps false)),
                  ))
          ]
        ]
      ]

  pub validated-le :
      (accepted : Bool) (s : ChannelManager crates) (e : Share) → validated accepted s e ≤ 1
  unfolding validated
  validated-le accepted s (share k d msg now_ms now) =
      elim (Option-cases (Map.get d s.downstreams)) [
        | inl gone ↦ rw (validated, gone) (omega arith)
        | inr (entry, here) ↦ elim (Option-cases (Map.get msg.channel_id (k.channels_of entry))) [
          | inl closed ↦ rw (validated, here, closed) (omega arith)
          | inr (channel, opened) ↦ elim (Option-cases (Pairs.get (d, msg.channel_id) s.vardiff)) [
            | inl missing ↦ rw (validated, here, opened, missing) (omega arith)
            | inr (vardiff, there) ↦
                rw (validated, here, opened, there)
                  (told-le k.kind k.handling s.pool_tag_string d msg now_ms now accepted _ _)
          ]
        ]
      ]
