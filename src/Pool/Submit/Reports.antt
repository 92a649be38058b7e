-- ===== src/Pool/Submit/Reports.antt =====
-- How the shares of any clients get into the batches for the GridPool node, and the batches to it.
use gridpool_sv2_pool.Prelude.{
  ℕ, ◌+◌, ◌^◌, ◌<◌, ◌≡◌, refl, ap, ◌∙◌, Bool, true, false, arith, Option, none, some, List, [], ◌∷◌,
  length,
}
use gridpool_sv2_pool.GridPool.Client.{GridPoolClient}
use gridpool_sv2_pool.GridPool.Telemetry.{flush_telemetry}
use gridpool_sv2_pool.GridPool.Telemetry.Counts.{held, reported, reported-flush_telemetry}
use gridpool_sv2_pool.Pool.State.{Crates, ChannelManager}
use gridpool_sv2_pool.Pool.Submit.Held.{
  Share, step, held_option, validated, validated-le, held-step,
}

module _ (crates : Crates) (Proof : Type 0) where
  open crates use {libs}

  -- A share, or a round of `flush_telemetry`: whether the node accepts what it is sent is chosen
  -- from outside. The batch is not kept when it does not.
  pub data Event : Type 1 where
    shares : Share crates Proof → Event
    flushes : (node_accepts : Bool) → Event

  abbrev flushed : Option (GridPoolClient libs) → Option (GridPoolClient libs)
  flushed none = none
  flushed (some client) = some (flush_telemetry libs client).1

  unfoldable pub next : ChannelManager crates → Event → ChannelManager crates
  unfolding step flush_telemetry
  next s (shares e) = step crates Proof s e
  next s (flushes node_accepts) = record s { gridpool = flushed s.gridpool }

  unfoldable pub run : ChannelManager crates → List Event → ChannelManager crates
  unfolding next
  run s [] = s
  run s (e ∷ es) = run (next s e) es

  -- The shares of the given verdict that the validations of paid channels came to.
  unfoldable pub total_validated : (accepted : Bool) → ChannelManager crates → List Event → ℕ
  unfolding next validated
  total_validated accepted s [] = 0
  total_validated accepted s (shares e ∷ es) =
      validated crates Proof accepted s e + total_validated accepted (next s (shares e)) es
  total_validated accepted s (flushes t ∷ es) = total_validated accepted (next s (flushes t)) es

  abbrev pub reported_option : (accepted : Bool) → Option (GridPoolClient libs) → ℕ
  reported_option accepted none = 0
  reported_option accepted (some client) = reported libs accepted (flush_telemetry libs client).0

  -- The shares of the given verdict in the batches that the node accepts, or does not.
  unfoldable pub total_sent :
      (node_accepts accepted : Bool) → ChannelManager crates → List Event → ℕ
  unfolding next
  total_sent node_accepts accepted s [] = 0
  total_sent node_accepts accepted s (shares e ∷ es) =
      total_sent node_accepts accepted (next s (shares e)) es
  total_sent true accepted s (flushes true ∷ es) =
      reported_option accepted s.gridpool + total_sent true accepted (next s (flushes true)) es
  total_sent true accepted s (flushes false ∷ es) =
      total_sent true accepted (next s (flushes false)) es
  total_sent false accepted s (flushes true ∷ es) =
      total_sent false accepted (next s (flushes true)) es
  total_sent false accepted s (flushes false ∷ es) =
      reported_option accepted s.gridpool + total_sent false accepted (next s (flushes false)) es

  reported_option-held :
      (accepted : Bool) (g : Option (GridPoolClient libs))
      → reported_option accepted g ≡ held_option crates Proof accepted g
  reported_option-held accepted none = refl
  reported_option-held accepted (some client) = reported-flush_telemetry libs accepted client

  held-flushed :
      (accepted : Bool) (g : Option (GridPoolClient libs))
      → held_option crates Proof accepted (flushed g) ≡ 0
  unfolding flush_telemetry
  held-flushed accepted none = refl
  held-flushed accepted (some client) = refl

  sent-run :
      (accepted : Bool) (s : ChannelManager crates) (es : List Event)
      → held_option crates Proof true s.gridpool + length es < 2 ^ 64
      → held_option crates Proof false s.gridpool + length es < 2 ^ 64
      → total_sent true accepted s es
          + total_sent false accepted s es
          + held_option crates Proof accepted (run s es).gridpool
        ≡ held_option crates Proof accepted s.gridpool + total_validated accepted s es
  unfolding run total_validated total_sent next
  sent-run accepted s [] x y = omega arith
  sent-run accepted s (shares e ∷ es) x y =
      let one = λ (b : Bool). held-step crates Proof b s e (omega arith) (omega arith) in
      omega (
        arith,
        one accepted,
        sent-run accepted (step crates Proof s e) es
            (omega (arith, one true, validated-le crates Proof true s e))
            (omega (arith, one false, validated-le crates Proof false s e)),
      )
  sent-run accepted s (flushes true ∷ es) x y =
      let none_held = λ (b : Bool). held-flushed b s.gridpool in
      omega (
        arith,
        none_held accepted,
        reported_option-held accepted s.gridpool,
        sent-run accepted (next s (flushes true)) es (omega (arith, none_held true))
            (omega (arith, none_held false)),
      )
  sent-run accepted s (flushes false ∷ es) x y =
      let none_held = λ (b : Bool). held-flushed b s.gridpool in
      omega (
        arith,
        none_held accepted,
        reported_option-held accepted s.gridpool,
        sent-run accepted (next s (flushes false)) es (omega (arith, none_held true))
            (omega (arith, none_held false)),
      )

  -- Clients submit shares, on any channels of both kinds, and telemetry is flushed in between, in
  -- any order, starting with none, in fewer than 2 ^ 64 events. The validations of shares of paid
  -- channels that accept, blocks among them, are then as many as the accepted shares that the
  -- batches report together: those that the node accepted, those that it did not, which are lost,
  -- and the next one. The same holds of the shares refused, those included whose error disconnects
  -- the client.
  pub reported-submit :
      (accepted : Bool) (s : ChannelManager crates) (client : GridPoolClient libs) (es : List Event)
      → s.gridpool ≡ some client
      → client.telemetry ≡ []
      → length es < 2 ^ 64
      → total_sent true accepted s es
          + total_sent false accepted s es
          + reported_option accepted (run s es).gridpool
        ≡ total_validated accepted s es
  reported-submit accepted s client es there empty h =
      let start : (b : Bool) → held_option crates Proof b s.gridpool ≡ 0 =
        λ b. ap (held_option crates Proof b) there ∙ ap (held libs b) empty in
      omega (
        arith,
        start accepted,
        reported_option-held accepted (run s es).gridpool,
        sent-run accepted s es (omega (arith, start true)) (omega (arith, start false)),
      )
