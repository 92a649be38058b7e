-- ===== src/GridPool/Telemetry/Counts.antt =====
-- The shares of the telemetry and those that a batch reports.
use gridpool_sv2_pool.Prelude.{
  ℕ, ◌+◌, ◌^◌, ◌≤◌, ◌<◌, ◌≡◌, refl, inl, inr, Bool, true, false, arith, Option, none, some, List,
  [], ◌∷◌, map, sum, Text, list_eq, Bool-cases,
}
use gridpool_sv2_pool.GridPool.Client.{Libs, TelemetryDelta, TelemetryAggregate, GridPoolClient}
use gridpool_sv2_pool.GridPool.Telemetry.{
  TelemetryEntry, TelemetryBatch, add_delta, fresh_aggregate, key_of, update_aggregate,
  record_telemetry, entry_of, batch_of, flush_telemetry,
}

module _ (lib : Libs) where
  open lib use {F64}

  -- The shares of a batch that are accepted, or rejected.
  abbrev reported_by : (accepted : Bool) → TelemetryEntry F64 → ℕ
  reported_by true entry = entry.accepted_share_count
  reported_by false entry = entry.rejected_share_count

  abbrev pub reported : (accepted : Bool) → Option (TelemetryBatch F64) → ℕ
  reported accepted none = 0
  reported accepted (some batch) = sum (map (reported_by accepted) batch.entries)

  abbrev pub same : Bool → Bool → ℕ
  same true true = 1
  same true false = 0
  same false true = 0
  same false false = 1

  abbrev Aggregates : Type 0
  Aggregates = List (Text × TelemetryAggregate F64)

  abbrev held_by : (accepted : Bool) → TelemetryAggregate F64 → ℕ
  held_by true item = item.accepted_share_count
  held_by false item = item.rejected_share_count

  abbrev pub held : (accepted : Bool) → Aggregates → ℕ
  held accepted [] = 0
  held accepted ((key, item) ∷ items) = held_by accepted item + held accepted items

  held_by-add_delta :
      (accepted : Bool) (now : ℕ) (delta : TelemetryDelta F64) (item : TelemetryAggregate F64)
      → held_by true item + 1 < 2 ^ 64
      → held_by false item + 1 < 2 ^ 64
      → held_by accepted (add_delta lib now delta item)
        ≡ held_by accepted item + same accepted delta.accepted
  unfolding add_delta
  held_by-add_delta true now delta item h k = ground arith
  held_by-add_delta false now delta item h k = ground arith

  held-update_aggregate :
      (accepted : Bool) (key : Text) (now : ℕ) (delta : TelemetryDelta F64) (items : Aggregates)
      → held true items + 1 < 2 ^ 64
      → held false items + 1 < 2 ^ 64
      → held accepted (update_aggregate lib key now delta items)
        ≡ held accepted items + same accepted delta.accepted
  unfolding update_aggregate fresh_aggregate
  held-update_aggregate accepted key now delta [] h k = elim accepted [
    | true ↦ ground (arith, held_by-add_delta true now delta (fresh_aggregate lib now delta))
    | false ↦ ground (arith, held_by-add_delta false now delta (fresh_aggregate lib now delta))
  ]
  held-update_aggregate accepted key now delta ((other, item) ∷ items) h k =
      elim (Bool-cases (list_eq other key)) [
        | inl here ↦
            rw here
              (omega (arith, held_by-add_delta accepted now delta item (omega arith) (omega arith)))
        | inr there ↦ rw there (
            omega (
              arith,
              held-update_aggregate accepted key now delta items (omega arith) (omega arith),
            ))
      ]

  pub held-record_telemetry :
      (accepted : Bool) (c : GridPoolClient lib) (now : ℕ) (delta : TelemetryDelta F64)
      → held true c.telemetry + 1 < 2 ^ 64
      → held false c.telemetry + 1 < 2 ^ 64
      → held accepted (record_telemetry lib c now delta).telemetry
        ≡ held accepted c.telemetry + same accepted delta.accepted
  unfolding record_telemetry
  held-record_telemetry accepted c now delta h k =
      held-update_aggregate accepted (key_of lib delta) now delta c.telemetry h k

  pub same-le : (accepted other : Bool) → same accepted other ≤ 1
  same-le true other = ground arith
  same-le false other = ground arith

  reported_by-entry_of :
      (accepted : Bool) (item : TelemetryAggregate F64)
      → reported_by accepted (entry_of lib item) ≡ held_by accepted item
  unfolding entry_of
  reported_by-entry_of true item = refl
  reported_by-entry_of false item = refl

  sum-reported_by :
      (accepted : Bool) (items : Aggregates)
      → sum (map (reported_by accepted) (map (entry_of lib) (map (λ entry. entry.1) items)))
        ≡ held accepted items
  sum-reported_by accepted [] = refl
  sum-reported_by accepted ((key, item) ∷ items) =
      omega (arith, reported_by-entry_of accepted item, sum-reported_by accepted items)

  reported-batch_of :
      (accepted : Bool) (items : Aggregates)
      → reported accepted (batch_of lib (map (λ entry. entry.1) items)) ≡ held accepted items
  unfolding batch_of
  reported-batch_of accepted [] = refl
  reported-batch_of accepted (entry ∷ items) = sum-reported_by accepted (entry ∷ items)

  pub reported-flush_telemetry :
      (accepted : Bool) (c : GridPoolClient lib)
      → reported accepted (flush_telemetry lib c).0 ≡ held accepted c.telemetry
  unfolding flush_telemetry
  reported-flush_telemetry accepted c = reported-batch_of accepted c.telemetry
