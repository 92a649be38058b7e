-- ===== src/GridPool/Telemetry.antt =====
-- pool-apps/pool/src/lib/gridpool.rs: the telemetry of shares. The clock is an argument. The map of
-- aggregates is a list of entries in the order in which they came.
pub mod Counts
use gridpool_sv2_pool.Prelude.{
  ℕ, ◌+◌, ◌^◌, ◌%◌, max, Bool, true, false, Option, none, some, List, [], ◌∷◌, ◌++◌, map, Text,
  codes, list_eq, to_string, if◌then◌else◌,
}
use gridpool_sv2_pool.Payout.Mode.{u64}
use gridpool_sv2_pool.GridPool.Time.{iso8601_millis, utc, civil, of_year, month_of, day_of}
use gridpool_sv2_pool.GridPool.Client.{Libs, TelemetryDelta, TelemetryAggregate, GridPoolClient}

pub record TelemetryEntry (F64 : Type 0) : Type 0 where
  pub channel_id : Text
  pub payout_address : Text
  pub username : Text
  pub window_start_utc : Text
  pub window_end_utc : Text
  pub accepted_share_count : ℕ
  pub rejected_share_count : ℕ
  pub accepted_work_difficulty : F64
  pub fee_work_difficulty : F64
  pub best_difficulty : F64

pub record TelemetryBatch (F64 : Type 0) : Type 0 where
  pub source_instance : Text
  pub entries : List (TelemetryEntry F64)

module _ (lib : Libs) where
  open lib use {F64, f64_zero, f64_add, f64_max}

  unfoldable pub key_of : TelemetryDelta F64 → Text
  unfolding to_string
  key_of delta = to_string delta.channel_id ++ b':' ∷ delta.payout_address

  -- The aggregate that `or_insert_with` makes.
  unfoldable pub fresh_aggregate : (now : ℕ) → TelemetryDelta F64 → TelemetryAggregate F64
  fresh_aggregate now delta = record {
    channel_id = delta.channel_id;
    payout_address = delta.payout_address;
    username = delta.username;
    window_start_ms = now;
    window_end_ms = 0;
    accepted_share_count = 0;
    rejected_share_count = 0;
    accepted_work_difficulty = f64_zero;
    fee_work_difficulty = f64_zero;
    best_difficulty = f64_zero;
  }

  unfoldable pub add_delta :
      (now : ℕ) → TelemetryDelta F64 → TelemetryAggregate F64 → TelemetryAggregate F64
  add_delta now delta aggregate =
      let seen = record aggregate { window_end_ms = now; username = delta.username } in
      if delta.accepted
      then record seen {
        accepted_share_count = u64 (seen.accepted_share_count + 1);
        accepted_work_difficulty =
            f64_add seen.accepted_work_difficulty (f64_max delta.work_difficulty f64_zero);
        fee_work_difficulty =
            if delta.fee_work
            then f64_add seen.fee_work_difficulty (f64_max delta.work_difficulty f64_zero)
            else seen.fee_work_difficulty;
        best_difficulty = f64_max seen.best_difficulty delta.achieved_difficulty;
      }
      else record seen { rejected_share_count = u64 (seen.rejected_share_count + 1) }

  -- `entry(key).or_insert_with(..)` and the changes through the reference that it gives.
  unfoldable pub update_aggregate :
      (key : Text)
      → (now : ℕ) → TelemetryDelta F64
      → List (Text × TelemetryAggregate F64)
      → List (Text × TelemetryAggregate F64)
  unfolding add_delta fresh_aggregate
  update_aggregate key now delta [] = (key, add_delta now delta (fresh_aggregate now delta)) ∷ []
  update_aggregate key now delta ((other, aggregate) ∷ aggregates) =
      let rest = update_aggregate key now delta aggregates in
      if list_eq other key
      then (other, add_delta now delta aggregate) ∷ aggregates
      else (other, aggregate) ∷ rest

  unfoldable pub record_telemetry :
      GridPoolClient lib → (now : ℕ) → TelemetryDelta F64 → GridPoolClient lib
  unfolding key_of to_string update_aggregate add_delta fresh_aggregate
  record_telemetry c now delta = record c {
    telemetry = update_aggregate (key_of delta) now delta c.telemetry;
  }

  unfoldable pub entry_of : TelemetryAggregate F64 → TelemetryEntry F64
  unfolding to_string iso8601_millis utc civil of_year month_of day_of
  entry_of item = record {
    channel_id = to_string item.channel_id;
    payout_address = item.payout_address;
    username = item.username;
    window_start_utc = iso8601_millis item.window_start_ms;
    window_end_utc = iso8601_millis (max item.window_end_ms item.window_start_ms);
    accepted_share_count = item.accepted_share_count;
    rejected_share_count = item.rejected_share_count;
    accepted_work_difficulty = item.accepted_work_difficulty;
    fee_work_difficulty = item.fee_work_difficulty;
    best_difficulty = item.best_difficulty;
  }

  unfoldable pub batch_of : List (TelemetryAggregate F64) → Option (TelemetryBatch F64)
  unfolding entry_of to_string iso8601_millis utc civil of_year month_of day_of
  batch_of [] = none
  batch_of (item ∷ items) = some (record {
    source_instance = codes "gridpool-sv2-pool";
    entries = map entry_of (item ∷ items);
  })

  -- The batch that is posted to the node, whose answer changes nothing.
  unfoldable pub flush_telemetry :
      GridPoolClient lib → Option (TelemetryBatch F64) × GridPoolClient lib
  unfolding batch_of entry_of to_string iso8601_millis utc civil of_year month_of day_of
  flush_telemetry c = (batch_of (map (λ entry. entry.1) c.telemetry), record c { telemetry = [] })
