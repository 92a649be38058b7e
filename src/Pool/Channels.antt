-- ===== src/Pool/Channels.antt =====
-- What the channel manager uses of the crates `channels_sv2` and `template_distribution_sv2`: the
-- channels of a client, which validate its shares and turn templates into jobs.
use gridpool_sv2_pool.Prelude.{ℕ, Bool, Option, List, Text, Result}
use gridpool_sv2_pool.Payout.Mode.{TxOut}

-- `SubmitSharesStandard`, and `SubmitSharesExtended` with an extranonce.
pub record SubmitShares : Type 0 where
  pub channel_id : ℕ
  pub sequence_number : ℕ
  pub job_id : ℕ
  pub nonce : ℕ
  pub ntime : ℕ
  pub version : ℕ
  pub extranonce : List ℕ

-- The hash of a share is its bytes, and a found block comes with its template, unless it is of a
-- custom job, and its coinbase.
pub data ShareValidationResult : Type 0 where
  valid : (share_hash : List ℕ) → ShareValidationResult
  block_found :
      (share_hash : List ℕ) (template_id : Option ℕ) (coinbase : List ℕ) → ShareValidationResult

-- The errors with a code that a handler sends, and the others.
pub data ShareValidationError : Type 0 where
  invalid stale invalid_job_id does_not_meet_target duplicate_share version_rolling_not_allowed
        bad_extranonce_size other :
      (code : Text) → ShareValidationError

pub record NewTemplate : Type 0 where
  pub template_id : ℕ
  pub future_template : Bool
  pub version : ℕ
  pub coinbase_tx_version : ℕ
  pub coinbase_prefix : List ℕ
  pub coinbase_tx_input_sequence : ℕ
  pub coinbase_tx_value_remaining : ℕ
  pub coinbase_tx_outputs_count : ℕ
  pub coinbase_tx_outputs : List ℕ
  pub coinbase_tx_locktime : ℕ
  pub merkle_path : List (List ℕ)

-- `SetNewPrevHash` of the template provider, as far as the channel manager reads it.
pub record PrevHash : Type 0 where
  pub prev_hash : List ℕ
  pub header_timestamp : ℕ
  pub n_bits : ℕ

-- The errors of opening a channel that come with a code, and the others.
pub data OpenError : Type 0 where
  invalid_nominal_hashrate requested_min_extranonce_size_too_large other_error :
      (code : Text) → OpenError

-- The channels of one kind: `StandardChannel` or `ExtendedChannel`. An operation that fails on a
-- channel that stays in use returns it too.
pub record Channels (F32 F64 GroupJob : Type 0) : Type 1 where
  pub Channel : Type 0
  pub Job : Type 0
  pub get_job_id : Job → ℕ
  pub get_coinbase_outputs : Job → List TxOut
  -- `new_for_pool`, with the pool's fixed settings
  pub new_for_pool :
      (channel_id : ℕ)
      → (user_identity : Text) → (extranonce_prefix : List ℕ) → (requested_max_target : ℕ)
      → (nominal_hashrate : F32) → Result OpenError Channel
  pub get_target : Channel → ℕ
  pub get_nominal_hashrate : Channel → F32
  pub get_shares_per_minute : Channel → F32
  pub set_stable_hashrate : Bool → Channel → Channel
  pub get_extranonce_prefix : Channel → List ℕ
  pub get_rollable_extranonce_size : Channel → ℕ
  pub get_full_extranonce_size : Channel → ℕ
  pub get_active_job : Channel → Option Job
  pub get_future_job_id_from_template_id : Channel → ℕ → Option ℕ
  pub get_future_job : Channel → ℕ → Option Job
  pub on_new_template : NewTemplate → List TxOut → Channel → Result Text Channel
  -- the channel that a failed `on_new_template` leaves
  pub failed_on_new_template : NewTemplate → List TxOut → Channel → Channel
  pub on_set_new_prev_hash : PrevHash → Channel → Result Text Channel
  pub on_group_channel_job : GroupJob → Channel → Result Text Channel
  pub validate_share :
      SubmitShares → Channel → Result ShareValidationError ShareValidationResult × Channel
  pub should_acknowledge : Channel → Bool
  pub get_last_share_sequence_number : Channel → ℕ
  pub get_last_batch_accepted : Channel → ℕ
  pub get_last_batch_work_sum : Channel → F64
  -- `update_channel` with the code of the error that it documents
  pub update_channel : F32 → Option ℕ → Channel → Result Text (Unit {0}) × Channel
