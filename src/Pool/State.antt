-- ===== src/Pool/State.antt =====
-- The state of the channel manager, and what takes clients and channels away.
use gridpool_sv2_pool.Prelude.{
  ℕ, Bool, true, false, Option, none, some, List, [], Text, Result, ok, err,
}
use gridpool_sv2_pool.Map
use gridpool_sv2_pool.Map.{Map}
use gridpool_sv2_pool.Pool.Pairs
use gridpool_sv2_pool.Pool.Pairs.{Pairs}
use gridpool_sv2_pool.Payout.Script.{CoinbaseRewardScript, Miniscript}
use gridpool_sv2_pool.Payout.Mode.{PayoutMode, TxOut}
use gridpool_sv2_pool.GridPool.Client.{Libs, ChannelPayout, PayoutError, GridPoolClient}
use gridpool_sv2_pool.GridPool.Refresh.{RefreshError}
use gridpool_sv2_pool.Pool.Channels.{Channels, NewTemplate, PrevHash}

-- The errors of `commit_gridpool_job_refresh`.
pub data CommitError : Type 0 where
  prefix_exceeds_limit prefix_exceeds_b0255 : CommitError

pub data PoolErrorKind : Type 0 where
  future_template_not_present last_new_prevhash_not_found job_not_found : PoolErrorKind
  channel_error_sender : PoolErrorKind
  downstream_not_found : (downstream_id : ℕ) → PoolErrorKind
  -- of the GridPool client, and of the crates
  channel_error : Text → PoolErrorKind
  configuration : PayoutError → PoolErrorKind
  not_refreshed : RefreshError → PoolErrorKind
  not_committed : CommitError → PoolErrorKind

-- `Action`
pub data Action : Type 0 where
  log shutdown : Action
  disconnect : (downstream_id : ℕ) → Action

pub record PoolError : Type 0 where
  pub kind : PoolErrorKind
  pub action : Action

abbrev pub not_registered : (downstream_id : ℕ) → PoolError
not_registered d = record { kind = downstream_not_found d; action = disconnect d }

pub record SubmitSharesSuccess (F64 : Type 0) : Type 0 where
  pub channel_id : ℕ
  pub last_sequence_number : ℕ
  pub new_submits_accepted_count : ℕ
  pub new_shares_sum : F64

-- The codes that the handlers choose themselves, and those that the crates' errors carry.
pub data ErrorCode : Type 0 where
  invalid_channel_id standard_not_supported_for_custom_work extended_not_supported_for_standard_jobs
        invalid_user_identity min_extranonce_size_too_large :
      ErrorCode
  of_crate : Text → ErrorCode

-- `SubmitSolution`
pub record Solution : Type 0 where
  pub template_id : ℕ
  pub version : ℕ
  pub header_timestamp : ℕ
  pub header_nonce : ℕ
  pub coinbase_tx : List ℕ

-- The crates: the GridPool client's, and the channels of both kinds.
pub record Crates : Type 1 where
  pub libs : Libs
  pub F32 : Type 0
  pub GroupJob : Type 0
  pub standard : Channels F32 libs.F64 GroupJob
  pub extended : Channels F32 libs.F64 GroupJob
  pub miniscript : Miniscript
  -- `VardiffState`
  pub Vardiff : Type 0
  pub new_vardiff : Result Text Vardiff
  pub increment_shares_since_last_update : Vardiff → Vardiff
  pub try_vardiff :
      Vardiff
      → (hashrate : F32) → (target : ℕ) → (shares_per_minute : F32)
      → Result Text (Option F32) × Vardiff
  -- `Target::difficulty_float`
  pub difficulty_float : (target : ℕ) → libs.F64
  -- `GroupChannel`
  pub Group : Type 0
  pub get_group_channel_id : Group → ℕ
  pub has_channel_id : ℕ → Group → Bool
  pub add_channel_id : (channel_id full_extranonce_size : ℕ) → Group → Result Text Group
  pub remove_channel_id : ℕ → Group → Group
  pub is_empty : Group → Bool
  pub group_on_new_template : NewTemplate → List TxOut → Group → Result Text Group
  pub group_on_set_new_prev_hash : PrevHash → Group → Result Text Group
  pub group_future_job_id_from_template_id : Group → ℕ → Option ℕ
  pub group_future_job : Group → ℕ → Option GroupJob
  pub group_active_job : Group → Option GroupJob
  pub group_job_id : GroupJob → ℕ

module _ (crates : Crates) where
  open crates use {libs, Group, Vardiff, has_channel_id, remove_channel_id}

  -- The messages to clients; a target is sent as its bytes, and a job as its message.
  pub data Mining : Type 0 where
    submit_shares_success : SubmitSharesSuccess libs.F64 → Mining
    submit_shares_error : (channel_id sequence_number : ℕ) → ErrorCode → Mining
    close_channel : (channel_id : ℕ) → ErrorCode → Mining
    set_target : (channel_id maximum_target : ℕ) → Mining
    update_channel_error : (channel_id : ℕ) → ErrorCode → Mining
    open_mining_channel_error : (request_id : ℕ) → ErrorCode → Mining
    open_standard_mining_channel_success :
        (request_id channel_id target : ℕ) (extranonce_prefix : List ℕ) (group_channel_id : ℕ)
        → Mining
    open_extended_mining_channel_success :
        (request_id channel_id target : ℕ) (extranonce_prefix : List ℕ)
        (extranonce_size group_channel_id : ℕ)
        → Mining
    new_mining_job : crates.standard.Job → Mining
    new_extended_mining_job : crates.extended.Job → Mining
    new_group_mining_job : crates.GroupJob → Mining
    set_new_prev_hash : (channel_id job_id : ℕ) → PrevHash → Mining

  pub data RouteMessageTo : Type 0 where
    template_provider : Solution → RouteMessageTo
    downstream : (downstream_id : ℕ) → Mining → RouteMessageTo

  pub record Downstream : Type 0 where
    pub group_channel : Group
    pub extended_channels : Map crates.extended.Channel
    pub standard_channels : Map crates.standard.Channel
    pub channel_id_factory : ℕ
    pub negotiated_extensions : List ℕ
    pub payout_mode : Option PayoutMode
    pub requires_standard_jobs : Bool
    pub requires_custom_work : Bool

  -- The senders of the downstreams stand for their presence.
  pub record ChannelManager : Type 0 where
    pub downstreams : Map Downstream
    pub vardiff : Pairs Vardiff
    -- the configured outputs, deserialized
    pub coinbase_outputs : List TxOut
    pub last_new_prev_hash : Option PrevHash
    pub last_future_template : Option NewTemplate
    pub downstream_sender : Map (Unit {0})
    pub pool_tag_string : Text
    pub coinbase_reward_script : CoinbaseRewardScript
    pub gridpool : Option (GridPoolClient libs)
    pub gridpool_channels : Pairs ChannelPayout

  -- A client that connected: `Downstream::new`, whose group channel has the first channel id, and
  -- the entries for it.
  unfoldable pub register : ChannelManager → (downstream_id : ℕ) → Group → ChannelManager
  register s d group_channel = record s {
    downstreams =
        Map.insert d
          (record {
            group_channel = group_channel;
            extended_channels = Map.empty;
            standard_channels = Map.empty;
            channel_id_factory = 2;
            negotiated_extensions = [];
            payout_mode = none;
            requires_standard_jobs = false;
            requires_custom_work = false;
          })
          s.downstreams;
    downstream_sender = Map.insert d tt s.downstream_sender;
  }

  unfoldable pub remove_downstream : ChannelManager → (downstream_id : ℕ) → ChannelManager
  remove_downstream s d = record s {
    downstreams = Map.remove d s.downstreams;
    vardiff = Pairs.remove_first d s.vardiff;
    gridpool_channels = Pairs.remove_first d s.gridpool_channels;
    downstream_sender = Map.remove d s.downstream_sender;
  }

  pub data LoopControl : Type 0 where
    continues breaks : LoopControl

  unfoldable pub acted : ChannelManager → Action → LoopControl × Bool × ChannelManager
  unfolding remove_downstream
  acted s log = (continues, false, s)
  acted s (disconnect d) = (continues, false, remove_downstream s d)
  acted s shutdown = (breaks, true, s)

  -- Whether the token is cancelled is an argument and a result.
  unfoldable pub handle_error_action :
      ChannelManager → (is_cancelled : Bool) → PoolError → LoopControl × Bool × ChannelManager
  unfolding acted remove_downstream
  handle_error_action s true e = (continues, true, s)
  handle_error_action s false e = acted s e.action

  abbrev without_channel : Group → (channel_id : ℕ) → Group
  without_channel g c = elim (has_channel_id c g) [ true ↦ remove_channel_id c g | false ↦ g ]

  unfoldable pub handle_close_channel :
      ChannelManager → (downstream_id channel_id : ℕ) → Result PoolError (Unit {0}) × ChannelManager
  handle_close_channel s d c = elim (Map.get d s.downstreams) [
    | none ↦ (err (not_registered d), s)
    | some entry ↦
        let entry' = record entry {
          group_channel = without_channel entry.group_channel c;
          standard_channels = Map.remove c entry.standard_channels;
          extended_channels = Map.remove c entry.extended_channels;
        } in
        (
          ok tt,
          record s {
            downstreams = Map.insert d entry' s.downstreams;
            vardiff = Pairs.remove (d, c) s.vardiff;
            gridpool_channels = Pairs.remove (d, c) s.gridpool_channels;
          },
        )
  ]
