-- ===== src/Jds/Declarator/State.antt =====
-- The state of job_declarator/mod.rs and downstream/mod.rs, its errors (jd-server's error.rs), and
-- what its handlers answer. A handler's channels to the clients are seen through the messages that
-- it sends; what other tasks do while it awaits the engine is an argument.
use gridpool_sv2_pool.Prelude.{
  ℕ, Bool, List, [], ◌∷◌, Result, ok, err, if◌then◌else◌, Outcome, returns,
}
use gridpool_sv2_pool.Map.{Map}
use gridpool_sv2_pool.Payout.Script.{CoinbaseRewardScript}
use gridpool_sv2_pool.Payout.Mode.{TxOut}
use gridpool_sv2_pool.Jds.Tokens.{TokenManager}
use gridpool_sv2_pool.Jds.Validator.{DeclareErrorCode}
use gridpool_sv2_pool.Jds.Engine.Messages.{DeclareMiningJob, SetErrorCode}

-- A client: its declarations that wait for transactions, with the time of their insertion.
pub record Downstream : Type 0 where
  pub pending_declare_mining_jobs : Map (ℕ × DeclareMiningJob)

-- `E` is the engine's state; `downstream_client_senders` holds the clients whose sender is there.
pub record JobDeclarator (E : Type 0) : Type 0 where
  pub token_manager : TokenManager
  pub job_validator : E
  pub downstream_client_senders : Map (Unit {0})
  pub coinbase_reward_script : CoinbaseRewardScript
  pub downstream_clients : Map Downstream
  pub downstream_id_factory : ℕ

pub data Action : Type 0 where
  log shutdown : Action
  disconnect : (downstream_id : ℕ) → Action

pub data JdsErrorKind : Type 0 where
  client_not_found client_sender_not_found pending_declare_mining_job_not_found : ℕ → JdsErrorKind
  channel_send binary_sv2 : JdsErrorKind

pub record JdsError : Type 0 where
  pub kind : JdsErrorKind
  pub action : Action

-- The messages of the crate `job_declaration_sv2` that the server sends.
pub data JobDeclaration : Type 0 where
  allocate_mining_job_token_success :
      (request_id : ℕ) (mining_job_token coinbase_outputs : List ℕ) → JobDeclaration
  declare_mining_job_success : (request_id : ℕ) (new_mining_job_token : List ℕ) → JobDeclaration
  declare_mining_job_error : (request_id : ℕ) (error_code : DeclareErrorCode) → JobDeclaration
  provide_missing_transactions :
      (request_id : ℕ) (unknown_tx_position_list : List ℕ) → JobDeclaration

pub data SetCustomMiningJobResponse : Type 0 where
  accepted : (channel_id request_id job_id : ℕ) → SetCustomMiningJobResponse
  rejected : (request_id channel_id : ℕ) (error_code : SetErrorCode) → SetCustomMiningJobResponse

-- `consensus::serialize` of a list of outputs, and the bounds of the types `B0_64K` and
-- `Seq064K<u16>` of the crate `binary_sv2`.
pub record Sv2Lib : Type 0 where
  pub serialize_outputs : List TxOut → List ℕ
  pub fits_b0_64k : List ℕ → Bool
  pub fits_seq_064k : List ℕ → Bool

-- The world around one call: the time before and after the wait for the engine, the clients whose
-- channel is open, and what other tasks do to the state during the wait.
pub record Env (E : Type 0) : Type 0 where
  pub now : ℕ
  pub later : ℕ
  pub is_open : ℕ → Bool
  pub during : JobDeclarator E → JobDeclarator E

-- The new state, the messages sent with their receivers, and the result.
abbrev pub Handled : Type 0 → Type 0
Handled E = JobDeclarator E × List (ℕ × JobDeclaration) × Result JdsError (Unit {0})

abbrev pub fails_with : {E : Type 0} → JobDeclarator E → JdsErrorKind → Action → Outcome (Handled E)
fails_with s kind action = returns (s, [], err (record { kind = kind; action = action }))

-- `client_sender.send(..).await.map_err(|e| JDSError::disconnect(e, client_id))?`
abbrev pub send :
    {E : Type 0} → Env E → JobDeclarator E → (client_id : ℕ) → JobDeclaration → Outcome (Handled E)
send env s client_id message =
    if env.is_open client_id
    then returns (s, (client_id, message) ∷ [], ok tt)
    else fails_with s channel_send (disconnect client_id)
