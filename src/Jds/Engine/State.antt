-- ===== src/Jds/Engine/State.antt =====
-- The state of `BitcoinCoreIPCEngine`, job_validation/bitcoin_core_ipc.rs, and its janitor.
pub mod Janitor
use gridpool_sv2_pool.Prelude.{ℕ, ◌-◌, Bool, Option, none, some, List, [], ◌∷◌, ltb, if◌then◌else◌}
use gridpool_sv2_pool.Map
use gridpool_sv2_pool.Map.{Map}
use gridpool_sv2_pool.Jds.Timeouts.{from_secs, allocated_token_timeout_secs}
use gridpool_sv2_pool.Jds.Validator.{ValidationContext}
use gridpool_sv2_pool.Jds.Engine.Messages.{DeclareMiningJob}

pub record DeclaredCustomJob : Type 0 where
  pub declare_mining_job : DeclareMiningJob
  pub validation_context : ValidationContext
  pub txid_list : Option (List ℕ)
  pub validated : Bool

pub record AllocatedTokenEntry : Type 0 where
  pub request_id : ℕ
  pub inserted_at : ℕ

pub record IpcEngine : Type 0 where
  pub allocated_token_entries : Map AllocatedTokenEntry
  pub declared_custom_jobs : Map DeclaredCustomJob

abbrev pub is_expired : (now : ℕ) → AllocatedTokenEntry → Bool
is_expired now entry = ltb (from_secs allocated_token_timeout_secs) (now - entry.inserted_at)

-- One round of the janitor: the expired tokens are collected, then removed with their jobs.
unfoldable pub expired_tokens : (now : ℕ) → List (ℕ × AllocatedTokenEntry) → List ℕ
expired_tokens now [] = []
expired_tokens now ((token, entry) ∷ entries) =
    let rest = expired_tokens now entries in if is_expired now entry then token ∷ rest else rest

unfoldable pub remove_token : IpcEngine → ℕ → IpcEngine
remove_token e token = elim (Map.get token e.allocated_token_entries) [
  | none ↦ e
  | some entry ↦ record {
    allocated_token_entries = Map.remove token e.allocated_token_entries;
    declared_custom_jobs = Map.remove entry.request_id e.declared_custom_jobs;
  }
]

unfoldable pub remove_tokens : IpcEngine → List ℕ → IpcEngine
unfolding remove_token
remove_tokens e [] = e
remove_tokens e (token ∷ tokens) = remove_tokens (remove_token e token) tokens

unfoldable pub janitor_round : IpcEngine → (now : ℕ) → IpcEngine
unfolding expired_tokens remove_tokens
janitor_round e now = remove_tokens e (expired_tokens now (Map.entries e.allocated_token_entries))

unfoldable pub store :
    IpcEngine
    → DeclareMiningJob
    → (token : ℕ) → ValidationContext
    → Option (List ℕ)
    → Bool
    → (now : ℕ) → IpcEngine
store e job token context txids validated now = record {
  declared_custom_jobs =
      Map.insert job.request_id
        (record {
          declare_mining_job = job;
          validation_context = context;
          txid_list = txids;
          validated = validated;
        })
        e.declared_custom_jobs;
  allocated_token_entries =
      Map.insert token (record { request_id = job.request_id; inserted_at = now })
        e.allocated_token_entries;
}

unfoldable pub forget : IpcEngine → DeclareMiningJob → (token : ℕ) → IpcEngine
forget e job token = record {
  declared_custom_jobs = Map.remove job.request_id e.declared_custom_jobs;
  allocated_token_entries = Map.remove token e.allocated_token_entries;
}
