-- ===== src/Jds/Declarator/Clients.antt =====
-- The clients of job_declarator/mod.rs and downstream/mod.rs: their coming and going, the error
-- actions, the janitor of pending declarations, and the shutdown.
use gridpool_sv2_pool.Prelude.{ℕ, ◌-◌, none, some, leb}
use gridpool_sv2_pool.Map
use gridpool_sv2_pool.Jds.Timeouts.{from_secs, allocated_token_timeout_secs}
use gridpool_sv2_pool.Jds.Tokens
use gridpool_sv2_pool.Jds.Tokens.{fetch_add_one}
use gridpool_sv2_pool.Jds.Declarator.State.{JobDeclarator, log, shutdown, disconnect, JdsError}

pub data LoopControl : Type 0 where
  continues breaks : LoopControl

module _ {E : Type 0} where
  -- An accepted connection; the id is returned.
  unfoldable pub connect : JobDeclarator E → JobDeclarator E × ℕ
  connect s =
      let downstream_id = s.downstream_id_factory in
      (
        record s {
          downstream_id_factory = fetch_add_one s.downstream_id_factory;
          downstream_clients =
              Map.insert downstream_id (record { pending_declare_mining_jobs = Map.empty })
                s.downstream_clients;
          downstream_client_senders = Map.insert downstream_id tt s.downstream_client_senders;
        },
        downstream_id,
      )

  unfoldable pub cleanup_downstream : JobDeclarator E → (downstream_id : ℕ) → JobDeclarator E
  cleanup_downstream s downstream_id = record s {
    downstream_clients = Map.remove downstream_id s.downstream_clients;
    downstream_client_senders = Map.remove downstream_id s.downstream_client_senders;
    token_manager = Tokens.remove_downstream s.token_manager downstream_id;
  }

  unfoldable pub handle_error_action : JobDeclarator E → JdsError → JobDeclarator E × LoopControl
  unfolding cleanup_downstream
  handle_error_action s e = elim e.action [
    | log ↦ (s, continues)
    | shutdown ↦ (s, breaks)
    | disconnect downstream_id ↦ (cleanup_downstream s downstream_id, continues)
  ]

  -- One round of a client's janitor.
  unfoldable pub pending_jobs_janitor_round :
      JobDeclarator E → (downstream_id now : ℕ) → JobDeclarator E
  pending_jobs_janitor_round s downstream_id now =
      elim (Map.get downstream_id s.downstream_clients) [
        | none ↦ s
        | some downstream ↦
            let pending =
              Map.retain (λ _ entry. leb (now - entry.0) (from_secs allocated_token_timeout_secs))
                downstream.pending_declare_mining_jobs in
            record s {
              downstream_clients =
                  Map.insert downstream_id (record { pending_declare_mining_jobs = pending })
                    s.downstream_clients;
            }
      ]
