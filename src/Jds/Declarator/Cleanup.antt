-- ===== src/Jds/Declarator/Cleanup.antt =====
-- What the cleanup of a client takes away, and what it leaves to the others.
use gridpool_sv2_pool.Prelude.{
  ℕ, ◌≡◌, refl, false, none, ◌==◌, arith, inl, inr, Option-cases, if◌then◌else◌,
}
use gridpool_sv2_pool.Map
use gridpool_sv2_pool.Map.{get-remove, get-retain}
use gridpool_sv2_pool.Jds.Tokens
use gridpool_sv2_pool.Jds.Declarator.State.{JobDeclarator}
use gridpool_sv2_pool.Jds.Declarator.Clients.{cleanup_downstream}

is_allocated-remove_downstream :
    (m : Tokens.TokenManager) (t c d : ℕ)
    → Tokens.is_allocated (Tokens.remove_downstream m c) t d
      ≡ (if c == d then false else Tokens.is_allocated m t d)
unfolding Tokens.is_allocated Tokens.remove_downstream
is_allocated-remove_downstream m t c d = elim (Option-cases (Map.get t m.allocated_tokens)) [
  | inl unknown ↦ rw (get-retain, Tokens.is_allocated, unknown) (ground arith)
  | inr ((at, owner), known) ↦ rw (get-retain, Tokens.is_allocated, known) (ground arith)
]

-- The cleanup of a client leaves it no entry, no sender and no allocated token. Every other client
-- keeps its entry, its sender and its allocated tokens, and every active token stays, also one of
-- the client that left.
pub cleanup_downstream-others :
    {E : Type 0} (s : JobDeclarator E) (c d t : ℕ)
    → (Map.get d (cleanup_downstream s c).downstream_clients
        ≡ (if c == d then none else Map.get d s.downstream_clients))
      × (Map.get d (cleanup_downstream s c).downstream_client_senders
          ≡ (if c == d then none else Map.get d s.downstream_client_senders))
      × (Tokens.is_allocated (cleanup_downstream s c).token_manager t d
          ≡ (if c == d then false else Tokens.is_allocated s.token_manager t d))
      × (Tokens.allocated_from_active (cleanup_downstream s c).token_manager t
          ≡ Tokens.allocated_from_active s.token_manager t)
unfolding cleanup_downstream Tokens.remove_downstream Tokens.allocated_from_active
cleanup_downstream-others s c d t = (
  get-remove c d s.downstream_clients,
  get-remove c d s.downstream_client_senders,
  is_allocated-remove_downstream s.token_manager t c d,
  refl,
)
