-- ===== src/Jds/Engine/State/Janitor.antt =====
-- What one round of the engine's janitor leaves of the tokens.
use gridpool_sv2_pool.Prelude.{
  ℕ, ◌≡◌, refl, inl, inr, Bool, false, not, Option, none, some, List, [], ◌∷◌, ◌==◌, contains,
  arith, Option-cases, if◌then◌else◌,
}
use gridpool_sv2_pool.Map
use gridpool_sv2_pool.Map.{Map, keep_if, get-remove}
use gridpool_sv2_pool.Jds.Engine.State.{
  AllocatedTokenEntry, IpcEngine, is_expired, expired_tokens, remove_token, remove_tokens,
  janitor_round,
}

abbrev expires : (now : ℕ) → Option AllocatedTokenEntry → Bool
expires now none = false
expires now (some entry) = is_expired now entry

expired_tokens-remove :
    (now token t : ℕ) (l : List (ℕ × AllocatedTokenEntry))
    → contains t (expired_tokens now (Map.remove token l))
      ≡ (if token == t then false else contains t (expired_tokens now l))
unfolding expired_tokens Map.remove
expired_tokens-remove now token t [] = ground arith
expired_tokens-remove now token t ((j, entry) ∷ l) =
    ground (arith, expired_tokens-remove now token t l)

expired_tokens-entries :
    (now t : ℕ) (m : Map AllocatedTokenEntry)
    → contains t (expired_tokens now (Map.entries m)) ≡ expires now (Map.get t m)
unfolding expired_tokens Map.entries Map.get
expired_tokens-entries now t [] = refl
expired_tokens-entries now t ((j, entry) ∷ m) =
    ground (arith, expired_tokens-entries now t m, expired_tokens-remove now j t (Map.entries m))

remove_token-tokens :
    (e : IpcEngine) (token t : ℕ)
    → Map.get t (remove_token e token).allocated_token_entries
      ≡ (if token == t then none else Map.get t e.allocated_token_entries)
unfolding remove_token
remove_token-tokens e token t = elim (Option-cases (Map.get token e.allocated_token_entries)) [
  | inl unknown ↦ ground arith
  | inr (entry, known) ↦ ground (arith, get-remove token t e.allocated_token_entries)
]

remove_tokens-tokens :
    (e : IpcEngine) (tokens : List ℕ) (t : ℕ)
    → Map.get t (remove_tokens e tokens).allocated_token_entries
      ≡ (if contains t tokens then none else Map.get t e.allocated_token_entries)
unfolding remove_tokens
remove_tokens-tokens e [] t = refl
remove_tokens-tokens e (token ∷ tokens) t =
    ground
      (arith, remove_tokens-tokens (remove_token e token) tokens t, remove_token-tokens e token t)

-- A round of the janitor drops the tokens whose time is over, and keeps every other one as it was.
janitor_round-tokens :
    (e : IpcEngine) (now t : ℕ)
    → Map.get t (janitor_round e now).allocated_token_entries
      ≡ keep_if (λ entry. not (is_expired now entry)) (Map.get t e.allocated_token_entries)
unfolding janitor_round
janitor_round-tokens e now t = ground (
  arith,
  remove_tokens-tokens e (expired_tokens now (Map.entries e.allocated_token_entries)) t,
  expired_tokens-entries now t e.allocated_token_entries,
)
