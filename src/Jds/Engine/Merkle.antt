-- ===== src/Jds/Engine/Merkle.antt =====
-- `DeclaredCustomJob::get_merkle_path` of job_validation/bitcoin_core_ipc.rs: the hashes beside
-- the coinbase's way to the root of the tree of transactions.
pub mod Root
use gridpool_sv2_pool.Prelude.{
  ℕ, zero, suc, ◌+◌, ◌-◌, ◌*◌, ◌/◌, min, Option, none, some, List, [], ◌∷◌, length, get_elem?,
}

abbrev pub hash_pair : (ℕ → ℕ → ℕ) → Option ℕ → Option ℕ → Option ℕ
hash_pair hash_nodes none right = none
hash_pair hash_nodes (some left) none = none
hash_pair hash_nodes (some left) (some right) = some (hash_nodes left right)

abbrev pub cons_both : Option ℕ → Option (List ℕ) → Option (List ℕ)
cons_both none level = none
cons_both (some node) none = none
cons_both (some node) (some level) = some (node ∷ level)

module _ (hash_nodes : (left right : ℕ) → ℕ) where
  -- `for idx in 0..half`, with the rounds left and the index; `none` is an index out of bounds.
  unfoldable pub next_level : (rounds idx : ℕ) → List ℕ → Option (List ℕ)
  next_level zero idx hashes = some []
  next_level (suc rounds) idx hashes =
      let left = get_elem? hashes (2 * idx) in
      let right = get_elem? hashes (min (2 * idx + 1) (length hashes - 1)) in
      cons_both (hash_pair hash_nodes left right) (next_level rounds (idx + 1) hashes)

  -- The `while` loop, on fuel; a list of two or more hashes has a second one.
  unfoldable pub merkle_branch : (fuel : ℕ) → List ℕ → Option (List ℕ)
  merkle_branch zero hashes = none
  merkle_branch (suc fuel) [] = some []
  merkle_branch (suc fuel) (h ∷ []) = some []
  merkle_branch (suc fuel) (h ∷ sibling ∷ rest) =
      let hashes : List ℕ = h ∷ sibling ∷ rest in
      elim (next_level ((length hashes + 1) / 2) 0 hashes) [
        | none ↦ none
        | some next ↦ cons_both (some sibling) (merkle_branch fuel next)
      ]

  -- The list's length is fuel enough.
  unfoldable pub merkle_path : List ℕ → Option (List ℕ)
  merkle_path hashes = merkle_branch (length hashes) hashes
