-- ===== src/Jds/Engine/Merkle/Root.antt =====
-- The path of `get_merkle_path` against the tree of hashes that it stands in.
use mathlib.Core.List.{append_assoc}
use gridpool_sv2_pool.Prelude.{
  ℕ, zero, suc, ◌+◌, ◌-◌, ◌*◌, ◌/◌, ◌≤◌, ◌≡◌, refl, sym, ap, ◌∙◌, min, Option, none, some, List, [],
  ◌∷◌, ◌++◌, arith, length, get_elem?, length-append,
}
use gridpool_sv2_pool.Jds.Engine.Merkle.{next_level, merkle_branch, merkle_path}

get_elem?-append :
    (pre xs : List ℕ) (i k : ℕ) → i ≡ length pre + k → get_elem? (pre ++ xs) i ≡ get_elem? xs k
get_elem?-append [] xs i k e = let e' : i ≡ k = omega arith in rw e'
get_elem?-append (x ∷ pre) xs zero k e = absurd (omega arith)
get_elem?-append (x ∷ pre) xs (suc i) k e = get_elem?-append pre xs i k (omega arith)

module _ (hash_nodes : (left right : ℕ) → ℕ) where
  -- One level of Bitcoin's tree: neighbours are hashed, and a last one without a neighbour with
  -- itself.
  abbrev pub pair_up : List ℕ → List ℕ
  pair_up [] = []
  pair_up (x ∷ []) = hash_nodes x x ∷ []
  pair_up (x ∷ y ∷ rest) = hash_nodes x y ∷ pair_up rest

  -- The root, on fuel.
  abbrev pub tree_root : (fuel : ℕ) → List ℕ → Option ℕ
  tree_root zero hashes = none
  tree_root (suc fuel) [] = none
  tree_root (suc fuel) (h ∷ []) = some h
  tree_root (suc fuel) (h ∷ sibling ∷ rest) = tree_root fuel (pair_up (h ∷ sibling ∷ rest))

  -- A first leaf hashed along a path.
  abbrev pub fold_path : ℕ → List ℕ → ℕ
  fold_path h [] = h
  fold_path h (sibling ∷ path) = fold_path (hash_nodes h sibling) path

  next_level-pairs :
      (rounds idx : ℕ) (pre xs hashes : List ℕ)
      → hashes ≡ pre ++ xs
      → length pre ≡ 2 * idx
      → rounds ≡ (length xs + 1) / 2
      → next_level hash_nodes rounds idx hashes ≡ some (pair_up xs)
  unfolding next_level
  next_level-pairs zero idx pre [] hashes e l r = refl
  next_level-pairs (suc rounds) idx pre [] hashes e l r = absurd (omega arith)
  next_level-pairs zero idx pre (x ∷ xs) hashes e l r = absurd (omega arith)
  next_level-pairs (suc rounds) idx pre (x ∷ []) hashes e l r =
      let size : length hashes ≡ 2 * idx + 1 =
        omega (arith, ap length e, length-append pre (x ∷ [])) in
      let left : get_elem? hashes (2 * idx) ≡ some x =
        rw e (get_elem?-append pre (x ∷ []) (2 * idx) 0 (omega arith)) in
      let same : min (2 * idx + 1) (length hashes - 1) ≡ 2 * idx = omega arith in
      let done : rounds ≡ 0 = omega arith in rw (same, left, done) refl
  next_level-pairs (suc rounds) idx pre (x ∷ y ∷ xs) hashes e l r =
      let size : length hashes ≡ 2 * idx + suc (suc (length xs)) =
        omega (arith, ap length e, length-append pre (x ∷ y ∷ xs)) in
      let left : get_elem? hashes (2 * idx) ≡ some x =
        rw e (get_elem?-append pre (x ∷ y ∷ xs) (2 * idx) 0 (omega arith)) in
      let right : get_elem? hashes (2 * idx + 1) ≡ some y =
        rw e (get_elem?-append pre (x ∷ y ∷ xs) (2 * idx + 1) 1 (omega arith)) in
      let beside : min (2 * idx + 1) (length hashes - 1) ≡ 2 * idx + 1 = omega arith in
      let rest =
        next_level-pairs rounds (idx + 1) (pre ++ x ∷ y ∷ []) xs hashes
          (e ∙ sym (append_assoc pre (x ∷ y ∷ []) xs))
          (omega (arith, length-append pre (x ∷ y ∷ []))) (omega arith) in
      rw (beside, left, right, rest) refl

  length-pair_up : (xs : List ℕ) → length (pair_up xs) ≡ (length xs + 1) / 2
  length-pair_up [] = omega arith
  length-pair_up (x ∷ []) = omega arith
  length-pair_up (x ∷ y ∷ xs) = omega (arith, length-pair_up xs)

  -- The path is there, and it leads every first leaf to its root.
  abbrev Leads : ℕ → List ℕ → Option (List ℕ) → Type 0
  Leads fuel rest o =
      (path : List ℕ) × (o ≡ some path)
      × ((h : ℕ) → tree_root fuel (h ∷ rest) ≡ some (fold_path h path))

  merkle_branch-Leads :
      (fuel h : ℕ) (rest : List ℕ)
      → suc (length rest) ≤ fuel
      → Leads fuel rest (merkle_branch hash_nodes fuel (h ∷ rest))
  unfolding merkle_branch
  merkle_branch-Leads zero h rest l = absurd (omega arith)
  merkle_branch-Leads (suc fuel) h [] l = ([], refl, λ h'. refl)
  merkle_branch-Leads (suc fuel) h (s ∷ rest) l =
      let level = next_level-pairs _ 0 [] (h ∷ s ∷ rest) (h ∷ s ∷ rest) refl refl refl in
      let (path, e, leads) =
        merkle_branch-Leads fuel (hash_nodes h s) (pair_up rest)
          (omega (arith, length-pair_up rest)) in
      rw (level, merkle_branch, e) (s ∷ path, refl, λ h'. leads (hash_nodes h' s))

  -- The path that the engine computes for a coinbase and the other transactions' hashes exists,
  -- and hashing any coinbase's hash along it gives the root of the tree with that coinbase in
  -- front, also of one with another extranonce.
  pub merkle_path-root :
      (coinbase : ℕ) (txids : List ℕ)
      → (path : List ℕ) × (merkle_path hash_nodes (coinbase ∷ txids) ≡ some path)
        × ((h : ℕ) → tree_root (suc (length txids)) (h ∷ txids) ≡ some (fold_path h path))
  unfolding merkle_path
  merkle_path-root coinbase txids =
      merkle_branch-Leads (suc (length txids)) coinbase txids (omega arith)
