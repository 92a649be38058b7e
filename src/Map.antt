-- ===== src/Map.antt =====
-- The concurrent maps of the servers (`dashmap::DashMap`), keyed by numbers: tokens, request ids,
-- client ids, hashes. The library's map is not code of the repository; what the code relies on is
-- the laws below. A list of entries, in which an entry is shadowed by an earlier one of its key.
use gridpool_sv2_pool.Prelude.{
  ℕ, ◌≡◌, refl, Bool, Option, none, some, List, [], ◌∷◌, arith, ◌==◌, if◌then◌else◌,
}

abbrev pub Map {ℓ} : Type ℓ → Type ℓ
Map V = List (ℕ × V)

module _ {ℓ} {V : Type ℓ} where
  unfoldable pub empty : Map V
  empty = []

  unfoldable pub get : ℕ → Map V → Option V
  get k [] = none
  get k ((j, v) ∷ m) = if j == k then some v else get k m

  unfoldable pub remove : ℕ → Map V → Map V
  remove k [] = []
  remove k ((j, v) ∷ m) = let rest = remove k m in if j == k then rest else (j, v) ∷ rest

  unfoldable pub insert : ℕ → V → Map V → Map V
  insert k v m = (k, v) ∷ m

  unfoldable pub retain : (ℕ → V → Bool) → Map V → Map V
  unfolding remove
  retain p [] = []
  retain p ((j, v) ∷ m) = let rest = retain p m in if p j v then (j, v) ∷ rest else remove j rest

  -- The entries in the order of an iteration, one for each key.
  unfoldable pub entries : Map V → List (ℕ × V)
  unfolding remove
  entries [] = []
  entries ((j, v) ∷ m) = (j, v) ∷ remove j (entries m)

  abbrev pub keep_if : (V → Bool) → Option V → Option V
  keep_if p none = none
  keep_if p (some v) = if p v then some v else none

  pub get-empty : (k : ℕ) → get k empty ≡ none
  unfolding get empty
  get-empty k = refl

  pub get-insert :
      (k j : ℕ) (v : V) (m : Map V) → get j (insert k v m) ≡ (if k == j then some v else get j m)
  unfolding get insert
  get-insert k j v m = refl

  pub get-remove : (k j : ℕ) (m : Map V) → get j (remove k m) ≡ (if k == j then none else get j m)
  unfolding get remove
  get-remove k j [] = ground arith
  get-remove k j ((i, v) ∷ m) = ground (arith, get-remove k j m)

  pub get-retain :
      (p : ℕ → V → Bool) (j : ℕ) (m : Map V) → get j (retain p m) ≡ keep_if (p j) (get j m)
  unfolding get retain
  get-retain p j [] = refl
  get-retain p j ((i, v) ∷ m) = ground (arith, get-retain p j m, get-remove i j (retain p m))

pub ruleset map_laws = (get-empty, get-insert, get-remove, get-retain)
