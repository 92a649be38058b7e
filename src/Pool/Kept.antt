-- ===== src/Pool/Kept.antt =====
-- `try_for_each_mut` of a map where an error does not end the pool: the changes of the entries up
-- to the first error are kept, that of the entry that fails included.
use gridpool_sv2_pool.Prelude.{
  ℕ, ◌≡◌, refl, ◌∙◌, ap, inl, inr, Option, some, List, [], ◌∷◌, ◌++◌, Result, ok, err, ◌>>=◌, ◌==◌,
  Bool-cases, Result-cases,
}
use gridpool_sv2_pool.Map
use gridpool_sv2_pool.Map.{Map}
use gridpool_sv2_pool.Pool.Each.{get-entries}

module _ {E V M : Type 0} (f : ℕ → V → Result E (List M) × V) where
  unfoldable pub kept_list : List (ℕ × V) → Result E (List M) × List (ℕ × V)
  kept_list [] = (ok [], [])
  kept_list ((k, v) ∷ entries) =
      let rest = kept_list entries in
      let (result, v') = f k v in
      elim result [
        | err e ↦ (err e, (k, v') ∷ entries)
        | ok first ↦ ((do others ← rest.0; ok (first ++ others)), (k, v') ∷ rest.1)
      ]

  unfoldable pub kept_each : Map V → Result E (List M) × Map V
  unfolding kept_list Map.entries
  kept_each m = kept_list (Map.entries m)

  module _ {B : Type 0} (test : Option V → B)
      (same : (k : ℕ) (v : V) → test (some (f k v).1) ≡ test (some v)) where
    get-cons :
        (k i : ℕ) (v : V) (l m : List (ℕ × V))
        → test (Map.get i l) ≡ test (Map.get i m)
        → test (Map.get i ((k, (f k v).1) ∷ l)) ≡ test (Map.get i ((k, v) ∷ m))
    unfolding Map.get
    get-cons k i v l m h = elim (Bool-cases (k == i)) [
      | inl this ↦ rw this (same k v)
      | inr other ↦ rw other h
    ]

    get-kept_list :
        (l : List (ℕ × V)) (i : ℕ) → test (Map.get i (kept_list l).1) ≡ test (Map.get i l)
    unfolding kept_list
    get-kept_list [] i = refl
    get-kept_list ((k, v) ∷ l) i = elim (Result-cases (f k v).0) [
      | inl (first, done) ↦
          rw (kept_list, done) (get-cons k i v (kept_list l).1 l (get-kept_list l i))
      | inr (e, failed) ↦ rw (kept_list, failed) (get-cons k i v l l refl)
    ]

    -- What a test sees of an entry is kept, where the step keeps it on every entry.
    pub get-kept_each : (m : Map V) (i : ℕ) → test (Map.get i (kept_each m).1) ≡ test (Map.get i m)
    unfolding kept_each
    get-kept_each m i = get-kept_list (Map.entries m) i ∙ ap test (get-entries i m)
