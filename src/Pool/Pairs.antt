-- ===== src/Pool/Pairs.antt =====
-- The channel manager's maps whose keys are a downstream and a channel (`SharedMap` over
-- `VardiffKey` or a pair), as lists of entries in which an entry is shadowed by an earlier one of
-- its key.
use gridpool_sv2_pool.Prelude.{
  ℕ, ◌≡◌, refl, Bool, ◌&&◌, Option, none, some, List, [], ◌∷◌, arith, ◌==◌, if◌then◌else◌,
}

abbrev pub Pairs {ℓ} : Type ℓ → Type ℓ
Pairs V = List ((ℕ × ℕ) × V)

abbrev pub same_key : ℕ × ℕ → ℕ × ℕ → Bool
same_key (d, c) (e, b) = (d == e) && (c == b)

module _ {ℓ} {V : Type ℓ} where
  unfoldable pub get : ℕ × ℕ → Pairs V → Option V
  get k [] = none
  get k ((j, v) ∷ m) = if same_key j k then some v else get k m

  unfoldable pub insert : ℕ × ℕ → V → Pairs V → Pairs V
  insert k v m = (k, v) ∷ m

  unfoldable pub remove : ℕ × ℕ → Pairs V → Pairs V
  remove k [] = []
  remove k ((j, v) ∷ m) = let rest = remove k m in if same_key j k then rest else (j, v) ∷ rest

  -- `retain` with a test on the downstream: every key of the downstream goes.
  unfoldable pub remove_first : (d : ℕ) → Pairs V → Pairs V
  remove_first d [] = []
  remove_first d (((e, c), v) ∷ m) =
      let rest = remove_first d m in if e == d then rest else ((e, c), v) ∷ rest

  pub get-insert :
      (d c e b : ℕ) (v : V) (m : Pairs V)
      → get (e, b) (insert (d, c) v m) ≡ (if same_key (d, c) (e, b) then some v else get (e, b) m)
  unfolding get insert
  get-insert d c e b v m = refl

  pub get-remove :
      (d c e b : ℕ) (m : Pairs V)
      → get (e, b) (remove (d, c) m) ≡ (if same_key (d, c) (e, b) then none else get (e, b) m)
  unfolding get remove
  get-remove d c e b [] = ground arith
  get-remove d c e b (((f, a), v) ∷ m) = ground (arith, get-remove d c e b m)

  pub get-remove_first :
      (d e b : ℕ) (m : Pairs V)
      → get (e, b) (remove_first d m) ≡ (if d == e then none else get (e, b) m)
  unfolding get remove_first
  get-remove_first d e b [] = ground arith
  get-remove_first d e b (((f, a), v) ∷ m) = ground (arith, get-remove_first d e b m)
