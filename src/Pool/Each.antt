-- ===== src/Pool/Each.antt =====
-- `try_for_each_mut` of a map: every entry is changed and gives messages, and the first error ends
-- it. The changes that it made before an error are not kept; the errors here end the pool.
use gridpool_sv2_pool.Prelude.{
  ℕ, ◌≡◌, refl, ◌∙◌, some-injective, subst, ◌⊎◌, inl, inr, Bool, true, false, arith, Option, none,
  some, List, [], ◌∷◌, ◌++◌, All, Result, ok, ◌>>=◌, bind-ok, ok-inj, ◌==◌, Bool-cases,
}
use mathlib.Core.List.{Memᴰ}
use mathlib.Core.List.Memᴰ
use gridpool_sv2_pool.Map
use gridpool_sv2_pool.Map.{Map}

module _ {E V M : Type 0} where
  unfoldable pub try_list :
      (ℕ → V → Result E (V × List M)) → List (ℕ × V) → Result E (List (ℕ × V) × List M)
  try_list f [] = ok ([], [])
  try_list f ((k, v) ∷ entries) =
      let rest = try_list f entries in
      do first ← f k v; others ← rest; ok ((k, first.0) ∷ others.0, first.1 ++ others.1)

  unfoldable pub try_each : (ℕ → V → Result E (V × List M)) → Map V → Result E (Map V × List M)
  unfolding try_list Map.entries
  try_each f m = try_list f (Map.entries m)

module _ {V : Type 0} where
  pub get-entries : (k : ℕ) (m : Map V) → Map.get k (Map.entries m) ≡ Map.get k m
  unfolding Map.get Map.entries
  get-entries k [] = refl
  get-entries k ((j, v) ∷ m) = ground (arith, get-entries k m, Map.get-remove j k (Map.entries m))

  remove-All :
      (P : ℕ → V → Type 0) (j : ℕ) (l : List (ℕ × V))
      → All (λ e. (j ≡ e.0) ⊎ P e.0 e.1) l
      → All (λ e. P e.0 e.1) (Map.remove j l)
  unfolding Map.remove
  remove-All P j [] h = tt
  remove-All P j ((k, v) ∷ l) (inl this, h) =
      let same : (k == j) ≡ true = ground arith in rw same (remove-All P j l h)
  remove-All P j ((k, v) ∷ l) (inr p, h) = elim (Bool-cases (k == j)) [
    | inl this ↦ rw this (remove-All P j l h)
    | inr other ↦ rw other (p, remove-All P j l h)
  ]

  pub entries-All :
      (P : ℕ → V → Type 0) (m : Map V)
      → ((k : ℕ) (v : V) → Map.get k m ≡ some v → P k v)
      → All (λ e. P e.0 e.1) (Map.entries m)
  unfolding Map.get Map.entries
  entries-All P [] h = tt
  entries-All P ((j, v) ∷ m) h = (
    h j v (ground arith),
    remove-All P j (Map.entries m) (
        entries-All (λ k w. (j ≡ k) ⊎ P k w) m
          (λ k w there. elim (Bool-cases (j == k)) [
            | inl this ↦ inl (ground arith)
            | inr other ↦ inr (h k w (rw other there))
          ])),
  )

module _ {E V M : Type 0} (f : ℕ → V → Result E (V × List M)) where
  try_list-ok :
      (l : List (ℕ × V))
      → All (λ e. (r : V × List M) × (f e.0 e.1 ≡ ok r)) l
      → (r : List (ℕ × V) × List M) × (try_list f l ≡ ok r)
  unfolding try_list
  try_list-ok [] h = (([], []), refl)
  try_list-ok ((k, v) ∷ l) ((first, one), h) =
      let (others, rest) = try_list-ok l h in
      (((k, first.0) ∷ others.0, first.1 ++ others.1), rw (one, rest) refl)

  -- It succeeds where it succeeds on every entry.
  pub try_each-ok :
      (m : Map V)
      → ((k : ℕ) (v : V) → Map.get k m ≡ some v → (r : V × List M) × (f k v ≡ ok r))
      → (r : Map V × List M) × (try_each f m ≡ ok r)
  unfolding try_each
  try_each-ok m h =
      try_list-ok (Map.entries m) (entries-All (λ k v. (r : V × List M) × (f k v ≡ ok r)) m h)

  -- Where it succeeds, each entry is what the step made of it.
  abbrev pub Made : Option V → Option V → ℕ → Type 0
  Made none none k = Unit
  Made none (some w) k = ⊥
  Made (some v) none k = ⊥
  Made (some v) (some w) k = (messages : List M) × (f k v ≡ ok (w, messages))

  get-try_list :
      (l : List (ℕ × V)) (r : List (ℕ × V) × List M) (k : ℕ)
      → try_list f l ≡ ok r
      → Made (Map.get k l) (Map.get k r.0) k
  unfolding try_list Map.get
  get-try_list [] r k h =
      let same = ok-inj ([], []) r _ refl h in
      subst (λ (q : List (ℕ × V) × List M). Made none (Map.get k q.0) k) same tt
  get-try_list ((j, v) ∷ l) r k h =
      let (first, one, h1) = bind-ok (f j v) _ h in
      let (others, rest, h2) = bind-ok (try_list f l) _ h1 in
      let made : (List (ℕ × V)) × List M = ((j, first.0) ∷ others.0, first.1 ++ others.1) in
      let same = ok-inj made r _ refl h2 in
      subst (λ (q : List (ℕ × V) × List M). Made (Map.get k ((j, v) ∷ l)) (Map.get k q.0) k) same
        (elim (Bool-cases (j == k)) [
          | inl this ↦
              let at : j ≡ k = ground arith in
              rw this (first.1, subst (λ i. f i v ≡ ok first) at one)
          | inr other ↦ rw other (get-try_list l others k rest)
        ])

  pub get-try_each :
      (m : Map V) (r : Map V × List M) (k : ℕ)
      → try_each f m ≡ ok r
      → Made (Map.get k m) (Map.get k r.0) k
  unfolding try_each
  get-try_each m r k h =
      subst (λ v. Made v (Map.get k r.0) k) (get-entries k m) (get-try_list (Map.entries m) r k h)

  -- Where it succeeds, the step on an entry did, and its result and its messages are kept.
  abbrev pub Keeps : (k : ℕ) → V → Map V × List M → Type 0
  Keeps k v r =
      (q : V × List M) × (f k v ≡ ok q)
      × (Map.get k r.0 ≡ some q.0)
      × ((x : M) → Memᴰ x q.1 → Memᴰ x r.1)

  try_list-Keeps :
      (l : List (ℕ × V)) (r : List (ℕ × V) × List M) (k : ℕ) (v : V)
      → try_list f l ≡ ok r
      → Map.get k l ≡ some v
      → Keeps k v r
  unfolding try_list Map.get
  try_list-Keeps [] r k v h there = absurd (ground arith)
  try_list-Keeps ((j, u) ∷ l) r k v h there =
      let (first, one, h1) = bind-ok (f j u) _ h in
      let (others, rest, h2) = bind-ok (try_list f l) _ h1 in
      let made : (List (ℕ × V)) × List M = ((j, first.0) ∷ others.0, first.1 ++ others.1) in
      let same = ok-inj made r _ refl h2 in
      subst (Keeps k v) same (elim (Bool-cases (j == k)) [
        | inl this ↦
            let at : j ≡ k = ground arith in
            let value : u ≡ v = some-injective (rw this at there) in
            let here = subst (λ i. f i u ≡ ok first) at one in
            (
              first,
              subst (λ x. f k x ≡ ok first) value here,
              rw this refl,
              λ x m. Memᴰ.append_left others.1 m,
            )
        | inr other ↦
            let (q, done, kept, sent) = try_list-Keeps l others k v rest (rw other at there) in
            (q, done, rw other kept, λ x m. Memᴰ.append_right first.1 (sent x m))
      ])

  pub try_each-Keeps :
      (m : Map V) (r : Map V × List M) (k : ℕ) (v : V)
      → try_each f m ≡ ok r
      → Map.get k m ≡ some v
      → Keeps k v r
  unfolding try_each
  try_each-Keeps m r k v h there = try_list-Keeps (Map.entries m) r k v h (get-entries k m ∙ there)

  abbrev is_some : Option V → Bool
  is_some none = false
  is_some (some v) = true

  pub Made-is_some : (a b : Option V) (k : ℕ) → Made a b k → is_some b ≡ is_some a
  Made-is_some none none k h = refl
  Made-is_some none (some w) k h = absurd h
  Made-is_some (some v) none k h = absurd h
  Made-is_some (some v) (some w) k h = refl
