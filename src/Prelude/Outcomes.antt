-- ===== src/Prelude/Outcomes.antt =====
-- Code that may panic: a panic ends the task that runs it.
use mathlib.Core.Path.{◌≡◌, refl}
use mathlib.Core.Logic.{◌⊎◌, inl, inr}
use mathlib.Core.Option.{Option, none, some}

pub data Outcome {ℓ} (A : Type ℓ) : Type ℓ where
  returns : A → Outcome A
  panics : Outcome A

abbrev pub and_then {ℓ κ} : {A : Type ℓ} {B : Type κ} → Outcome A → (A → Outcome B) → Outcome B
and_then (returns a) f = f a
and_then panics f = panics

-- `Option::expect` and `unwrap`
abbrev pub expect {ℓ} : {A : Type ℓ} → Option A → Outcome A
expect (some a) = returns a
expect none = panics

pub Outcome-cases {ℓ} : {A : Type ℓ} (o : Outcome A) → ((a : A) × (o ≡ returns a)) ⊎ (o ≡ panics)
Outcome-cases (returns a) = inl (a, refl)
Outcome-cases panics = inr refl
