-- ===== src/Prelude/Results.antt =====
-- Rust's `Result`, with its `?` as the monad's bind.
use mathlib.Core.Path.{◌≡◌, refl, sym, ap, ◌∙◌}
use mathlib.Core.Logic.{◌⊎◌, inl, inr}
use native.Mathlib.Omega.{arith}

pub data Result {ℓ κ} (E : Type ℓ) (A : Type κ) : Type (ℓ ⊔ κ) where
  ok : A → Result E A
  err : E → Result E A

infixl 5 ◌>>=◌
abbrev pub ◌>>=◌ {ℓ κ μ} :
    {E : Type ℓ} {A : Type κ} {B : Type μ} → Result E A → (A → Result E B) → Result E B
ok a >>= f = f a
err e >>= f = err e

abbrev pub map_err {ℓ κ μ} :
    {E : Type ℓ} {F : Type κ} {A : Type μ} → (E → F) → Result E A → Result F A
map_err f (ok a) = ok a
map_err f (err e) = err (f e)

pub Result-cases {ℓ κ} :
    {E : Type ℓ} {A : Type κ} (r : Result E A) → ((a : A) × (r ≡ ok a)) ⊎ ((e : E) × (r ≡ err e))
Result-cases (ok a) = inl (a, refl)
Result-cases (err e) = inr (e, refl)

-- What a chain of calls that returns went through.
pub bind-ok {ℓ κ μ} :
    {E : Type ℓ} {A : Type κ} {B : Type μ} (r : Result E A) (f : A → Result E B) {b : B}
    → r >>= f ≡ ok b
    → (a : A) × (r ≡ ok a) × (f a ≡ ok b)
bind-ok (ok a) f h = (a, refl, h)
bind-ok (err e) f h = absurd (ground arith)

pub map_err-ok {ℓ κ μ} :
    {E : Type ℓ} {F : Type κ} {A : Type μ} (g : E → F) (r : Result E A) {a : A}
    → map_err g r ≡ ok a
    → r ≡ ok a
map_err-ok g (ok a) h = ground arith
map_err-ok g (err e) h = absurd (ground arith)

abbrev value_or {ℓ κ} : {E : Type ℓ} {A : Type κ} → A → Result E A → A
value_or d (ok a) = a
value_or d (err e) = d

pub ok-inj {ℓ κ} :
    {E : Type ℓ} {A : Type κ} (a b : A) (r : Result E A) → r ≡ ok a → r ≡ ok b → a ≡ b
ok-inj a b r e f = sym (ap (value_or a) e) ∙ ap (value_or a) f
