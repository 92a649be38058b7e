-- ===== src/Prelude/Texts.antt =====
-- Rust's `str` as a list of character codes, with the operations of the standard library that the
-- programs use.
use Prim.Native.Nat.{ℕ, zero, suc, ◌+◌, ◌-◌, ◌*◌, ◌/◌, ◌%◌, ◌<◌}
use Prim.Native.Char.{code}
use Prim.Native.String.{String}
use mathlib.Core.Path.{◌≡◌, refl}
use mathlib.Core.Bool.{Bool, true, false, ◌&&◌}
use mathlib.Core.List.{List, [], ◌∷◌, ◌++◌}
use mathlib.Core.Option.{Option, none, some}
use native.Mathlib.Omega.{arith}
use gridpool_sv2_pool.Prelude.Tests.{◌==◌, leb, ltb, if◌then◌else◌}
use gridpool_sv2_pool.Prelude.Lists.{list_eq, All}

abbrev pub Text : Type 0
Text = List ℕ

abbrev pub codes : String → Text
codes String.[] = []
codes (String.◌∷◌ c s) = code c ∷ codes s

-- The first piece of `s.split(sep)`, and what stands behind the separator.
unfoldable pub split_once : ℕ → Text → Option (Text × Text)
split_once sep [] = none
split_once sep (c ∷ s) =
    let rest = split_once sep s in
    if c == sep then some ([], s) else elim rest [ none ↦ none | some (a, b) ↦ some (c ∷ a, b) ]

abbrev push_head : ℕ → List Text → List Text
push_head c [] = (c ∷ []) ∷ []
push_head c (piece ∷ pieces) = (c ∷ piece) ∷ pieces

-- `s.split(sep)`: the pieces between the separators, at least one.
unfoldable pub split : ℕ → Text → List Text
split sep [] = [] ∷ []
split sep (c ∷ s) = let rest = split sep s in if c == sep then [] ∷ rest else push_head c rest

abbrev pub is_digit : ℕ → Bool
is_digit c = leb b'0' c && leb c b'9'

-- The digits of `str::parse::<u8>`, with its checks for overflow.
unfoldable pub parse_digits : ℕ → Text → Option ℕ
parse_digits n [] = some n
parse_digits n (c ∷ s) =
    let n' = n * 10 + (c - b'0') in
    let rest = parse_digits n' s in if is_digit c && ltb n' 256 then rest else none

-- `str::parse::<u8>`: one `+` may stand in front, and there is at least one digit.
unfoldable pub parse_u8 : Text → Option ℕ
unfolding parse_digits
parse_u8 [] = none
parse_u8 (c ∷ []) = if c == b'+' then none else parse_digits 0 (c ∷ [])
parse_u8 (c ∷ d ∷ s) = if c == b'+' then parse_digits 0 (d ∷ s) else parse_digits 0 (c ∷ d ∷ s)

-- The decimal digits of a number in front of a text, one for each round.
abbrev digits_before : (fuel n : ℕ) → Text → Text
digits_before zero n text = text
digits_before (suc fuel) n text =
    let text' = (b'0' + n % 10) ∷ text in
    let more = digits_before fuel (n / 10) text' in if ltb n 10 then text' else more

-- `to_string` of an unsigned number; there are fewer digits than `n + 1`.
unfoldable pub to_string : ℕ → Text
to_string n = digits_before (suc n) n []

-- The text holds no separator.
abbrev pub Lacks : ℕ → Text → Type 0
Lacks sep = All (λ c. (c == sep) ≡ false)

pub split-append :
    (sep : ℕ) (piece rest : Text)
    → Lacks sep piece
    → split sep (piece ++ sep ∷ rest) ≡ piece ∷ split sep rest
unfolding split
split-append sep [] rest h = ground arith
split-append sep (c ∷ piece) rest h = ground (arith, split-append sep piece rest h.1)

pub split-Lacks : (sep : ℕ) (piece : Text) → Lacks sep piece → split sep piece ≡ piece ∷ []
unfolding split
split-Lacks sep [] h = refl
split-Lacks sep (c ∷ piece) h = ground (arith, split-Lacks sep piece h.1)

pub split_once-Lacks : (sep : ℕ) (s : Text) → Lacks sep s → split_once sep s ≡ none
unfolding split_once
split_once-Lacks sep [] h = refl
split_once-Lacks sep (c ∷ s) h = ground (arith, split_once-Lacks sep s h.1)

pub split_once-append :
    (sep : ℕ) (a b : Text) → Lacks sep a → split_once sep (a ++ sep ∷ b) ≡ some (a, b)
unfolding split_once
split_once-append sep [] b h = ground arith
split_once-append sep (c ∷ a) b h = ground (arith, split_once-append sep a b h.1)

-- An accepted number fits eight bits.
pub parse_digits-lt : (n : ℕ) (s : Text) {r : ℕ} → n < 256 → parse_digits n s ≡ some r → r < 256
unfolding parse_digits
parse_digits-lt n [] h e = ground arith
parse_digits-lt n (c ∷ s) {r} h e = ground (arith, parse_digits-lt (n * 10 + (c - b'0')) s {r = r})

pub list_eq_sound : (a b : Text) → list_eq a b ≡ true → a ≡ b
list_eq_sound [] [] h = refl
list_eq_sound [] (y ∷ ys) h = cc
list_eq_sound (x ∷ xs) [] h = cc
list_eq_sound (x ∷ xs) (y ∷ ys) h = ground (arith, list_eq_sound xs ys)

pub list_eq_refl : (a : Text) → list_eq a a ≡ true
list_eq_refl [] = refl
list_eq_refl (x ∷ xs) = ground (arith, list_eq_refl xs)
