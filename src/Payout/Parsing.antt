-- ===== src/Payout/Parsing.antt =====
-- What the parser of identities produces, and that it reads back the documented patterns.
use gridpool_sv2_pool.Prelude.{
  ℕ, ◌+◌, ◌/◌, ◌%◌, ◌≤◌, ◌<◌, ◌≡◌, refl, some, List, [], ◌∷◌, ◌++◌, Text, codes, ok, err, ltb,
  Lacks, split, split-append, split-Lacks, split_once-append, parse_u8, arith, if◌then◌else◌,
  Bool-cases, inl, inr, Result-cases, ◌≢◌,
}
use gridpool_sv2_pool.Payout.Script.{CoinbaseRewardScript, Miniscript}
use gridpool_sv2_pool.Payout.Mode.{PayoutMode, solo, legacy_solo, donate, full_donation}
use gridpool_sv2_pool.Payout.Identity.{
  PayoutModeError, script_from_address, sri_parts, parse_parts, address_part_from_user_identity,
  try_from,
}
use gridpool_sv2_pool.Payout.Distribution.{InRange}

abbrev decimal : ℕ → Text
decimal n = if ltb n 10 then (b'0' + n) ∷ [] else (b'0' + n / 10) ∷ (b'0' + n % 10) ∷ []

-- The documented pattern of a mode, for a worker's name.
abbrev pub identity_of : PayoutMode → Text → Text
identity_of (solo address script) worker = codes "sri/solo/" ++ (address ++ b'/' ∷ worker)
identity_of (legacy_solo address script) worker = address ++ b'.' ∷ worker
identity_of (donate percentage address script) worker =
    codes "sri/donate/" ++ (decimal percentage ++ b'/' ∷ (address ++ b'/' ∷ worker))
identity_of full_donation worker = codes "sri/donate/" ++ worker

decimal-Lacks : (p : ℕ) → p < 100 → Lacks b'/' (decimal p)
decimal-Lacks p h = elim (Bool-cases (ltb p 10)) [
  | inl e ↦ rw e (ground arith)
  | inr e ↦ rw e (ground arith)
]

parse_u8-decimal : (p : ℕ) → p < 100 → parse_u8 (decimal p) ≡ some p
unfolding parse_u8
parse_u8-decimal p h = elim (Bool-cases (ltb p 10)) [
  | inl e ↦ rw e (ground arith)
  | inr e ↦ rw e (ground arith)
]

address_part-legacy :
    (a w : Text) → Lacks b'.' a → address_part_from_user_identity (a ++ b'.' ∷ w) ≡ a
unfolding address_part_from_user_identity
address_part-legacy a w l = ground (arith, split_once-append b'.' a w l)

module _ (lib : Miniscript) where
  sri_parts-donate :
      (user_identity : Text) (parts : List Text) (p : ℕ) (a : Text) (s : CoinbaseRewardScript)
      → sri_parts lib user_identity parts ≡ ok (donate p a s)
      → (1 ≤ p) × (p < 100)
  unfolding sri_parts
  sri_parts-donate u [] p a s h = cc
  sri_parts-donate u (word ∷ []) p a s h = ground arith
  sri_parts-donate u (word ∷ third ∷ []) p a s h = ground arith
  sri_parts-donate u (word ∷ third ∷ fourth ∷ rest) p a s h = ground arith

  parse_parts-donate :
      (user_identity : Text) (parts : List Text) (p : ℕ) (a : Text) (s : CoinbaseRewardScript)
      → parse_parts lib user_identity parts ≡ ok (donate p a s)
      → (1 ≤ p) × (p < 100)
  unfolding parse_parts
  parse_parts-donate u [] p a s h = cc
  parse_parts-donate u (first ∷ parts) p a s h = ground (arith, sri_parts-donate u parts p a s)

  try_from-donate :
      (user_identity : Text) (p : ℕ) (a : Text) (s : CoinbaseRewardScript)
      → try_from lib user_identity ≡ ok (donate p a s)
      → (1 ≤ p) × (p < 100)
  unfolding try_from
  try_from-donate [] p a s h = cc
  try_from-donate (c ∷ rest) p a s h =
      let u : Text = c ∷ rest in
      elim (Result-cases (script_from_address lib (address_part_from_user_identity u))) [
        | inl (script, e) ↦ ground arith
        | inr (x, e) ↦ ground (arith, parse_parts-donate u (split b'/' u) p a s)
      ]

  -- Every mode that the parser returns is one that the distribution is made for: a donation's
  -- percentage lies from 1 to 99.
  pub try_from-InRange :
      (user_identity : Text) (mode : PayoutMode)
      → try_from lib user_identity ≡ ok mode
      → InRange mode
  try_from-InRange u (donate p a s) h = try_from-donate u p a s h
  try_from-InRange u (solo a s) h = tt
  try_from-InRange u (legacy_solo a s) h = tt
  try_from-InRange u full_donation h = tt

  -- What stands before the first `.` is no address.
  abbrev pub NotLegacy : Text → Type 0
  NotLegacy user_identity =
      (e : PayoutModeError) × (script_from_address lib
          (address_part_from_user_identity user_identity)
        ≡ err e)

  -- The address of the mode gives its script and holds no separator, and an identity under `sri/`
  -- is not taken for an address.
  abbrev pub Encodes : PayoutMode → Text → Type 0
  Encodes (solo address script) worker =
      (script_from_address lib address ≡ ok script)
      × Lacks b'/' address
      × NotLegacy (identity_of (solo address script) worker)
  Encodes (legacy_solo address script) worker =
      (script_from_address lib address ≡ ok script) × Lacks b'.' address × (address ≢ [])
  Encodes (donate percentage address script) worker =
      (script_from_address lib address ≡ ok script)
      × Lacks b'/' address
      × NotLegacy (identity_of (donate percentage address script) worker)
  Encodes full_donation worker = Lacks b'/' worker × NotLegacy (identity_of full_donation worker)

  sri_parts-solo :
      (user_identity address : Text) (parts : List Text) (script : CoinbaseRewardScript)
      → script_from_address lib address ≡ ok script
      → sri_parts lib user_identity (codes "solo" ∷ address ∷ parts) ≡ ok (solo address script)
  unfolding sri_parts
  sri_parts-solo u a [] s e = rw e refl
  sri_parts-solo u a (_ ∷ _) s e = rw e refl

  sri_parts-donate_for :
      (user_identity text address : Text) (parts : List Text) (script : CoinbaseRewardScript)
      (percentage : ℕ)
      → parse_u8 text ≡ some percentage
      → 1 ≤ percentage
      → percentage < 100
      → script_from_address lib address ≡ ok script
      → sri_parts lib user_identity (codes "donate" ∷ text ∷ address ∷ parts)
        ≡ ok (donate percentage address script)
  unfolding sri_parts
  sri_parts-donate_for u t a r s p e lo hi f = rw (e, f) (ground arith)

  -- The documented pattern of each mode reads back as that mode: `sri/solo/<address>/<worker>`,
  -- `<address>.<worker>` and `sri/donate/<percentage>/<address>/<worker>` with any worker's name,
  -- and `sri/donate/<worker>` with a worker's name that holds no `/`. The address gives its script,
  -- holds no separator and is not empty where it comes first, the percentage lies from 1 to 99, and
  -- what stands before the first `.` of an identity under `sri/` is not itself an address.
  pub try_from-identity_of :
      (mode : PayoutMode) (worker : Text)
      → InRange mode
      → Encodes mode worker
      → try_from lib (identity_of mode worker) ≡ ok mode
  unfolding try_from parse_parts split
  try_from-identity_of (solo a s) w r (e, l, (x, n)) =
      rw (n, split-append b'/' a w l)
        (sri_parts-solo (identity_of (solo a s) w) a (split b'/' w) s e)
  try_from-identity_of (legacy_solo [] s) w r (e, l, n) = absurd (n refl)
  try_from-identity_of (legacy_solo (c ∷ a) s) w r (e, l, n) =
      rw (address_part-legacy (c ∷ a) w l, e) refl
  try_from-identity_of (donate p a s) w r (e, l, (x, n)) =
      rw
        (
          n,
          split-append b'/' (decimal p) (a ++ b'/' ∷ w) (decimal-Lacks p r.1),
          split-append b'/' a w l,
        )
        (sri_parts-donate_for (identity_of (donate p a s) w) (decimal p) a (split b'/' w) s p
          (parse_u8-decimal p r.1) r.0 r.1 e)
  try_from-identity_of full_donation w r (l, (x, n)) = rw (n, split-Lacks b'/' w l) refl
