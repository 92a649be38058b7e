-- ===== src/GridPool/Fee.antt =====
-- The operator's share of the time.
use native.Mathlib.Nat.{mod-lt, mod-eq_of_lt, add-mod_right}
use gridpool_sv2_pool.Prelude.{
  ℕ, zero, suc, ◌+◌, ◌-◌, ◌%◌, ◌^◌, ◌≤◌, ◌<◌, ◌≡◌, ◌≢◌, refl, ◌∙◌, min, Bool, true, false, none,
  arith, inl, inr, ltb, Text, Option-cases, if◌then◌else◌,
}
use gridpool_sv2_pool.Payout.Mode.{u64}
use gridpool_sv2_pool.GridPool.Client.{
  Libs, GridPoolClient, cycle_of, fee_duration, fee_offset, fee_active,
}

-- How many of `n` numbers from `k` on pass a test.
abbrev pub count : (ℕ → Bool) → (n k : ℕ) → ℕ
count p zero k = 0
count p (suc n) k = let rest = count p n (suc k) in if p k then suc rest else rest

abbrev one_if : Bool → ℕ
one_if true = 1
one_if false = 0

count-step :
    (p : ℕ → Bool) (n k : ℕ) → one_if (p k) + count p n (suc k) ≡ count p n k + one_if (p (k + n))
count-step p zero k = ground arith
count-step p (suc n) k = ground (arith, count-step p n (suc k))

count-cong :
    (p q : ℕ → Bool) (n k : ℕ) → ((i : ℕ) → i < k + n → p i ≡ q i) → count p n k ≡ count q n k
count-cong p q zero k h = refl
count-cong p q (suc n) k h =
    ground (arith, h k (omega arith), count-cong p q n (suc k) (λ i l. h i (omega arith)))

count-shift : (p : ℕ → Bool) (n k s : ℕ) → count (λ i. p (i + s)) n k ≡ count p n (k + s)
count-shift p zero k s = refl
count-shift p (suc n) k s = ground (arith, count-shift p n (suc k) s)

module _ (c d : ℕ) (positive : 0 < c) where
  abbrev inside : ℕ → Bool
  inside i = ltb (i % c) d

  count-period : (k : ℕ) → count inside c k ≡ count inside c 0
  count-period zero = refl
  count-period (suc k) = ground (arith, count-period k, count-step inside c k, add-mod_right k c)

  count-start : (n k : ℕ) → k + n ≤ c → count inside n k + min k d ≡ min (k + n) d
  count-start zero k h = omega arith
  count-start (suc n) k h =
      let small : k % c ≡ k = mod-eq_of_lt (omega arith) in
      ground (arith, small, count-start n (suc k) (omega arith))

module _ (lib : Libs) where
  open lib use {is_positive}

  -- The operator's fee is on.
  abbrev pub HasFee : GridPoolClient lib → Type 0
  HasFee c =
      (is_positive c.config.operator_fee_percent ≡ true) × (c.config.operator_fee_address ≢ none)

  fee_active-inside :
      (c : GridPoolClient lib) (payout_address : Text) (now : ℕ)
      → HasFee c
      → now + cycle_of lib c < 2 ^ 64
      → fee_active lib c payout_address now
        ≡ ltb
            ((now + (cycle_of lib c - fee_offset lib c payout_address)) % cycle_of lib c)
            (fee_duration lib c)
  unfolding fee_active fee_offset
  fee_active-inside c a now (percent, address) bound =
      let cycle = cycle_of lib c in
      let offset = lib.digest c.token a % cycle in
      let below : offset < cycle = mod-lt (lib.digest c.token a) (omega arith) in
      let difference : u64 (now + cycle + (2 ^ 64 - offset)) ≡ now + (cycle - offset) =
        omega arith in
      elim (Option-cases c.config.operator_fee_address) [
        | inl missing ↦ absurd (address missing)
        | inr (operator, there) ↦ rw (percent, there, difference) refl
      ]

  fee_duration-le : (c : GridPoolClient lib) → fee_duration lib c ≤ cycle_of lib c
  unfolding fee_duration
  fee_duration-le c = omega arith

  -- With the operator's fee on, exactly the fee's duration of the seconds of any whole cycle are
  -- fee seconds, whichever second it starts from and for whichever address (below the end of the
  -- 64-bit clock).
  pub count-fee_active :
      (c : GridPoolClient lib) (payout_address : Text) (start : ℕ)
      → HasFee c
      → start + cycle_of lib c + cycle_of lib c < 2 ^ 64
      → count (fee_active lib c payout_address) (cycle_of lib c) start ≡ fee_duration lib c
  count-fee_active c a start fee bound =
      let cycle = cycle_of lib c in
      let d = fee_duration lib c in
      let shift = cycle - fee_offset lib c a in
      let positive : 0 < cycle = omega arith in
      count-cong (fee_active lib c a) (λ i. ltb ((i + shift) % cycle) d) cycle start
        (λ i l. fee_active-inside c a i fee (omega arith))
      ∙ count-shift (inside cycle d positive) cycle start shift
      ∙ count-period cycle d positive (start + shift)
      ∙ omega (arith, count-start cycle d positive cycle 0 (omega arith), fee_duration-le c)
