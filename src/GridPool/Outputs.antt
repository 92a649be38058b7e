-- ===== src/GridPool/Outputs.antt =====
-- The value of a coinbase's outputs, and to whom the first one goes.
use gridpool_sv2_pool.Prelude.{
  ℕ, ◌+◌, ◌-◌, ◌≡◌, ◌≢◌, refl, ap, sym, ◌∙◌, subst, sum, true, false, some, some-injective, List,
  [], ◌∷◌, map, arith, inl, inr, ltb, Text, ok, Result-cases, Option-cases, Bool-cases, list_eq,
  list_eq_refl, list_eq_sound,
}
use gridpool_sv2_pool.Payout.Script.{Script}
use gridpool_sv2_pool.Payout.Mode.{TxOut}
use gridpool_sv2_pool.Payout.Distribution.{total_of}
use gridpool_sv2_pool.GridPool.Client.{
  Libs, GridPoolOutput, ChannelPayout, parse_address, GridPoolClient, checked_sum, suffix_outputs,
  slot_zero_address, coinbase_outputs, fee_active, is_fee_job,
}

module _ (lib : Libs) where
  open lib use {hex_decode}

  abbrev pub values : List GridPoolOutput → List ℕ
  values = map (λ output. output.value)

  checked_sum_lem :
      (s t : ℕ) (outputs : List GridPoolOutput)
      → checked_sum lib s outputs ≡ some t
      → t ≡ s + sum (values outputs)
  unfolding checked_sum
  checked_sum_lem s t [] h = ground arith
  checked_sum_lem s t (x ∷ xs) h = ground (arith, checked_sum_lem (s + x.value) t xs)

  suffix_outputs-values :
      (work : List GridPoolOutput) (outputs : List TxOut)
      → suffix_outputs lib work ≡ ok outputs
      → map (λ output. output.value) outputs ≡ values work
  unfolding suffix_outputs
  suffix_outputs-values [] outputs h =
      let same : [] ≡ outputs = ground arith in ap (map (λ output. output.value)) (sym same)
  suffix_outputs-values (x ∷ xs) outputs h = elim (Result-cases (hex_decode x.script_pub_key_hex)) [
    | inr (e, bad) ↦ ground arith
    | inl (script, good) ↦ elim (Result-cases (suffix_outputs lib xs)) [
      | inr (e, bad) ↦ ground arith
      | inl (more, rest) ↦
          let same : record { value = x.value; script_pubkey = script } ∷ more ≡ outputs =
            ground arith in
          ap (map (λ output. output.value)) (sym same)
          ∙ ap (λ l. x.value ∷ l) (suffix_outputs-values xs more rest)
    ]
  ]

  -- The operator's address in a fee window, else the channel's.
  abbrev pub PaidFirst : GridPoolClient lib → ChannelPayout → (now : ℕ) → Text → Type 0
  PaidFirst c payout now address =
      (fee_active lib c payout.payout_address now ≡ true
        → c.config.operator_fee_address ≡ some address)
      × (fee_active lib c payout.payout_address now ≡ false → address ≡ payout.payout_address)

  slot_zero_address-PaidFirst :
      (c : GridPoolClient lib) (payout : ChannelPayout) (now : ℕ)
      → PaidFirst c payout now (slot_zero_address lib c payout now)
  unfolding slot_zero_address fee_active
  slot_zero_address-PaidFirst c payout now = elim (Option-cases c.config.operator_fee_address) [
    | inl unnamed ↦
        (λ active. absurd (ground arith), λ inactive. rw (slot_zero_address, inactive) refl)
    | inr (operator, named) ↦ (
      λ active. rw (slot_zero_address, active, named) refl,
      λ inactive. rw (slot_zero_address, inactive) refl,
    )
  ]

  -- The outputs pay the operator or the channel first, then the values that the work names, and
  -- they add up to the whole value of the coinbase.
  abbrev pub Pays : GridPoolClient lib → ChannelPayout → (total_value now : ℕ) → List TxOut → Type 0
  Pays c payout total_value now outputs =
      (address : Text) × (script : Script) × (first : ℕ) × (suffix : List TxOut) × (outputs
        ≡ record { value = first; script_pubkey = script } ∷ suffix)
      × PaidFirst c payout now address
      × (parse_address lib address c.work.bitcoin_network ≡ ok script)
      × (map (λ output. output.value) suffix ≡ values c.work.coinbase_outputs)
      × (total_of outputs ≡ total_value)

  -- Whatever outputs the client builds pay the operator's address in a fee window and else the
  -- channel's address first, then the values of the selected work in their order, and they add up
  -- to the value of the coinbase.
  pub coinbase_outputs-Pays :
      (c : GridPoolClient lib) (payout : ChannelPayout) (total_value now : ℕ) (outputs : List TxOut)
      → coinbase_outputs lib c payout total_value now ≡ ok outputs
      → Pays c payout total_value now outputs
  unfolding coinbase_outputs
  coinbase_outputs-Pays c payout total now outputs h =
      elim (Option-cases (checked_sum lib 0 c.work.coinbase_outputs)) [
        | inl overflow ↦ ground arith
        | inr (suffix_value, summed) ↦ elim (Bool-cases (ltb total suffix_value)) [
          | inl exceeds ↦ ground arith
          | inr enough ↦
              elim (Result-cases
                (parse_address lib (slot_zero_address lib c payout now) c.work.bitcoin_network)) [
                  | inr (e, bad) ↦ ground arith
                  | inl (script, good) ↦
                      elim (Result-cases (suffix_outputs lib c.work.coinbase_outputs)) [
                        | inr (e, bad) ↦ ground arith
                        | inl (suffix, built) ↦
                            let same : outputs
                                ≡ record { value = total - suffix_value; script_pubkey = script }
                                  ∷ suffix =
                              ground arith in
                            let tail = suffix_outputs-values c.work.coinbase_outputs suffix built in
                            (
                              slot_zero_address lib c payout now,
                              script,
                              total - suffix_value,
                              suffix,
                              same,
                              slot_zero_address-PaidFirst c payout now,
                              good,
                              tail,
                              ap total_of same
                                  ∙ ground (
                                    arith,
                                    ap sum tail,
                                    checked_sum_lem 0 suffix_value c.work.coinbase_outputs summed,
                                  ),
                            )
                      ]
                ]
        ]
      ]

  -- In a fee window, the coinbase that the client builds for a channel counts as a fee job, if the
  -- operator's address is not the channel's.
  pub is_fee_job-coinbase_outputs :
      (c : GridPoolClient lib) (payout : ChannelPayout) (total_value now : ℕ) (outputs : List TxOut)
      (operator : Text)
      → coinbase_outputs lib c payout total_value now ≡ ok outputs
      → c.config.operator_fee_address ≡ some operator
      → operator ≢ payout.payout_address
      → fee_active lib c payout.payout_address now ≡ true
      → is_fee_job lib c outputs payout ≡ true
  unfolding is_fee_job slot_zero_address
  is_fee_job-coinbase_outputs c payout total now outputs operator h named other active =
      let (address, script, first, suffix, same, paid_first, parsed, tail, paid) =
        coinbase_outputs-Pays c payout total now outputs h in
      let here : address ≡ operator = some-injective (sym (paid_first.0 active) ∙ named) in
      let parsed' : parse_address lib operator c.work.bitcoin_network ≡ ok script =
        subst (λ a. parse_address lib a c.work.bitcoin_network ≡ ok script) here parsed in
      elim (Bool-cases (list_eq operator payout.payout_address)) [
        | inl equal ↦ absurd (other (list_eq_sound operator payout.payout_address equal))
        | inr different ↦ ground (arith, list_eq_refl script)
      ]
