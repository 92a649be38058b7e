-- ===== src/GridPool/Address/Payable.antt =====
-- A payout that the client resolves can be paid.
use gridpool_sv2_pool.Prelude.{
  ℕ, ◌+◌, ◌-◌, ◌^◌, ◌≤◌, ◌<◌, ◌≡◌, refl, sym, subst, false, Option, none, some, List, [], ◌∷◌, sum,
  arith, inl, inr, ltb, Text, Result, ok, map_err, bind-ok, map_err-ok, ok-inj, Result-cases,
  Option-cases, Bool-cases,
}
use gridpool_sv2_pool.Payout.Script.{Script}
use gridpool_sv2_pool.Payout.Mode.{TxOut}
use gridpool_sv2_pool.GridPool.Network.{parse_network}
use gridpool_sv2_pool.GridPool.Client.{
  Libs, GridPoolOutput, WorkSelection, ShareAdvice, ChannelPayout, GridPoolConfig, GridPoolClient,
  parse_address, checked_sum, suffix_outputs, slot_zero_address, fee_active, coinbase_outputs,
}
use gridpool_sv2_pool.GridPool.Outputs.{values}
use gridpool_sv2_pool.GridPool.Address.{
  trim, explicit_address, looks_like_address, resolve_channel, validate_config, parse_operator,
  connect, check_token, read_token, fetch_work, fetch_advice, unsupported_network, invalid_address,
}

module _ (lib : Libs) where
  open lib use {F64}

  abbrev Parses : (network address : Text) → Type 0
  Parses network address = (script : Script) × (parse_address lib address network ≡ ok script)

  -- The configured addresses are addresses of a network.
  record Connected (network : Text) (config : GridPoolConfig lib) : Type 0 where
    fallback : Parses network config.fallback_payout_address
    operator :
        (address : Text) → config.operator_fee_address ≡ some address → Parses network address

  parse_operator-Parses :
      (operator : Option Text) (network : Text) {u : Unit {0}}
      → parse_operator lib operator network ≡ ok u
      → (address : Text) → operator ≡ some address
      → Parses network address
  parse_operator-Parses none network h address e = absurd (ground arith)
  parse_operator-Parses (some operator) network h address e =
      elim (Result-cases (parse_address lib operator network)) [
        | inl (script, parsed) ↦
            let same : operator ≡ address = ground arith in
            subst (Parses network) same (script, parsed)
        | inr (_, failed) ↦ absurd (ground arith)
      ]

  connect-Connected :
      (config : GridPoolConfig lib) (token_file : Result Text Text)
      (work : Result Text (WorkSelection F64)) (advice : Result Text (ShareAdvice F64))
      (c : GridPoolClient lib)
      → connect lib config token_file work advice ≡ ok c
      → Connected c.work.bitcoin_network c.config
  unfolding connect
  connect-Connected config token_file work advice c h =
      let (_, valid, h1) = bind-ok (validate_config lib config) _ h in
      let (contents, read, h2) = bind-ok (map_err read_token token_file) _ h1 in
      let (token, long, h3) = bind-ok (check_token (trim contents)) _ h2 in
      let (w, fetched, h4) = bind-ok (map_err fetch_work work) _ h3 in
      let (a, advised, h5) = bind-ok (map_err fetch_advice advice) _ h4 in
      let (network, known, h6) =
        bind-ok (map_err unsupported_network (parse_network w.bitcoin_network)) _ h5 in
      let parsed = parse_address lib config.fallback_payout_address w.bitcoin_network in
      let (script, fallback, h7) = bind-ok (map_err invalid_address parsed) _ h6 in
      let (_, operator, h8) =
        bind-ok (parse_operator lib config.operator_fee_address w.bitcoin_network) _ h7 in
      subst (λ d. Connected d.work.bitcoin_network d.config) (ok-inj _ c _ refl h8)
        (record {
          fallback = (script, map_err-ok invalid_address parsed fallback);
          operator = parse_operator-Parses config.operator_fee_address w.bitcoin_network operator;
        })

  resolve_channel-Parses :
      (c : GridPoolClient lib) (identity : Text) (payout : ChannelPayout)
      → Parses c.work.bitcoin_network c.config.fallback_payout_address
      → resolve_channel lib c identity ≡ ok payout
      → Parses c.work.bitcoin_network payout.payout_address
  unfolding resolve_channel
  resolve_channel-Parses c identity payout fallback h =
      let explicit = explicit_address (trim identity) in
      elim (Result-cases (parse_address lib explicit c.work.bitcoin_network)) [
        | inl (script, parsed) ↦
            let same : explicit ≡ payout.payout_address = ground arith in
            subst (Parses c.work.bitcoin_network) same (script, parsed)
        | inr (e, failed) ↦ elim (Bool-cases (looks_like_address explicit)) [
          | inl looks ↦ absurd (ground arith)
          | inr other ↦
              let same : c.config.fallback_payout_address ≡ payout.payout_address = ground arith in
              subst (Parses c.work.bitcoin_network) same fallback
        ]
      ]

  checked_sum-enough :
      (s : ℕ) (outputs : List GridPoolOutput)
      → s + sum (values lib outputs) < 2 ^ 64
      → checked_sum lib s outputs ≡ some (s + sum (values lib outputs))
  unfolding checked_sum
  checked_sum-enough s [] h = ground arith
  checked_sum-enough s (x ∷ xs) h = ground (arith, checked_sum-enough (s + x.value) xs)

  slot_zero_address-Parses :
      (c : GridPoolClient lib) (payout : ChannelPayout) (now : ℕ)
      → Connected c.work.bitcoin_network c.config
      → Parses c.work.bitcoin_network payout.payout_address
      → Parses c.work.bitcoin_network (slot_zero_address lib c payout now)
  unfolding slot_zero_address
  slot_zero_address-Parses c payout now connected parses =
      elim (Bool-cases (fee_active lib c payout.payout_address now)) [
        | inr miner ↦ rw miner parses
        | inl fee ↦ elim (Option-cases c.config.operator_fee_address) [
          | inl missing ↦ rw (fee, missing) parses
          | inr (operator, there) ↦ rw (fee, there) (connected.operator operator there)
        ]
      ]

  -- The channel of every identity that a started client accepts can be paid: as long as the node
  -- names the same network, its outputs add up to at most the value of the coinbase and their
  -- scripts decode, the client builds the outputs of a coinbase for the payout, at any time.
  pub coinbase_outputs-resolve_channel :
      (config : GridPoolConfig lib) (token_file : Result Text Text)
      (first : Result Text (WorkSelection F64)) (advice : Result Text (ShareAdvice F64))
      (c : GridPoolClient lib) (work : WorkSelection F64) (identity : Text) (payout : ChannelPayout)
      (suffix : List TxOut) (total now : ℕ)
      → connect lib config token_file first advice ≡ ok c
      → work.bitcoin_network ≡ c.work.bitcoin_network
      → suffix_outputs lib work.coinbase_outputs ≡ ok suffix
      → sum (values lib work.coinbase_outputs) ≤ total
      → total < 2 ^ 64
      → resolve_channel lib (record c { work = work }) identity ≡ ok payout
      → (outputs : List TxOut) × (coinbase_outputs lib (record c { work = work }) payout total now
          ≡ ok outputs)
  unfolding coinbase_outputs
  coinbase_outputs-resolve_channel config token_file first advice c work identity payout suffix
        total now h network scripts enough small resolved =
      let d = record c { work = work } in
      let connected : Connected work.bitcoin_network c.config =
        subst (λ n. Connected n c.config) (sym network)
          (connect-Connected config token_file first advice c h) in
      let (script, parsed) =
        slot_zero_address-Parses d payout now connected
          (resolve_channel-Parses d identity payout connected.fallback resolved) in
      let added = checked_sum-enough 0 work.coinbase_outputs (omega arith) in
      let covered : ltb total (0 + sum (values lib work.coinbase_outputs)) ≡ false = ground arith in
      let first_output : TxOut = record {
        value = total - (0 + sum (values lib work.coinbase_outputs));
        script_pubkey = script;
      } in
      (first_output ∷ suffix, rw (coinbase_outputs, added, covered, parsed, scripts) refl)
