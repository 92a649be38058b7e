-- ===== src/GridPool/Address.antt =====
-- pool-apps/pool/src/lib/gridpool.rs: the payout of a channel, and the checks before a client
-- starts.
pub mod Payable
use gridpool_sv2_pool.Prelude.{
  ℕ, ◌+◌, ◌≡◌, Bool, true, false, not, ◌&&◌, ◌||◌, Option, none, some, List, [], ◌∷◌, ◌++◌, ltb,
  leb, ◌==◌, Text, codes, length, split, starts_with, drop, Result, ok, err, map_err, ◌>>=◌,
  if◌then◌else◌,
}
use gridpool_sv2_pool.Payout.Script.{Script}
use gridpool_sv2_pool.GridPool.Network.{Network, to_ascii_lowercase, parse_network}
use gridpool_sv2_pool.GridPool.Client.{
  Libs, WorkSelection, ShareAdvice, ChannelPayout, GridPoolConfig, GridPoolClient, parse_address,
}

-- `char::is_whitespace`
abbrev is_whitespace : ℕ → Bool
is_whitespace c =
    (leb 9 c && leb c 13)
    || (c == 32)
    || (c == 133)
    || (c == 160)
    || (c == 5_760)
    || (leb 8_192 c && leb c 8_202)
    || (c == 8_232)
    || (c == 8_233)
    || (c == 8_239)
    || (c == 8_287)
    || (c == 12_288)

abbrev trim_start : Text → Text
trim_start [] = []
trim_start (c ∷ s) = let rest = trim_start s in if is_whitespace c then rest else c ∷ s

abbrev trim_end : Text → Text
trim_end [] = []
trim_end (c ∷ s) = elim (trim_end s) [
  | [] ↦ if is_whitespace c then [] else c ∷ []
  | d ∷ rest ↦ c ∷ d ∷ rest
]

unfoldable pub trim : Text → Text
trim s = trim_end (trim_start s)

-- `split(sep).next().unwrap_or_default()`
unfoldable pub first_piece : (sep : ℕ) → Text → Text
unfolding split
first_piece sep s = elim (split sep s) [ [] ↦ [] | piece ∷ pieces ↦ piece ]

unfoldable pub looks_like_address : Text → Bool
unfolding to_ascii_lowercase
looks_like_address value =
    let lower = to_ascii_lowercase value in
    starts_with lower (codes "bc1")
    || starts_with lower (codes "tb1")
    || starts_with lower (codes "bcrt1")
    || elim value [
      | [] ↦ false
      | c ∷ _ ↦ (c == b'1') || (c == b'3') || (c == b'm') || (c == b'n') || (c == b'2')
    ]

-- The address that an identity names.
unfoldable pub explicit_address : (trimmed : Text) → Text
unfolding first_piece split
explicit_address trimmed =
    let prefix = codes "sri/solo/" in
    if starts_with trimmed prefix
    then first_piece b'/' (drop (length prefix) trimmed)
    else first_piece b'.' trimmed

pub data ConnectError : Type 0 where
  percent_out_of_range fee_address_missing intervals_not_positive token_too_short : ConnectError
  read_token fetch_work fetch_advice unsupported_network invalid_address : Text → ConnectError

abbrev or_sv2 : Text → Text
or_sv2 [] = codes "sv2"
or_sv2 (c ∷ s) = c ∷ s

abbrev pub check_token : Text → Result ConnectError Text
check_token token = if ltb (length token) 32 then err token_too_short else ok token

module _ (lib : Libs) where
  open lib use {F64, is_positive, in_percent}

  unfoldable pub resolve_channel :
      GridPoolClient lib → (identity : Text) → Result Text ChannelPayout
  unfolding trim explicit_address first_piece split parse_address parse_network looks_like_address
      to_ascii_lowercase
  resolve_channel c identity =
      let trimmed = trim identity in
      let explicit = explicit_address trimmed in
      elim (parse_address lib explicit c.work.bitcoin_network) [
        | ok script ↦ ok (record { payout_address = explicit; username = trimmed })
        | err e ↦
            if looks_like_address explicit
            then err e
            else ok (record {
              payout_address = c.config.fallback_payout_address;
              username = or_sv2 trimmed;
            })
      ]

  abbrev is_some : Option Text → Bool
  is_some none = false
  is_some (some _) = true

  unfoldable pub validate_config : GridPoolConfig lib → Result ConnectError (Unit {0})
  validate_config config =
      if not (in_percent config.operator_fee_percent)
      then err percent_out_of_range
      else (if is_positive config.operator_fee_percent && not (is_some config.operator_fee_address)
          then err fee_address_missing
          else (if (config.refresh_seconds == 0)
                || (config.telemetry_flush_seconds == 0)
                || (config.fee_cycle_seconds == 0)
              then err intervals_not_positive
              else ok tt))

  abbrev pub parse_operator : Option Text → (network : Text) → Result ConnectError (Unit {0})
  parse_operator none network = ok tt
  parse_operator (some address) network = do
    script ← map_err invalid_address (parse_address lib address network)
    ok tt

  -- The token file's text and the node's answers are arguments. Creating the spool directory and
  -- the HTTP client can fail as well; it touches no state of the client.
  unfoldable pub connect :
      GridPoolConfig lib
      → (token_file : Result Text Text) → (work : Result Text (WorkSelection F64))
      → (advice : Result Text (ShareAdvice F64)) → Result ConnectError (GridPoolClient lib)
  unfolding validate_config trim parse_address parse_network to_ascii_lowercase
  connect config token_file work_response advice_response = do
    checked ← validate_config config
    contents ← map_err read_token token_file
    token ← check_token (trim contents)
    work ← map_err fetch_work work_response
    advice ← map_err fetch_advice advice_response
    network ← map_err unsupported_network (parse_network work.bitcoin_network)
    fallback ←
        map_err invalid_address
          (parse_address lib config.fallback_payout_address work.bitcoin_network)
    operator ← parse_operator config.operator_fee_address work.bitcoin_network
    ok (record {
      config = config;
      token = token;
      work = work;
      last_template_tip = work.current_tip_block_hash;
      telemetry = [];
      advice = advice;
      last_pulse = [];
    })
