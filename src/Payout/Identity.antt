-- ===== src/Payout/Identity.antt =====
-- `PayoutMode::try_from`: the payout mode that a miner's `user_identity` encodes.
use gridpool_sv2_pool.Prelude.{
  ℕ, Option, none, some, List, [], ◌∷◌, ◌++◌, ◌&&◌, Text, codes, Result, ok, err, ◌>>=◌, map_err,
  list_eq, leb, ltb, split, split_once, parse_u8, if◌then◌else◌,
}
use gridpool_sv2_pool.Payout.Script.{CoinbaseRewardScript, Miniscript, from_descriptor, Error}
use gridpool_sv2_pool.Payout.Mode.{PayoutMode, solo, legacy_solo, donate, full_donation}

-- `MissingMinerPayout` is made elsewhere, by the users of a mode.
pub data PayoutModeError : Type 0 where
  no_payout_mode : Text → PayoutModeError
  invalid_user_identity : Text → PayoutModeError
  invalid_payout_address : (address : Text) (error : Error) → PayoutModeError
  invalid_donation_percentage : Text → PayoutModeError

unfoldable pub address_part_from_user_identity : Text → Text
address_part_from_user_identity user_identity = elim (split_once b'.' user_identity) [
  | none ↦ user_identity
  | some (address, _) ↦ address
]

module _ (lib : Miniscript) where
  -- `format!("addr({address})")`
  unfoldable pub script_from_address : Text → Result PayoutModeError CoinbaseRewardScript
  script_from_address address =
      map_err (invalid_payout_address address)
        (from_descriptor lib (codes "addr(" ++ address ++ codes ")"))

  abbrev solo_for : Text → Result PayoutModeError PayoutMode
  solo_for payout_address = do
    script ← script_from_address payout_address
    ok (solo payout_address script)

  abbrev in_range : Text → Option ℕ → Result PayoutModeError ℕ
  in_range text none = err (invalid_donation_percentage text)
  in_range text (some percentage) =
      if leb 1 percentage && ltb percentage 100
      then ok percentage
      else err (invalid_donation_percentage text)

  abbrev donate_for : Text → Text → Result PayoutModeError PayoutMode
  donate_for text payout_address = do
    percentage ← in_range text (parse_u8 text)
    script ← script_from_address payout_address
    ok (donate percentage payout_address script)

  -- The match on the first four parts behind `sri`; the identity is kept for the errors.
  unfoldable pub sri_parts : Text → List Text → Result PayoutModeError PayoutMode
  sri_parts user_identity [] = err (no_payout_mode user_identity)
  sri_parts user_identity (word ∷ []) =
      if list_eq word (codes "donate")
      then ok full_donation
      else err (invalid_user_identity user_identity)
  sri_parts user_identity (word ∷ third ∷ []) =
      if list_eq word (codes "solo")
      then solo_for third
      else if list_eq word (codes "donate")
      then ok full_donation
      else err (invalid_user_identity user_identity)
  sri_parts user_identity (word ∷ third ∷ fourth ∷ _) =
      if list_eq word (codes "solo")
      then solo_for third
      else if list_eq word (codes "donate")
      then donate_for third fourth
      else err (invalid_user_identity user_identity)

  unfoldable pub parse_parts : Text → List Text → Result PayoutModeError PayoutMode
  unfolding sri_parts
  parse_parts user_identity [] = err (no_payout_mode user_identity)
  parse_parts user_identity (first ∷ parts) =
      if list_eq first (codes "sri")
      then sri_parts user_identity parts
      else err (no_payout_mode user_identity)

  abbrev or_legacy :
      Text → Text → Result PayoutModeError CoinbaseRewardScript → Result PayoutModeError PayoutMode
  or_legacy user_identity addr (ok script) = ok (legacy_solo addr script)
  or_legacy user_identity addr (err _) = parse_parts user_identity (split b'/' user_identity)

  unfoldable pub try_from : Text → Result PayoutModeError PayoutMode
  try_from [] = err (no_payout_mode [])
  try_from (c ∷ rest) =
      let user_identity : Text = c ∷ rest in
      let addr = address_part_from_user_identity user_identity in
      or_legacy user_identity addr (script_from_address addr)
