-- ===== src/Payout/Tests.antt =====
-- Runs of the payout module on the inputs of its unit tests, and the theorems at concrete inputs.
-- The crates are stood in for by one address, whose script is two bytes.
use gridpool_sv2_pool.Prelude.{
  ◌≡◌, refl, Bool, true, false, List, [], ◌∷◌, Text, codes, Result, ok, err, list_eq, if◌then◌else◌,
  ◌↔◌, arith, split_once, parse_u8, split,
}
use gridpool_sv2_pool.Payout.Script.{Script, CoinbaseRewardScript, Miniscript, from_descriptor}
use gridpool_sv2_pool.Payout.Mode.{
  PayoutMode, donate, TxOut, BitcoinLib, coinbase_outputs, validate_coinbase_outputs,
  payout_mismatch, expected_miner_sats, expected_miner_percentage, expected_legacy_solo_miner_sats,
  total_spendable_sats, actual_miner_sats,
}
use gridpool_sv2_pool.Payout.Identity.{
  try_from, parse_parts, script_from_address, address_part_from_user_identity,
}
use gridpool_sv2_pool.Payout.Distribution.{InRange, Accepts, validate_coinbase_outputs_iff}
use gridpool_sv2_pool.Payout.Agreement.{validate-coinbase_outputs}
use gridpool_sv2_pool.Payout.Parsing.{identity_of, try_from-InRange, try_from-identity_of}

abbrev miner : CoinbaseRewardScript
miner = record { script_pubkey = 0 ∷ 20 ∷ []; ok_for_mainnet = true }

abbrev pool : CoinbaseRewardScript
pool = record { script_pubkey = 0 ∷ 21 ∷ []; ok_for_mainnet = true }

abbrev one_address : Text → Result Text (Script × Bool)
one_address s = if list_eq s (codes "addr(bc1q)") then ok (miner.script_pubkey, true) else err []

-- A tree is the whole descriptor, and only `addr(bc1q)` is one.
abbrev stub : Miniscript
stub = record {
  Tree = Text;
  tree_from_str = λ s. ok s;
  name = λ s. codes "addr";
  parse_descriptor = λ s. err [];
  descriptor_from_tree = λ s. err [];
  terminal_address = one_address;
  terminal_hex = λ s. err [];
  script_from_hex = λ s. err [];
}

abbrev is_op_return : Script → Bool
is_op_return [] = false
is_op_return (opcode ∷ _) = list_eq (opcode ∷ []) (0x6a ∷ [])

abbrev node : BitcoinLib
node = record { is_op_return = is_op_return; decode_outputs = λ bytes. ok [] }

abbrev tenth : PayoutMode
tenth = donate 10 (codes "bc1q") miner

tenth_identity : identity_of tenth (codes "w1") ≡ codes "sri/donate/10/bc1q/w1"
tenth_identity = refl

builds_partial_donation :
    coinbase_outputs tenth 1000 pool
    ≡ record { value = 100; script_pubkey = pool.script_pubkey }
      ∷ record { value = 900; script_pubkey = miner.script_pubkey }
      ∷ []
unfolding coinbase_outputs
builds_partial_donation = refl

abbrev wrong_split : List TxOut
wrong_split =
    record { value = 200; script_pubkey = pool.script_pubkey }
    ∷ record { value = 800; script_pubkey = miner.script_pubkey }
    ∷ []

rejects_wrong_partial_donation :
    validate_coinbase_outputs node tenth wrong_split
    ≡ err (payout_mismatch (codes "bc1q") 900 90 1000 800)
unfolding validate_coinbase_outputs expected_miner_sats expected_miner_percentage
    expected_legacy_solo_miner_sats total_spendable_sats actual_miner_sats
rejects_wrong_partial_donation = refl

validate_coinbase_outputs_iff_example :
    (validate_coinbase_outputs node tenth wrong_split ≡ ok tt) ↔ Accepts node tenth wrong_split
validate_coinbase_outputs_iff_example =
    validate_coinbase_outputs_iff node wrong_split (omega arith) tenth (omega arith)

validate-coinbase_outputs_example :
    validate_coinbase_outputs node tenth (coinbase_outputs tenth 1000 pool) ≡ ok tt
validate-coinbase_outputs_example =
    validate-coinbase_outputs node tenth 1000 pool (omega arith) (refl, refl, refl) (omega arith)
      (omega arith)

parses_partial_donation : try_from stub (codes "sri/donate/10/bc1q/w1") ≡ ok tenth
unfolding try_from parse_parts script_from_address from_descriptor address_part_from_user_identity
    split_once split parse_u8
parses_partial_donation = refl

try_from-InRange_example : InRange tenth
try_from-InRange_example =
    try_from-InRange stub (codes "sri/donate/10/bc1q/w1") tenth parses_partial_donation

try_from-identity_of_example : try_from stub (codes "sri/donate/10/bc1q/w1") ≡ ok tenth
unfolding script_from_address from_descriptor address_part_from_user_identity split_once
try_from-identity_of_example =
    try_from-identity_of stub tenth (codes "w1") (omega arith)
      (refl, (refl, (refl, (refl, (refl, tt)))), (_, refl))
