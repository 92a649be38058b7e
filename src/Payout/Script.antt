-- ===== src/Payout/Script.antt =====
-- `CoinbaseRewardScript` of stratum-apps/src/config_helpers/coinbase_output/mod.rs, over the
-- `miniscript` crate.
use gridpool_sv2_pool.Prelude.{
  ℕ, Bool, true, List, Text, codes, Result, ok, ◌>>=◌, map_err, list_eq, starts_with, if◌then◌else◌,
}

abbrev pub Script : Type 0
Script = List ℕ

pub record CoinbaseRewardScript : Type 0 where
  pub script_pubkey : Script
  pub ok_for_mainnet : Bool

-- config_helpers/coinbase_output/errors.rs: the errors of the crates carry their text.
pub data Error : Type 0 where
  address : Text → Error
  hex : Text → Error
  invalid_output_script : Error
  unknown_output_script_type : Error
  miniscript : Text → Error

-- The crates `miniscript` and `bitcoin`, as far as `from_descriptor` calls them. An unchecked
-- address is seen through its script and its validity on mainnet.
pub record Miniscript : Type 1 where
  pub Tree : Type 0
  -- `Tree::from_str`, and `root().name()`
  pub tree_from_str : Text → Result Text Tree
  pub name : Tree → Text
  -- `s.parse::<Descriptor<_>>()` and `Descriptor::from_tree`, followed by `script_pubkey()`
  pub parse_descriptor : Text → Result Text Script
  pub descriptor_from_tree : Tree → Result Text Script
  -- `verify_terminal_parent("addr", ..)`: the script and `is_valid_for_network(Bitcoin)`
  pub terminal_address : Tree → Result Text (Script × Bool)
  -- `verify_terminal_parent("raw", ..)`, and `ScriptBuf::from_hex`
  pub terminal_hex : Tree → Result Text Text
  pub script_from_hex : Text → Result Text Script

module _ (lib : Miniscript) where
  open lib use {
    Tree, tree_from_str, name, parse_descriptor, descriptor_from_tree, terminal_address,
    terminal_hex, script_from_hex,
  }

  abbrev mainnet_script : Script → CoinbaseRewardScript
  mainnet_script s = record { script_pubkey = s; ok_for_mainnet = true }

  from_root : Tree → Result Error CoinbaseRewardScript
  from_root root =
      if list_eq (name root) (codes "addr")
      then (do
        (script, mainnet) ← map_err miniscript (terminal_address root)
        ok (record { script_pubkey = script; ok_for_mainnet = mainnet }))
      else if list_eq (name root) (codes "raw")
      then (do
        script_hex ← map_err miniscript (terminal_hex root)
        script ← map_err hex (script_from_hex script_hex)
        ok (mainnet_script script))
      else (do script ← map_err miniscript (descriptor_from_tree root); ok (mainnet_script script))

  unfoldable pub from_descriptor : Text → Result Error CoinbaseRewardScript
  unfolding from_root
  from_descriptor s =
      if starts_with s (codes "tr")
      then (do script ← map_err miniscript (parse_descriptor s); ok (mainnet_script script))
      else (do tree ← map_err miniscript (tree_from_str s); from_root tree)
