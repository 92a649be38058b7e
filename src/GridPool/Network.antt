-- ===== src/GridPool/Network.antt =====
-- pool-apps/pool/src/lib/gridpool.rs: the names of Bitcoin's networks.
use gridpool_sv2_pool.Prelude.{
  ◌+◌, ◌&&◌, ◌||◌, map, leb, Text, codes, Result, ok, err, list_eq, if◌then◌else◌,
}

-- `Network` of the crate `bitcoin`
pub data Network : Type 0 where
  bitcoin testnet testnet4 signet regtest : Network

unfoldable pub to_ascii_lowercase : Text → Text
to_ascii_lowercase = map (λ c. if leb b'A' c && leb c b'Z' then c + 32 else c)

unfoldable pub parse_network : Text → Result Text Network
unfolding to_ascii_lowercase
parse_network value =
    let lower = to_ascii_lowercase value in
    if list_eq lower (codes "mainnet") || list_eq lower (codes "bitcoin")
    then ok bitcoin
    else (if list_eq lower (codes "testnet") || list_eq lower (codes "testnet3")
        then ok testnet
        else (if list_eq lower (codes "testnet4")
            then ok testnet4
            else (if list_eq lower (codes "signet")
                then ok signet
                else (if list_eq lower (codes "regtest") then ok regtest else err value))))
