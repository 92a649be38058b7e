-- ===== src/Jds/Mempool/Tests.antt =====
-- Runs of the mempool mirror on a template, and the theorems at concrete inputs.
use gridpool_sv2_pool.Prelude.{
  ℕ, contains, not, ◌&&◌, ◌≡◌, refl, false, some, [], ◌∷◌, ◌++◌, ◌+◌, map, arith, length,
  to_le_bytes,
}
use gridpool_sv2_pool.Map
use gridpool_sv2_pool.Jds.Sample.{sample, template}
use gridpool_sv2_pool.Jds.Mempool.{
  MempoolMirror, decode_bip34_height_from_coinbase_script_sig, new, update, add_transactions,
  get_txdata, verify, is_missing, insert_all, bip34_height,
}
use gridpool_sv2_pool.Jds.Mempool.Contents.{
  Keyed, new-Keyed, mirror-Keyed, update-missing, get_txdata-wtxids,
}
use gridpool_sv2_pool.Jds.Mempool.Height.{decode-push}

abbrev filled : MempoolMirror sample
filled = update sample (new sample) template

filled_height : filled.current_bip34_height ≡ some 5
unfolding update new bip34_height decode_bip34_height_from_coinbase_script_sig
filled_height = refl

filled_missing : verify sample filled (1010 ∷ 1012 ∷ 1011 ∷ []) ≡ 1012 ∷ []
unfolding verify update new insert_all Map.get Map.insert Map.empty
filled_missing = refl

mirror-Keyed_example :
    Keyed sample (update sample (new sample) template).txdata
    × Keyed sample (add_transactions sample (new sample) ((12, []) ∷ [])).txdata
mirror-Keyed_example = mirror-Keyed sample (new sample) template ((12, []) ∷ []) (new-Keyed sample)

update-missing_example :
    is_missing sample (Map.get 1010 (update sample (new sample) template).txdata) ≡ false
update-missing_example = update-missing sample (new sample) template 1010

get_txdata-wtxids_example :
    (length (get_txdata sample filled (1011 ∷ 1010 ∷ []))
        + length (verify sample filled (1011 ∷ 1010 ∷ []))
      ≡ 2)
    × (verify sample filled (1011 ∷ 1010 ∷ []) ≡ []
        → map sample.compute_wtxid (get_txdata sample filled (1011 ∷ 1010 ∷ [])) ≡ 1011 ∷ 1010 ∷ [])
    × ((w : ℕ)
        → (contains w (verify sample filled (1011 ∷ 1010 ∷ []))
            ≡ contains w (1011 ∷ 1010 ∷ []) && is_missing sample (Map.get w filled.txdata))
          × (contains w (map sample.compute_wtxid (get_txdata sample filled (1011 ∷ 1010 ∷ [])))
              ≡ contains w (1011 ∷ 1010 ∷ [])
                && not (contains w (verify sample filled (1011 ∷ 1010 ∷ [])))))
get_txdata-wtxids_example =
    get_txdata-wtxids sample filled (1011 ∷ 1010 ∷ [])
      (mirror-Keyed sample (new sample) template [] (new-Keyed sample)).0

decode-push_example :
    decode_bip34_height_from_coinbase_script_sig (3 ∷ to_le_bytes 3 840_000 ++ 0xff ∷ [])
    ≡ some 840_000
decode-push_example = decode-push 3 840_000 (0xff ∷ []) (omega arith) (omega arith) (omega arith)
