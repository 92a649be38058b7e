-- ===== src/Jds/Mempool/Contents.antt =====
-- The mirror stores each transaction under its own wtxid, and what it hands out is what was asked
-- for.
use gridpool_sv2_pool.Prelude.{
  contains, ℕ, ◌+◌, ◌≡◌, Bool, true, false, not, ◌==◌, Bool-cases, ◌&&◌, ◌||◌, if◌then◌else◌, refl,
  some, List, [], ◌∷◌, map, arith, length, keep, Option-cases, inl, inr,
}
use gridpool_sv2_pool.Map
use gridpool_sv2_pool.Map.{Map, get-empty, get-insert}
use gridpool_sv2_pool.Jds.Bitcoin.{Bitcoin, Block}
use gridpool_sv2_pool.Jds.Mempool.{
  MempoolMirror, insert_all, update, add_transactions, get_all, get_txdata, verify,
  without_coinbase, is_missing, differs, new,
}

module _ (b : Bitcoin) where
  open b use {Transaction, compute_wtxid}

  abbrev pub Keyed : Map Transaction → Type 0
  Keyed m = (wtxid : ℕ) (tx : Transaction) → Map.get wtxid m ≡ some tx → compute_wtxid tx ≡ wtxid

  pub insert_all-Keyed :
      (txs : List Transaction) (m : Map Transaction) → Keyed m → Keyed (insert_all b txs m)
  unfolding insert_all
  insert_all-Keyed [] m k = k
  insert_all-Keyed (tx ∷ txs) m k =
      insert_all-Keyed txs (Map.insert (compute_wtxid tx) tx m)
        (λ w x. rw get-insert (ground (arith, k w x)))

  Keyed-if : (t : Bool) (m : Map Transaction) → Keyed m → Keyed (if t then Map.empty else m)
  Keyed-if true m k = λ w x. rw get-empty (λ p. cc)
  Keyed-if false m k = k

  pub new-Keyed : Keyed (new b).txdata
  unfolding new
  new-Keyed = Keyed-if true Map.empty (λ w x. rw get-empty (λ p. cc))

  -- Every transaction of the mirror stands under its own wtxid, after a new template and after
  -- the transactions that a client provides, if it does so before.
  pub mirror-Keyed :
      (m : MempoolMirror b) (block : Block b) (provided : List Transaction)
      → Keyed m.txdata
      → Keyed (update b m block).txdata × Keyed (add_transactions b m provided).txdata
  unfolding update add_transactions
  mirror-Keyed m block provided k = (
    insert_all-Keyed (without_coinbase b block.txdata) _
        (Keyed-if (differs b m.current_prev_hash block.prev_blockhash) m.txdata k),
    insert_all-Keyed provided m.txdata k,
  )

  insert_all-missing :
      (txs : List Transaction) (m : Map Transaction) (w : ℕ)
      → is_missing b (Map.get w (insert_all b txs m))
        ≡ (if contains w (map compute_wtxid txs) then false else is_missing b (Map.get w m))
  unfolding insert_all
  insert_all-missing [] m w = refl
  insert_all-missing (tx ∷ txs) m w =
      rw (insert_all-missing txs (Map.insert (compute_wtxid tx) tx m) w, get-insert) (ground arith)

  missing-if :
      (t : Bool) (m : Map Transaction) (w : ℕ)
      → is_missing b (Map.get w (if t then Map.empty else m)) ≡ t || is_missing b (Map.get w m)
  missing-if true m w = rw get-empty refl
  missing-if false m w = refl

  -- After a new template a wtxid is missing exactly if no transaction of the template but its
  -- coinbase has it, and the tip changed or it was missing before.
  pub update-missing :
      (m : MempoolMirror b) (block : Block b) (w : ℕ)
      → is_missing b (Map.get w (update b m block).txdata) ≡ (
          if contains w (map compute_wtxid (without_coinbase b block.txdata))
          then false
          else (differs b m.current_prev_hash block.prev_blockhash
              || is_missing b (Map.get w m.txdata)))
  unfolding update
  update-missing m block w =
      rw (insert_all-missing (without_coinbase b block.txdata) _ w) (rw missing-if refl)

  -- After the lookups of a list, each wtxid is missing or stands for its own transaction.
  get_all-verify :
      (m : Map Transaction) (wtxids : List ℕ)
      → length (get_all b m wtxids) + length (keep (λ w. is_missing b (Map.get w m)) wtxids)
        ≡ length wtxids
  unfolding get_all
  get_all-verify m [] = refl
  get_all-verify m (w ∷ ws) = ground (arith, get_all-verify m ws)

  get_all-wtxids :
      (m : Map Transaction) (wtxids : List ℕ)
      → Keyed m
      → keep (λ w. is_missing b (Map.get w m)) wtxids ≡ []
      → map compute_wtxid (get_all b m wtxids) ≡ wtxids
  unfolding get_all
  get_all-wtxids m [] k h = refl
  get_all-wtxids m (w ∷ ws) k h = elim (Option-cases (Map.get w m)) [
    | inl e ↦ ground arith
    | inr (tx, e) ↦ ground (arith, get_all-wtxids m ws k, k w tx e)
  ]

  contains-missing :
      (m : Map Transaction) (wtxids : List ℕ) (w : ℕ)
      → contains w (keep (λ x. is_missing b (Map.get x m)) wtxids)
        ≡ contains w wtxids && is_missing b (Map.get w m)
  contains-missing m [] w = refl
  contains-missing m (x ∷ xs) w = elim (Bool-cases (x == w)) [
    | inl this ↦ let at : x ≡ w = ground arith in rw at (ground (arith, contains-missing m xs w))
    | inr other ↦ ground (arith, contains-missing m xs w)
  ]

  contains-get_all :
      (m : Map Transaction) (wtxids : List ℕ) (w : ℕ)
      → Keyed m
      → contains w (map compute_wtxid (get_all b m wtxids))
        ≡ contains w wtxids && not (is_missing b (Map.get w m))
  unfolding get_all
  contains-get_all m [] w k = refl
  contains-get_all m (x ∷ xs) w k = elim (Option-cases (Map.get x m)) [
    | inl e ↦ elim (Bool-cases (x == w)) [
      | inl this ↦
          let at : x ≡ w = ground arith in
          let e' = rw at at e in rw e (ground (arith, contains-get_all m xs w k))
      | inr other ↦ rw e (ground (arith, contains-get_all m xs w k))
    ]
    | inr (tx, e) ↦ elim (Bool-cases (x == w)) [
      | inl this ↦
          let at : x ≡ w = ground arith in
          let e' = rw at at e in rw e (ground (arith, contains-get_all m xs w k, k x tx e))
      | inr other ↦ rw e (ground (arith, contains-get_all m xs w k, k x tx e))
    ]
  ]

  -- The answers to a list of wtxids, when every transaction of the mirror stands under its own
  -- wtxid. A wtxid is reported missing exactly if it was asked for and the mirror lacks it, and a
  -- transaction of a wtxid is handed out exactly if it was asked for and not reported missing. As
  -- many are handed out and reported as were asked for, and if none is missing, the transactions
  -- handed out have exactly these wtxids, in the same order.
  pub get_txdata-wtxids :
      (m : MempoolMirror b) (wtxids : List ℕ)
      → Keyed m.txdata
      → (length (get_txdata b m wtxids) + length (verify b m wtxids) ≡ length wtxids)
        × (verify b m wtxids ≡ [] → map compute_wtxid (get_txdata b m wtxids) ≡ wtxids)
        × ((w : ℕ)
            → (contains w (verify b m wtxids)
                ≡ contains w wtxids && is_missing b (Map.get w m.txdata))
              × (contains w (map compute_wtxid (get_txdata b m wtxids))
                  ≡ contains w wtxids && not (contains w (verify b m wtxids))))
  unfolding get_txdata verify
  get_txdata-wtxids m wtxids k = (
    get_all-verify m.txdata wtxids,
    λ h. get_all-wtxids m.txdata wtxids k h,
    λ w. (
      contains-missing m.txdata wtxids w,
      ground (arith, contains-missing m.txdata wtxids w, contains-get_all m.txdata wtxids w k),
    ),
  )
