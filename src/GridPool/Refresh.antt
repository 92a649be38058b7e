-- ===== src/GridPool/Refresh.antt =====
-- pool-apps/pool/src/lib/gridpool.rs: `refresh_for_chain_tip`. The node's answer to the request of
-- each attempt is a function of the attempt's number.
pub mod Advance
use gridpool_sv2_pool.Prelude.{
  ℕ, zero, suc, Bool, true, false, not, ◌&&◌, ◌||◌, Option, none, some, Text, Result, ok, err,
  list_eq, if◌then◌else◌,
}
use gridpool_sv2_pool.GridPool.Client.{Libs, WorkSelection, GridPoolClient}

abbrev pub chain_tip_refresh_attempts : ℕ
chain_tip_refresh_attempts = 600

pub data RefreshError : Type 0 where
  no_work_selection : (last_error : Option Text) → RefreshError
  not_advanced : RefreshError

abbrev pub same_tip : Option Text → Option Text → Bool
same_tip none none = true
same_tip none (some b) = false
same_tip (some a) none = false
same_tip (some a) (some b) = list_eq a b

abbrev is_none : Option Text → Bool
is_none none = true
is_none (some _) = false

-- `latest` and `last_error`
pub record Polled (F64 : Type 0) : Type 0 where
  pub latest : Option (WorkSelection F64)
  pub last_error : Option Text

module _ {F64 : Type 0} where
  abbrev pub tip_changed : (previous_tip : Option Text) → WorkSelection F64 → Bool
  tip_changed previous_tip work =
      is_none previous_tip || not (same_tip work.current_tip_block_hash previous_tip)

  abbrev pub same_as_previous : (previous_tip : Option Text) → WorkSelection F64 → Bool
  same_as_previous previous_tip work =
      not (is_none previous_tip) && same_tip work.current_tip_block_hash previous_tip

  -- The attempts from a number on.
  unfoldable pub poll :
      (previous_tip : Option Text)
      → (fetch_work : ℕ → Result Text (WorkSelection F64)) → (left attempt : ℕ) → Polled F64
      → Polled F64
  poll previous_tip fetch_work zero attempt p = p
  poll previous_tip fetch_work (suc left) attempt p = elim (fetch_work attempt) [
    | ok work ↦
        let p' = record p { latest = some work } in
        let rest = poll previous_tip fetch_work left (suc attempt) p' in
        if tip_changed previous_tip work then p' else rest
    | err e ↦ poll previous_tip fetch_work left (suc attempt) (record p { last_error = some e })
  ]

module _ (lib : Libs) where
  open lib use {F64}

  unfoldable pub refresh_for_chain_tip :
      GridPoolClient lib
      → (fetch_work : ℕ → Result Text (WorkSelection F64))
      → Result RefreshError (Unit {0}) × GridPoolClient lib
  unfolding poll
  refresh_for_chain_tip c fetch_work =
      let previous_tip = c.last_template_tip in
      let polled =
        poll previous_tip fetch_work chain_tip_refresh_attempts 0
          (record { latest = none; last_error = none }) in
      elim polled.latest [
        | none ↦ (err (no_work_selection polled.last_error), c)
        | some work ↦
            if same_as_previous previous_tip work
            then (err not_advanced, c)
            else (ok tt, record c { last_template_tip = work.current_tip_block_hash; work = work })
      ]
