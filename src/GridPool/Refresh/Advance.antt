-- ===== src/GridPool/Refresh/Advance.antt =====
-- When the work of a new chain tip is taken over.
use gridpool_sv2_pool.Prelude.{
  ℕ, zero, suc, ◌+◌, ◌≤◌, ◌<◌, ◌≡◌, refl, subst, ◌⊎◌, inl, inr, Bool, true, false, not, arith,
  Option, none, some, some-injective, Text, Result, ok, err, Result-cases, Bool-cases, Option-cases,
  ◌==◌,
}
use gridpool_sv2_pool.GridPool.Client.{Libs, WorkSelection, GridPoolClient}
use gridpool_sv2_pool.GridPool.Refresh.{
  RefreshError, no_work_selection, not_advanced, Polled, tip_changed, same_as_previous, poll,
  refresh_for_chain_tip, chain_tip_refresh_attempts,
}

module _ {F64 : Type 0} (previous_tip : Option Text)
    (fetch_work : ℕ → Result Text (WorkSelection F64)) where
  -- An attempt answers with work of another tip than the previous one, if there is a previous one.
  abbrev pub Answers : (attempt : ℕ) → WorkSelection F64 → Type 0
  Answers attempt work = (fetch_work attempt ≡ ok work) × (tip_changed previous_tip work ≡ true)

  abbrev Latest : Polled F64 → (WorkSelection F64 → Type 0) → Type 0
  Latest p P = (work : WorkSelection F64) × (p.latest ≡ some work) × P work

  abbrev New : WorkSelection F64 → Type 0
  New work = tip_changed previous_tip work ≡ true

  poll-Answers :
      (left attempt i : ℕ) (p : Polled F64) (work : WorkSelection F64)
      → attempt ≤ i
      → i < attempt + left
      → Answers i work
      → Latest (poll previous_tip fetch_work left attempt p) New
  unfolding poll
  poll-Answers zero attempt i p work low high h = absurd (omega arith)
  poll-Answers (suc left) attempt i p work low high (here, changed) =
      elim (Bool-cases (i == attempt)) [
        | inl first ↦
            let now_is : i ≡ attempt = ground arith in
            let now = subst (λ k. fetch_work k ≡ ok work) now_is here in
            rw (poll, now, changed) (work, refl, changed)
        | inr wait ↦ elim (Result-cases (fetch_work attempt)) [
          | inr (e, failed) ↦
              let later =
                poll-Answers left (suc attempt) i (record p { last_error = some e }) work in
              rw (poll, failed) (later (ground arith) (omega arith) (here, changed))
          | inl (w, answered) ↦ elim (Bool-cases (tip_changed previous_tip w)) [
            | inl new ↦ rw (poll, answered, new) (w, refl, new)
            | inr old ↦
                let later = poll-Answers left (suc attempt) i (record p { latest = some w }) work in
                rw (poll, answered, old) (later (ground arith) (omega arith) (here, changed))
          ]
        ]
      ]

  -- Where the latest work comes from.
  poll-Latest :
      (left attempt : ℕ) (p : Polled F64) (w : WorkSelection F64)
      → (poll previous_tip fetch_work left attempt p).latest ≡ some w
      → (p.latest ≡ some w) ⊎ ((i : ℕ) × (i < attempt + left) × (fetch_work i ≡ ok w))
  unfolding poll
  poll-Latest zero attempt p w h = inl h
  poll-Latest (suc left) attempt p w h = elim (Result-cases (fetch_work attempt)) [
    | inr (e, failed) ↦
        let h' = rw (poll, failed) at h in
        elim (poll-Latest left (suc attempt) (record p { last_error = some e }) w h') [
          | inl before ↦ inl before
          | inr (i, below, there) ↦ inr (i, omega arith, there)
        ]
    | inl (v, answered) ↦ elim (Bool-cases (tip_changed previous_tip v)) [
      | inl new ↦
          let h' = rw (poll, answered, new) at h in
          let same : v ≡ w = some-injective h' in
          inr (attempt, omega arith, subst (λ u. fetch_work attempt ≡ ok u) same answered)
      | inr old ↦
          let h' = rw (poll, answered, old) at h in
          elim (poll-Latest left (suc attempt) (record p { latest = some v }) w h') [
            | inl before ↦ inr (
              attempt,
              omega arith,
              subst (λ u. fetch_work attempt ≡ ok u) (some-injective before) answered,
            )
            | inr (i, below, there) ↦ inr (i, omega arith, there)
          ]
    ]
  ]

same_as_previous-tip_changed :
    {F64 : Type 0} (previous_tip : Option Text) (work : WorkSelection F64) (b : Bool)
    → tip_changed previous_tip work ≡ b
    → same_as_previous previous_tip work ≡ not b
same_as_previous-tip_changed none work b h = ground arith
same_as_previous-tip_changed (some tip) work b h = ground arith

module _ (lib : Libs) where
  open lib use {F64}

  module _ (c : GridPoolClient lib) (fetch_work : ℕ → Result Text (WorkSelection F64)) where
    -- The client took over the work that one of the attempts answered, and that work is of another
    -- tip than the client's last one, if there is one.
    abbrev pub TakesOver : Type 0
    TakesOver =
        let (result, d) = refresh_for_chain_tip lib c fetch_work in
        (i : ℕ) × (work : WorkSelection F64) × (i < chain_tip_refresh_attempts)
        × Answers c.last_template_tip fetch_work i work
        × (result ≡ ok tt)
        × (d ≡ record c { last_template_tip = work.current_tip_block_hash; work = work })

    abbrev pub Fails : Type 0
    Fails =
        let (result, d) = refresh_for_chain_tip lib c fetch_work in
        (e : RefreshError) × (result ≡ err e) × (d ≡ c)

    taken :
        (work : WorkSelection F64)
        → (poll c.last_template_tip fetch_work chain_tip_refresh_attempts 0
            (record { latest = none; last_error = none })).latest
          ≡ some work
        → tip_changed c.last_template_tip work ≡ true
        → TakesOver
    unfolding refresh_for_chain_tip
    taken work latest changed =
        let taken_over = same_as_previous-tip_changed c.last_template_tip work true changed in
        elim (poll-Latest c.last_template_tip fetch_work chain_tip_refresh_attempts 0
          (record { latest = none; last_error = none }) work latest) [
            | inl absent ↦ absurd (ground arith)
            | inr (i, below, there) ↦ (
              i,
              work,
              omega arith,
              (there, changed),
              rw (latest, taken_over) refl,
              rw (latest, taken_over) refl,
            )
          ]

    -- A refresh takes over the work of a new chain tip or fails and changes nothing. It takes one
    -- over whenever one of its attempts is answered with work of another tip than the last one, or
    -- with any work when there is no last tip.
    pub refresh_for_chain_tip-TakesOver :
        (TakesOver ⊎ Fails)
        × ((i : ℕ) (work : WorkSelection F64)
            → i < chain_tip_refresh_attempts
            → Answers c.last_template_tip fetch_work i work
            → TakesOver)
    unfolding refresh_for_chain_tip
    refresh_for_chain_tip-TakesOver =
        let start : Polled F64 = record { latest = none; last_error = none } in
        let polled = poll c.last_template_tip fetch_work chain_tip_refresh_attempts 0 start in
        (
          elim (Option-cases polled.latest) [
            | inl nothing ↦
                inr (no_work_selection polled.last_error, rw nothing refl, rw nothing refl)
            | inr (work, latest) ↦ elim (Bool-cases (tip_changed c.last_template_tip work)) [
              | inl changed ↦ inl (taken work latest changed)
              | inr same ↦
                  let stays = same_as_previous-tip_changed c.last_template_tip work false same in
                  inr (not_advanced, rw (latest, stays) refl, rw (latest, stays) refl)
            ]
          ],
          λ i work below answers.
              let (w, latest, changed) =
                poll-Answers c.last_template_tip fetch_work chain_tip_refresh_attempts 0 i start
                  work (omega arith) (omega arith) answers in
              taken w latest changed,
        )
