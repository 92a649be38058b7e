-- ===== src/Pool/PrevHash/Keeps.antt =====
-- A previous hash opens and closes no channel.
use gridpool_sv2_pool.Prelude.{
  ℕ, ◌≡◌, refl, sym, ap, subst, inl, inr, [], ok, bind-ok, ok-inj, map_err, Result-cases,
  Bool-cases, some,
}
use gridpool_sv2_pool.Pool.Each.{try_each, get-try_each, Made-is_some}
use gridpool_sv2_pool.Pool.Channels.{PrevHash}
use gridpool_sv2_pool.Pool.State.{Crates, Downstream, ChannelManager}
use gridpool_sv2_pool.Pool.Open.{shuts_down}
use gridpool_sv2_pool.Pool.Open.Paid.{open_in, Paid, needs_payout, has_payout}
use gridpool_sv2_pool.Pool.Templates.{Messages}
use gridpool_sv2_pool.Pool.Templates.Keeps.{downstreams-Paid, open_at-try_each}
use gridpool_sv2_pool.Pool.PrevHash.{
  extended_prev_hash, standard_prev_hash, group_messages, downstream_prev_hash,
  handle_set_new_prev_hash,
}

module _ (crates : Crates) where
  downstream_prev_hash-open_in :
      (msg : PrevHash) (d c : ℕ) (entry : Downstream crates)
      (q : Downstream crates × Messages crates)
      → downstream_prev_hash crates msg d entry ≡ ok q
      → open_in crates q.0 c ≡ open_in crates entry c
  unfolding downstream_prev_hash
  downstream_prev_hash-open_in msg d c entry q h = elim (Bool-cases entry.requires_custom_work) [
    | inl custom ↦
        let same = ok-inj (entry, []) q _ refl (simp (downstream_prev_hash, custom) at h) in
        ap (λ (x : Downstream crates × Messages crates). open_in crates x.0 c) (sym same)
    | inr plain ↦
        let h0 = simp (downstream_prev_hash, plain) at h in
        let (group, _, h1) =
          bind-ok (map_err shuts_down (crates.group_on_set_new_prev_hash msg entry.group_channel)) _
            h0 in
        let (first, _, h2) = bind-ok (group_messages crates msg d entry group) _ h1 in
        let extended_step = extended_prev_hash crates msg d in
        let (extended, other, h3) = bind-ok (try_each extended_step entry.extended_channels) _ h2 in
        let standard_step = standard_prev_hash crates msg d entry.requires_standard_jobs in
        let (standard, each, h4) = bind-ok (try_each standard_step entry.standard_channels) _ h3 in
        let standard_same =
          Made-is_some standard_step _ _ c
            (get-try_each standard_step entry.standard_channels standard c each) in
        let extended_same =
          Made-is_some extended_step _ _ c
            (get-try_each extended_step entry.extended_channels extended c other) in
        let same = ok-inj _ q _ refl h4 in
        subst
          (λ (x : Downstream crates × Messages crates).
            open_in crates x.0 c ≡ open_in crates entry c)
          same (rw (standard_same, extended_same) refl)
  ]

  pub handle_set_new_prev_hash-Paid :
      (s : ChannelManager crates) (msg : PrevHash)
      → Paid crates s
      → Paid crates (handle_set_new_prev_hash crates s msg).1
  unfolding handle_set_new_prev_hash needs_payout has_payout
  handle_set_new_prev_hash-Paid s msg paid =
      let current = record s { last_new_prev_hash = some msg } in
      let paid' : Paid crates current = paid in
      let step = λ (d : ℕ) (entry : Downstream crates). downstream_prev_hash crates msg d entry in
      elim (Result-cases (try_each step s.downstreams)) [
        | inr (reply, failed) ↦ rw (handle_set_new_prev_hash, failed) paid'
        | inl ((downstreams, messages), sent) ↦
            rw (handle_set_new_prev_hash, sent)
              (downstreams-Paid crates current downstreams paid' (λ d c.
                open_at-try_each crates step s.downstreams (downstreams, messages) d c sent
                  (λ entry q h. downstream_prev_hash-open_in msg d c entry q h)))
      ]
