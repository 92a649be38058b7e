-- ===== src/Pool/FeeJobs/Fresh.antt =====
-- No refresh makes the coinbase of another one again.
use gridpool_sv2_pool.Prelude.{
  ℕ, ◌^◌, ◌<◌, ◌≡◌, ◌≢◌, refl, sym, ap, ◌∙◌, inl, inr, arith, List, [], ◌∷◌, ◌++◌, length,
  length-append, ltb, to_le_bytes, from_le_bytes, from_le_bytes-to_le_bytes, ok, ok-inj, Bool-cases,
}
use gridpool_sv2_pool.Pool.Channels.{NewTemplate}
use gridpool_sv2_pool.Pool.FeeJobs.{commit_gridpool_job_refresh}

abbrev tail_of : List ℕ → List ℕ
tail_of [] = []
tail_of (x ∷ xs) = xs

append-cancel : (xs : List ℕ) {ys zs : List ℕ} → xs ++ ys ≡ xs ++ zs → ys ≡ zs
append-cancel [] h = h
append-cancel (x ∷ xs) h = append-cancel xs (ap tail_of h)

commit-prefix :
    (template made : NewTemplate) (id : ℕ)
    → commit_gridpool_job_refresh template id ≡ ok made
    → made.coinbase_prefix ≡ template.coinbase_prefix ++ 8 ∷ to_le_bytes 8 id
unfolding commit_gridpool_job_refresh
commit-prefix template made id h =
    let prefix = template.coinbase_prefix ++ 8 ∷ to_le_bytes 8 id in
    elim (Bool-cases (ltb 100 (length prefix))) [
      | inl long ↦ absurd (ground (arith, simp (commit_gridpool_job_refresh, long) at h))
      | inr fits ↦ elim (Bool-cases (ltb 255 (length prefix))) [
        | inl longer ↦
            absurd (ground (arith, simp (commit_gridpool_job_refresh, fits, longer) at h))
        | inr well ↦
            let new = record template { coinbase_prefix = prefix } in
            let same =
              ok-inj new made _ refl (simp (commit_gridpool_job_refresh, fits, well) at h) in
            sym (ap (λ (t : NewTemplate). t.coinbase_prefix) same)
      ]
    ]

-- Two refreshes of one template at different times within 64 bits give their jobs different
-- coinbases, and neither is the template's own.
pub commit_gridpool_job_refresh-Fresh :
    (template first second : NewTemplate) (a b : ℕ)
    → a < 2 ^ 64
    → b < 2 ^ 64
    → a ≢ b
    → commit_gridpool_job_refresh template a ≡ ok first
    → commit_gridpool_job_refresh template b ≡ ok second
    → (first.coinbase_prefix ≢ second.coinbase_prefix)
      × (first.coinbase_prefix ≢ template.coinbase_prefix)
commit_gridpool_job_refresh-Fresh template first second a b below_a below_b other made_a made_b =
    let one = commit-prefix template first a made_a in
    let two = commit-prefix template second b made_b in
    (
      λ same.
          let bytes = ap tail_of (append-cancel template.coinbase_prefix (sym one ∙ same ∙ two)) in
          other (
            sym (from_le_bytes-to_le_bytes 8 a below_a)
            ∙ ap from_le_bytes bytes
            ∙ from_le_bytes-to_le_bytes 8 b below_b),
      λ same.
          let longer = ap length (sym one ∙ same) in
          let size = length-append template.coinbase_prefix (8 ∷ to_le_bytes 8 a) in
          absurd (omega (arith, longer, size)),
    )
