-- ===== src/Health/Purgatory.antt =====
-- When `record_error` (src/health.rs) benches a resolver, and what a sentence costs.
use blastdns.Prelude.{ℕ, ◌+◌, ◌≤◌, ◌<◌, ◌≡◌, ◌⊎◌, Bool, u64_mod, arith, ltb}
use blastdns.Health.{ResolverHealth, is_benched, record_error}

module _ {S : Type 0} where
  -- With purgatory on, a failure that brings the count to the threshold benches the resolver from
  -- now until the sentence is over and no longer, and discharges the count; a failure that does not
  -- leaves the bench as it was and raises the count by one. (The end of the sentence and the count
  -- stay below 2 ^ 64.)
  pub record_error_bench :
      (h : ResolverHealth S) (is_timeout : Bool) (now at : ℕ)
      → 0 < h.purgatory_threshold
      → 0 < h.purgatory_sentence
      → now + h.purgatory_sentence < u64_mod
      → h.consecutive_errors + 1 < u64_mod
      → let h' = record_error h is_timeout now in
        ((h.purgatory_threshold ≤ h.consecutive_errors + 1)
          × (is_benched h' at ≡ ltb at (now + h.purgatory_sentence))
          × (h'.consecutive_errors ≡ 0))
        ⊎ ((h.consecutive_errors + 1 < h.purgatory_threshold)
            × (is_benched h' at ≡ is_benched h at)
            × (h'.consecutive_errors ≡ h.consecutive_errors + 1))
  unfolding record_error is_benched
  record_error_bench h is_timeout now at ht hs hn hc = ground arith

  -- A threshold or a sentence of zero turns purgatory off.
  pub record_error_never_benches :
      (h : ResolverHealth S) (is_timeout : Bool) (now at : ℕ)
      → (h.purgatory_threshold ≡ 0) ⊎ (h.purgatory_sentence ≡ 0)
      → is_benched (record_error h is_timeout now) at ≡ is_benched h at
  unfolding record_error is_benched
  record_error_never_benches h is_timeout now at off = ground arith
