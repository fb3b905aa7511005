-- ===== src/Health/Rtt.antt =====
-- The round-trip figures of `record_rtt` (src/health.rs).
use blastdns.Prelude.{ℕ, ◌+◌, ◌≤◌, ◌<◌, ◌≡◌, ◌⊎◌, u64_mod, arith, min, max}
use blastdns.Health.{ResolverHealth, record_rtt, rtt_min_window}

module _ {S : Type 0} where
  -- The moving average starts at the sample, and from then on stays between its last value and the
  -- new sample, for samples of at least a microsecond and figures below 2 ^ 63.
  pub record_rtt_ewma :
      (h : ResolverHealth S) (rtt now : ℕ)
      → 0 < rtt
      → rtt < 9223372036854775808
      → h.rtt_ewma_us < 9223372036854775808
      → let e = (record_rtt h rtt now).rtt_ewma_us in
        ((h.rtt_ewma_us ≡ 0) × (e ≡ rtt))
        ⊎ ((0 < h.rtt_ewma_us) × (min h.rtt_ewma_us rtt ≤ e) × (e ≤ max h.rtt_ewma_us rtt))
  unfolding record_rtt
  record_rtt_ewma h rtt now p q r = ground arith

  -- After a sample (of at least a microsecond, in 64 bits) the minimum is neither 0 nor above the
  -- sample. Either it fell or stayed, or the window since it was set had lapsed (or there was none
  -- yet) and a new window starts now.
  pub record_rtt_min :
      (h : ResolverHealth S) (rtt now : ℕ)
      → 0 < rtt
      → rtt < u64_mod
      → let h' = record_rtt h rtt now in
        (0 < h'.rtt_min_us)
        × (h'.rtt_min_us ≤ rtt)
        × ((h'.rtt_min_us ≡ min h.rtt_min_us rtt) × (h'.rtt_min_window_ns ≡ h.rtt_min_window_ns)
            ⊎ ((h.rtt_min_us ≡ 0) ⊎ (h.rtt_min_window_ns + rtt_min_window < now))
              × (h'.rtt_min_us ≡ rtt)
              × (h'.rtt_min_window_ns ≡ now))
  unfolding record_rtt
  record_rtt_min h rtt now p q = ground arith
