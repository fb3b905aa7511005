-- ===== src/Tests/Resolvers.antt =====
-- Examples for src/health.rs.
use blastdns.Prelude.{
  ℕ, ◌+◌, ◌≤◌, ◌<◌, ◌≡◌, ◌⊎◌, refl, true, false, List, [], ◌∷◌, arith, ltb, if◌then◌else◌, is_empty,
  wrapping_add,
}
use blastdns.Semaphore.{counter}
use blastdns.Net.{SocketAddr, v4}
use blastdns.Health.{ResolverHealth, is_benched, record_error}
use blastdns.Health.Failures
use blastdns.Health.Failures.{Event, access, alone}
use blastdns.Health.Failures.Earned.{fresh, IsEarned, run-IsEarned}
use blastdns.Health.Purgatory.{record_error_bench}
use blastdns.Pool.{
  ResolverPool, reserve_pass, sleep, visit, sleep_until_first_eligible, soonest, count, scan_visit,
}
use blastdns.Pool.Sleep.{IsTimely, reserve_pass-IsTimely}
use blastdns.Pool.Passes.{IsEnded, reserve_pass-IsEnded}

abbrev pub here : SocketAddr
here = record { ip = v4 127 0 0 1; port = 53 }

-- Two permits, and nine failures of ten counted.
abbrev pub resolver : ResolverHealth ℕ
resolver = record {
  resolver = here;
  request_timeout = 1000000000;
  persistent_socket = false;
  purgatory_threshold = 10;
  purgatory_sentence = 1000000000;
  inflight = 2;
  limiter = record { interval_ns = 1; next_ns = 0 };
  active = true;
  attempted = 200;
  answered = 100;
  empty = 20;
  timeout = 70;
  error = 5;
  consecutive_errors = 9;
  benched_until_ns = 0;
  purgatory_entries = 1;
  truncated = 0;
  rtt_ewma_us = 8000;
  rtt_min_us = 5000;
  rtt_min_window_ns = 100;
}

abbrev benched : ResolverHealth ℕ
benched = record resolver { benched_until_ns = 900 }

record_error_bench_example :
    let h' = record_error resolver true 700 in
    ((10 ≤ 9 + 1) × (is_benched h' 800 ≡ ltb 800 (700 + 1000000000)) × (h'.consecutive_errors ≡ 0))
    ⊎ ((9 + 1 < 10)
        × (is_benched h' 800 ≡ is_benched resolver 800)
        × (h'.consecutive_errors ≡ 9 + 1))
record_error_bench_example =
    record_error_bench resolver true 700 800 (omega arith) (omega arith) (omega arith) (omega arith)

abbrev lenient : ResolverHealth ℕ
lenient = record resolver { purgatory_threshold = 0 }

-- Two calls that overlap: both have raised the count, to 10 and to 11, before either clears it.
abbrev overlapping : List Event
overlapping =
    access 0 700
    ∷ access 0 700
    ∷ access 1 710
    ∷ access 1 710
    ∷ access 0 720
    ∷ access 0 720
    ∷ access 0 720
    ∷ access 1 730
    ∷ access 1 730
    ∷ access 1 730
    ∷ []

-- So two failures begin two sentences, where the second one would not after the first.
overlapping_sentences :
    (Failures.run
      (record { health = resolver; calls = fresh (true ∷ false ∷ []) })
      overlapping).health.purgatory_entries
    ≡ 3
unfolding Failures.run
overlapping_sentences = refl

run-IsEarned_example :
    ((Failures.run (record { health = resolver; calls = fresh (true ∷ []) }) (alone 700)).health
      ≡ record_error resolver true 700)
    × IsEarned resolver
        (Failures.run (record { health = resolver; calls = fresh (true ∷ false ∷ []) }) overlapping)
run-IsEarned_example = run-IsEarned resolver (true ∷ false ∷ []) overlapping true 700

-- The first resolver in turn is benched, the second one is free.
abbrev pool : ResolverPool ℕ
pool = record { resolvers = benched ∷ resolver ∷ []; cursor = 4 }

reserve_pass-IsEnded_example :
    let (p', o) = reserve_pass counter pool 700 in
    IsEnded counter (benched ∷ resolver ∷ []) 700 p' o
    × (p'.cursor ≡ (if is_empty (benched ∷ resolver ∷ []) then 4 else wrapping_add 4 1))
reserve_pass-IsEnded_example = reserve_pass-IsEnded counter pool 700 (omega arith)

-- Both resolvers are benched, one until 900 and one until 950.
abbrev asleep : ResolverPool ℕ
asleep = record {
  resolvers = record resolver { benched_until_ns = 950 } ∷ benched ∷ [];
  cursor = 4;
}

slept : (reserve_pass counter asleep 700).1 ≡ sleep 200
unfolding reserve_pass visit is_benched sleep_until_first_eligible soonest count scan_visit
slept = refl

reserve_pass-IsTimely_example : IsTimely counter asleep 700 200
reserve_pass-IsTimely_example =
    reserve_pass-IsTimely counter asleep 700 200 1 benched (omega arith) slept refl refl
