-- ===== src/Tests/Limits.antt =====
-- Examples for src/limiter.rs and src/config.rs.
use blastdns.Prelude.{
  true, false, ℕ, ◌+◌, ◌*◌, ◌≤◌, ◌≡◌, refl, true, false, none, some, List, [], ◌∷◌, arith, length,
  All, map,
}
use blastdns.Float.Fixed.{fixed}
use blastdns.Semaphore.{counter, counter_laws}
use blastdns.Config.{BlastDnsConfigWire}
use blastdns.Limiter.Pacing.{run_pacing, EventIsPaced, first_slot}
use blastdns.Limiter.Atomic.{serve, through, run-serve}
use blastdns.Limiter.Tasks.{Grant, Event, tick, turn, call, store_interval, run, fresh}
use blastdns.Pacer.{AttemptPacer, refill, set_rate}
use blastdns.Pacer.Bucket.{clear-refill_releases, grant_all}

-- Two callers: the first loses a compare-and-swap, a slower rate is set, and both get their slots.
abbrev two_callers : List Event
two_callers =
    call
    ∷ call
    ∷ tick 5
    ∷ turn 0 false
    ∷ turn 0 false
    ∷ turn 0 false
    ∷ turn 0 true
    ∷ turn 1 false
    ∷ turn 1 false
    ∷ turn 1 false
    ∷ turn 1 false
    ∷ store_interval 200
    ∷ turn 0 false
    ∷ turn 0 false
    ∷ turn 0 false
    ∷ []

abbrev later_slot : Grant
later_slot = record { slot = 105; interval = 100; asked = 5 }

abbrev first_slots : List Grant
first_slots = record { slot = 5; interval = 100; asked = 5 } ∷ []

granted_two : (run (fresh 100) two_callers).granted ≡ later_slot ∷ first_slots
unfolding run
granted_two = refl

two_callers-IsPaced : All (EventIsPaced 100) two_callers
two_callers-IsPaced = (
  tt,
  (tt, (tt, (tt, (tt, (tt, (tt, (tt, (tt, (tt, (tt, (omega arith, (tt, (tt, (tt, tt)))))))))))))),
)

run_pacing_example : first_slot later_slot first_slots + length first_slots * 100 ≤ 105
run_pacing_example =
    run_pacing 100 100 two_callers later_slot first_slots (omega arith) two_callers-IsPaced
      granted_two (omega arith)

run-serve_example :
    let s = run (fresh 100) two_callers in
    (serve s.granted ≡ (s.limiter.next_ns, map (λ (g : Grant). g.slot) s.granted))
    × (length s.granted ≡ through s.tasks)
run-serve_example = run-serve 100 two_callers

-- 200 attempts per second, three tokens left and two callers waiting.
abbrev paced : AttemptPacer ℕ ℕ
paced = record { rate = some 200000000; tokens = 3; carry = 0; waiting = 2 }

clear-refill_releases_example :
    (p' : AttemptPacer ℕ ℕ) × (grant_all fixed counter counter_laws 2
        (refill fixed counter (set_rate fixed paced none) 2000)
      ≡ some p')
    × (p'.waiting ≡ 0)
clear-refill_releases_example =
    clear-refill_releases fixed counter counter_laws paced 2000 (omega arith)

abbrev pub wire : BlastDnsConfigWire ℕ
wire = record {
  max_inflight_per_resolver = 0;
  max_concurrency = 0;
  rate_limit = some 0;
  adaptive = true;
  resolver_probe = true;
  persistent_socket = false;
  request_timeout_ms = 0;
  max_retries = 3;
  purgatory_threshold = 10;
  purgatory_sentence_ms = 0;
  cache_capacity = 100;
  cache_min_ttl_secs = 10;
  cache_max_ttl_secs = 20;
}
