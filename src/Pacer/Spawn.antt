-- ===== src/Pacer/Spawn.antt =====
-- The task that `AttemptPacer::spawn` (src/limiter.rs) starts: it refills the pacer after each
-- pause, until the pacer is dropped. The times at which it wakes up are an argument.
use blastdns.Prelude.{ℕ, ◌-◌, Option, none, some, List, [], ◌∷◌}
use blastdns.Float.{Float}
use blastdns.Pacer.{AttemptPacer, pacer_tick, next_pause, refill}
use blastdns.Semaphore.{Semaphore}

-- The pacer, and the variables of the task.
pub record Refiller (S F : Type 0) : Type 0 where
  pub pacer : AttemptPacer S F
  pub previous : ℕ
  pub pause : ℕ

-- At the start of the loop.
abbrev pub spawned : {S F : Type 0} → AttemptPacer S F → ℕ → Refiller S F
spawned p now = record { pacer = p; previous = now; pause = pacer_tick }

module _ (f64 : Float) (sem : Semaphore) (as_secs : ℕ → f64.F) where
  open f64 use {F}
  open sem use {S}

  -- One round of the loop, at this time.
  unfoldable pub round : Refiller S F → ℕ → Refiller S F
  unfolding refill next_pause
  round r now =
      let pacer = refill f64 sem r.pacer (as_secs (now - r.previous)) in
      record { pacer = pacer; previous = now; pause = next_pause pacer }

  -- The rounds until the pacer is dropped, which ends the task; in between, others change the
  -- pacer.
  unfoldable pub run :
      Refiller S F → List (Option (ℕ × (AttemptPacer S F → AttemptPacer S F))) → Refiller S F
  unfolding round
  run r [] = r
  run r (none ∷ rest) = r
  run r (some (now, change) ∷ rest) = run (round (record r { pacer = change r.pacer }) now) rest
