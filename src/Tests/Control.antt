-- ===== src/Tests/Control.antt =====
-- Examples for src/controller.rs.
use blastdns.Prelude.{
  ℕ, ◌≡◌, ◌≢◌, refl, true, false, none, some, List, [], ◌∷◌, arith, replicate, max,
}
use blastdns.Float.Fixed.{fixed, fixed_laws}
use blastdns.Brake
use blastdns.Brake.{
  AttemptBrake, Sample, Probe, Observation, no_observation, remember, attempt_probe_fraction,
  attempt_min_rate,
}
use blastdns.Brake.Decide.{decide}
use blastdns.Brake.Limits
use blastdns.Brake.Probing.{decide_probe_round}
use blastdns.Brake.Window
use blastdns.Controller.Ceiling
use blastdns.Controller.Ceiling.{adjust_global-IsDone}
use blastdns.Controller.Episodes.{judge-judge_stall, judge-judge_settled, IsWellFormed}
use blastdns.Controller.Floors
use blastdns.Controller.Floors.{tick_resolver-IsDone}
use blastdns.Controller.Global.{GlobalRate, Outcomes, adjust_global}
use blastdns.Controller.Judge.{LossJudge, Verdict, congested, clear, baseline, judge}
use blastdns.Controller.Judge
use blastdns.Controller.Resolver.{Track, tick_resolver}
use blastdns.Controller.Settling.{IsInOrder, tick-IsInOrder}
use blastdns.Controller.Tick.{AdaptiveController, tick}
use blastdns.Health.{ResolverHealth}
use blastdns.Pacer.{AttemptPacer}
use blastdns.Limiter
use blastdns.Tests.Resolvers.{resolver}

-- An episode is under way: half of the queries were lost at best, at 100 responses a second.
abbrev episode : LossJudge ℕ
episode = record {
  best = some 500000;
  best_delivered = some 100000000;
  stalled = 0;
  baseline = some 300000;
}

abbrev stalled : LossJudge ℕ
stalled = record episode { stalled = 1 }

episode-IsWellFormed : IsWellFormed episode
episode-IsWellFormed = record { stalled_once = omega arith; together = refl; fresh = λ h. refl }

stalls : (judge fixed episode 500000 100000000).1 ≡ congested false
unfolding judge
stalls = refl

judge-judge_stall_example :
    (judge fixed (judge fixed episode 500000 100000000).0 600000 100000000).1 ≢ congested false
judge-judge_stall_example =
    judge-judge_stall fixed episode 500000 100000000 600000 100000000 episode-IsWellFormed refl
      stalls

settles_at_half : (judge fixed stalled 500000 100000000).1 ≡ baseline
unfolding judge
settles_at_half = refl

judge-judge_settled_example :
    (judge fixed (judge fixed stalled 500000 100000000).0 450000 7).1 ≡ clear
judge-judge_settled_example =
    judge-judge_settled fixed fixed_laws stalled 500000 100000000 450000 7 tt settles_at_half refl

abbrev pacer : AttemptPacer ℕ ℕ
pacer = record { rate = some 400000000; tokens = 0; carry = 0; waiting = 0 }

-- At 400 attempts a second, with one window on record.
abbrev brake : AttemptBrake ℕ ℕ
brake = record {
  pacer = pacer;
  limit = some 400000000;
  window = record { attempted = 900; lost = 600; responded = 300 };
  dispatched = 900;
  seconds = 3900000;
  unshaped_ticks = 0;
  settling = false;
  idle_ticks = 0;
  history = record { at = 1000; rate = 900000000; loss = 500000; delivered = 90000000 } ∷ [];
  reference_window = 60000000000;
  probe = none;
  probed = false;
}

brake-IsSound : Limits.IsSound fixed brake
brake-IsSound = record {
  synced = refl;
  floored = refl;
  window_min = omega arith;
  window_max = omega arith;
  probing = tt;
}

tick-IsSound_example : Limits.IsSound fixed (Window.tick fixed brake 200000 100 60 40 1000000 9000)
tick-IsSound_example =
    Limits.tick-IsSound fixed fixed_laws brake 200000 100 60 40 1000000 9000 brake-IsSound

abbrev lossy : Sample ℕ
lossy = record { at = 9000; rate = 220000000; loss = 600000; delivered = 80000000 }

no_reference :
    Brake.congested fixed
      (remember fixed brake (record lossy { rate = 400000000 })).history
      400000000
      600000
    ≡ none
unfolding Brake.congested remember
no_reference = refl

decide_probe_round_example :
    let b₁ = decide fixed brake true lossy in
    let b₂ = decide fixed b₁ true lossy in
    let b₃ = decide fixed b₂ false lossy in
    (b₁.limit
      ≡ some (max (fixed.mul 400000000 (attempt_probe_fraction fixed)) (attempt_min_rate fixed)))
    × (b₂.limit ≡ b₁.limit)
    × (b₃.limit ≡ some 400000000)
    × (b₃.probe ≡ none)
decide_probe_round_example =
    decide_probe_round fixed fixed_laws brake lossy lossy lossy true true false refl refl refl
      no_reference

abbrev track : Track ℕ
track = record {
  per_resolver = no_observation;
  edge = some (record { qps = 300000000; seen_at = 0 });
  stepped = true;
  undo = some (none, 400000000);
  judge = episode;
  window = no_observation;
  window_seconds = 2000000;
}

track-IsPaced : Floors.IsPaced fixed track resolver
track-IsPaced = record { low = omega arith; high = omega arith; undoable = refl }

tick_resolver-IsDone_example : Floors.IsDone fixed (tick_resolver fixed track resolver 200000 9000)
tick_resolver-IsDone_example =
    tick_resolver-IsDone fixed fixed_laws track resolver 200000 9000 track-IsPaced

-- A cap of 1000 queries a second, of which 800 are allowed.
abbrev global : GlobalRate ℕ
global = record {
  limiter = record { interval_ns = 1250000; next_ns = 0 };
  ceiling = 1000000000;
  previous_outcomes = no_observation;
  window = no_observation;
  window_dispatched = 0;
  window_seconds = 0;
  judge = Judge.default;
  limit = some 800000000;
}

abbrev outcomes : Outcomes
outcomes = record { completed = 500; failed = 100 }

eight_hundred : Limiter.interval_for fixed 800000000 ≡ some 1250000
unfolding Limiter.interval_for
eight_hundred = refl

global-IsCapped : Ceiling.IsCapped fixed fixed_laws global
global-IsCapped = record {
  ceiling = record { number = tt; positive = refl; capped = refl };
  limit = record { number = tt; positive = refl; capped = refl };
  applied = eight_hundred;
}

adjust_global-IsDone_example :
    Ceiling.IsDone fixed fixed_laws global (adjust_global fixed global 200000 600 outcomes)
adjust_global-IsDone_example =
    adjust_global-IsDone fixed fixed_laws global 200000 600 outcomes global-IsCapped

-- A pool of eight resolvers.
abbrev controller : AdaptiveController ℕ ℕ
controller = record { global = global; tracks = replicate 8 track; attempts = brake }

abbrev pool : List (ResolverHealth ℕ)
pool = replicate 8 resolver

controller-IsInOrder : IsInOrder fixed fixed_laws controller pool
controller-IsInOrder = record {
  paced = (
    track-IsPaced,
    (
      track-IsPaced,
      (
        track-IsPaced,
        (track-IsPaced, (track-IsPaced, (track-IsPaced, (track-IsPaced, (track-IsPaced, tt))))),
      ),
    ),
  );
  capped = global-IsCapped;
  sound = brake-IsSound;
}

tick-IsInOrder_example :
    (c' : AdaptiveController ℕ ℕ) × (hs' : List (ResolverHealth ℕ)) × (tick fixed controller pool
        200000000 9000 outcomes
      ≡ some (c', hs'))
    × (c'.global.ceiling ≡ 1000000000)
    × IsInOrder fixed fixed_laws c' hs'
tick-IsInOrder_example =
    tick-IsInOrder fixed fixed_laws controller pool 200000000 9000 outcomes controller-IsInOrder
