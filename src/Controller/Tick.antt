-- ===== src/Controller/Tick.antt =====
-- `AdaptiveController` of src/controller.rs and its `tick` over the whole pool: each resolver, then
-- the global rate, then the attempt brake. `none` is a panic.

use blastdns.Prelude.{
  ℕ, ◌+◌, ◌-◌, true, false, Option, none, some, List, [], ◌∷◌, ltb, leb, if◌then◌else◌, is_some,
  wrapping_add, replicate, ◌>>=◌,
}
use blastdns.Float.{Float}
use blastdns.Brake
use blastdns.Brake.{AttemptBrake, Observation, no_observation}
use blastdns.Brake.Window
use blastdns.Controller.Global.{GlobalRate, Outcomes, adjust_global}
use blastdns.Controller.Judge
use blastdns.Controller.Resolver.{Track, observe, tick_resolver, as_secs}
use blastdns.Health.{ResolverHealth}
use blastdns.Limiter
use blastdns.Limiter.{RateLimiter}
use blastdns.Pacer.{AttemptPacer}

pub record AdaptiveController (S F : Type 0) : Type 0 where
  pub global : GlobalRate F
  pub tracks : List (Track F)
  pub attempts : AttemptBrake S F

-- What the loop over the resolvers sums up.
pub record Totals (F : Type 0) : Type 0 where
  pub attempted : ℕ
  pub lost : ℕ
  pub responded : ℕ
  pub longest_timeout : F
  pub responsive : ℕ

abbrev pub attempt_min_resolvers : ℕ
attempt_min_resolvers = 8

module _ (f64 : Float) where
  open f64 use {F}

  -- The entries for a resolver at the start.
  abbrev pub new_track : Track F
  new_track = record {
    per_resolver = no_observation;
    edge = none;
    stepped = false;
    undo = none;
    judge = Judge.default;
    window = no_observation;
    window_seconds = f64.lit 0 1;
  }

  unfoldable pub new :
      {S : Type 0} → ℕ → RateLimiter → AttemptPacer S F → F → AdaptiveController S F
  unfolding Brake.new
  new resolver_count global pacer global_ceiling = record {
    global = record {
      limiter = global;
      ceiling = global_ceiling;
      previous_outcomes = no_observation;
      window = no_observation;
      window_dispatched = 0;
      window_seconds = f64.lit 0 1;
      judge = Judge.default;
      limit = none;
    };
    tracks = replicate resolver_count new_track;
    attempts = Brake.new f64 pacer;
  }

  abbrev pub no_totals : Totals F
  no_totals = record {
    attempted = 0;
    lost = 0;
    responded = 0;
    longest_timeout = f64.lit 0 1;
    responsive = 0;
  }

  module _ {S : Type 0} where
    -- A resolver enters the totals; one that never answered is no evidence about the path.
    unfoldable pub total : Totals F → Track F → ResolverHealth S → Totals F
    unfolding observe
    total a t h =
        let current = observe h in
        let previous = t.per_resolver in
        let a' = record a {
          attempted = wrapping_add a.attempted (current.attempted - previous.attempted);
          longest_timeout = f64.max a.longest_timeout (as_secs f64 h.request_timeout);
        } in
        if ltb 0 current.responded
        then record a' {
          responsive = a.responsive + 1;
          lost = wrapping_add a.lost (current.lost - previous.lost);
          responded = wrapping_add a.responded (current.responded - previous.responded);
        }
        else a'

    -- The `for` loop of `tick`. The controller was made for as many resolvers as the pool has.
    unfoldable pub tick_resolvers :
        List (Track F)
        → List (ResolverHealth S)
        → F
        → ℕ
        → Totals F
        → Option (List (Track F) × List (ResolverHealth S) × Totals F)
    unfolding total tick_resolver
    tick_resolvers ts [] seconds now a = some (ts, [], a)
    tick_resolvers [] (h ∷ hs) seconds now a = none
    tick_resolvers (t ∷ ts) (h ∷ hs) seconds now a = do
      (t', h') ← tick_resolver f64 t h seconds now
      (ts', hs', a') ← tick_resolvers ts hs seconds now (total a t h)
      some (t' ∷ ts', h' ∷ hs', a')

    -- The end of `tick`: the attempt brake, on a pool with enough resolvers that answer.
    unfoldable pub tick_attempts : AttemptBrake S F → Totals F → F → ℕ → AttemptBrake S F
    unfolding Window.tick Brake.set_limit
    tick_attempts b a seconds now =
        if leb attempt_min_resolvers a.responsive
        then Window.tick f64 b seconds a.attempted a.lost a.responded a.longest_timeout now
        else if is_some b.limit
        then Brake.set_limit f64 b none
        else b

    -- A change of the global rate makes the open attempt window straddle two rates.
    unfoldable pub unsettle : AttemptBrake S F → GlobalRate F → GlobalRate F → AttemptBrake S F
    unsettle b before after =
        if f64.eq (Limiter.rate f64 after.limiter) (Limiter.rate f64 before.limiter)
        then b
        else record b { settling = true }

    -- `elapsed` is the time since the last tick.
    unfoldable pub tick :
        AdaptiveController S F
        → List (ResolverHealth S)
        → ℕ
        → ℕ
        → Outcomes
        → Option (AdaptiveController S F × List (ResolverHealth S))
    unfolding tick_resolvers tick_attempts unsettle adjust_global
    tick c resolvers elapsed now outcomes =
        let seconds = f64.max (as_secs f64 elapsed) (f64.lit 1 1000000) in
        do
          (tracks, resolvers', a) ← tick_resolvers c.tracks resolvers seconds now (no_totals)
          global ← adjust_global f64 c.global seconds a.attempted outcomes
          some (
            record {
              global = global;
              tracks = tracks;
              attempts = tick_attempts (unsettle c.attempts c.global global) a seconds now;
            },
            resolvers',
          )
