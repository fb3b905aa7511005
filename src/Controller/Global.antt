-- ===== src/Controller/Global.antt =====
-- `AdaptiveController::adjust_global` (src/controller.rs): the global rate, from the queries that
-- ultimately failed. `none` is a panic of `set_rate`.
use mathlib.Core.Option
use blastdns.Prelude.{ℕ, ◌-◌, Option, none, some, ltb, if◌then◌else◌, unwrap_or, wrapping_add}
use blastdns.Float.{Float}
use blastdns.Brake.{Observation, no_observation, retreat}
use blastdns.Controller.Judge.{LossJudge, Verdict, congested, clear, baseline, judge}
use blastdns.Controller.Resolver.{growth, min_rate_qps}
use blastdns.Limiter
use blastdns.Limiter.{RateLimiter}

-- The fields of `AdaptiveController` that the global rate depends on.
pub record GlobalRate (F : Type 0) : Type 0 where
  pub limiter : RateLimiter
  pub ceiling : F
  pub previous_outcomes : Observation
  pub window : Observation
  pub window_dispatched : ℕ
  pub window_seconds : F
  pub judge : LossJudge F
  pub limit : Option F

-- `Outcomes` of src/client.rs: queries that finished, and those of them that got nothing.
pub record Outcomes : Type 0 where
  pub completed : ℕ
  pub failed : ℕ

abbrev pub min_aggregate_samples : ℕ
min_aggregate_samples = 100

module _ (f64 : Float) where
  open f64 use {F}

  abbrev pub max_baseline_loss : F
  max_baseline_loss = f64.lit 5 10

  -- The limit of `g` and the rate of its limiter.
  unfoldable pub set_global : GlobalRate F → Option F → F → Option (GlobalRate F)
  set_global g limit qps =
      Option.map (λ l. record g { limiter = l; limit = limit }) (Limiter.set_rate f64 g.limiter qps)

  -- The new limit after congestion: below the standing limit, or below what was dispatched.
  unfoldable pub lowered : GlobalRate F → F → F
  lowered g observed =
      f64.min (f64.max (f64.mul (unwrap_or g.limit observed) (retreat f64)) (min_rate_qps f64))
        g.ceiling

  -- Queries finish and do not fail: ease back up.
  unfoldable pub ease : GlobalRate F → Option F → Option (GlobalRate F)
  unfolding set_global
  ease g none = some g
  ease g (some limit) =
      let grown = f64.mul limit (growth f64) in
      if f64.le g.ceiling grown
      then set_global g none g.ceiling
      else set_global g (some grown) grown

  -- What the verdict does.
  unfoldable pub act : GlobalRate F → Verdict → F → F → Option (GlobalRate F)
  unfolding set_global lowered ease
  act g (congested _) loss observed =
      let target = lowered g observed in set_global g (some target) target
  act g clear loss observed = if f64.lt max_baseline_loss loss then some g else ease g g.limit
  act g baseline loss observed = if f64.lt max_baseline_loss loss then some g else ease g g.limit

  -- The outcomes since the last tick enter the window.
  unfoldable pub gather : GlobalRate F → F → ℕ → Outcomes → GlobalRate F
  gather g seconds attempted outcomes =
      let previous = g.previous_outcomes in
      record g {
        previous_outcomes = record {
          attempted = outcomes.completed;
          lost = outcomes.failed;
          responded = 0;
        };
        window = record g.window {
          attempted = wrapping_add g.window.attempted (outcomes.completed - previous.attempted);
          lost = wrapping_add g.window.lost (outcomes.failed - previous.lost);
        };
        window_dispatched = wrapping_add g.window_dispatched attempted;
        window_seconds = f64.add g.window_seconds seconds;
      }

  -- A window with enough finished queries is judged, and a new one begins.
  unfoldable pub judge_window : GlobalRate F → Option (GlobalRate F)
  unfolding judge act
  judge_window g =
      let w = g.window in
      let span = f64.max g.window_seconds (f64.lit 1 1000000) in
      let loss = f64.div (f64.of_u64 w.lost) (f64.of_u64 w.attempted) in
      let delivered = f64.div (f64.of_u64 (w.attempted - w.lost)) span in
      let (j, verdict) = judge f64 g.judge loss delivered in
      act
        (record g {
          window = no_observation;
          window_dispatched = 0;
          window_seconds = f64.lit 0 1;
          judge = j;
        })
        verdict loss (f64.div (f64.of_u64 g.window_dispatched) span)

  unfoldable pub adjust_global : GlobalRate F → F → ℕ → Outcomes → Option (GlobalRate F)
  unfolding gather judge_window
  adjust_global g seconds attempted outcomes =
      let g' = gather g seconds attempted outcomes in
      if ltb g'.window.attempted min_aggregate_samples then some g' else judge_window g'
