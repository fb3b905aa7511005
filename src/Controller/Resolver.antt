-- ===== src/Controller/Resolver.antt =====
-- What `AdaptiveController::tick` (src/controller.rs) does for one resolver. `none` is a panic of
-- `set_rate`. An `Instant` or `Duration` is its nanoseconds.
use mathlib.Core.Option
use blastdns.Prelude.{
  ℕ, ◌-◌, ◌/◌, ◌%◌, Bool, true, false, ◌&&◌, ◌||◌, Option, none, some, leb, ltb, if◌then◌else◌,
  wrapping_add,
}
use blastdns.Float.{Float}
use blastdns.Brake.{Observation, no_observation, retreat}
use blastdns.Controller.Judge.{LossJudge, Verdict, congested, clear, baseline, judge, end_episode}
use blastdns.Health
use blastdns.Health.{ResolverHealth}
use blastdns.Limiter

pub record Edge (F : Type 0) : Type 0 where
  pub qps : F
  pub seen_at : ℕ

-- The entries of the vectors of `AdaptiveController` for one resolver.
pub record Track (F : Type 0) : Type 0 where
  pub per_resolver : Observation
  pub edge : Option (Edge F)
  pub stepped : Bool
  pub undo : Option (Option (Edge F) × F)
  pub judge : LossJudge F
  pub window : Observation
  pub window_seconds : F

abbrev pub min_samples : ℕ
min_samples = 100

-- `EDGE_TTL`, in nanoseconds
abbrev pub edge_ttl : ℕ
edge_ttl = 30000000000

-- The counters of a resolver as an observation.
unfoldable pub observe : {S : Type 0} → ResolverHealth S → Observation
observe h = record {
  attempted = h.attempted;
  lost = wrapping_add h.timeout h.error;
  responded = wrapping_add h.answered h.empty;
}

module _ (f64 : Float) where
  open f64 use {F}

  abbrev pub growth : F
  growth = f64.lit 125 100

  abbrev pub max_window_timeouts : F
  max_window_timeouts = f64.lit 5 1

  abbrev pub min_rate_qps : F
  min_rate_qps = f64.lit 1 1

  -- `Duration::as_secs_f64`
  abbrev pub as_secs : ℕ → F
  as_secs ns =
      f64.add (f64.of_u64 (ns / 1000000000))
        (f64.div (f64.of_u64 (ns % 1000000000)) (f64.lit 1000000000 1))

  -- The rate to settle at below an edge.
  unfoldable pub below_edge : Edge F → F
  below_edge e = f64.max (f64.mul (retreat f64) e.qps) min_rate_qps

  -- The edge after a congested window.
  unfoldable pub next_edge : Option (Edge F) → Bool → F → F → ℕ → Edge F
  next_edge none working observed rate now = record { qps = observed; seen_at = now }
  next_edge (some edge) working observed rate now =
      if working then record { qps = f64.min edge.qps rate; seen_at = now } else edge

  -- The window takes in what happened since the last tick.
  unfoldable pub gather : Track F → Observation → F → Track F
  gather t current seconds =
      let previous = t.per_resolver in
      record t {
        per_resolver = current;
        window = record {
          attempted = wrapping_add t.window.attempted (current.attempted - previous.attempted);
          lost = wrapping_add t.window.lost (current.lost - previous.lost);
          responded = wrapping_add t.window.responded (current.responded - previous.responded);
        };
        window_seconds = f64.add t.window_seconds seconds;
      }

  -- Whether the window is still to be filled.
  unfoldable pub is_open : Track F → F → Bool
  is_open t timeout =
      f64.lt t.window_seconds timeout
      || ltb t.window.attempted min_samples
        && f64.lt t.window_seconds (f64.mul timeout max_window_timeouts)

  module _ {S : Type 0} where
    abbrev pub with_rate : Track F → ResolverHealth S → F → Option (Track F × ResolverHealth S)
    with_rate t h qps = Option.map (λ h'. (t, h')) (Health.set_rate f64 h qps)

    -- The climb of `relax` under an edge that is still honoured.
    unfoldable pub climb : Track F → ResolverHealth S → Edge F → Option (Track F × ResolverHealth S)
    unfolding below_edge
    climb t h edge =
        let target = below_edge edge in
        let current = Limiter.rate f64 h.limiter in
        if f64.lt current target
        then with_rate t h (f64.min (f64.mul current growth) target)
        else some (t, h)

    unfoldable pub relax_edge :
        Track F → ResolverHealth S → Option (Edge F) → ℕ → Option (Track F × ResolverHealth S)
    unfolding climb end_episode
    relax_edge t h none now = some (t, h)
    relax_edge t h (some edge) now =
        if leb edge_ttl (now - edge.seen_at)
        then with_rate (record t { edge = none; judge = end_episode t.judge }) h
            (Limiter.unlimited_qps f64)
        else climb t h edge

    unfoldable pub relax : Track F → ResolverHealth S → ℕ → Option (Track F × ResolverHealth S)
    unfolding relax_edge
    relax t h now = relax_edge t h t.edge now

    -- The end of the loop's body: a congested window.
    unfoldable pub step_down :
        Track F → ResolverHealth S → Bool → F → ℕ → Option (Track F × ResolverHealth S)
    unfolding next_edge below_edge
    step_down t h converging observed now =
        let rate = Limiter.rate f64 h.limiter in
        let shaped = t.stepped && f64.le (f64.mul (retreat f64) rate) observed in
        let edge = next_edge t.edge (converging && shaped) observed rate now in
        let target = below_edge edge in
        let stepped =
          f64.lt target
            (f64.div (f64.mul rate (f64.add (f64.lit 1 1) (retreat f64))) (f64.lit 2 1)) in
        with_rate
          (record t {
            edge = some edge;
            stepped = stepped;
            undo = if stepped then some (t.edge, rate) else t.undo;
          })
          h target

    -- A retreat that bought nothing is undone, if it was a real step.
    unfoldable pub undo_step :
        Track F
        → ResolverHealth S
        → Bool
        → Option (Option (Edge F) × F)
        → Option (Track F × ResolverHealth S)
    undo_step t h false u = some (t, h)
    undo_step t h true none = some (t, h)
    undo_step t h true (some (edge, rate)) =
        with_rate (record t { edge = edge; undo = none }) h rate

    -- What the verdict on the window makes the controller do.
    unfoldable pub act :
        Track F → ResolverHealth S → Verdict → F → ℕ → Option (Track F × ResolverHealth S)
    unfolding relax undo_step step_down
    act t h clear observed now = relax (record t { stepped = false }) h now
    act t h baseline observed now = undo_step (record t { stepped = false }) h t.stepped t.undo
    act t h (congested converging) observed now = step_down t h converging observed now

    -- A window that is long and full enough.
    unfoldable pub judge_window :
        Track F → ResolverHealth S → ℕ → Option (Track F × ResolverHealth S)
    unfolding relax judge act
    judge_window t h now =
        let w = t.window in
        let span = f64.max t.window_seconds (f64.lit 1 1000000) in
        let t' = record t { window = no_observation; window_seconds = f64.lit 0 1 } in
        let loss = f64.min (f64.div (f64.of_u64 w.lost) (f64.of_u64 w.attempted)) (f64.lit 1 1) in
        let (j, verdict) = judge f64 t.judge loss (f64.div (f64.of_u64 w.responded) span) in
        if ltb w.attempted min_samples
        then relax t' h now
        else act (record t' { judge = j }) h verdict (f64.div (f64.of_u64 w.attempted) span) now

    -- The body of the `for` loop.
    unfoldable pub tick_resolver :
        Track F → ResolverHealth S → F → ℕ → Option (Track F × ResolverHealth S)
    unfolding gather observe is_open relax judge_window
    tick_resolver t h seconds now =
        let t' = gather t (observe h) seconds in
        if is_open t' (as_secs h.request_timeout) then relax t' h now else judge_window t' h now
