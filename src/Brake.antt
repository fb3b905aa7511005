-- ===== src/Brake.antt =====
-- `AttemptBrake` of src/controller.rs: it paces attempts per second when per-attempt loss shows a
-- bottleneck that the whole pool shares. An `Instant` or `Duration` is its nanoseconds.
pub mod Window
pub mod Decide
pub mod Limits
pub mod Probing
use blastdns.Prelude.{
  ℕ, zero, suc, ◌+◌, ◌-◌, ◌*◌, ◌/◌, ◌≤◌, ◌<◌, ◌≡◌, min, Bool, true, false, not, ◌&&◌, ◌||◌, Option,
  none, some, List, [], ◌∷◌, ◌++◌, leb, ltb, if◌then◌else◌, length, get_or, map, retain, is_empty,
  wrapping_add,
}
use mathlib.Core.Option
use blastdns.Float.{Float}
use blastdns.Pacer
use blastdns.Pacer.{AttemptPacer}

-- `Observation`
pub record Observation : Type 0 where
  pub attempted : ℕ
  pub lost : ℕ
  pub responded : ℕ

-- `Observation::default`
abbrev pub no_observation : Observation
no_observation = record { attempted = 0; lost = 0; responded = 0 }

pub record Sample (F : Type 0) : Type 0 where
  pub at : ℕ
  pub rate : F
  pub loss : F
  pub delivered : F

pub record Probe (F : Type 0) : Type 0 where
  pub restore : Option F
  pub windows : ℕ

pub record AttemptBrake (S F : Type 0) : Type 0 where
  pub pacer : AttemptPacer S F
  pub limit : Option F
  pub window : Observation
  pub dispatched : ℕ
  pub seconds : F
  pub unshaped_ticks : ℕ
  pub settling : Bool
  pub idle_ticks : ℕ
  pub history : List (Sample F)
  pub reference_window : ℕ
  pub probe : Option (Probe F)
  pub probed : Bool

abbrev pub attempt_min_window : ℕ
attempt_min_window = 500

abbrev pub attempt_probe_windows : ℕ
attempt_probe_windows = 2

-- `ATTEMPT_REFERENCE_WINDOW` and `ATTEMPT_MAX_REFERENCE_WINDOW`, in nanoseconds
abbrev pub attempt_reference_window : ℕ
attempt_reference_window = 60000000000

abbrev pub attempt_max_reference_window : ℕ
attempt_max_reference_window = 480000000000

-- The `while let` of `record`: the front of the queue goes while it is too old.
unfoldable pub expire : {F : Type 0} → ℕ → ℕ → List (Sample F) → List (Sample F)
expire window now [] = []
expire window now (s ∷ ss) =
    let rest = expire window now ss in if ltb window (now - s.at) then rest else s ∷ ss

module _ (f64 : Float) where
  open f64 use {F}

  abbrev pub retreat : F
  retreat = f64.lit 85 100

  abbrev pub attempt_window_timeouts : F
  attempt_window_timeouts = f64.lit 4 1

  abbrev pub attempt_idle_qps : F
  attempt_idle_qps = f64.lit 20 1

  abbrev pub attempt_loss_threshold : F
  attempt_loss_threshold = f64.lit 3 100

  abbrev pub attempt_reference_below : F
  attempt_reference_below = f64.lit 6 10

  abbrev pub attempt_probe_fraction : F
  attempt_probe_fraction = f64.lit 5 10

  abbrev pub attempt_goodput_floor : F
  attempt_goodput_floor = f64.lit 8 10

  abbrev pub attempt_shaped_fraction : F
  attempt_shaped_fraction = f64.lit 95 100

  abbrev pub attempt_min_rate : F
  attempt_min_rate = f64.lit 10 1

  abbrev pub attempt_growth : F
  attempt_growth = f64.lit 105 100

  unfoldable pub new : {S : Type 0} → AttemptPacer S F → AttemptBrake S F
  new pacer = record {
    pacer = pacer;
    limit = none;
    window = no_observation;
    dispatched = 0;
    seconds = f64.lit 0 1;
    unshaped_ticks = 0;
    settling = true;
    idle_ticks = 0;
    history = [];
    reference_window = attempt_reference_window;
    probe = none;
    probed = false;
  }

  unfoldable pub set_limit : {S : Type 0} → AttemptBrake S F → Option F → AttemptBrake S F
  unfolding Pacer.set_rate
  set_limit b limit =
      let limit' = Option.map (λ l. f64.max l attempt_min_rate) limit in
      record b { limit = limit'; pacer = Pacer.set_rate f64 b.pacer limit'; settling = true }

  unfoldable pub reset_window : {S : Type 0} → AttemptBrake S F → AttemptBrake S F
  reset_window b = record b {
    window = no_observation;
    dispatched = 0;
    seconds = f64.lit 0 1;
    unshaped_ticks = 0;
  }

  -- `record`: a sample enters the history, and those that have aged out leave it.
  unfoldable pub remember : {S : Type 0} → AttemptBrake S F → Sample F → AttemptBrake S F
  unfolding expire
  remember b s = record b { history = expire b.reference_window s.at (b.history ++ s ∷ []) }

  -- `sort_by(f64::total_cmp)`, which is stable.
  unfoldable pub insert : F → List F → List F
  insert x [] = x ∷ []
  insert x (y ∷ ys) = let rest = insert x ys in if f64.total_le x y then x ∷ y ∷ ys else y ∷ rest

  unfoldable pub sort : List F → List F
  unfolding insert
  sort [] = []
  sort (x ∷ xs) = insert x (sort xs)

  -- The losses on record at a clearly lower load than `rate`.
  unfoldable pub lower : List (Sample F) → F → List F
  lower history rate =
      map (λ s. s.loss) (retain (λ s. f64.le s.rate (f64.mul rate attempt_reference_below)) history)

  unfoldable pub congested : List (Sample F) → F → F → Option Bool
  unfolding lower sort
  congested history rate loss =
      let losses = lower history rate in
      if is_empty losses
      then none
      else let reference = get_or (sort losses) (length (sort losses) / 2) (f64.lit 0 1) in
        some (
          f64.lt attempt_loss_threshold loss
          && f64.lt (f64.add reference attempt_loss_threshold) loss)

  -- The most that a higher rate on record delivered.
  unfoldable pub best_higher : List (Sample F) → F → F → F
  best_higher [] rate best = best
  best_higher (s ∷ ss) rate best =
      best_higher ss rate (if f64.lt rate s.rate then f64.max best s.delivered else best)
