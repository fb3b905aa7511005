-- ===== src/Limiter.antt =====
-- `RateLimiter` of src/limiter.rs, with the clock as an argument: `now_ns` is what
-- `start.elapsed().as_nanos()` returned. A panic of `interval_for` is `none`.
pub mod Tasks
pub mod Spacing
pub mod Pacing
pub mod Atomic
use blastdns.Prelude.{
  ℕ, ◌+◌, ◌-◌, ◌≤◌, ◌<◌, ◌≡◌, max, Bool, true, false, Option, none, some, ltb, leb, ◌==◌,
  if◌then◌else◌, saturating_add, arith,
}
use mathlib.Core.Option
use blastdns.Float.{Float, OrderLaws}

pub record RateLimiter : Type 0 where
  pub interval_ns : ℕ
  pub next_ns : ℕ

module _ (f64 : Float) where
  open f64 use {F}

  -- 1e9, both nanoseconds in a second and the rate that means "no limit"
  abbrev pub unlimited_qps : F
  unlimited_qps = f64.lit 1000000000 1

  unfoldable pub interval_for : F → Option ℕ
  interval_for queries_per_second =
      if f64.lt (f64.lit 0 1) queries_per_second
      then some (
          f64.to_u64
            (f64.max (f64.round (f64.div (f64.lit 1000000000 1) queries_per_second)) (f64.lit 1 1)))
      else none

  unfoldable pub new : F → Option RateLimiter
  new queries_per_second =
      Option.map (λ i. record { interval_ns = i; next_ns = 0 }) (interval_for queries_per_second)

  unfoldable pub set_rate : RateLimiter → F → Option RateLimiter
  set_rate l queries_per_second =
      Option.map (λ i. record l { interval_ns = i }) (interval_for queries_per_second)

  unfoldable pub rate : RateLimiter → F
  rate l = f64.div (f64.lit 1000000000 1) (f64.of_u64 l.interval_ns)

-- The loop of `acquire` in one piece: `base` of the round that wins, and the cursor after it.
unfoldable pub reserve_slot : RateLimiter → ℕ → RateLimiter × ℕ
reserve_slot l now_ns =
    let base = max l.next_ns now_ns in
    (record l { next_ns = saturating_add base l.interval_ns }, base)

abbrev pub sub_ms_skip_threshold_ns : ℕ
sub_ms_skip_threshold_ns = 1000000

-- The end of `acquire`: how long the caller sleeps, if at all.
unfoldable pub pause : ℕ → ℕ → Option ℕ
pause slot_ns now_ns =
    if leb slot_ns now_ns
    then none
    else let deficit_ns = slot_ns - now_ns in
      if leb sub_ms_skip_threshold_ns deficit_ns then some deficit_ns else none
