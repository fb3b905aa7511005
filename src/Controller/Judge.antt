-- ===== src/Controller/Judge.antt =====
-- `LossJudge` and `Verdict` of src/controller.rs.
use blastdns.Prelude.{
  ℕ, Bool, true, not, ◌&&◌, ◌||◌, Option, none, some, leb, if◌then◌else◌, is_some, unwrap_or,
  saturating_add_u8,
}
use mathlib.Core.Option
use blastdns.Float.{Float}

-- What a window of loss is worth doing about.
pub data Verdict : Type 0 where
  congested : Bool → Verdict
  clear : Verdict
  baseline : Verdict

pub record LossJudge (F : Type 0) : Type 0 where
  pub best : Option F
  pub best_delivered : Option F
  pub stalled : ℕ  -- u8
  pub baseline : Option F

-- `LossJudge::default`
abbrev pub default : {F : Type 0} → LossJudge F
default = record { best = none; best_delivered = none; stalled = 0; baseline = none }

abbrev pub stall_ticks : ℕ
stall_ticks = 2

-- The baseline stays: it belongs to the path.
unfoldable pub end_episode : {F : Type 0} → LossJudge F → LossJudge F
end_episode j = record j { best = none; best_delivered = none; stalled = 0 }

module _ (f64 : Float) where
  open f64 use {F}

  abbrev pub loss_threshold : F
  loss_threshold = f64.lit 2 100

  abbrev pub retreat_must_improve : F
  retreat_must_improve = f64.lit 99 100

  abbrev pub retreat_must_deliver : F
  retreat_must_deliver = f64.lit 95 100

  -- The baseline follows the loss down.
  unfoldable pub lower_baseline : LossJudge F → F → LossJudge F
  lower_baseline j loss = record j { baseline = Option.map (λ b. f64.min b loss) j.baseline }

  unfoldable pub is_clear : LossJudge F → F → Bool
  is_clear j loss = f64.le loss (f64.add (unwrap_or j.baseline (f64.lit 0 1)) loss_threshold)

  unfoldable pub is_improving : Option F → F → Bool
  is_improving none loss = true
  is_improving (some best) loss = f64.lt loss (f64.mul best retreat_must_improve)

  unfoldable pub is_paying : Option F → F → Bool
  is_paying none delivered = true
  is_paying (some best) delivered = f64.le (f64.mul best retreat_must_deliver) delivered

  -- The end of `judge`: remember the best of the episode.
  unfoldable pub congest : LossJudge F → F → F → Bool → LossJudge F × Verdict
  congest j loss delivered converging = (
    record j {
      best = some (unwrap_or (Option.map (λ b. f64.min b loss) j.best) loss);
      best_delivered =
          some (unwrap_or (Option.map (λ b. f64.max b delivered) j.best_delivered) delivered);
    },
    congested converging,
  )

  -- `judge` from the point where the loss is above the baseline.
  unfoldable pub judge_above : LossJudge F → F → F → LossJudge F × Verdict
  unfolding is_improving is_paying congest end_episode
  judge_above j loss delivered =
      let improving = is_improving j.best loss in
      let paying = is_paying j.best_delivered delivered in
      let converging = is_some j.best && improving && paying in
      let stalled = saturating_add_u8 j.stalled 1 in
      if improving && paying
      then congest (record j { stalled = 0 }) loss delivered converging
      else if not paying || leb stall_ticks stalled
      then (end_episode (record j { stalled = stalled; baseline = some loss }), Verdict.baseline)
      else congest (record j { stalled = stalled }) loss delivered converging

  unfoldable pub judge : LossJudge F → F → F → LossJudge F × Verdict
  unfolding judge_above lower_baseline is_clear end_episode
  judge j loss delivered =
      let j' = lower_baseline j loss in
      if is_clear j' loss then (end_episode j', clear) else judge_above j' loss delivered
