-- ===== src/Controller/Episodes.antt =====
-- What the verdicts of `LossJudge` (src/controller.rs) promise over an episode of loss.
use mathlib.Core.Option
use blastdns.Prelude.{
  ◌≤◌, ◌≡◌, ◌≢◌, ◌⊎◌, inl, inr, Bool, true, false, Option, none, some, is_some, arith,
}
use blastdns.Float.{Float, OrderLaws}
use blastdns.Controller.Judge.{
  LossJudge, Verdict, congested, clear, baseline, judge, is_clear, lower_baseline,
}

-- Between two windows: one stalled window at most, and the two bests are known together.
pub record IsWellFormed {F : Type 0} (j : LossJudge F) : Type 0 where
  pub stalled_once : j.stalled ≤ 1
  pub together : is_some j.best ≡ is_some j.best_delivered
  pub fresh : is_some j.best ≡ false → j.stalled ≡ 0

abbrev pub is_congested : Verdict → Bool
is_congested (congested c) = true
is_congested _ = false

module _ (f64 : Float) where
  open f64 use {F}

  -- Every window keeps the judge well-formed: at most one window has stalled, the best loss and the
  -- best delivery are known together, and none has stalled outside an episode.
  pub judge-IsWellFormed :
      (j : LossJudge F) (loss delivered : F)
      → IsWellFormed j
      → IsWellFormed (judge f64 j loss delivered).0
  unfolding judge
  judge-IsWellFormed j loss delivered w = ground arith

  -- An episode is open after a window exactly if the verdict was `congested`.
  pub judge-best :
      (j : LossJudge F) (loss delivered : F)
      → is_some (judge f64 j loss delivered).0.best ≡ is_congested (judge f64 j loss delivered).1
  unfolding judge
  judge-best j loss delivered = ground arith

  -- In an episode that is under way, with a well-formed judge: after a window that is congested and
  -- not converging, the next window is not congested and not converging again.
  pub judge-judge_stall :
      (j : LossJudge F) (loss delivered loss' delivered' : F)
      → IsWellFormed j
      → is_some j.best ≡ true
      → (judge f64 j loss delivered).1 ≡ congested false
      → (judge f64 (judge f64 j loss delivered).0 loss' delivered').1 ≢ congested false
  unfolding judge
  judge-judge_stall j loss delivered loss' delivered' w b h = ground arith

module _ (f64 : Float) (laws : OrderLaws f64) where
  open f64 use {F}
  open laws use {IsNumber}

  abbrev pub IsBelow : Option F → F → Type 0
  IsBelow none loss = Unit
  IsBelow (some b) loss = f64.le b loss ≡ true

  lower_min-IsBelow :
      (o : Option F) (loss : F) → IsNumber loss → IsBelow (Option.map (λ b. f64.min b loss) o) loss
  lower_min-IsBelow none loss n = tt
  lower_min-IsBelow (some b) loss n = laws.min-le_right b loss n

  judge_baseline_cases :
      (j : LossJudge F) (loss delivered : F)
      → let (j', v) = judge f64 j loss delivered in
        ((v ≡ baseline) × (j'.baseline ≡ some loss))
        ⊎ ((v ≢ baseline) × (j'.baseline ≡ Option.map (λ b. f64.min b loss) j.baseline))
  unfolding judge
  judge_baseline_cases j loss delivered = ground arith

  -- After any window whose loss is a number, the baseline, if there is one, is no higher than that
  -- loss.
  pub judge-IsBelow :
      (j : LossJudge F) (loss delivered : F)
      → IsNumber loss
      → IsBelow (judge f64 j loss delivered).0.baseline loss
  judge-IsBelow j loss delivered n = elim (judge_baseline_cases j loss delivered) [
    | inl (v, e) ↦ rw e (laws.le_refl loss n)
    | inr (v, e) ↦ rw e (lower_min-IsBelow j.baseline loss n)
  ]

  -- Only a `Baseline` verdict raises the baseline: after any other, it is there exactly if it was,
  -- and no higher than before. (The old baseline is a number.)
  pub judge_baseline_falls :
      (j : LossJudge F) (loss delivered b : F)
      → IsNumber b
      → j.baseline ≡ some b
      → (judge f64 j loss delivered).1 ≢ baseline
      → (b' : F) × ((judge f64 j loss delivered).0.baseline ≡ some b') × (f64.le b' b ≡ true)
  judge_baseline_falls j loss delivered b n e h = elim (judge_baseline_cases j loss delivered) [
    | inl (v, _) ↦ absurd (h v)
    | inr (_, e') ↦ (f64.min b loss, rw (e', e), laws.min-le_left b loss n)
  ]

  is_clear_at_baseline :
      (j : LossJudge F) (loss loss' : F)
      → IsNumber loss'
      → j.baseline ≡ some loss
      → f64.le loss' loss ≡ true
      → is_clear f64 (lower_baseline f64 j loss') loss' ≡ true
  unfolding is_clear lower_baseline
  is_clear_at_baseline j loss loss' n e h = rw e (
      laws.le_trans _ _ _ (laws.le_min loss loss' loss' h (laws.le_refl loss' n))
        (laws.le-add_lit _ 2 100 (laws.min-IsNumber loss loss' n)))

  judge_of_clear :
      (j : LossJudge F) (loss delivered : F)
      → is_clear f64 (lower_baseline f64 j loss) loss ≡ true
      → (judge f64 j loss delivered).1 ≡ clear
  unfolding judge
  judge_of_clear j loss delivered h = ground arith

  -- Once a loss has become the baseline, the next window with at most that loss is `Clear`,
  -- whatever it delivered, if that loss is a number: loss that retreating cannot move stops causing
  -- retreats.
  pub judge-judge_settled :
      (j : LossJudge F) (loss delivered loss' delivered' : F)
      → IsNumber loss'
      → (judge f64 j loss delivered).1 ≡ baseline
      → f64.le loss' loss ≡ true
      → (judge f64 (judge f64 j loss delivered).0 loss' delivered').1 ≡ clear
  judge-judge_settled j loss delivered loss' delivered' n h le =
      elim (judge_baseline_cases j loss delivered) [
        | inl (_, e) ↦ judge_of_clear _ loss' delivered' (is_clear_at_baseline _ loss loss' n e le)
        | inr (v, _) ↦ absurd (v h)
      ]
