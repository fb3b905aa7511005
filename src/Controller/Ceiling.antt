-- ===== src/Controller/Ceiling.antt =====
-- The global rate of `AdaptiveController` (src/controller.rs) stays within the configured cap.

use blastdns.Prelude.{
  inl, inr, ℕ, ◌≡◌, refl, true, false, Option, none, some, ltb, arith, Bool-cases, unwrap_or,
}
use blastdns.Float.{Float, OrderLaws}
use blastdns.Controller.Judge.{Verdict, congested, clear, baseline}
use blastdns.Controller.Resolver.{growth, min_rate_qps}
use blastdns.Controller.Global.{
  GlobalRate, Outcomes, set_global, lowered, ease, act, gather, adjust_global,
  min_aggregate_samples, max_baseline_loss,
}
use blastdns.Limiter

module _ (f64 : Float) (laws : OrderLaws f64) where
  open f64 use {F}
  open laws use {IsNumber}

  -- A rate that the limiter takes, no higher than the ceiling.
  pub record IsRate (ceiling q : F) : Type 0 where
    pub number : IsNumber q
    pub positive : f64.lt (f64.lit 0 1) q ≡ true
    pub capped : f64.le q ceiling ≡ true

  abbrev pub IsLimit : F → Option F → Type 0
  IsLimit ceiling none = Unit
  IsLimit ceiling (some q) = IsRate ceiling q

  -- The limiter runs at the limit, or at the ceiling while there is none.
  pub record IsCapped (g : GlobalRate F) : Type 0 where
    pub ceiling : IsRate g.ceiling g.ceiling
    pub limit : IsLimit g.ceiling g.limit
    pub applied :
        Limiter.interval_for f64 (unwrap_or g.limit g.ceiling) ≡ some g.limiter.interval_ns

  -- No panic, the same ceiling, and a capped rate.
  abbrev pub IsDone : GlobalRate F → Option (GlobalRate F) → Type 0
  IsDone g o = (g' : GlobalRate F) × (o ≡ some g') × (g'.ceiling ≡ g.ceiling) × IsCapped g'

  pub set_rate-some :
      (l : Limiter.RateLimiter) (q : F)
      → f64.lt (f64.lit 0 1) q ≡ true
      → (i : ℕ) × (Limiter.interval_for f64 q ≡ some i)
        × (Limiter.set_rate f64 l q ≡ some (record l { interval_ns = i }))
  unfolding Limiter.interval_for Limiter.set_rate
  set_rate-some l q h = (
    f64.to_u64 (f64.max (f64.round (f64.div (f64.lit 1000000000 1) q)) (f64.lit 1 1)),
    rw h,
    rw h,
  )

  set_global-some :
      (g : GlobalRate F) (q : F)
      → IsRate g.ceiling g.ceiling
      → IsRate g.ceiling q
      → IsDone g (set_global f64 g (some q) q)
  unfolding set_global
  set_global-some g q c r =
      let (i, e, s) = set_rate-some g.limiter q r.positive in
      (
        record g { limiter = record g.limiter { interval_ns = i }; limit = some q },
        rw s,
        refl,
        record { ceiling = c; limit = r; applied = e },
      )

  set_global-none :
      (g : GlobalRate F) → IsRate g.ceiling g.ceiling → IsDone g (set_global f64 g none g.ceiling)
  unfolding set_global
  set_global-none g c =
      let (i, e, s) = set_rate-some g.limiter g.ceiling c.positive in
      (
        record g { limiter = record g.limiter { interval_ns = i }; limit = none },
        rw s,
        refl,
        record { ceiling = c; limit = tt; applied = e },
      )

  lowered-IsRate :
      (g : GlobalRate F) (observed : F)
      → IsRate g.ceiling g.ceiling
      → IsRate g.ceiling (lowered f64 g observed)
  unfolding lowered
  lowered-IsRate g observed c = record {
    number = laws.min-IsNumber _ g.ceiling c.number;
    positive =
        laws.lt_min _ g.ceiling (f64.lit 0 1)
          (laws.lt_of_lt_of_le (f64.lit 0 1) (min_rate_qps f64) _ (laws.lit_pos 1 (omega arith))
            (laws.le-max_right _ (min_rate_qps f64) (laws.lit-IsNumber 1 1)))
          c.positive;
    capped = laws.min-le_right _ g.ceiling c.number;
  }

  grown-IsRate :
      (ceiling q : F)
      → IsRate ceiling ceiling
      → IsRate ceiling q
      → f64.le ceiling (f64.mul q (growth f64)) ≡ false
      → IsRate ceiling (f64.mul q (growth f64))
  grown-IsRate ceiling q c r h =
      let n = laws.mul_lit-IsNumber q 125 100 (omega arith) (omega arith) r.number in
      record {
        number = n;
        positive =
            laws.lt_of_lt_of_le (f64.lit 0 1) q _ r.positive
              (laws.le-mul_lit q 125 100 (omega arith) (omega arith) r.positive);
        capped = laws.le_of_not-le ceiling _ c.number n h;
      }

  ease-IsDone :
      (g : GlobalRate F) (limit : Option F)
      → IsLimit g.ceiling limit
      → IsCapped g
      → IsDone g (ease f64 g limit)
  unfolding ease
  ease-IsDone g none l h = (g, refl, refl, h)
  ease-IsDone g (some q) l h = elim (Bool-cases (f64.le g.ceiling (f64.mul q (growth f64)))) [
    | inl e ↦ rw e (set_global-none g h.ceiling)
    | inr e ↦ rw e (
        set_global-some g (f64.mul q (growth f64)) h.ceiling
          (grown-IsRate g.ceiling q h.ceiling l e))
  ]

  act-IsDone :
      (g : GlobalRate F) (v : Verdict) (loss observed : F)
      → IsCapped g
      → IsDone g (act f64 g v loss observed)
  unfolding act
  act-IsDone g (congested c) loss observed h =
      set_global-some g (lowered f64 g observed) h.ceiling (lowered-IsRate g observed h.ceiling)
  act-IsDone g clear loss observed h = elim (Bool-cases (f64.lt (max_baseline_loss f64) loss)) [
    | inl e ↦ rw e (g, refl, refl, h)
    | inr e ↦ rw e (ease-IsDone g g.limit h.limit h)
  ]
  act-IsDone g baseline loss observed h = elim (Bool-cases (f64.lt (max_baseline_loss f64) loss)) [
    | inl e ↦ rw e (g, refl, refl, h)
    | inr e ↦ rw e (ease-IsDone g g.limit h.limit h)
  ]

  same_rate :
      (g g' : GlobalRate F)
      → g'.ceiling ≡ g.ceiling
      → g'.limit ≡ g.limit
      → g'.limiter ≡ g.limiter
      → IsCapped g
      → IsCapped g'
  same_rate g g' c l m h = record {
    ceiling = rw c h.ceiling;
    limit = rw (c, l) h.limit;
    applied = rw (c, l, m) h.applied;
  }

  -- Whatever the outcomes: adjusting the global rate never panics, keeps the ceiling, and leaves
  -- the limiter running at the limit, or at the ceiling if there is no limit. The limit is positive
  -- and never above the ceiling.
  pub adjust_global-IsDone :
      (g : GlobalRate F) (seconds : F) (attempted : ℕ) (outcomes : Outcomes)
      → IsCapped g
      → IsDone g (adjust_global f64 g seconds attempted outcomes)
  unfolding adjust_global
  adjust_global-IsDone g seconds attempted outcomes h =
      let g' = gather f64 g seconds attempted outcomes in
      let h' : IsCapped g' = same_rate g _ refl refl refl h in
      elim (Bool-cases (ltb g'.window.attempted min_aggregate_samples)) [
        | inl e ↦ rw e (g', refl, refl, h')
        | inr e ↦ rw e (act-IsDone _ _ _ _ (same_rate g _ refl refl refl h))
      ]
