-- ===== src/Controller/Floors.antt =====
-- The pacing of one resolver under `AdaptiveController::tick` (src/controller.rs): it never panics,
-- and stays between one query per second and one per nanosecond.

use blastdns.Prelude.{
  inl, inr, ℕ, ◌-◌, ◌≤◌, ◌≡◌, refl, Bool, true, false, ◌&&◌, Option, none, some, leb, ltb,
  if◌then◌else◌, arith, Bool-cases,
}
use blastdns.Float.{Float, OrderLaws}
use blastdns.Brake.{retreat}
use blastdns.Controller.Judge.{Verdict, congested, clear, baseline, end_episode}
use blastdns.Controller.Resolver.{
  Edge, Track, edge_ttl, min_samples, growth, min_rate_qps, as_secs, below_edge, with_rate, climb,
  relax_edge, relax, next_edge, step_down, undo_step, act, gather, observe, is_open, judge_window,
  tick_resolver,
}
use blastdns.Health
use blastdns.Health.{ResolverHealth}
use blastdns.Limiter

module _ (f64 : Float) where
  open f64 use {F}

  -- A rate that a retreat can be undone to.
  abbrev pub IsUndoable : Option (Option (Edge F) × F) → Type 0
  IsUndoable none = Unit
  IsUndoable (some (edge, rate)) = f64.le (f64.lit 1 1) rate ≡ true

  pub record IsPaced {S : Type 0} (t : Track F) (h : ResolverHealth S) : Type 0 where
    pub low : 1 ≤ h.limiter.interval_ns
    pub high : h.limiter.interval_ns ≤ 1000000000
    pub undoable : IsUndoable t.undo

  -- No panic, and a paced resolver.
  abbrev pub IsDone : {S : Type 0} → Option (Track F × ResolverHealth S) → Type 0
  IsDone {S} o = (t : Track F) × (h : ResolverHealth S) × (o ≡ some (t, h)) × IsPaced t h

module _ (f64 : Float) (laws : OrderLaws f64) where
  open f64 use {F}

  abbrev one : F
  one = f64.lit 1 1

  zero_lt : (q : F) → f64.le one q ≡ true → f64.lt (f64.lit 0 1) q ≡ true
  zero_lt q h = laws.lt_of_lt_of_le (f64.lit 0 1) one q (laws.lit_pos 1 (omega arith)) h

  billion_le : (q : F) → f64.le q (f64.lit 1000000000 1) ≡ true → f64.to_u64 q ≤ 1000000000
  billion_le q h =
      omega (
        arith,
        laws.to_u64_mono q (f64.lit 1000000000 1) h,
        laws.to_u64-lit 1000000000 (omega arith),
      )

  one_le : (q : F) → f64.le one q ≡ true → 1 ≤ f64.to_u64 q
  one_le q h = omega (arith, laws.to_u64_mono one q h, laws.to_u64-lit 1 (omega arith))

  pub interval_for_range :
      (q : F)
      → f64.le one q ≡ true
      → (i : ℕ) × (Limiter.interval_for f64 q ≡ some i) × (1 ≤ i) × (i ≤ 1000000000)
  unfolding Limiter.interval_for
  interval_for_range q h =
      let r = f64.round (f64.div (f64.lit 1000000000 1) q) in
      (
        f64.to_u64 (f64.max r one),
        rw (zero_lt q h),
        one_le _ (laws.le-max_right r one (laws.lit-IsNumber 1 1)),
        billion_le _ (
            laws.max_le r one _ (laws.interval_of_rate q h)
              (laws.lit_mono 1 1000000000 (omega arith))),
      )

  below_edge-le : (e : Edge F) → f64.le (f64.lit 1 1) (below_edge f64 e) ≡ true
  unfolding below_edge
  below_edge-le e = laws.le-max_right _ (min_rate_qps f64) (laws.lit-IsNumber 1 1)

module _ (f64 : Float) (laws : OrderLaws f64) {S : Type 0} where
  open f64 use {F}

  with_rate-IsDone :
      (t : Track F) (h : ResolverHealth S) (qps : F)
      → f64.le (f64.lit 1 1) qps ≡ true
      → IsUndoable f64 t.undo
      → IsDone f64 (with_rate f64 t h qps)
  unfolding Health.set_rate Limiter.set_rate
  with_rate-IsDone t h qps p u =
      let (i, e, low, high) = interval_for_range f64 laws qps p in
      (
        t,
        record h { limiter = record h.limiter { interval_ns = i } },
        rw e,
        record { low = low; high = high; undoable = u },
      )

  rate-le :
      (t : Track F) (h : ResolverHealth S)
      → IsPaced f64 t h
      → f64.le (f64.lit 1 1) (Limiter.rate f64 h.limiter) ≡ true
  unfolding Limiter.rate
  rate-le t h p = laws.rate_of_interval h.limiter.interval_ns p.low p.high

  climb-IsDone :
      (t : Track F) (h : ResolverHealth S) (e : Edge F)
      → IsPaced f64 t h
      → IsDone f64 (climb f64 t h e)
  unfolding climb
  climb-IsDone t h e p =
      elim (Bool-cases (f64.lt (Limiter.rate f64 h.limiter) (below_edge f64 e))) [
        | inl c ↦
            let rate = Limiter.rate f64 h.limiter in
            let r = rate-le t h p in
            rw c (
              with_rate-IsDone t h (f64.min (f64.mul rate (growth f64)) (below_edge f64 e))
                (laws.le_min _ _ _
                  (laws.le_trans _ _ _ r (
                    laws.le-mul_lit rate 125 100 (omega arith) (omega arith)
                      (zero_lt f64 laws rate r)))
                  (below_edge-le f64 laws e))
                p.undoable)
        | inr c ↦ rw c (t, h, refl, p)
      ]

  relax_edge-IsDone :
      (t : Track F) (h : ResolverHealth S) (e : Option (Edge F)) (now : ℕ)
      → IsPaced f64 t h
      → IsDone f64 (relax_edge f64 t h e now)
  unfolding relax_edge
  relax_edge-IsDone t h none now p = (t, h, refl, p)
  relax_edge-IsDone t h (some e) now p = elim (Bool-cases (leb edge_ttl (now - e.seen_at))) [
    | inl c ↦ rw c (
        with_rate-IsDone (record t { edge = none; judge = end_episode t.judge }) h
          (Limiter.unlimited_qps f64) (laws.lit_mono 1 1000000000 (omega arith)) p.undoable)
    | inr c ↦ rw c (climb-IsDone t h e p)
  ]

  relax-IsDone :
      (t : Track F) (h : ResolverHealth S) (now : ℕ)
      → IsPaced f64 t h
      → IsDone f64 (relax f64 t h now)
  unfolding relax
  relax-IsDone t h now p = relax_edge-IsDone t h t.edge now p

  step_down-IsDone :
      (t : Track F) (h : ResolverHealth S) (converging : Bool) (observed : F) (now : ℕ)
      → IsPaced f64 t h
      → IsDone f64 (step_down f64 t h converging observed now)
  unfolding step_down
  step_down-IsDone t h converging observed now p =
      let rate = Limiter.rate f64 h.limiter in
      let shaped = t.stepped && f64.le (f64.mul (retreat f64) rate) observed in
      let edge = next_edge f64 t.edge (converging && shaped) observed rate now in
      with_rate-IsDone _ h (below_edge f64 edge) (below_edge-le f64 laws edge) (kept _)
    where
      kept :
          (b : Bool)
          → IsUndoable f64 (if b then some (t.edge, Limiter.rate f64 h.limiter) else t.undo)
      kept true = rate-le t h p
      kept false = p.undoable

  undo_step-IsDone :
      (t : Track F) (h : ResolverHealth S) (stepped : Bool) (u : Option (Option (Edge F) × F))
      → IsUndoable f64 u
      → IsPaced f64 t h
      → IsDone f64 (undo_step f64 t h stepped u)
  unfolding undo_step
  undo_step-IsDone t h false u k p = (t, h, refl, p)
  undo_step-IsDone t h true none k p = (t, h, refl, p)
  undo_step-IsDone t h true (some (edge, rate)) k p =
      with_rate-IsDone (record t { edge = edge; undo = none }) h rate k tt

  act-IsDone :
      (t : Track F) (h : ResolverHealth S) (v : Verdict) (observed : F) (now : ℕ)
      → IsPaced f64 t h
      → IsDone f64 (act f64 t h v observed now)
  unfolding act
  act-IsDone t h clear observed now p =
      relax-IsDone (record t { stepped = false }) h now
        (record { low = p.low; high = p.high; undoable = p.undoable })
  act-IsDone t h baseline observed now p =
      undo_step-IsDone (record t { stepped = false }) h t.stepped t.undo p.undoable
        (record { low = p.low; high = p.high; undoable = p.undoable })
  act-IsDone t h (congested c) observed now p = step_down-IsDone t h c observed now p

  -- The invariant does not mention the rest of the track.
  same_undo :
      (t t' : Track F) (h : ResolverHealth S)
      → t'.undo ≡ t.undo
      → IsPaced f64 t h
      → IsPaced f64 t' h
  same_undo t t' h e p = record { low = p.low; high = p.high; undoable = rw e p.undoable }

  judge_window-IsDone :
      (t : Track F) (h : ResolverHealth S) (now : ℕ)
      → IsPaced f64 t h
      → IsDone f64 (judge_window f64 t h now)
  unfolding judge_window
  judge_window-IsDone t h now p = elim (Bool-cases (ltb t.window.attempted min_samples)) [
    | inl c ↦ rw c (relax-IsDone _ h now (same_undo t _ h refl p))
    | inr c ↦ rw c (act-IsDone _ h _ _ now (same_undo t _ h refl p))
  ]

  -- Whatever the resolver's counters say, at whatever time: a tick does not panic, and leaves the
  -- resolver paced at an interval between a nanosecond and a second, if it was so before.
  pub tick_resolver-IsDone :
      (t : Track F) (h : ResolverHealth S) (seconds : F) (now : ℕ)
      → IsPaced f64 t h
      → IsDone f64 (tick_resolver f64 t h seconds now)
  unfolding tick_resolver
  tick_resolver-IsDone t h seconds now p =
      let t' = gather f64 t (observe h) seconds in
      let p' : IsPaced f64 t' h = same_undo t _ h gathered p in
      elim (Bool-cases (is_open f64 t' (as_secs f64 h.request_timeout))) [
        | inl c ↦ rw c (relax-IsDone t' h now p')
        | inr c ↦ rw c (judge_window-IsDone t' h now p')
      ]
    where
      gathered : (gather f64 t (observe h) seconds).undo ≡ t.undo
      gathered = refl
