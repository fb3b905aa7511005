-- ===== src/Controller/Settling.antt =====
-- A tick of `AdaptiveController` (src/controller.rs) over the whole pool.
use blastdns.Prelude.{inl, inr, ℕ, ◌≡◌, refl, none, some, List, [], ◌∷◌, leb, Bool-cases, is_some}
use blastdns.Float.{Float, OrderLaws}
use blastdns.Brake.{AttemptBrake}
use blastdns.Brake.Limits
use blastdns.Controller.Ceiling
use blastdns.Controller.Floors
use blastdns.Controller.Global.{GlobalRate, Outcomes}
use blastdns.Controller.Resolver
use blastdns.Controller.Resolver.{Track}
use blastdns.Controller.Tick.{
  AdaptiveController, Totals, tick_resolvers, tick_attempts, unsettle, tick, total, no_totals,
  attempt_min_resolvers,
}
use blastdns.Health.{ResolverHealth}
use blastdns.Limiter

module _ (f64 : Float) where
  open f64 use {F}

  -- A track for each resolver, and all of them paced.
  abbrev pub ArePaced : {S : Type 0} → List (Track F) → List (ResolverHealth S) → Type 0
  ArePaced [] [] = Unit
  ArePaced (t ∷ ts) (h ∷ hs) = Floors.IsPaced f64 t h × ArePaced ts hs
  ArePaced _ _ = ⊥

module _ (f64 : Float) (laws : OrderLaws f64) {S : Type 0} where
  open f64 use {F}

  pub record IsInOrder (c : AdaptiveController S F) (hs : List (ResolverHealth S)) : Type 0 where
    pub paced : ArePaced f64 c.tracks hs
    pub capped : Ceiling.IsCapped f64 laws c.global
    pub sound : Limits.IsSound f64 c.attempts

  tick_resolvers-ArePaced :
      (ts : List (Track F)) (hs : List (ResolverHealth S)) (seconds : F) (now : ℕ) (a : Totals F)
      → ArePaced f64 ts hs
      → (ts' : List (Track F)) × (hs' : List (ResolverHealth S)) × (a' : Totals F) × (tick_resolvers
            f64 ts hs seconds now a
          ≡ some (ts', hs', a'))
        × ArePaced f64 ts' hs'
  unfolding tick_resolvers
  tick_resolvers-ArePaced [] [] seconds now a p = ([], [], a, refl, tt)
  tick_resolvers-ArePaced [] (h ∷ hs) seconds now a p = absurd p
  tick_resolvers-ArePaced (t ∷ ts) [] seconds now a p = absurd p
  tick_resolvers-ArePaced (t ∷ ts) (h ∷ hs) seconds now a p =
      let (t', h', e, q) = Floors.tick_resolver-IsDone f64 laws t h seconds now p.0 in
      let (ts', hs', a', e', q') =
        tick_resolvers-ArePaced ts hs seconds now (total f64 a t h) p.1 in
      (t' ∷ ts', h' ∷ hs', a', rw (e, e'), (q, q'))

  unsettle-IsSound :
      (b : AttemptBrake S F) (g g' : GlobalRate F)
      → Limits.IsSound f64 b
      → Limits.IsSound f64 (unsettle f64 b g g')
  unfolding unsettle
  unsettle-IsSound b g g' h =
      elim (Bool-cases (f64.eq (Limiter.rate f64 g'.limiter) (Limiter.rate f64 g.limiter))) [
        | inl e ↦ rw e h
        | inr e ↦ rw e (record {
          synced = h.synced;
          floored = h.floored;
          window_min = h.window_min;
          window_max = h.window_max;
          probing = h.probing;
        })
      ]

  tick_attempts-IsSound :
      (b : AttemptBrake S F) (a : Totals F) (seconds : F) (now : ℕ)
      → Limits.IsSound f64 b
      → Limits.IsSound f64 (tick_attempts f64 b a seconds now)
  unfolding tick_attempts
  tick_attempts-IsSound b a seconds now h =
      elim (Bool-cases (leb attempt_min_resolvers a.responsive)) [
        | inl e ↦ rw e (
            Limits.tick-IsSound f64 laws b seconds a.attempted a.lost a.responded a.longest_timeout
              now h)
        | inr e ↦ rw e (elim (Bool-cases (is_some b.limit)) [
          | inl l ↦ rw l (Limits.set_limit-IsSound f64 laws b none h)
          | inr l ↦ rw l h
        ])
      ]

  -- A tick of a controller in order never panics, whatever the counters, the outcomes and the clock
  -- say, and leaves it in order: every resolver is paced at an interval between a nanosecond and
  -- a second, the global rate is positive and within the cap, and the attempt pacer has the brake's
  -- limit, at or above its floor. The ceiling stays what it was.
  pub tick-IsInOrder :
      (c : AdaptiveController S F) (hs : List (ResolverHealth S)) (elapsed now : ℕ)
      (outcomes : Outcomes)
      → IsInOrder c hs
      → (c' : AdaptiveController S F) × (hs' : List (ResolverHealth S)) × (tick f64 c hs elapsed now
            outcomes
          ≡ some (c', hs'))
        × (c'.global.ceiling ≡ c.global.ceiling)
        × IsInOrder c' hs'
  unfolding tick
  tick-IsInOrder c hs elapsed now outcomes h =
      let seconds = f64.max (Resolver.as_secs f64 elapsed) (f64.lit 1 1000000) in
      let (ts', hs', a, e, p) =
        tick_resolvers-ArePaced c.tracks hs seconds now (no_totals f64) h.paced in
      let (g, e', same, k) =
        Ceiling.adjust_global-IsDone f64 laws c.global seconds a.attempted outcomes h.capped in
      (
        record {
          global = g;
          tracks = ts';
          attempts = tick_attempts f64 (unsettle f64 c.attempts c.global g) a seconds now;
        },
        hs',
        rw (e, e'),
        same,
        record {
          paced = p;
          capped = k;
          sound =
              tick_attempts-IsSound _ a seconds now
                (unsettle-IsSound c.attempts c.global g h.sound);
        },
      )
