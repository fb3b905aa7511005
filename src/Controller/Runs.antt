-- ===== src/Controller/Runs.antt =====
-- The controller (src/controller.rs) while the workers query (src/worker.rs): any number of ticks,
-- with any queries in between.

use blastdns.Prelude.{
  inl, inr, ℕ, zero, suc, ◌≡◌, ◌∙◌, refl, true, Option, none, some, List, [], ◌∷◌, arith, unwrap_or,
  Bool-cases, ◌>>=◌,
}
use blastdns.Float.{Float, OrderLaws}
use blastdns.Semaphore.{Semaphore}
use blastdns.Config.{BlastDnsConfigWire, from, positive_rate}
use blastdns.Controller.Global.{Outcomes}
use blastdns.Controller.Resolver.{Track}
use blastdns.Controller.Settling.{ArePaced, IsInOrder, tick-IsInOrder}
use blastdns.Controller.Startup.{start, ceiling, start-IsInOrder}
use blastdns.Controller.Tick.{AdaptiveController, tick}
use blastdns.Error.{Result}
use blastdns.Health.{ResolverHealth}
use blastdns.Health.Accounts.{Op, apply, dispatch, truncate, respond, fail}
use blastdns.Limiter
use blastdns.Net.{SocketAddr}
use blastdns.Pool
use blastdns.Pool.{ResolverPool}

-- What happens next: a worker records something at the resolver with this index, a caller takes a
-- slot of that resolver, or the controller ticks.
pub data Event : Type 0 where
  work : ℕ → Op → Event
  take_slot : ℕ → ℕ → Event
  adjust : ℕ → ℕ → Outcomes → Event

module _ {S : Type 0} where
  abbrev pub update :
      List (ResolverHealth S) → ℕ → (ResolverHealth S → ResolverHealth S) → List (ResolverHealth S)
  update [] i f = []
  update (h ∷ hs) zero f = f h ∷ hs
  update (h ∷ hs) (suc i) f = h ∷ update hs i f

  abbrev pub slot_taken : ℕ → ResolverHealth S → ResolverHealth S
  slot_taken now h = record h { limiter = (Limiter.reserve_slot h.limiter now).0 }

module _ (f64 : Float) {S : Type 0} where
  open f64 use {F}

  unfoldable pub step :
      AdaptiveController S F
      → List (ResolverHealth S)
      → Event
      → Option (AdaptiveController S F × List (ResolverHealth S))
  unfolding tick
  step c hs (work i op) = some (c, update hs i (λ h. apply h op))
  step c hs (take_slot i now) = some (c, update hs i (slot_taken now))
  step c hs (adjust elapsed now outcomes) = tick f64 c hs elapsed now outcomes

  unfoldable pub run :
      AdaptiveController S F
      → List (ResolverHealth S)
      → List Event
      → Option (AdaptiveController S F × List (ResolverHealth S))
  unfolding step
  run c hs [] = some (c, hs)
  run c hs (e ∷ es) = do (c', hs') ← step c hs e; run c' hs' es

module _ (f64 : Float) (laws : OrderLaws f64) {S : Type 0} where
  open f64 use {F}

  update-ArePaced :
      (ts : List (Track F)) (hs : List (ResolverHealth S)) (i : ℕ)
      (f : ResolverHealth S → ResolverHealth S)
      → ((h : ResolverHealth S) → (f h).limiter.interval_ns ≡ h.limiter.interval_ns)
      → ArePaced f64 ts hs
      → ArePaced f64 ts (update hs i f)
  update-ArePaced ts [] i f same p = p
  update-ArePaced [] (h ∷ hs) i f same p = absurd p
  update-ArePaced (t ∷ ts) (h ∷ hs) zero f same p = (
    record {
      low = omega (arith, same h, p.0.low);
      high = omega (arith, same h, p.0.high);
      undoable = p.0.undoable;
    },
    p.1,
  )
  update-ArePaced (t ∷ ts) (h ∷ hs) (suc i) f same p = (p.0, update-ArePaced ts hs i f same p.1)

  apply-interval :
      (h : ResolverHealth S) (op : Op) → (apply h op).limiter.interval_ns ≡ h.limiter.interval_ns
  unfolding apply
  apply-interval h dispatch = refl
  apply-interval h truncate = refl
  apply-interval h (respond rtt had_answers now) = ground arith
  apply-interval h (fail is_timeout now) = ground arith

  slot_taken-interval :
      (now : ℕ) (h : ResolverHealth S)
      → (slot_taken now h).limiter.interval_ns ≡ h.limiter.interval_ns
  unfolding Limiter.reserve_slot
  slot_taken-interval now h = refl

  step-IsInOrder :
      (c : AdaptiveController S F) (hs : List (ResolverHealth S)) (e : Event)
      → IsInOrder f64 laws c hs
      → (c' : AdaptiveController S F) × (hs' : List (ResolverHealth S)) × (step f64 c hs e
          ≡ some (c', hs'))
        × (c'.global.ceiling ≡ c.global.ceiling)
        × IsInOrder f64 laws c' hs'
  unfolding step
  step-IsInOrder c hs (work i op) h = (
    c,
    _,
    refl,
    refl,
    record {
      paced = update-ArePaced c.tracks hs i (λ x. apply x op) (λ x. apply-interval x op) h.paced;
      capped = h.capped;
      sound = h.sound;
    },
  )
  step-IsInOrder c hs (take_slot i now) h = (
    c,
    _,
    refl,
    refl,
    record {
      paced = update-ArePaced c.tracks hs i (slot_taken now) (slot_taken-interval now) h.paced;
      capped = h.capped;
      sound = h.sound;
    },
  )
  step-IsInOrder c hs (adjust elapsed now outcomes) h =
      tick-IsInOrder f64 laws c hs elapsed now outcomes h

  pub run-IsInOrder :
      (c : AdaptiveController S F) (hs : List (ResolverHealth S)) (es : List Event)
      → IsInOrder f64 laws c hs
      → (c' : AdaptiveController S F) × (hs' : List (ResolverHealth S)) × (run f64 c hs es
          ≡ some (c', hs'))
        × (c'.global.ceiling ≡ c.global.ceiling)
        × IsInOrder f64 laws c' hs'
  unfolding run
  run-IsInOrder c hs [] h = (c, hs, refl, refl, h)
  run-IsInOrder c hs (e ∷ es) h =
      let (c', hs', s, k, h') = step-IsInOrder c hs e h in
      let (c'', hs'', r, k', h'') = run-IsInOrder c' hs' es h' in
      (c'', hs'', rw (run, s) r, k' ∙ k, h'')

module _ (f64 : Float) (laws : OrderLaws f64) (sem : Semaphore) where
  open f64 use {F}
  open sem use {S}

  pub positive_or_unlimited :
      (o : Option F)
      → f64.lt (f64.lit 0 1) (unwrap_or (positive_rate f64 o) (Limiter.unlimited_qps f64)) ≡ true
  unfolding positive_rate
  positive_or_unlimited none = laws.lit_pos 1000000000 (omega arith)
  positive_or_unlimited (some r) = elim (Bool-cases (f64.lt (f64.lit 0 1) r)) [
    | inl h ↦ rw (h, h)
    | inr h ↦ rw h (laws.lit_pos 1000000000 (omega arith))
  ]

  pub ceiling_positive :
      (w : BlastDnsConfigWire F) → f64.lt (f64.lit 0 1) (ceiling f64 sem (from f64 w)) ≡ true
  unfolding from
  ceiling_positive w = positive_or_unlimited w.rate_limit

  -- Whatever the configuration's wire form holds and whatever the resolvers and the probe's answers
  -- are: once the pool is made, the parts start without a panic, and then no sequence of recorded
  -- queries, slots taken and ticks makes the controller panic. After each such sequence every
  -- resolver is paced between a nanosecond and a second apart, the global rate is positive and
  -- within the ceiling, which is the configured rate limit or the unlimited rate, and the attempt
  -- pacer has the brake's limit. (The controller is that of a client whose `adaptive` is set.)
  pub start-run-IsInOrder :
      {A : Type 0} (resolvers : List SocketAddr) (w : BlastDnsConfigWire F)
      (answers : List (Result A)) (es : List Event) (pool : ResolverPool S)
      → Pool.new f64 sem resolvers (from f64 w) ≡ some pool
      → (c : AdaptiveController S F) × (p : ResolverPool S) × (start f64 sem resolvers
            (from f64 w)
            answers
          ≡ some (c, p))
        × (c' : AdaptiveController S F) × (hs' : List (ResolverHealth S)) × (run f64 c p.resolvers
              es
            ≡ some (c', hs'))
        × (c'.global.ceiling ≡ ceiling f64 sem (from f64 w))
        × IsInOrder f64 laws c' hs'
  start-run-IsInOrder resolvers w answers es pool made =
      let (c, p, s, k, h) =
        start-IsInOrder f64 laws sem resolvers (from f64 w) answers pool made
          (ceiling_positive w) in
      let (c', hs', r, k', h') = run-IsInOrder f64 laws c p.resolvers es h in
      (c, p, s, c', hs', r, k' ∙ k, h')
