-- ===== src/Controller/Startup.antt =====
-- How a client starts its parts: the end of `BlastDNSClient::with_config` and `ensure_workers`
-- (src/client.rs), with the startup probe's answers as an argument, for a
-- configuration with `adaptive` set. `none` is a panic.

use mathlib.Core.Option
use mathlib.Core.Path.{subst}
use blastdns.Prelude.{
  ap, sym, ◌∙◌, ℕ, ◌≤◌, ◌≡◌, refl, Bool, true, false, Option, some, List, [], ◌∷◌, arith, length,
  map, replicate, unwrap_or, if◌then◌else◌, ◌>>=◌,
}
use blastdns.Float.{Float, OrderLaws}
use blastdns.Pool.Made.{new-fresh, all_built-cons, pool_new-some}
use blastdns.Semaphore.{Semaphore}
use blastdns.Brake
use blastdns.Config.{BlastDnsConfig}
use blastdns.Controller.Ceiling
use blastdns.Controller.Floors
use blastdns.Controller.Resolver.{Track}
use blastdns.Controller.Settling.{ArePaced, IsInOrder}
use blastdns.Controller.Tick
use blastdns.Controller.Tick.{AdaptiveController}
use blastdns.Error.{Result, ok, err}
use blastdns.Health
use blastdns.Health.{ResolverHealth}
use blastdns.Limiter
use blastdns.Net.{SocketAddr}
use blastdns.Pacer
use blastdns.Pool
use blastdns.Pool.{ResolverPool, all_built}

module _ (f64 : Float) (sem : Semaphore) where
  open f64 use {F}
  open sem use {S}

  abbrev pub ceiling : BlastDnsConfig F → F
  ceiling config = unwrap_or config.rate_limit (Limiter.unlimited_qps f64)

  -- The pool, the limiter and the controller that steers them. `answers` are those of the probe.
  unfoldable pub start :
      {A : Type 0}
      → List SocketAddr
      → BlastDnsConfig F
      → List (Result A)
      → Option (AdaptiveController S F × ResolverPool S)
  unfolding Pool.new Pool.probe Limiter.new Tick.new Pacer.new
  start resolvers config answers = do
    pool ← Pool.new f64 sem resolvers config
    limiter ← Limiter.new f64 (ceiling config)
    let probed =
        if config.resolver_probe then (Pool.probe pool.resolvers answers).0 else pool.resolvers
    some (
      Tick.new f64 (length pool.resolvers) limiter (Pacer.new f64 sem) (ceiling config),
      record pool { resolvers = probed },
    )

module _ (f64 : Float) (laws : OrderLaws f64) (sem : Semaphore) where
  open f64 use {F}
  open sem use {S}

  -- The limiter that every resolver starts with.
  pub unlimited_new :
      (l : Limiter.RateLimiter) × (Limiter.new f64 (Limiter.unlimited_qps f64) ≡ some l)
      × (1 ≤ l.interval_ns)
      × (l.interval_ns ≤ 1000000000)
  unfolding Limiter.new
  unlimited_new =
      let (i, e, low, high) =
        Floors.interval_for_range f64 laws (Limiter.unlimited_qps f64)
          (laws.lit_mono 1 1000000000 (omega arith)) in
      (record { interval_ns = i; next_ns = 0 }, rw e, low, high)

  all_new-ArePaced :
      (as' : List SocketAddr) (config : BlastDnsConfig F) (hs : List (ResolverHealth S))
      → all_built f64 (map (λ a. Health.new f64 sem a config) as') ≡ some hs
      → ArePaced f64 (replicate (length hs) (Tick.new_track f64)) hs
  all_new-ArePaced [] config [] e = tt
  all_new-ArePaced [] config (h ∷ hs) e = cc
  all_new-ArePaced (a ∷ as') config hs e =
      let (h, hs', made, rest, same) = all_built-cons f64 sem _ _ hs e in
      let (l, m, fresh) = new-fresh f64 sem a config h made in
      let (l', m', low, high) = unlimited_new in
      let same_l : l' ≡ l = Option.some-injective l' l (sym m' ∙ m) in
      let limiter : l' ≡ h.limiter = same_l ∙ ap (λ (r : ResolverHealth S). r.limiter) fresh in
      let paced : Floors.IsPaced f64 (Tick.new_track f64) h = record {
        low = rw limiter at low;
        high = rw limiter at high;
        undoable = tt;
      } in
      subst (λ xs. ArePaced f64 (replicate (length xs) (Tick.new_track f64)) xs) same
        (paced, all_new-ArePaced as' config hs' rest)

  pub pool_new-ArePaced :
      (as' : List SocketAddr) (config : BlastDnsConfig F) (pool : ResolverPool S)
      → Pool.new f64 sem as' config ≡ some pool
      → ArePaced f64 (replicate (length pool.resolvers) (Tick.new_track f64)) pool.resolvers
  pool_new-ArePaced as' config pool e =
      all_new-ArePaced as' config pool.resolvers (pool_new-some f64 sem as' config pool e)

  pub limiter_new-some :
      (q : F)
      → f64.lt (f64.lit 0 1) q ≡ true
      → (i : ℕ) × (Limiter.interval_for f64 q ≡ some i)
        × (Limiter.new f64 q ≡ some (record { interval_ns = i; next_ns = 0 }))
  unfolding Limiter.new
  limiter_new-some q h =
      let (i, e, _) =
        Ceiling.set_rate-some f64 laws (record { interval_ns = 0; next_ns = 0 }) q h in
      (i, e, rw e)

  health_probe-IsPaced :
      {A : Type 0} (t : Track F) (h : ResolverHealth S) (a : Result A)
      → Floors.IsPaced f64 t h
      → Floors.IsPaced f64 t (Health.probe h a).0
  unfolding Health.probe
  health_probe-IsPaced t h (ok _) p = record { low = p.low; high = p.high; undoable = p.undoable }
  health_probe-IsPaced t h (err _) p = record { low = p.low; high = p.high; undoable = p.undoable }

  probe-ArePaced :
      {A : Type 0} (ts : List (Track F)) (hs : List (ResolverHealth S)) (answers : List (Result A))
      → ArePaced f64 ts hs
      → ArePaced f64 ts (Pool.probe hs answers).0
  unfolding Pool.probe
  probe-ArePaced ts [] answers p = p
  probe-ArePaced ts (h ∷ hs) [] p = p
  probe-ArePaced [] (h ∷ hs) (a ∷ as') p = absurd p
  probe-ArePaced (t ∷ ts) (h ∷ hs) (a ∷ as') p =
      (health_probe-IsPaced t h a p.0, probe-ArePaced ts hs as' p.1)

  -- Any list of resolvers and any configuration whose rate limit, if there is one, is positive:
  -- once the pool is made, the parts start without a panic, and the controller is in order: every
  -- resolver is paced between a nanosecond and a second apart, the global rate is positive and
  -- within the configured one, and the attempt pacer has the brake's limit.
  pub start-IsInOrder :
      {A : Type 0} (resolvers : List SocketAddr) (config : BlastDnsConfig F)
      (answers : List (Result A)) (pool : ResolverPool S)
      → Pool.new f64 sem resolvers config ≡ some pool
      → f64.lt (f64.lit 0 1) (ceiling f64 sem config) ≡ true
      → (c : AdaptiveController S F) × (p : ResolverPool S) × (start f64 sem resolvers config
            answers
          ≡ some (c, p))
        × (c.global.ceiling ≡ ceiling f64 sem config)
        × IsInOrder f64 laws c p.resolvers
  unfolding start Tick.new Brake.new Pacer.new
  start-IsInOrder resolvers config answers pool e h =
      let hs = pool.resolvers in
      let paced = pool_new-ArePaced resolvers config pool e in
      let top = ceiling f64 sem config in
      let n = laws.number_of_lt (f64.lit 0 1) top h in
      let (i, g, made) = limiter_new-some top h in
      let rate : Ceiling.IsRate f64 laws top top = record {
        number = n;
        positive = h;
        capped = laws.le_refl top n;
      } in
      let probed = if config.resolver_probe then (Pool.probe hs answers).0 else hs in
      (
        Tick.new f64 (length hs) (record { interval_ns = i; next_ns = 0 }) (Pacer.new f64 sem) top,
        record pool { resolvers = probed },
        rw (start, e, made),
        refl,
        record {
          paced = either config.resolver_probe hs paced;
          capped = record { ceiling = rate; limit = tt; applied = g };
          sound = record {
            synced = refl;
            floored = tt;
            window_min = omega arith;
            window_max = omega arith;
            probing = tt;
          };
        },
      )
    where
      either :
          (b : Bool) (hs : List (ResolverHealth S))
          → ArePaced f64 (replicate (length hs) (Tick.new_track f64)) hs
          → ArePaced f64
              (replicate (length hs) (Tick.new_track f64))
              (if b then (Pool.probe hs answers).0 else hs)
      either true hs p = probe-ArePaced (replicate (length hs) (Tick.new_track f64)) hs answers p
      either false hs p = p
