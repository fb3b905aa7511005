-- ===== src/Client/Started.antt =====
-- A client of src/client.rs once its workers run: `with_config`, then `ensure_workers`, and the
-- controller (src/controller.rs) beside the workers.
use mathlib.Core.Option
use mathlib.Core.Path.{subst}
use blastdns.Prelude.{
  ◌≡◌, ◌∙◌, refl, ap, sym, max, Bool, true, false, Option, none, some, List, length, unwrap_or,
  if◌then◌else◌,
}
use blastdns.Cache.{SimpleCache, CacheEntry, Query}
use blastdns.Client.Build.{
  System, BlastDnsClient, assemble, joined, build, checked, with_config, ensure_workers, started,
}
use blastdns.Config.{BlastDnsConfig, BlastDnsConfigWire, from}
use blastdns.Controller.Runs.{Event, run, start-run-IsInOrder}
use blastdns.Controller.Settling.{IsInOrder}
use blastdns.Controller.Startup.{start, ceiling}
use blastdns.Controller.Tick
use blastdns.Controller.Tick.{AdaptiveController}
use blastdns.Dns.{Dns}
use blastdns.Error.{Result, ok, err}
use blastdns.Float.{Float, OrderLaws}
use blastdns.Health.{ResolverHealth}
use blastdns.Limiter
use blastdns.Limiter.{RateLimiter}
use blastdns.Lru.{Lru}
use blastdns.Net.{Text, SocketAddr}
use blastdns.Pacer
use blastdns.Pool
use blastdns.Pool.{ResolverPool}
use blastdns.Semaphore.{Semaphore}

chosen : {A : Type 0} (b : Bool) (x : A) → b ≡ true → (if b then some x else none) ≡ some x
chosen true x h = refl
chosen false x h = cc

module _ (f64 : Float) (sem : Semaphore) (dns : Dns)
    (lru : Lru (Query dns) (CacheEntry dns.Response)) where
  open f64 use {F}
  open sem use {S}

  -- The parts of a client that was built.
  pub record Parts (config : BlastDnsConfig F) (c : BlastDnsClient f64 sem dns lru) : Type 0 where
    pub parsed : List SocketAddr
    pub pool : ResolverPool S
    pub limiter : RateLimiter
    pub cache : Option (SimpleCache lru.C)
    pub pooled : Pool.new f64 sem parsed config ≡ some pool
    pub limited :
        Limiter.new f64 (unwrap_or config.rate_limit (Limiter.unlimited_qps f64)) ≡ some limiter
    pub same : assemble f64 sem dns lru parsed config pool limiter cache ≡ c

  joined-Parts :
      (config : BlastDnsConfig F) (parsed : List SocketAddr) (p : Option (ResolverPool S))
      (l : Option RateLimiter) (queued : Bool) (k : Option (Option (SimpleCache lru.C)))
      (c : BlastDnsClient f64 sem dns lru)
      → Pool.new f64 sem parsed config ≡ p
      → Limiter.new f64 (unwrap_or config.rate_limit (Limiter.unlimited_qps f64)) ≡ l
      → joined f64 sem dns lru parsed config p l queued k ≡ some (ok c)
      → Parts config c
  joined-Parts config parsed none l queued k c m n h = cc
  joined-Parts config parsed (some pool) none queued k c m n h = cc
  joined-Parts config parsed (some pool) (some limiter) false k c m n h = cc
  joined-Parts config parsed (some pool) (some limiter) true none c m n h = cc
  joined-Parts config parsed (some pool) (some limiter) true (some cache) c m n h = record {
    parsed = parsed;
    pool = pool;
    limiter = limiter;
    cache = cache;
    pooled = m;
    limited = n;
    same = cc;
  }

  pub build-Parts :
      (sys : System) (config : BlastDnsConfig F) (r : Result (List SocketAddr))
      (c : BlastDnsClient f64 sem dns lru)
      → build f64 sem dns lru sys config r ≡ some (ok c)
      → Parts config c
  build-Parts sys config (err e) c h = cc
  build-Parts sys config (ok parsed) c h = joined-Parts config parsed _ _ _ _ c refl refl h

module _ (f64 : Float) (laws : OrderLaws f64) (sem : Semaphore) (dns : Dns)
    (lru : Lru (Query dns) (CacheEntry dns.Response)) where
  open f64 use {F}
  open sem use {S}

  start_lem :
      {A : Type 0} (config : BlastDnsConfig F) (parsed : List SocketAddr) (pool : ResolverPool S)
      (limiter : RateLimiter) (cache : Option (SimpleCache lru.C)) (answers : List (Result A))
      → Pool.new f64 sem parsed config ≡ some pool
      → Limiter.new f64 (ceiling f64 sem config) ≡ some limiter
      → start f64 sem parsed config answers
        ≡ some (
          Tick.new f64 (length pool.resolvers) limiter (Pacer.new f64 sem) (ceiling f64 sem config),
          (started f64 sem dns lru
              (assemble f64 sem dns lru parsed config pool limiter cache)
              answers).pool,
        )
  unfolding start
  start_lem config parsed pool limiter cache answers m n = rw (start, m, n) refl

  -- The workers run beside a controller, which stays in order whatever happens next.
  abbrev pub Steered :
      {A : Type 0}
      → BlastDnsConfigWire F
      → BlastDnsClient f64 sem dns lru
      → List (Result A)
      → List (Result A)
      → List Event
      → Type 0
  Steered w c answers again es =
      let c' = ensure_workers f64 sem dns lru c answers in
      (ctl : AdaptiveController S F) × (c'.workers_spawned
        ≡ some (record { controller = some ctl; workers = max (max w.max_concurrency 1) 1 }))
      × (ensure_workers f64 sem dns lru c' again ≡ c')
      × (ctl' : AdaptiveController S F) × (hs' : List (ResolverHealth S)) × (run f64 ctl
            c'.pool.resolvers es
          ≡ some (ctl', hs'))
      × (ctl'.global.ceiling ≡ ceiling f64 sem (from f64 w))
      × IsInOrder f64 laws ctl' hs'

  assemble-Steered :
      {A : Type 0} (w : BlastDnsConfigWire F) (parsed : List SocketAddr) (pool : ResolverPool S)
      (limiter : RateLimiter) (cache : Option (SimpleCache lru.C)) (answers again : List (Result A))
      (es : List Event)
      → w.adaptive ≡ true
      → Pool.new f64 sem parsed (from f64 w) ≡ some pool
      → Limiter.new f64 (ceiling f64 sem (from f64 w)) ≡ some limiter
      → Steered w (assemble f64 sem dns lru parsed (from f64 w) pool limiter cache) answers again es
  unfolding ensure_workers from
  assemble-Steered w parsed pool limiter cache answers again es adaptive m n =
      let config = from f64 w in
      let (ctl, p, made, ctl', hs', ran, same, ordered) =
        start-run-IsInOrder f64 laws sem parsed w answers es pool m in
      let pair =
        Option.some-injective _ _
          (sym made ∙ start_lem config parsed pool limiter cache answers m n) in
      (
        ctl,
        ap (λ o. some (record { controller = o; workers = max (max w.max_concurrency 1) 1 }))
            (chosen w.adaptive _ adaptive ∙ ap some (sym (ap (λ x. x.0) pair))),
        refl,
        ctl',
        hs',
        ap (λ x. run f64 ctl x.resolvers es) (sym (ap (λ x. x.1) pair)) ∙ ran,
        same,
        ordered,
      )

  -- A client that `with_config` returned for the wire form of a configuration with `adaptive` set:
  -- the first call of `ensure_workers` starts `max_concurrency` workers, one at least, and a
  -- controller; a later call changes nothing. No sequence of recorded queries, slots taken and
  -- ticks makes that controller panic, and after each one every resolver is paced between a
  -- nanosecond and a second apart, the global rate is positive and within the ceiling, which is the
  -- configured rate limit or the unlimited rate, and the attempt pacer has the brake's limit.
  pub with_config-Steered :
      {A : Type 0} (sys : System) (resolvers : List Text) (w : BlastDnsConfigWire F)
      {c : BlastDnsClient f64 sem dns lru} (answers again : List (Result A)) (es : List Event)
      → with_config f64 sem dns lru sys resolvers (from f64 w) ≡ some (ok c)
      → w.adaptive ≡ true
      → Steered w c answers again es
  unfolding with_config
  with_config-Steered sys resolvers w {c} answers again es h adaptive =
      let parts =
        build-Parts f64 sem dns lru sys (from f64 w) (checked (from f64 w) sys resolvers) c h in
      subst (λ x. Steered w x answers again es) parts.same
        (assemble-Steered w parts.parsed parts.pool parts.limiter parts.cache answers again es
          adaptive parts.pooled parts.limited)
