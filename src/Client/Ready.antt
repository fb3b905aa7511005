-- ===== src/Client/Ready.antt =====
-- What a client that `with_config` (src/client.rs) returns is ready for.
use mathlib.Core.Option
use blastdns.Prelude.{
  ◌≡◌, ◌⊎◌, ◌<◌, inl, inr, refl, ap, sym, max, Bool, true, false, Option, none, some, List, [], ◌∷◌,
  arith, map, ltb, is_some, unwrap_or, Option-cases, Bool-cases,
}
use blastdns.Cache
use blastdns.Cache.{SimpleCache, CacheEntry, Query}
use blastdns.Client.Build.{System, checked, build, joined, with_config, BlastDnsClient, cache_of}
use blastdns.Client.Checks.{IsFinal, Ensures, IsChecked, checked-IsChecked}
use blastdns.Config.{BlastDnsConfig}
use blastdns.Controller.Startup.{unlimited_new, limiter_new-some}
use blastdns.Dns.{Dns}
use blastdns.Error.{Result, ok, err}
use blastdns.Float.{Float, OrderLaws}
use blastdns.Health
use blastdns.Health.{ResolverHealth}
use blastdns.Limiter
use blastdns.Limiter.{RateLimiter}
use blastdns.Lru.{Lru}
use blastdns.Net.{Text, SocketAddr}
use blastdns.Pool
use blastdns.Pool.{ResolverPool, all_built}
use blastdns.Pool.Made.{new-fresh, all_built-cons, pool_new-some, pool_new-none}
use blastdns.Semaphore.{Semaphore}

module _ (f64 : Float) (sem : Semaphore) where
  open f64 use {F}
  open sem use {S}

  all_built-resolver :
      (as' : List SocketAddr) (config : BlastDnsConfig F) (hs : List (ResolverHealth S))
      → all_built f64 (map (λ a. Health.new f64 sem a config) as') ≡ some hs
      → map (λ h. h.resolver) hs ≡ as'
  all_built-resolver [] config hs e = rw (← Option.some-injective [] hs e) refl
  all_built-resolver (a ∷ as') config hs e =
      let (h, hs', made, rest, same) = all_built-cons f64 sem _ _ hs e in
      let (l, _, fresh) = new-fresh f64 sem a config h made in
      let address : h.resolver ≡ a = ap (λ (r : ResolverHealth S). r.resolver) (sym fresh) in
      rw (← same, address, all_built-resolver as' config hs' rest) refl

module _ (f64 : Float) (laws : OrderLaws f64) (sem : Semaphore) (dns : Dns)
    (lru : Lru (Query dns) (CacheEntry dns.Response)) where
  open f64 use {F}
  open sem use {S}

  -- The client is for this configuration, its checks passed, it has one resolver in its pool for
  -- every address, and a cache exactly if the configuration gives one room.
  pub record IsReady (sys : System) (resolvers : List Text) (config : BlastDnsConfig F)
      (c : BlastDnsClient f64 sem dns lru) : Type 0 where
    pub checks : IsChecked config sys resolvers c.resolvers
    pub configured : c.config ≡ config
    pub pool : map (λ h. h.resolver) c.pool.resolvers ≡ c.resolvers
    pub cached : is_some c.cache ≡ ltb 0 config.cache_capacity

  -- The configuration asks for more than a semaphore has permits, or than there is memory for.
  abbrev pub IsTooLarge : System → BlastDnsConfig F → Type 0
  IsTooLarge sys config =
      (sem.max_permits < max config.max_inflight_per_resolver 1)
      ⊎ ((sys.queue_fits (max config.max_concurrency 1) ≡ false)
          ⊎ ((0 < config.cache_capacity) × (lru.new (max config.cache_capacity 1) ≡ none)))

  abbrev pub Outcome :
      System
      → List Text
      → BlastDnsConfig F
      → Option (Result (BlastDnsClient f64 sem dns lru))
      → Type 0
  Outcome sys resolvers config (some (ok c)) = IsReady sys resolvers config c
  Outcome sys resolvers config (some (err e)) = IsFinal e
  Outcome sys resolvers config none =
      IsTooLarge sys config × (parsed : List SocketAddr) × IsChecked config sys resolvers parsed

  cache_of-some :
      (config : BlastDnsConfig F) (k : Option (SimpleCache lru.C))
      → cache_of f64 sem dns lru config ≡ some k
      → is_some k ≡ ltb 0 config.cache_capacity
  cache_of-some config k e = elim (Bool-cases (ltb 0 config.cache_capacity)) [
    | inr b ↦ rw (b, ← Option.some-injective none k (rw b at e)) refl
    | inl b ↦
        elim (Option-cases
          (Cache.new dns lru config.cache_capacity config.cache_min_ttl config.cache_max_ttl)) [
            | inl n ↦ absurd (Option.none-ne-some k (rw (b, n) at e))
            | inr (c, n) ↦ rw (b, ← Option.some-injective (some c) k (rw (b, n) at e)) refl
          ]
  ]

  cache_of-none :
      (config : BlastDnsConfig F)
      → cache_of f64 sem dns lru config ≡ none
      → (0 < config.cache_capacity) × (lru.new (max config.cache_capacity 1) ≡ none)
  unfolding Cache.new
  cache_of-none config e = elim (Bool-cases (ltb 0 config.cache_capacity)) [
    | inr b ↦ absurd (Option.none-ne-some _ (sym (rw b at e)))
    | inl b ↦ elim (Option-cases (lru.new (max config.cache_capacity 1))) [
      | inl n ↦ (ground arith, n)
      | inr (c, n) ↦ absurd (Option.none-ne-some _ (sym (rw (b, Cache.new, n) at e)))
    ]
  ]

  joined-Outcome :
      (sys : System) (resolvers : List Text) (config : BlastDnsConfig F) (parsed : List SocketAddr)
      (l : RateLimiter) (p : Option (ResolverPool S)) (b : Bool)
      (k : Option (Option (SimpleCache lru.C)))
      → IsChecked config sys resolvers parsed
      → Pool.new f64 sem parsed config ≡ p
      → sys.queue_fits (max config.max_concurrency 1) ≡ b
      → cache_of f64 sem dns lru config ≡ k
      → Outcome sys resolvers config (joined f64 sem dns lru parsed config p (some l) b k)
  joined-Outcome sys resolvers config parsed l none b k h m q n =
      let (u, made, _, _) = unlimited_new f64 laws sem in
      (inl (pool_new-none f64 sem parsed config u made m), parsed, h)
  joined-Outcome sys resolvers config parsed l (some pool) false k h m q n =
      (inr (inl q), parsed, h)
  joined-Outcome sys resolvers config parsed l (some pool) true none h m q n =
      (inr (inr (cache_of-none config n)), parsed, h)
  joined-Outcome sys resolvers config parsed l (some pool) true (some cache) h m q n = record {
    checks = h;
    configured = refl;
    pool =
        all_built-resolver f64 sem parsed config pool.resolvers
          (pool_new-some f64 sem parsed config pool m);
    cached = cache_of-some config cache n;
  }

  build-Outcome :
      (sys : System) (resolvers : List Text) (config : BlastDnsConfig F)
      (r : Result (List SocketAddr))
      → f64.lt (f64.lit 0 1) (unwrap_or config.rate_limit (Limiter.unlimited_qps f64)) ≡ true
      → Ensures (IsChecked config sys resolvers) r
      → Outcome sys resolvers config (build f64 sem dns lru sys config r)
  build-Outcome sys resolvers config (err e) positive h = h
  build-Outcome sys resolvers config (ok parsed) positive h =
      let (i, _, limited) =
        limiter_new-some f64 laws sem (unwrap_or config.rate_limit (Limiter.unlimited_qps f64))
          positive in
      rw limited (joined-Outcome sys resolvers config parsed _ _ _ _ h refl refl refl)

  pub with_config-Outcome :
      (sys : System) (resolvers : List Text) (config : BlastDnsConfig F)
      → f64.lt (f64.lit 0 1) (unwrap_or config.rate_limit (Limiter.unlimited_qps f64)) ≡ true
      → Outcome sys resolvers config (with_config f64 sem dns lru sys resolvers config)
  unfolding with_config
  with_config-Outcome sys resolvers config positive =
      build-Outcome sys resolvers config (checked config sys resolvers) positive
        (checked-IsChecked config sys resolvers)
