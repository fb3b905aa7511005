-- ===== src/Client/Fresh.antt =====
-- The resolvers that a client of src/client.rs has when its workers start: what
-- `ResolverHealth::new` makes of each (src/health.rs), after the probe.
use mathlib.Core.Option
use mathlib.Core.Path.{subst}
use blastdns.Prelude.{
  ◌≡◌, Bool-cases, Option-cases, inl, inr, Option, none, some, List, [], ◌∷◌, map, arith, All,
  false,
}
use blastdns.Cache.{SimpleCache, CacheEntry, Query}
use blastdns.Client.Build.{System, BlastDnsClient, assemble, with_config, ensure_workers, checked}
use blastdns.Client.Started.{build-Parts}
use blastdns.Config.{BlastDnsConfig}
use blastdns.Dns.{Dns}
use blastdns.Error.{Result, ok, err}
use blastdns.Float.{Float}
use blastdns.Health
use blastdns.Health.{ResolverHealth}
use blastdns.Limiter.{RateLimiter}
use blastdns.Lru.{Lru}
use blastdns.Net.{Text, SocketAddr}
use blastdns.Pool
use blastdns.Pool.{ResolverPool, all_built, probe}
use blastdns.Pool.Made.{new-fresh}
use blastdns.Semaphore.{Semaphore}

module _ (f64 : Float) (sem : Semaphore) (P : ResolverHealth sem.S → Type 0)
    (config : BlastDnsConfig f64.F)
    (fresh : (a : SocketAddr) (l : RateLimiter) → P (Health.fresh f64 sem a config l))
    (inactive : (h : ResolverHealth sem.S) → P h → P (record h { active = false })) where
  open sem use {S}

  new_lem : (a : SocketAddr) (h : ResolverHealth S) → Health.new f64 sem a config ≡ some h → P h
  new_lem a h e = let (l, _, same) = new-fresh f64 sem a config h e in subst P same (fresh a l)

  joined_lem :
      (o : Option (ResolverHealth S)) (os : List (Option (ResolverHealth S)))
      (hs : List (ResolverHealth S))
      → ((h : ResolverHealth S) → o ≡ some h → P h)
      → ((hs : List (ResolverHealth S)) → all_built f64 os ≡ some hs → All P hs)
      → all_built f64 (o ∷ os) ≡ some hs
      → All P hs
  joined_lem none os hs one rest e = cc
  joined_lem (some h) os hs one rest e = elim (Option-cases (all_built f64 os)) [
    | inl n ↦ ground (arith, n, e)
    | inr (hs', m) ↦
        subst (All P) (Option.some-injective (h ∷ hs') hs (rw m at e))
          (one h (λ i. some h), rest hs' m)
  ]

  all_built-All :
      (addrs : List SocketAddr) (hs : List (ResolverHealth S))
      → all_built f64 (map (λ a. Health.new f64 sem a config) addrs) ≡ some hs
      → All P hs
  all_built-All [] hs e = subst (All P) (Option.some-injective [] hs e) tt
  all_built-All (a ∷ addrs) hs e =
      joined_lem (Health.new f64 sem a config) _ hs (new_lem a) (all_built-All addrs) e

  pool-All :
      (parsed : List SocketAddr) (pool : ResolverPool S)
      → Pool.new f64 sem parsed config ≡ some pool
      → All P pool.resolvers
  unfolding Pool.new
  pool-All parsed pool e =
      elim (Option-cases (all_built f64 (map (λ a. Health.new f64 sem a config) parsed))) [
        | inl n ↦ ground (arith, n, e)
        | inr (hs, q) ↦
            subst (λ (p : ResolverPool S). All P p.resolvers)
              (Option.some-injective (record { resolvers = hs; cursor = 0 }) pool
                (rw (q, Pool.new) at e))
              (all_built-All parsed hs q)
      ]

  probe-All :
      {A : Type 0} (hs : List (ResolverHealth S)) (answers : List (Result A))
      → All P hs
      → All P (probe hs answers).0
  unfolding probe Health.probe
  probe-All [] answers p = p
  probe-All (h ∷ hs) [] p = p
  probe-All (h ∷ hs) (ok a ∷ as') p = (p.0, probe-All hs as' p.1)
  probe-All (h ∷ hs) (err a ∷ as') p = (inactive h p.0, probe-All hs as' p.1)

  module _ (dns : Dns) (lru : Lru (Query dns) (CacheEntry dns.Response)) where
    assemble-All :
        {A : Type 0} (parsed : List SocketAddr) (pool : ResolverPool S) (limiter : RateLimiter)
        (cache : Option (SimpleCache lru.C)) (answers : List (Result A))
        → Pool.new f64 sem parsed config ≡ some pool
        → All P
            (ensure_workers f64 sem dns lru
              (assemble f64 sem dns lru parsed config pool limiter cache)
              answers).pool.resolvers
    unfolding ensure_workers
    assemble-All parsed pool limiter cache answers made = elim (Bool-cases config.resolver_probe) [
      | inl p ↦ rw p (probe-All pool.resolvers answers (pool-All parsed pool made))
      | inr p ↦ rw p (pool-All parsed pool made)
    ]

    -- What holds of a resolver at the start, active or not, holds of all resolvers when the workers
    -- start.
    pub with_config-All :
        {A : Type 0} (sys : System) (resolvers : List Text) (c : BlastDnsClient f64 sem dns lru)
        (answers : List (Result A))
        → with_config f64 sem dns lru sys resolvers config ≡ some (ok c)
        → All P (ensure_workers f64 sem dns lru c answers).pool.resolvers
    unfolding with_config
    with_config-All sys resolvers c answers h =
        let parts = build-Parts f64 sem dns lru sys config (checked config sys resolvers) c h in
        subst (λ x. All P (ensure_workers f64 sem dns lru x answers).pool.resolvers) parts.same
          (assemble-All parts.parsed parts.pool parts.limiter parts.cache answers parts.pooled)
