-- ===== src/Pool/Made.antt =====
-- The resolvers that `ResolverPool::new` makes (src/health.rs), one by one.
use mathlib.Core.Option
use blastdns.Prelude.{
  ◌≡◌, ◌<◌, inl, inr, refl, max, Option, none, some, List, [], ◌∷◌, map, arith, leb, ap, sym,
  Bool-cases, Option-cases,
}
use blastdns.Config.{BlastDnsConfig}
use blastdns.Float.{Float}
use blastdns.Health
use blastdns.Health.{ResolverHealth}
use blastdns.Limiter
use blastdns.Limiter.{RateLimiter}
use blastdns.Net.{SocketAddr}
use blastdns.Pool
use blastdns.Pool.{ResolverPool, all_built}
use blastdns.Semaphore.{Semaphore}

module _ (f64 : Float) (sem : Semaphore) where
  open f64 use {F}
  open sem use {S}

  pub new-fresh :
      (a : SocketAddr) (config : BlastDnsConfig F) (h : ResolverHealth S)
      → Health.new f64 sem a config ≡ some h
      → (l : RateLimiter) × (Limiter.new f64 (Limiter.unlimited_qps f64) ≡ some l)
        × (Health.fresh f64 sem a config l ≡ h)
  unfolding Health.new
  new-fresh a config h e =
      elim (Bool-cases (leb (max config.max_inflight_per_resolver 1) sem.max_permits)) [
        | inr b ↦ absurd (Option.none-ne-some h (rw (b, Health.new) at e))
        | inl b ↦ elim (Option-cases (Limiter.new f64 (Limiter.unlimited_qps f64))) [
          | inl n ↦ absurd (Option.none-ne-some h (rw (b, n, Health.new) at e))
          | inr (l, n) ↦ (l, n, Option.some-injective _ h (rw (b, n, Health.new) at e))
        ]
      ]

  new-none :
      (a : SocketAddr) (config : BlastDnsConfig F) (l : RateLimiter)
      → Limiter.new f64 (Limiter.unlimited_qps f64) ≡ some l
      → Health.new f64 sem a config ≡ none
      → sem.max_permits < max config.max_inflight_per_resolver 1
  unfolding Health.new
  new-none a config l n e =
      elim (Bool-cases (leb (max config.max_inflight_per_resolver 1) sem.max_permits)) [
        | inr b ↦ ground arith
        | inl b ↦ absurd (Option.none-ne-some _ (sym (rw (b, n, Health.new) at e)))
      ]

  pub all_built-cons :
      (o : Option (ResolverHealth S)) (os : List (Option (ResolverHealth S)))
      (hs : List (ResolverHealth S))
      → all_built f64 (o ∷ os) ≡ some hs
      → (h : ResolverHealth S) × (hs' : List (ResolverHealth S)) × (o ≡ some h)
        × (all_built f64 os ≡ some hs')
        × (h ∷ hs' ≡ hs)
  all_built-cons none os hs e = cc
  all_built-cons (some h) os hs e = elim (Option-cases (all_built f64 os)) [
    | inl e' ↦ absurd (ground arith)
    | inr (hs', e') ↦ (h, hs', refl, e', ground arith)
  ]

  all_built-none :
      (as' : List SocketAddr) (config : BlastDnsConfig F) (l : RateLimiter)
      → Limiter.new f64 (Limiter.unlimited_qps f64) ≡ some l
      → all_built f64 (map (λ a. Health.new f64 sem a config) as') ≡ none
      → sem.max_permits < max config.max_inflight_per_resolver 1
  all_built-none [] config l n e = cc
  all_built-none (a ∷ as') config l n e = elim (Option-cases (Health.new f64 sem a config)) [
    | inl o ↦ new-none a config l n o
    | inr (h, o) ↦
        elim (Option-cases (all_built f64 (map (λ b. Health.new f64 sem b config) as'))) [
          | inl o' ↦ all_built-none as' config l n o'
          | inr (hs, o') ↦ absurd (Option.none-ne-some (h ∷ hs) (sym (rw (o, o') at e)))
        ]
  ]

  -- A pool is made of resolvers that are all made.
  pub pool_new-some :
      (as' : List SocketAddr) (config : BlastDnsConfig F) (pool : ResolverPool S)
      → Pool.new f64 sem as' config ≡ some pool
      → all_built f64 (map (λ a. Health.new f64 sem a config) as') ≡ some pool.resolvers
  unfolding Pool.new
  pool_new-some as' config pool e =
      elim (Option-cases (all_built f64 (map (λ a. Health.new f64 sem a config) as'))) [
        | inl n ↦ absurd (Option.none-ne-some pool (rw (n, Pool.new) at e))
        | inr (hs, n) ↦ rw n (
            ap (λ (p : ResolverPool S). some p.resolvers)
              (Option.some-injective (record { resolvers = hs; cursor = 0 }) pool
                (rw (n, Pool.new) at e)))
      ]

  -- If the rate is no reason to panic, then making a pool panics only on more queries in flight
  -- than a semaphore has permits.
  pub pool_new-none :
      (as' : List SocketAddr) (config : BlastDnsConfig F) (l : RateLimiter)
      → Limiter.new f64 (Limiter.unlimited_qps f64) ≡ some l
      → Pool.new f64 sem as' config ≡ none
      → sem.max_permits < max config.max_inflight_per_resolver 1
  unfolding Pool.new
  pool_new-none as' config l m e =
      elim (Option-cases (all_built f64 (map (λ a. Health.new f64 sem a config) as'))) [
        | inl n ↦ all_built-none as' config l m n
        | inr (hs, n) ↦ absurd (Option.none-ne-some _ (sym (rw (n, Pool.new) at e)))
      ]
