-- ===== src/Client/Workers.antt =====
-- The workers that a client of src/client.rs spawns, and the caps on the queries in flight
-- (`max_inflight_per_resolver`) while they work.

use native.Mathlib.Nat.{zero-add, add-zero}
use mathlib.Core.Path.{subst}
use blastdns.Prelude.{
  ℕ, zero, suc, max, ◌+◌, ◌≡◌, refl, Option, none, some, List, [], ◌∷◌, get_elem?, replicate, arith,
  All, All-get_elem?,
}
use blastdns.Cache.{CacheEntry, Query}
use blastdns.Client.Build.{System, BlastDnsClient, Running, with_config, ensure_workers}
use blastdns.Client.Fresh.{with_config-All}
use blastdns.Config.{BlastDnsConfig}
use blastdns.Dns.{Dns}
use blastdns.Error.{Result, ok}
use blastdns.Float.{Float}
use blastdns.Health.{ResolverHealth}
use blastdns.Limiter
use blastdns.Lru.{Lru}
use blastdns.Net.{Text}
use blastdns.Pool.{ResolverPool}
use blastdns.Semaphore.{Semaphore, SemaphoreLaws}
use blastdns.Worker
use blastdns.Worker.Permits.{worker_step-StepMoved, kept_lem}
use blastdns.Worker.Reservations.{reservations, reservations-set}
use blastdns.Worker.Tasks
use blastdns.Worker.Tasks.{
  Pc, receiving, Event, work, send, close, refill, pace, steer, steer_global, steered, spawned,
  worker_step, work_of, enqueue, step, run,
}

abbrev pub workers_of : {R : Type 0} → (R → ℕ) → Option R → ℕ
workers_of f none = 0
workers_of f (some r) = f r

module _ (f64 : Float) (sem : Semaphore) (dns : Dns)
    (lru : Lru (Query dns) (CacheEntry dns.Response)) where
  open f64 use {F}
  open sem use {S}

  -- The workers of a client, as `ensure_workers` spawns them.
  unfoldable pub spawned_by :
      BlastDnsClient f64 sem dns lru → Tasks.System S F dns.RecordType dns.Response
  spawned_by c =
      spawned f64 sem dns
        (workers_of (λ (r : Running f64 sem dns lru). r.workers) c.workers_spawned) c.pool c.limiter
        c.queue_capacity

module _ (f64 : Float) (sem : Semaphore) (laws : SemaphoreLaws sem) (dns : Dns) where
  open f64 use {F}
  open sem use {S, available_permits}
  open dns use {RecordType, Response}

  -- Of the `cap` permits of each resolver from index `j` on, those that are not available belong to
  -- a reservation each.
  abbrev pub AreCapped : ℕ → List (Pc RecordType) → ℕ → List (ResolverHealth S) → Type 0
  AreCapped cap pcs j [] = Unit
  AreCapped cap pcs j (h ∷ hs) =
      (available_permits h.inflight + reservations j pcs ≡ cap) × AreCapped cap pcs (suc j) hs

  abbrev IsCapped : ℕ → Tasks.System S F RecordType Response → Type 0
  IsCapped cap y =
      (j : ℕ) (h : ResolverHealth S)
      → get_elem? y.shared.pool.resolvers j ≡ some h
      → available_permits h.inflight + reservations j y.workers ≡ cap

  each-AreCapped :
      (cap : ℕ) (pcs : List (Pc RecordType)) (j : ℕ) (hs : List (ResolverHealth S))
      → ((i : ℕ) (h : ResolverHealth S)
          → get_elem? hs i ≡ some h
          → available_permits h.inflight + reservations (i + j) pcs ≡ cap)
      → AreCapped cap pcs j hs
  each-AreCapped cap pcs j [] each = tt
  each-AreCapped cap pcs j (h ∷ hs) each = (
    rw (zero-add j) at (each 0 h refl),
    each-AreCapped cap pcs (suc j) hs (λ i h' at.
        subst (λ k. available_permits h'.inflight + reservations k pcs ≡ cap) (omega arith)
          (each (suc i) h' at)),
  )

  work_of-IsCapped :
      (cap : ℕ) (y : Tasks.System S F RecordType Response) (i now : ℕ)
      (x : Worker.Exchange Response) (o : Option (Pc RecordType))
      → get_elem? y.workers i ≡ o
      → IsCapped cap y
      → IsCapped cap (work_of f64 sem dns y i now x o)
  unfolding work_of
  work_of-IsCapped cap y i now x none e c j h at = c j h at
  work_of-IsCapped cap y i now x (some pc) e c j h' at =
      let (h, at', moved) = worker_step-StepMoved sem laws f64 dns y.shared now x pc j h' at in
      omega (
        arith,
        moved,
        c j h at',
        reservations-set j y.workers i pc (worker_step f64 sem dns y.shared now x pc).1 e,
      )

  step-IsCapped :
      (cap : ℕ) (y : Tasks.System S F RecordType Response) (e : Event F RecordType Response)
      → IsCapped cap y
      → IsCapped cap (step f64 sem dns y e)
  unfolding step enqueue
  step-IsCapped cap y (work i now x) c j h at =
      work_of-IsCapped cap y i now x (get_elem? y.workers i) refl c j h at
  step-IsCapped cap y (send w) c j h at = ground (arith, c j h)
  step-IsCapped cap y close c j h at = c j h at
  step-IsCapped cap y (refill seconds) c j h at = c j h at
  step-IsCapped cap y (pace rate) c j h at = c j h at
  step-IsCapped cap y (steer i interval) c j h' at =
      let (h, at', moved) =
        kept_lem sem laws f64 dns y.shared.pool.resolvers i (steered interval) receiving receiving
          (λ h. refl) (λ j. refl) j h' at in
      omega (arith, moved, c j h at')
  step-IsCapped cap y (steer_global interval) c j h at = c j h at

  run-IsCapped :
      (cap : ℕ) (y : Tasks.System S F RecordType Response) (es : List (Event F RecordType Response))
      → IsCapped cap y
      → IsCapped cap (run f64 sem dns y es)
  unfolding run
  run-IsCapped cap y [] c = c
  run-IsCapped cap y (e ∷ es) c =
      run-IsCapped cap (step f64 sem dns y e) es (step-IsCapped cap y e c)

  abbrev HasPermits : ℕ → ResolverHealth S → Type 0
  HasPermits cap h = available_permits h.inflight ≡ cap

  spawned-IsCapped :
      (cap n : ℕ) (pool : ResolverPool S) (limiter : Limiter.RateLimiter) (capacity : ℕ)
      → All (HasPermits cap) pool.resolvers
      → IsCapped cap (spawned f64 sem dns n pool limiter capacity)
  spawned-IsCapped cap n pool limiter capacity p j h at =
      omega (arith, All-get_elem? (HasPermits cap) pool.resolvers j h at p, none_reserved n)
    where
      none_reserved : (n : ℕ) → reservations {T = RecordType} j (replicate n receiving) ≡ 0
      none_reserved zero = refl
      none_reserved (suc n) = omega (arith, none_reserved n)

  module _ (lru : Lru (Query dns) (CacheEntry dns.Response)) where
    -- A client that `with_config` returned, its workers spawned by `ensure_workers`, and whatever
    -- the workers, the callers, the controller and the pacer do then, in whatever order: of each
    -- resolver, the permits that are available and the reservations that workers hold add up to
    -- `max_inflight_per_resolver` (one at least). So no permit is lost, on any path of `reserve` or
    -- of a query, and no resolver ever has more queries in flight than that.
    pub with_config-AreCapped :
        {A : Type 0} (sys : System) (resolvers : List Text) (config : BlastDnsConfig F)
        {c : BlastDnsClient f64 sem dns lru} (answers : List (Result A))
        (es : List (Event F RecordType Response))
        → with_config f64 sem dns lru sys resolvers config ≡ some (ok c)
        → let y =
            run f64 sem dns
              (spawned_by f64 sem dns lru (ensure_workers f64 sem dns lru c answers))
              es in
          AreCapped (max config.max_inflight_per_resolver 1) y.workers 0 y.shared.pool.resolvers
    unfolding spawned_by
    with_config-AreCapped sys resolvers config {c} answers es h =
        let cap = max config.max_inflight_per_resolver 1 in
        let c' = ensure_workers f64 sem dns lru c answers in
        let start =
          spawned-IsCapped cap
            (workers_of (λ (r : Running f64 sem dns lru). r.workers) c'.workers_spawned) c'.pool
            c'.limiter c'.queue_capacity
            (with_config-All f64 sem (HasPermits cap) config (λ a l. laws.available_permits-new cap)
              (λ h p. p) dns lru sys resolvers c answers h) in
        let ran = run-IsCapped (max config.max_inflight_per_resolver 1) _ es start in
        each-AreCapped (max config.max_inflight_per_resolver 1) _ 0 _
          (λ i g at. rw (add-zero i) (ran i g at))
