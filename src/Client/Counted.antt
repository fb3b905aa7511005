-- ===== src/Client/Counted.antt =====
-- The counters of a client's resolvers (src/health.rs, `BlastDNSClient::stats` of src/client.rs)
-- while its workers (src/worker.rs) work.
use blastdns.Prelude.{
  ℕ, zero, suc, ◌+◌, ◌%◌, ◌≡◌, refl, Option, none, some, List, [], ◌∷◌, get_elem?, replicate, arith,
  u64_mod, All, All-get_elem?,
}
use mathlib.Core.Path.{subst}
use native.Mathlib.Nat.{zero-add, add-zero}
use blastdns.Cache.{CacheEntry, Query}
use blastdns.Client.Build.{System, BlastDnsClient, Running, with_config, ensure_workers}
use blastdns.Client.Fresh.{with_config-All}
use blastdns.Client.Workers.{spawned_by, workers_of}
use blastdns.Config.{BlastDnsConfig}
use blastdns.Dns.{Dns}
use blastdns.Error.{Result, ok}
use blastdns.Float.{Float}
use blastdns.Health.{ResolverHealth}
use blastdns.Health.Accounts.{finished}
use blastdns.Limiter.{RateLimiter}
use blastdns.Lru.{Lru}
use blastdns.Net.{Text}
use blastdns.Pool.{ResolverPool}
use blastdns.Semaphore.{Semaphore}
use blastdns.Worker.{Exchange}
use blastdns.Worker.Counters.{worker_step-StepCounted}
use blastdns.Worker.Dispatches.{asking, asking-set, Counted-update}
use blastdns.Worker.Tasks
use blastdns.Worker.Tasks.{
  Pc, receiving, Event, work, send, close, refill, pace, steer, steer_global, steered, spawned,
  worker_step, work_of, enqueue, step, run,
}

module _ (f64 : Float) (sem : Semaphore) (dns : Dns) where
  open f64 use {F}
  open sem use {S}
  open dns use {RecordType, Response}

  -- Of each resolver from index `j` on, the queries that were dispatched are those that were
  -- counted as answered, empty, timed out or failed, and those under way.
  abbrev pub AreCounted : List (Pc RecordType) → ℕ → List (ResolverHealth S) → Type 0
  AreCounted pcs j [] = Unit
  AreCounted pcs j (h ∷ hs) =
      (h.attempted % u64_mod ≡ (finished h + asking j pcs) % u64_mod) × AreCounted pcs (suc j) hs

  abbrev IsCounted : Tasks.System S F RecordType Response → Type 0
  IsCounted y =
      (j : ℕ) (h : ResolverHealth S)
      → get_elem? y.shared.pool.resolvers j ≡ some h
      → h.attempted % u64_mod ≡ (finished h + asking j y.workers) % u64_mod

  each-AreCounted :
      (pcs : List (Pc RecordType)) (j : ℕ) (hs : List (ResolverHealth S))
      → ((i : ℕ) (h : ResolverHealth S)
          → get_elem? hs i ≡ some h
          → h.attempted % u64_mod ≡ (finished h + asking (i + j) pcs) % u64_mod)
      → AreCounted pcs j hs
  each-AreCounted pcs j [] each = tt
  each-AreCounted pcs j (h ∷ hs) each = (
    rw (zero-add j) at (each 0 h refl),
    each-AreCounted pcs (suc j) hs (λ i h' at.
        subst (λ k. h'.attempted % u64_mod ≡ (finished h' + asking k pcs) % u64_mod) (omega arith)
          (each (suc i) h' at)),
  )

  work_of-IsCounted :
      (y : Tasks.System S F RecordType Response) (i now : ℕ) (x : Exchange Response)
      (o : Option (Pc RecordType))
      → get_elem? y.workers i ≡ o
      → IsCounted y
      → IsCounted (work_of f64 sem dns y i now x o)
  unfolding work_of
  work_of-IsCounted y i now x none e c j h at = c j h at
  work_of-IsCounted y i now x (some pc) e c j h' at =
      let (h, at', counted) = worker_step-StepCounted sem f64 dns y.shared now x pc j h' at in
      omega (
        arith,
        counted,
        c j h at',
        asking-set j y.workers i pc (worker_step f64 sem dns y.shared now x pc).1 e,
      )

  step-IsCounted :
      (y : Tasks.System S F RecordType Response) (e : Event F RecordType Response)
      → IsCounted y
      → IsCounted (step f64 sem dns y e)
  unfolding step enqueue
  step-IsCounted y (work i now x) c j h at =
      work_of-IsCounted y i now x (get_elem? y.workers i) refl c j h at
  step-IsCounted y (send w) c j h at = ground (arith, c j h)
  step-IsCounted y close c j h at = c j h at
  step-IsCounted y (refill seconds) c j h at = c j h at
  step-IsCounted y (pace rate) c j h at = c j h at
  step-IsCounted y (steer i interval) c j h' at =
      let (h, at', counted) =
        Counted-update y.shared.pool.resolvers i (steered interval) (λ k. 0) (λ k. 0) (λ g. refl)
          (λ k n. refl) j h' at in
      omega (arith, counted, c j h at')
  step-IsCounted y (steer_global interval) c j h at = c j h at

  run-IsCounted :
      (y : Tasks.System S F RecordType Response) (es : List (Event F RecordType Response))
      → IsCounted y
      → IsCounted (run f64 sem dns y es)
  unfolding run
  run-IsCounted y [] c = c
  run-IsCounted y (e ∷ es) c = run-IsCounted (step f64 sem dns y e) es (step-IsCounted y e c)

  abbrev IsUnused : ResolverHealth S → Type 0
  IsUnused h = (h.attempted ≡ 0) × (finished h ≡ 0)

  spawned-IsCounted :
      (n : ℕ) (pool : ResolverPool S) (limiter : RateLimiter) (capacity : ℕ)
      → All IsUnused pool.resolvers
      → IsCounted (spawned f64 sem dns n pool limiter capacity)
  spawned-IsCounted n pool limiter capacity p j h at =
      omega (arith, All-get_elem? IsUnused pool.resolvers j h at p, no_one n)
    where
      no_one : (n : ℕ) → asking {T = RecordType} j (replicate n receiving) ≡ 0
      no_one zero = refl
      no_one (suc n) = omega (arith, no_one n)

  module _ (lru : Lru (Query dns) (CacheEntry dns.Response)) where
    -- A client that `with_config` returned, its workers spawned by `ensure_workers`, and whatever
    -- the workers, the callers, the controller and the pacer do then, in whatever order: of each
    -- resolver, the queries attempted are those answered, empty, timed out or failed, and those
    -- that a worker has under way (modulo 2 ^ 64). So every query that was dispatched lands in
    -- exactly one of the four, and once no query is under way, the four add up to `attempted` in
    -- that sense.
    pub with_config-AreCounted :
        {A : Type 0} (sys : System) (resolvers : List Text) (config : BlastDnsConfig F)
        {c : BlastDnsClient f64 sem dns lru} (answers : List (Result A))
        (es : List (Event F RecordType Response))
        → with_config f64 sem dns lru sys resolvers config ≡ some (ok c)
        → let y =
            run f64 sem dns
              (spawned_by f64 sem dns lru (ensure_workers f64 sem dns lru c answers))
              es in
          AreCounted y.workers 0 y.shared.pool.resolvers
    unfolding spawned_by
    with_config-AreCounted sys resolvers config {c} answers es h =
        let c' = ensure_workers f64 sem dns lru c answers in
        let start =
          spawned-IsCounted
            (workers_of (λ (r : Running f64 sem dns lru). r.workers) c'.workers_spawned) c'.pool
            c'.limiter c'.queue_capacity
            (with_config-All f64 sem IsUnused config (λ a l. (refl, refl)) (λ h p. p) dns lru sys
              resolvers c answers h) in
        let ran = run-IsCounted _ es start in
        each-AreCounted _ 0 _ (λ i g at. rw (add-zero i) (ran i g at))
