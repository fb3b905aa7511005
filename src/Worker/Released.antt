-- ===== src/Worker/Released.antt =====
-- The attempt pacer (src/limiter.rs) when its rate is taken away while workers (src/worker.rs) wait
-- for it.

use blastdns.Prelude.{
  ℕ, zero, suc, ◌-◌, ◌%◌, ◌≤◌, ◌<◌, ◌≡◌, ap, refl, ◌∙◌, Option, none, some, List, [], ◌∷◌, inl, inr,
  arith, get_elem?, Option-cases, u64_mod, replicate, length-replicate,
}
use blastdns.Dns.{Dns}
use blastdns.Float.{Float}
use blastdns.Limiter.{RateLimiter}
use blastdns.Pacer
use blastdns.Pacer.{AttemptPacer}
use blastdns.Pool.{ResolverPool}
use blastdns.Semaphore.{Semaphore, SemaphoreLaws}
use blastdns.Worker.{Exchange}
use blastdns.Worker.Tasks.{
  Pc, receiving, System, Event, work, send, close, refill, pace, steer, steer_global, enqueue,
  worker_step, work_of, step, run, spawned,
}
use blastdns.Worker.Shutdown.{length-run}
use blastdns.Worker.Waiters.{waiters, others, waiters-le, worker_step_waiting}

module _ (f64 : Float) (sem : Semaphore) (dns : Dns) where
  open f64 use {F}
  open sem use {S}
  open dns use {RecordType, Response}

  -- The pacer counts the workers that wait for it.
  abbrev IsTold : System S F RecordType Response → Type 0
  IsTold y = y.shared.pacer.waiting ≡ waiters y.workers % u64_mod

  work_of-IsTold :
      (y : System S F RecordType Response) (i now : ℕ) (x : Exchange Response)
      (o : Option (Pc RecordType))
      → get_elem? y.workers i ≡ o
      → IsTold y
      → IsTold (work_of f64 sem dns y i now x o)
  unfolding work_of
  work_of-IsTold y i now x none e h = h
  work_of-IsTold y i now x (some pc) e h =
      let (n, before, after) = others y.workers i pc e in
      let pc' = (worker_step f64 sem dns y.shared now x pc).1 in
      let moved =
        worker_step_waiting f64 sem dns y.shared now x pc n
          (h ∙ ap (λ (k : ℕ). k % u64_mod) before) in
      omega (arith, moved, after pc')

  refill_waiting :
      (p : AttemptPacer S F) (seconds : F) → (Pacer.refill f64 sem p seconds).waiting ≡ p.waiting
  unfolding Pacer.refill
  refill_waiting p seconds = elim (Option-cases p.rate) [
    | inl e ↦ ground (arith, e)
    | inr (r, e) ↦ ground (arith, e)
  ]

  step-IsTold :
      (y : System S F RecordType Response) (e : Event F RecordType Response)
      → IsTold y
      → IsTold (step f64 sem dns y e)
  unfolding step enqueue Pacer.set_rate
  step-IsTold y (work i now x) h = work_of-IsTold y i now x (get_elem? y.workers i) refl h
  step-IsTold y (send w) h = ground (arith, h)
  step-IsTold y close h = h
  step-IsTold y (refill seconds) h = refill_waiting y.shared.pacer seconds ∙ h
  step-IsTold y (pace rate) h = h
  step-IsTold y (steer j interval) h = h
  step-IsTold y (steer_global interval) h = h

  run-IsTold :
      (y : System S F RecordType Response) (es : List (Event F RecordType Response))
      → IsTold y
      → IsTold (run f64 sem dns y es)
  unfolding run
  run-IsTold y [] h = h
  run-IsTold y (e ∷ es) h = run-IsTold (step f64 sem dns y e) es (step-IsTold y e h)

  spawned-IsTold :
      (n : ℕ) (pool : ResolverPool S) (limiter : RateLimiter) (capacity : ℕ)
      → IsTold (spawned f64 sem dns n pool limiter capacity)
  unfolding Pacer.new
  spawned-IsTold n pool limiter capacity = omega (arith, no_one n)
    where
      no_one : (n : ℕ) → waiters {T = RecordType} (replicate n receiving) ≡ 0
      no_one zero = refl
      no_one (suc n) = omega (arith, no_one n)

  module _ (laws : SemaphoreLaws sem) where
    refill_enough :
        (p : AttemptPacer S F) (seconds : F)
        → p.rate ≡ none
        → p.waiting ≤ sem.available_permits (Pacer.refill f64 sem p seconds).tokens
    unfolding Pacer.refill
    refill_enough p seconds e = ground (
      arith,
      e,
      laws.available_permits-add_permits p.tokens (p.waiting - sem.available_permits p.tokens),
    )

    -- From the spawn of the workers (fewer than 2 ^ 64) on, whatever happens, in whatever order,
    -- with tokens held back or given away: once the brake lets go of the pacer (`set_rate` with no
    -- rate) and its task refills it, there is a token for each worker that waits for one.
    pub run_released :
        (n : ℕ) (pool : ResolverPool S) (limiter : RateLimiter) (capacity : ℕ)
        (es : List (Event F RecordType Response)) (seconds : F)
        → n < u64_mod
        → let y = run f64 sem dns (spawned f64 sem dns n pool limiter capacity) es in
          let y' = step f64 sem dns (step f64 sem dns y (pace none)) (refill seconds) in
          waiters y'.workers ≤ sem.available_permits y'.shared.pacer.tokens
    unfolding step Pacer.set_rate
    run_released n pool limiter capacity es seconds few =
        let y0 = spawned f64 sem dns n pool limiter capacity in
        let y = run f64 sem dns y0 es in
        omega (
          arith,
          refill_enough (Pacer.set_rate f64 y.shared.pacer none) seconds refl,
          run-IsTold y0 es (spawned-IsTold n pool limiter capacity),
          waiters-le y.workers,
          length-run f64 sem dns y0 es,
          length-replicate {A = Pc RecordType} n receiving,
        )
