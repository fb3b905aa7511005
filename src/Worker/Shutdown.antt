-- ===== src/Worker/Shutdown.antt =====
-- The workers of src/worker.rs from `spawn` to the end of their loops: what becomes of the items
-- that were sent to them.
use mathlib.Core.Path.{subst}
use blastdns.Prelude.{
  ℕ, zero, suc, ◌+◌, ◌≡◌, refl, Bool, true, false, ◌&&◌, Option, none, some, List, [], ◌∷◌, inl,
  inr, arith, get_elem?, Bool-cases, length, All, All-set, All-get_elem?, ltb, replicate, ◌<◌,
  length-set, length-replicate, ap, ◌∙◌,
}
use blastdns.Dns.{Dns}
use blastdns.Float.{Float}
use blastdns.Limiter.{RateLimiter}
use blastdns.Pool.{ResolverPool}
use blastdns.Semaphore.{Semaphore}
use blastdns.Worker.{Exchange}
use blastdns.Worker.Answers.{
  copies, queued, answered, in_hand, in_hand-set, queued-append, IsOver, owed, worker_step-Passed,
}
use blastdns.Worker.Over.{All-IsOver-mono, All-IsOver-open, HaveStopped, in_hand_of_stopped}
use blastdns.Worker.Tasks.{
  WorkItem, Pc, receiving, System, Event, work, send, close, refill, pace, steer, steer_global,
  enqueue, worker_step, work_of, step, run, spawned,
}

module _ (f64 : Float) (sem : Semaphore) (dns : Dns) where
  open f64 use {F}
  open sem use {S}
  open dns use {RecordType, Response}

  record IsAccounted (y : System S F RecordType Response) : Type 0 where
    balanced : (id : ℕ) → copies id y.sent ≡ owed f64 sem dns id y.shared + in_hand id y.workers
    over : All (IsOver y.shared.queue y.shared.is_open) y.workers

  work_of-IsAccounted :
      (y : System S F RecordType Response) (i now : ℕ) (x : Exchange Response)
      (o : Option (Pc RecordType))
      → get_elem? y.workers i ≡ o
      → IsAccounted y
      → IsAccounted (work_of f64 sem dns y i now x o)
  unfolding work_of
  work_of-IsAccounted y i now x none e h = h
  work_of-IsAccounted y i now x (some pc) e h =
      let out = worker_step f64 sem dns y.shared now x pc in
      let p =
        worker_step-Passed f64 sem dns y.shared now x pc
          (All-get_elem? (IsOver y.shared.queue y.shared.is_open) y.workers i pc e h.over) in
      record {
        balanced = λ id.
            omega (arith, h.balanced id, p.balanced id, in_hand-set id y.workers i pc out.1 e);
        over = All-set (IsOver out.0.queue out.0.is_open) y.workers i out.1 p.over (
            All-IsOver-mono y.shared.queue out.0.queue y.shared.is_open out.0.is_open y.workers
              p.empty (λ c. cc) h.over);
      }

  enqueue-IsAccounted :
      (y : System S F RecordType Response) (w : WorkItem RecordType)
      → IsAccounted y
      → IsAccounted (enqueue y w)
  unfolding enqueue
  enqueue-IsAccounted y w h =
      elim (Bool-cases (y.shared.is_open && ltb (length y.shared.queue) y.shared.capacity)) [
        | inl b ↦ rw b (record {
          balanced = λ id. omega (arith, h.balanced id, queued-append id y.shared.queue w);
          over = All-IsOver-open y.shared.queue _ y.shared.is_open y.workers (ground arith) h.over;
        })
        | inr b ↦ rw b h
      ]

  step-IsAccounted :
      (y : System S F RecordType Response) (e : Event F RecordType Response)
      → IsAccounted y
      → IsAccounted (step f64 sem dns y e)
  unfolding step
  step-IsAccounted y (work i now x) h = work_of-IsAccounted y i now x (get_elem? y.workers i) refl h
  step-IsAccounted y (send w) h = enqueue-IsAccounted y w h
  step-IsAccounted y close h = record {
    balanced = h.balanced;
    over =
        All-IsOver-mono y.shared.queue y.shared.queue y.shared.is_open false y.workers (λ e. e)
          (λ c. refl) h.over;
  }
  step-IsAccounted y (refill seconds) h = record { balanced = h.balanced; over = h.over }
  step-IsAccounted y (pace rate) h = record { balanced = h.balanced; over = h.over }
  step-IsAccounted y (steer j interval) h = record { balanced = h.balanced; over = h.over }
  step-IsAccounted y (steer_global interval) h = record { balanced = h.balanced; over = h.over }

  run_from-IsAccounted :
      (y : System S F RecordType Response) (es : List (Event F RecordType Response))
      → IsAccounted y
      → IsAccounted (run f64 sem dns y es)
  unfolding run
  run_from-IsAccounted y [] h = h
  run_from-IsAccounted y (e ∷ es) h =
      run_from-IsAccounted (step f64 sem dns y e) es (step-IsAccounted y e h)

  spawned-IsAccounted :
      (n : ℕ) (pool : ResolverPool S) (limiter : RateLimiter) (capacity : ℕ)
      → IsAccounted (spawned f64 sem dns n pool limiter capacity)
  spawned-IsAccounted n pool limiter capacity = record {
    balanced = λ id. omega (arith, idle id n);
    over = none_over n;
  }
    where
      idle : (id n : ℕ) → in_hand {T = RecordType} id (replicate n receiving) ≡ 0
      idle id zero = refl
      idle id (suc n) = omega (arith, idle id n)

      none_over : (n : ℕ) → All (IsOver {T = RecordType} [] true) (replicate n receiving)
      none_over zero = tt
      none_over (suc n) = (tt, none_over n)

  -- From the spawn of the workers on, whatever they, the callers, the controller and the pacer do,
  -- in whatever order: each item that was put into the queue is in exactly one place: in the queue,
  -- with one worker, or answered. (For each channel the numbers add up, so an item is never lost
  -- and never answered twice.)
  pub run_accounts :
      (n : ℕ) (pool : ResolverPool S) (limiter : RateLimiter) (capacity : ℕ)
      (es : List (Event F RecordType Response))
      → let y = run f64 sem dns (spawned f64 sem dns n pool limiter capacity) es in
        (id : ℕ)
        → copies id y.sent
          ≡ queued id y.shared.queue + answered id y.shared.answers + in_hand id y.workers
  run_accounts n pool limiter capacity es =
      (run_from-IsAccounted (spawned f64 sem dns n pool limiter capacity) es
        (spawned-IsAccounted n pool limiter capacity)).balanced

  length-work_of :
      (y : System S F RecordType Response) (i now : ℕ) (x : Exchange Response)
      (o : Option (Pc RecordType))
      → length (work_of f64 sem dns y i now x o).workers ≡ length y.workers
  unfolding work_of
  length-work_of y i now x none = refl
  length-work_of y i now x (some pc) = length-set y.workers i _

  length-step :
      (y : System S F RecordType Response) (e : Event F RecordType Response)
      → length (step f64 sem dns y e).workers ≡ length y.workers
  unfolding step enqueue
  length-step y (work i now x) = length-work_of y i now x (get_elem? y.workers i)
  length-step y (send w) = ground arith
  length-step y close = refl
  length-step y (refill seconds) = refl
  length-step y (pace rate) = refl
  length-step y (steer j interval) = refl
  length-step y (steer_global interval) = refl

  pub length-run :
      (y : System S F RecordType Response) (es : List (Event F RecordType Response))
      → length (run f64 sem dns y es).workers ≡ length y.workers
  unfolding run
  length-run y [] = refl
  length-run y (e ∷ es) = length-run (step f64 sem dns y e) es ∙ length-step y e

  first_over :
      (q : List (WorkItem RecordType)) (o : Bool) (pcs : List (Pc RecordType))
      → 0 < length pcs
      → HaveStopped pcs
      → All (IsOver q o) pcs
      → (q ≡ []) × (o ≡ false)
  first_over q o [] l h v = absurd (omega arith)
  first_over q o (pc ∷ pcs) l h v = subst (λ p. IsOver q o p) h.0 v.0

  -- Once all the workers that were spawned (one at least) have left their loops: the queue is
  -- closed and empty, and for each channel there are as many answers as items that were put into
  -- the queue. So the workers' shutdown leaves no item unanswered.
  pub run_shutdown :
      (n : ℕ) (pool : ResolverPool S) (limiter : RateLimiter) (capacity : ℕ)
      (es : List (Event F RecordType Response))
      → 0 < n
      → HaveStopped (run f64 sem dns (spawned f64 sem dns n pool limiter capacity) es).workers
      → let s = run f64 sem dns (spawned f64 sem dns n pool limiter capacity) es in
        (s.shared.is_open ≡ false)
        × (s.shared.queue ≡ [])
        × ((id : ℕ) → answered id s.shared.answers ≡ copies id s.sent)
  run_shutdown n pool limiter capacity es some_worker h =
      let y0 = spawned f64 sem dns n pool limiter capacity in
      let y = run f64 sem dns y0 es in
      let a = run_from-IsAccounted y0 es (spawned-IsAccounted n pool limiter capacity) in
      let (empty, shut) =
        first_over y.shared.queue y.shared.is_open y.workers
          (omega (arith, length-run y0 es, length-replicate {A = Pc RecordType} n receiving)) h
          a.over in
      (
        shut,
        empty,
        λ id. omega (arith, a.balanced id, in_hand_of_stopped id y.workers h, ap (queued id) empty),
      )
