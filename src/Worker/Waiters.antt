-- ===== src/Worker/Waiters.antt =====
-- The workers of src/worker.rs that wait for the attempt pacer (src/limiter.rs), and the pacer's
-- own count of them.
use mathlib.Core.Option
use blastdns.Prelude.{
  ℕ, zero, suc, ◌+◌, ◌%◌, ◌≤◌, ◌≡◌, ap, Option, none, some, List, [], ◌∷◌, inl, inr, arith,
  get_elem?, set, Bool-cases, Option-cases, length, u64_mod,
}
use blastdns.Dns.{Dns}
use blastdns.Float.{Float}
use blastdns.Health.{ResolverHealth}
use blastdns.Pool.{ResolverPool, Outcome, reserved, no_resolver, sleep, wait_for, again, after_wait}
use blastdns.Semaphore.{Semaphore}
use blastdns.Worker.{Exchange}
use blastdns.Worker.Tasks.{
  WorkItem, Pc, receiving, pacing, reserving, waiting, holding, slotted, throttled, querying,
  releasing, stopped, Shared, take_item, receive, after_pass, wake, ended, worker_step,
}

abbrev pub waits : {T : Type 0} → Pc T → ℕ
waits (throttled w j) = 1
waits _ = 0

-- How many workers wait for a token.
abbrev pub waiters : {T : Type 0} → List (Pc T) → ℕ
waiters [] = 0
waiters (pc ∷ pcs) = waits pc + waiters pcs

-- The others of a list of workers.
pub others :
    {T : Type 0} (pcs : List (Pc T)) (i : ℕ) (pc : Pc T)
    → get_elem? pcs i ≡ some pc
    → (n : ℕ) × (waiters pcs ≡ n + waits pc)
      × ((pc' : Pc T) → waiters (set pcs i pc') ≡ n + waits pc')
others [] i pc e = cc
others (x ∷ pcs) zero pc e =
    let same : waits x ≡ waits pc = ap waits (Option.some-injective x pc e) in
    (waiters pcs, omega arith, λ pc'. omega arith)
others (x ∷ pcs) (suc i) pc e =
    let (n, now, then_) = others pcs i pc e in
    (n + waits x, omega arith, λ pc'. omega (arith, then_ pc'))

pub waiters-le : {T : Type 0} (pcs : List (Pc T)) → waiters pcs ≤ length pcs
waiters-le [] = omega arith
waiters-le (throttled w j ∷ pcs) = omega (arith, waiters-le pcs)
waiters-le (receiving ∷ pcs) = omega (arith, waiters-le pcs)
waiters-le (pacing w ∷ pcs) = omega (arith, waiters-le pcs)
waiters-le (reserving w ∷ pcs) = omega (arith, waiters-le pcs)
waiters-le (waiting w j ∷ pcs) = omega (arith, waiters-le pcs)
waiters-le (holding w j ∷ pcs) = omega (arith, waiters-le pcs)
waiters-le (slotted w j ∷ pcs) = omega (arith, waiters-le pcs)
waiters-le (querying w j ∷ pcs) = omega (arith, waiters-le pcs)
waiters-le (releasing j ∷ pcs) = omega (arith, waiters-le pcs)
waiters-le (stopped ∷ pcs) = omega (arith, waiters-le pcs)

module _ (f64 : Float) (sem : Semaphore) (dns : Dns) where
  open f64 use {F}
  open sem use {S}
  open dns use {RecordType, Response}

  -- With `n` other workers waiting, the pacer's count is right before and after the step.
  abbrev StepWaits :
      Shared S F RecordType Response
      → Pc RecordType
      → Shared S F RecordType Response × Pc RecordType
      → Type 0
  StepWaits s pc (s', pc') =
      (n : ℕ)
      → s.pacer.waiting ≡ (n + waits pc) % u64_mod
      → s'.pacer.waiting ≡ (n + waits pc') % u64_mod

  take_item-StepWaits :
      (s : Shared S F RecordType Response) (w : WorkItem RecordType) (o : Option dns.Name)
      → StepWaits s receiving (take_item f64 sem dns s w o)
  unfolding take_item
  take_item-StepWaits s w none n h = h
  take_item-StepWaits s w (some name) n h = h

  receive-StepWaits :
      (s : Shared S F RecordType Response) (q : List (WorkItem RecordType))
      → StepWaits s receiving (receive f64 sem dns s q)
  unfolding receive
  receive-StepWaits s [] n h = ground (arith, h)
  receive-StepWaits s (w ∷ q) n h =
      take_item-StepWaits (record s { queue = q }) w (dns.from_ascii w.query.host) n h

  after_pass-StepWaits :
      (s : Shared S F RecordType Response) (w : WorkItem RecordType) (p : ResolverPool S)
      (o : Outcome S)
      → StepWaits s (reserving w) (after_pass f64 sem dns (record s { pool = p }) w o)
  unfolding after_pass
  after_pass-StepWaits s w p (reserved j r) n h = h
  after_pass-StepWaits s w p no_resolver n h = h
  after_pass-StepWaits s w p (sleep d) n h = h
  after_pass-StepWaits s w p (wait_for j) n h = h
  after_pass-StepWaits s w p again n h = h

  wake-StepWaits :
      (s : Shared S F RecordType Response) (w : WorkItem RecordType) (j now : ℕ)
      (o : Option (ResolverHealth S))
      → StepWaits s (waiting w j) (wake f64 sem dns s w j now o)
  unfolding wake
  wake-StepWaits s w j now none n h = h
  wake-StepWaits s w j now (some r) n h = elim (Bool-cases (after_wait sem r now).1) [
    | inl k ↦ rw k h
    | inr k ↦ rw k h
  ]

  ended-StepWaits :
      (s : Shared S F RecordType Response) (w : WorkItem RecordType) (j : ℕ) (x : Exchange Response)
      (o : Option (ResolverHealth S))
      → StepWaits s (querying w j) (ended f64 sem dns s w j x o)
  unfolding ended
  ended-StepWaits s w j x none n h = h
  ended-StepWaits s w j x (some r) n h = h

  slotted-StepWaits :
      (s : Shared S F RecordType Response) (w : WorkItem RecordType) (j now : ℕ)
      (x : Exchange Response)
      → StepWaits s (slotted w j) (worker_step f64 sem dns s now x (slotted w j))
  unfolding worker_step
  slotted-StepWaits s w j now x n h = elim (Option-cases s.pacer.rate) [
    | inl e ↦ ground (arith, h, e)
    | inr (r, e) ↦ ground (arith, h, e)
  ]

  throttled-StepWaits :
      (s : Shared S F RecordType Response) (w : WorkItem RecordType) (j now : ℕ)
      (x : Exchange Response)
      → StepWaits s (throttled w j) (worker_step f64 sem dns s now x (throttled w j))
  unfolding worker_step
  throttled-StepWaits s w j now x n h = elim (Option-cases (sem.try_acquire s.pacer.tokens)) [
    | inl e ↦ ground (arith, h, e)
    | inr (t, e) ↦ ground (arith, h, e)
  ]

  pub worker_step_waiting :
      (s : Shared S F RecordType Response) (now : ℕ) (x : Exchange Response) (pc : Pc RecordType)
      (n : ℕ)
      → s.pacer.waiting ≡ (n + waits pc) % u64_mod
      → (worker_step f64 sem dns s now x pc).0.pacer.waiting
        ≡ (n + waits (worker_step f64 sem dns s now x pc).1) % u64_mod
  unfolding worker_step
  worker_step_waiting s now x receiving n h = receive-StepWaits s s.queue n h
  worker_step_waiting s now x (pacing w) n h = h
  worker_step_waiting s now x (reserving w) n h = after_pass-StepWaits s w _ _ n h
  worker_step_waiting s now x (waiting w j) n h = wake-StepWaits s w j now _ n h
  worker_step_waiting s now x (holding w j) n h = h
  worker_step_waiting s now x (slotted w j) n h = slotted-StepWaits s w j now x n h
  worker_step_waiting s now x (throttled w j) n h = throttled-StepWaits s w j now x n h
  worker_step_waiting s now x (querying w j) n h = ended-StepWaits s w j x _ n h
  worker_step_waiting s now x (releasing j) n h = h
  worker_step_waiting s now x stopped n h = h
