-- ===== src/Worker/Counters.antt =====
-- Every step of a worker (src/worker.rs) keeps the dispatches of a resolver (src/health.rs) equal
-- to its finished queries and those under way.
use mathlib.Core.Option
use mathlib.Core.Path.{subst}
use blastdns.Prelude.{
  ℕ, ◌≡◌, sym, ap, refl, ◌∙◌, Option, none, some, List, [], ◌∷◌, inl, inr, arith, get_elem?, set,
  ◌==◌, if◌then◌else◌, is_empty, Bool-cases, Option-cases, length, wrapping_add, ◌⊎◌, ◌>>=◌,
}
use blastdns.Controller.Runs.{slot_taken}
use blastdns.Dns.{Dns}
use blastdns.Float.{Float}
use blastdns.Health.{ResolverHealth, record_dispatch, release, try_acquire}
use blastdns.Pacer
use blastdns.Pacer.{AttemptPacer}
use blastdns.Pool.{Tally, reserve_pass, after_wait, scan, conclude, keep, no_tally}
use blastdns.Pool.Choice.{visit_taken}
use blastdns.Pool.Scan.{scan-inl}
use blastdns.Semaphore.{Semaphore}
use blastdns.Worker
use blastdns.Worker.{Exchange}
use blastdns.Worker.Queries.{conclude_once}
use blastdns.Worker.Tasks.{
  WorkItem, Pc, receiving, pacing, reserving, waiting, holding, slotted, throttled, querying,
  releasing, stopped, Shared, take_item, receive, after_pass, wake, dispatch, paced, ended,
  worker_step,
}
use blastdns.Worker.Dispatches.{asks, Agrees, Counted, Counted-same, Counted-update, Counted-set}

module _ (sem : Semaphore) where
  open sem use {S}

  Agrees-try_acquire : (h h' : ResolverHealth S) → try_acquire sem h ≡ some h' → Agrees h h' 0 0
  unfolding try_acquire
  Agrees-try_acquire h h' e = elim (Option-cases (sem.try_acquire h.inflight)) [
    | inl n ↦ ground (arith, n)
    | inr (s, q) ↦ ground (arith, q)
  ]

  Agrees-after_wait : (h : ResolverHealth S) (now : ℕ) → Agrees h (after_wait sem h now).0 0 0
  unfolding after_wait release
  Agrees-after_wait h now = ground arith

  Agrees-trans :
      (h1 h2 h3 : ResolverHealth S) → Agrees h1 h2 0 0 → Agrees h2 h3 0 0 → Agrees h1 h3 0 0
  Agrees-trans h1 h2 h3 a b = omega arith

  module _ (f64 : Float) (dns : Dns) where
    open f64 use {F}
    open dns use {RecordType, Response}

    abbrev StepCounted :
        Shared S F RecordType Response
        → Pc RecordType
        → Shared S F RecordType Response × Pc RecordType
        → Type 0
    StepCounted s pc (s', pc') =
        Counted s.pool.resolvers s'.pool.resolvers (λ j. asks j pc) (λ j. asks j pc')

    take_item-StepCounted :
        (s : Shared S F RecordType Response) (w : WorkItem RecordType) (o : Option dns.Name)
        → StepCounted s receiving (take_item f64 sem dns s w o)
    unfolding take_item
    take_item-StepCounted s w none = Counted-same s.pool.resolvers (λ j. 0)
    take_item-StepCounted s w (some n) = Counted-same s.pool.resolvers (λ j. 0)

    receive-StepCounted :
        (s : Shared S F RecordType Response) (q : List (WorkItem RecordType))
        → StepCounted s receiving (receive f64 sem dns s q)
    unfolding receive
    receive-StepCounted s [] = elim (Bool-cases s.is_open) [
      | inl o ↦ rw o (Counted-same s.pool.resolvers (λ j. 0))
      | inr o ↦ rw o (Counted-same s.pool.resolvers (λ j. 0))
    ]
    receive-StepCounted s (w ∷ q) =
        take_item-StepCounted (record s { queue = q }) w (dns.from_ascii w.query.host)

    conclude-StepCounted :
        (s : Shared S F RecordType Response) (w : WorkItem RecordType) (c now : ℕ)
        (o : (ℕ × ResolverHealth S) ⊎ Tally)
        → ((i : ℕ) (h' : ResolverHealth S)
            → o ≡ inl (i, h')
            → (h : ResolverHealth S) × (get_elem? s.pool.resolvers i ≡ some h)
              × (try_acquire sem h ≡ some h'))
        → let out = conclude sem s.pool.resolvers now o in
          StepCounted s (reserving w) (
            after_pass f64 sem dns
              (record s { pool = keep (record s.pool { cursor = c }) out })
              w
              out)
    unfolding conclude after_pass
    conclude-StepCounted s w c now (inl (i, h')) found =
        let (h, at, e) = found i h' refl in
        Counted-set s.pool.resolvers i h' (λ j. 0) (λ j. 0)
          (λ g p.
            Agrees-try_acquire g h'
              (ap (try_acquire sem) (Option.some-injective g h (sym p ∙ at)) ∙ e))
          (λ j n. refl)
    conclude-StepCounted s w c now (inr t) found = elim (Bool-cases (t.active == 0)) [
      | inl z ↦ rw z (Counted-same s.pool.resolvers (λ j. 0))
      | inr nz ↦ rw nz (elim (Bool-cases (t.benched == t.active)) [
        | inl b ↦ rw b (Counted-same s.pool.resolvers (λ j. 0))
        | inr nb ↦ rw nb (elim (Option-cases t.waitable) [
          | inl n ↦ rw n (Counted-same s.pool.resolvers (λ j. 0))
          | inr (x, q) ↦ rw q (Counted-same s.pool.resolvers (λ j. 0))
        ])
      ])
    ]

    pass-StepCounted :
        (s : Shared S F RecordType Response) (w : WorkItem RecordType) (now : ℕ)
        → let (pool, o) = reserve_pass sem s.pool now in
          StepCounted s (reserving w) (after_pass f64 sem dns (record s { pool = pool }) w o)
    unfolding reserve_pass
    pass-StepCounted s w now = elim (Bool-cases (is_empty s.pool.resolvers)) [
      | inl e ↦ rw e (unfold after_pass in (Counted-same s.pool.resolvers (λ j. 0)))
      | inr e ↦ rw e (
          conclude-StepCounted s w (wrapping_add s.pool.cursor 1) now
            (scan sem s.pool.resolvers now s.pool.cursor (length s.pool.resolvers) 0 no_tally)
            (λ i h' q.
              let (h, at, v) =
                scan-inl sem s.pool.resolvers now s.pool.cursor (length s.pool.resolvers) 0 no_tally
                  i h' q in
              (h, at, (visit_taken sem h h' now v).1)))
    ]

    wake-StepCounted :
        (s : Shared S F RecordType Response) (w : WorkItem RecordType) (i now : ℕ)
        (o : Option (ResolverHealth S))
        → (get_elem? s.pool.resolvers i >>= try_acquire sem) ≡ o
        → StepCounted s (waiting w i) (wake f64 sem dns s w i now o)
    unfolding wake
    wake-StepCounted s w i now none e = Counted-same s.pool.resolvers (λ j. 0)
    wake-StepCounted s w i now (some h') e = elim (Bool-cases (after_wait sem h' now).1) [
      | inl kept ↦ rw kept woken
      | inr kept ↦ rw kept woken
    ]
      where
        woken :
            Counted s.pool.resolvers
              (set s.pool.resolvers i (after_wait sem h' now).0)
              (λ j. 0)
              (λ j. 0)
        woken =
            Counted-set s.pool.resolvers i (after_wait sem h' now).0 (λ j. 0) (λ j. 0)
              (λ h at.
                Agrees-trans h h' (after_wait sem h' now).0
                  (Agrees-try_acquire h h' (ap (λ p. p >>= try_acquire sem) (sym at) ∙ e))
                  (Agrees-after_wait h' now))
              (λ j n. refl)

    ended-StepCounted :
        (s : Shared S F RecordType Response) (w : WorkItem RecordType) (i : ℕ)
        (x : Exchange Response) (o : Option (ResolverHealth S))
        → get_elem? s.pool.resolvers i ≡ o
        → StepCounted s (querying w i) (ended f64 sem dns s w i x o)
    unfolding ended
    ended-StepCounted s w i x none e = Counted-same s.pool.resolvers (λ j. asks j (querying w i))
    ended-StepCounted s w i x (some h) e =
        Counted-set s.pool.resolvers i (Worker.conclude dns h x.udp x).0
          (λ j. asks j (querying w i)) (λ j. 0)
          (λ g at.
            subst (λ k. Agrees k (Worker.conclude dns h x.udp x).0 (asks i (querying w i)) 0)
              (Option.some-injective h g (sym e ∙ at)) (concluded h))
          (λ j n. ground arith)
      where
        concluded :
            (h : ResolverHealth S)
            → Agrees h (Worker.conclude dns h x.udp x).0 (if i == i then 1 else 0) 0
        concluded h =
            let (same, one, _, _) = conclude_once dns h x.udp x in ground (arith, same, one)

    dispatch-StepCounted :
        (s : Shared S F RecordType Response) (p : AttemptPacer S F) (w : WorkItem RecordType)
        (i : ℕ) (pc : Pc RecordType)
        → ((j : ℕ) → 0 ≡ asks j pc)
        → StepCounted s pc (dispatch f64 sem dns (record s { pacer = p }) w i)
    unfolding dispatch record_dispatch
    dispatch-StepCounted s p w i pc quiet =
        Counted-update s.pool.resolvers i record_dispatch (λ j. asks j pc)
          (λ j. asks j (querying w i)) (λ h. ground (arith, quiet i))
          (λ j n. ground (arith, quiet j))

    pub worker_step-StepCounted :
        (s : Shared S F RecordType Response) (now : ℕ) (x : Exchange Response) (pc : Pc RecordType)
        → StepCounted s pc (worker_step f64 sem dns s now x pc)
    unfolding worker_step paced
    worker_step-StepCounted s now x receiving = receive-StepCounted s s.queue
    worker_step-StepCounted s now x (pacing w) = Counted-same s.pool.resolvers (λ j. 0)
    worker_step-StepCounted s now x (reserving w) = pass-StepCounted s w now
    worker_step-StepCounted s now x (waiting w i) = wake-StepCounted s w i now _ refl
    worker_step-StepCounted s now x (holding w i) =
        Counted-update s.pool.resolvers i (slot_taken now) (λ j. 0) (λ j. 0) (λ h. refl)
          (λ j n. refl)
    worker_step-StepCounted s now x (slotted w i) =
        elim (Bool-cases (Pacer.acquire f64 sem s.pacer).1) [
          | inl p ↦ rw p (
              dispatch-StepCounted s (Pacer.acquire f64 sem s.pacer).0 w i (slotted w i)
                (λ j. refl))
          | inr p ↦ rw p (Counted-same s.pool.resolvers (λ j. 0))
        ]
    worker_step-StepCounted s now x (throttled w i) =
        elim (Option-cases (Pacer.granted f64 sem s.pacer)) [
          | inl p ↦ rw p (Counted-same s.pool.resolvers (λ j. 0))
          | inr (q, p) ↦ rw p (dispatch-StepCounted s q w i (throttled w i) (λ j. refl))
        ]
    worker_step-StepCounted s now x (querying w i) = ended-StepCounted s w i x _ refl
    worker_step-StepCounted s now x (releasing i) =
        Counted-update s.pool.resolvers i (release sem) (λ j. 0) (λ j. 0)
          (unfold release in (λ h. refl)) (λ j n. refl)
    worker_step-StepCounted s now x stopped = Counted-same s.pool.resolvers (λ j. 0)
