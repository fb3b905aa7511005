-- ===== src/Worker/Permits.antt =====
-- Every step of a worker (src/worker.rs) takes and returns the permits of the resolvers
-- (src/health.rs) together with its reservations.
use mathlib.Core.Option
use blastdns.Prelude.{
  ℕ, ◌+◌, ◌≡◌, sym, ap, refl, ◌∙◌, Option, none, some, List, [], ◌∷◌, inl, inr, arith, get_elem?,
  ◌==◌, if◌then◌else◌, is_empty, Bool-cases, Option-cases, length, wrapping_add, ◌⊎◌, ◌>>=◌,
}
use blastdns.Controller.Runs.{update, slot_taken}
use blastdns.Dns.{Dns}
use blastdns.Error.{Result, ok, err}
use blastdns.Float.{Float}
use blastdns.Health.{ResolverHealth, record_dispatch, release, try_acquire}
use blastdns.Pacer
use blastdns.Pacer.{AttemptPacer}
use blastdns.Pool.{Tally, reserve_pass, after_wait, scan, conclude, keep, no_tally}
use blastdns.Pool.Choice.{visit_taken}
use blastdns.Pool.Scan.{scan-inl}
use blastdns.Semaphore.{Semaphore, SemaphoreLaws}
use blastdns.Worker
use blastdns.Worker.{Exchange}
use blastdns.Worker.Tasks.{
  WorkItem, Pc, receiving, pacing, reserving, waiting, holding, slotted, throttled, querying,
  releasing, stopped, Shared, at_resolver, take_item, receive, after_pass, wake, dispatch, paced,
  ended, worker_step,
}
use blastdns.Worker.Reservations.{
  has, Moved, Moved-same, Moved-update, Moved-set, try_acquire_lem, taken_permit, after_wait_lem,
  elsewhere,
}

module _ (sem : Semaphore) (laws : SemaphoreLaws sem) where
  open sem use {S, available_permits}

  module _ (f64 : Float) (dns : Dns) where
    open f64 use {F}
    open dns use {RecordType, Response}

    abbrev StepMoved :
        Shared S F RecordType Response
        → Pc RecordType
        → Shared S F RecordType Response × Pc RecordType
        → Type 0
    StepMoved s pc (s', pc') =
        Moved sem laws s.pool.resolvers s'.pool.resolvers (λ j. has j pc) (λ j. has j pc')

    take_item-StepMoved :
        (s : Shared S F RecordType Response) (w : WorkItem RecordType) (o : Option dns.Name)
        → StepMoved s receiving (take_item f64 sem dns s w o)
    unfolding take_item
    take_item-StepMoved s w none =
        Moved-same sem laws s.pool.resolvers (λ j. 0) (λ j. 0) (λ j. refl)
    take_item-StepMoved s w (some n) =
        Moved-same sem laws s.pool.resolvers (λ j. 0) (λ j. 0) (λ j. refl)

    receive-StepMoved :
        (s : Shared S F RecordType Response) (q : List (WorkItem RecordType))
        → StepMoved s receiving (receive f64 sem dns s q)
    unfolding receive
    receive-StepMoved s [] = elim (Bool-cases s.is_open) [
      | inl o ↦ rw o (Moved-same sem laws s.pool.resolvers (λ j. 0) (λ j. 0) (λ j. refl))
      | inr o ↦ rw o (Moved-same sem laws s.pool.resolvers (λ j. 0) (λ j. 0) (λ j. refl))
    ]
    receive-StepMoved s (w ∷ q) =
        take_item-StepMoved (record s { queue = q }) w (dns.from_ascii w.query.host)

    -- A pass takes a permit exactly if it reserves.
    conclude-StepMoved :
        (s : Shared S F RecordType Response) (w : WorkItem RecordType) (c now : ℕ)
        (o : (ℕ × ResolverHealth S) ⊎ Tally)
        → ((i : ℕ) (h' : ResolverHealth S)
            → o ≡ inl (i, h')
            → (h : ResolverHealth S) × (get_elem? s.pool.resolvers i ≡ some h)
              × (try_acquire sem h ≡ some h'))
        → let out = conclude sem s.pool.resolvers now o in
          StepMoved s (reserving w) (
            after_pass f64 sem dns
              (record s { pool = keep (record s.pool { cursor = c }) out })
              w
              out)
    unfolding conclude after_pass
    conclude-StepMoved s w c now (inl (i, h')) found =
        let (h, at, e) = found i h' refl in
        Moved-set sem laws s.pool.resolvers i h' (λ j. 0) (λ j. if i == j then 1 else 0)
          (λ g p.
            let same : h ≡ g = Option.some-injective h g (sym at ∙ p) in
            taken_permit sem laws g h' i (ap (try_acquire sem) (sym same) ∙ e))
          (elsewhere sem laws i)
    conclude-StepMoved s w c now (inr t) found = elim (Bool-cases (t.active == 0)) [
      | inl z ↦ rw z (Moved-same sem laws s.pool.resolvers (λ j. 0) (λ j. 0) (λ j. refl))
      | inr nz ↦ rw nz (elim (Bool-cases (t.benched == t.active)) [
        | inl b ↦ rw b (Moved-same sem laws s.pool.resolvers (λ j. 0) (λ j. 0) (λ j. refl))
        | inr nb ↦ rw nb (elim (Option-cases t.waitable) [
          | inl n ↦ rw n (Moved-same sem laws s.pool.resolvers (λ j. 0) (λ j. 0) (λ j. refl))
          | inr (x, q) ↦ rw q (Moved-same sem laws s.pool.resolvers (λ j. 0) (λ j. 0) (λ j. refl))
        ])
      ])
    ]

    pass-StepMoved :
        (s : Shared S F RecordType Response) (w : WorkItem RecordType) (now : ℕ)
        → let (pool, o) = reserve_pass sem s.pool now in
          StepMoved s (reserving w) (after_pass f64 sem dns (record s { pool = pool }) w o)
    unfolding reserve_pass
    pass-StepMoved s w now = elim (Bool-cases (is_empty s.pool.resolvers)) [
      | inl e ↦ rw e (
          unfold after_pass in (Moved-same sem laws s.pool.resolvers (λ j. 0) (λ j. 0) (λ j. refl)))
      | inr e ↦ rw e (
          conclude-StepMoved s w (wrapping_add s.pool.cursor 1) now
            (scan sem s.pool.resolvers now s.pool.cursor (length s.pool.resolvers) 0 no_tally)
            (λ i h' q.
              let (h, at, v) =
                scan-inl sem s.pool.resolvers now s.pool.cursor (length s.pool.resolvers) 0 no_tally
                  i h' q in
              (h, at, (visit_taken sem h h' now v).1)))
    ]

    wake-StepMoved :
        (s : Shared S F RecordType Response) (w : WorkItem RecordType) (i now : ℕ)
        (o : Option (ResolverHealth S))
        → (get_elem? s.pool.resolvers i >>= try_acquire sem) ≡ o
        → StepMoved s (waiting w i) (wake f64 sem dns s w i now o)
    unfolding wake
    wake-StepMoved s w i now none e =
        Moved-same sem laws s.pool.resolvers (λ j. 0) (λ j. 0) (λ j. refl)
    wake-StepMoved s w i now (some h') e = elim (Bool-cases (after_wait sem h' now).1) [
      | inl kept ↦ rw kept (
          Moved-set sem laws s.pool.resolvers i (after_wait sem h' now).0 (λ j. 0)
            (λ j. if i == j then 1 else 0)
            (λ h at. ground (arith, acquired h at, after_wait_lem sem laws h' now, kept))
            (elsewhere sem laws i))
      | inr kept ↦ rw kept (
          Moved-set sem laws s.pool.resolvers i (after_wait sem h' now).0 (λ j. 0) (λ j. 0)
            (λ h at. ground (arith, acquired h at, after_wait_lem sem laws h' now, kept))
            (λ j n. refl))
    ]
      where
        acquired :
            (h : ResolverHealth S)
            → get_elem? s.pool.resolvers i ≡ some h
            → available_permits h'.inflight + 1 ≡ available_permits h.inflight
        acquired h at = try_acquire_lem sem laws h h' (ap (λ p. p >>= try_acquire sem) (sym at) ∙ e)

    pub kept_lem :
        (hs : List (ResolverHealth S)) (i : ℕ) (f : ResolverHealth S → ResolverHealth S)
        (pc pc' : Pc RecordType)
        → ((h : ResolverHealth S) → (f h).inflight ≡ h.inflight)
        → ((j : ℕ) → has j pc ≡ has j pc')
        → Moved sem laws hs (update hs i f) (λ j. has j pc) (λ j. has j pc')
    kept_lem hs i f pc pc' same held =
        Moved-update sem laws hs i f (λ j. has j pc) (λ j. has j pc')
          (λ h. ap (λ x. available_permits x + has i pc') (same h) ∙ omega (arith, held i))
          (λ j n. held j)

    conclude_keeps :
        (h : ResolverHealth S) (u : Result Response) (x : Exchange Response)
        → (Worker.conclude dns h u x).0.inflight ≡ h.inflight
    unfolding Worker.conclude
    conclude_keeps h (ok r) x = elim (Bool-cases (dns.truncated r)) [
      | inl t ↦ rw t (ground arith)
      | inr t ↦ rw t (ground arith)
    ]
    conclude_keeps h (err e) x = ground arith

    ended-StepMoved :
        (s : Shared S F RecordType Response) (w : WorkItem RecordType) (i : ℕ)
        (x : Exchange Response) (o : Option (ResolverHealth S))
        → get_elem? s.pool.resolvers i ≡ o
        → StepMoved s (querying w i) (ended f64 sem dns s w i x o)
    unfolding ended
    ended-StepMoved s w i x none e =
        Moved-same sem laws s.pool.resolvers (λ j. has j (querying w i)) (λ j. has j (querying w i))
          (λ j. refl)
    ended-StepMoved s w i x (some h) e =
        Moved-set sem laws s.pool.resolvers i (Worker.conclude dns h x.udp x).0
          (λ j. has j (querying w i)) (λ j. has j (querying w i))
          (λ g at.
            ap (λ p. available_permits p + has i (querying w i))
              (conclude_keeps h x.udp x
                ∙ ap (λ (p : ResolverHealth S). p.inflight)
                    (Option.some-injective h g (sym e ∙ at))))
          (λ j n. refl)

    dispatch-StepMoved :
        (s : Shared S F RecordType Response) (p : AttemptPacer S F) (w : WorkItem RecordType)
        (i : ℕ) (pc : Pc RecordType)
        → ((j : ℕ) → has j pc ≡ has j (holding w i))
        → StepMoved s pc (dispatch f64 sem dns (record s { pacer = p }) w i)
    unfolding dispatch record_dispatch
    dispatch-StepMoved s p w i pc held =
        kept_lem s.pool.resolvers i record_dispatch pc (querying w i) (λ h. refl) held

    paced-StepMoved :
        (s : Shared S F RecordType Response) (w : WorkItem RecordType) (i : ℕ)
        (o : Option (AttemptPacer S F))
        → StepMoved s (throttled w i) (paced f64 sem dns s w i o)
    unfolding paced
    paced-StepMoved s w i none =
        Moved-same sem laws s.pool.resolvers (λ j. has j (throttled w i))
          (λ j. has j (throttled w i)) (λ j. refl)
    paced-StepMoved s w i (some p) = dispatch-StepMoved s p w i (throttled w i) (λ j. refl)

    slotted-StepMoved :
        (s : Shared S F RecordType Response) (now : ℕ) (x : Exchange Response)
        (w : WorkItem RecordType) (i : ℕ)
        → StepMoved s (slotted w i) (worker_step f64 sem dns s now x (slotted w i))
    unfolding worker_step
    slotted-StepMoved s now x w i = elim (Bool-cases (Pacer.acquire f64 sem s.pacer).1) [
      | inl p ↦
          rw p
            (dispatch-StepMoved s (Pacer.acquire f64 sem s.pacer).0 w i (slotted w i) (λ j. refl))
      | inr p ↦ rw p (
          Moved-same sem laws s.pool.resolvers (λ j. has j (slotted w i)) (λ j. has j (slotted w i))
            (λ j. refl))
    ]

    released :
        (s : Shared S F RecordType Response) (i : ℕ)
        → StepMoved s (releasing i) (at_resolver s i (release sem), receiving)
    unfolding release
    released s i =
        Moved-update sem laws s.pool.resolvers i (release sem) (λ j. if i == j then 1 else 0)
          (λ j. 0) (λ h. ground (arith, laws.available_permits-add_permits h.inflight 1))
          (λ j n. sym (elsewhere sem laws i j n))

    pub worker_step-StepMoved :
        (s : Shared S F RecordType Response) (now : ℕ) (x : Exchange Response) (pc : Pc RecordType)
        → StepMoved s pc (worker_step f64 sem dns s now x pc)
    unfolding worker_step
    worker_step-StepMoved s now x receiving = receive-StepMoved s s.queue
    worker_step-StepMoved s now x (pacing w) =
        Moved-same sem laws s.pool.resolvers (λ j. 0) (λ j. 0) (λ j. refl)
    worker_step-StepMoved s now x (reserving w) = pass-StepMoved s w now
    worker_step-StepMoved s now x (waiting w i) = wake-StepMoved s w i now _ refl
    worker_step-StepMoved s now x (holding w i) =
        kept_lem s.pool.resolvers i (slot_taken now) (holding w i) (slotted w i) (λ h. refl)
          (λ j. refl)
    worker_step-StepMoved s now x (slotted w i) = slotted-StepMoved s now x w i
    worker_step-StepMoved s now x (throttled w i) = paced-StepMoved s w i _
    worker_step-StepMoved s now x (querying w i) = ended-StepMoved s w i x _ refl
    worker_step-StepMoved s now x (releasing i) = released s i
    worker_step-StepMoved s now x stopped =
        Moved-same sem laws s.pool.resolvers (λ j. 0) (λ j. 0) (λ j. refl)
