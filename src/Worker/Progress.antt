-- ===== src/Worker/Progress.antt =====
-- A worker of src/worker.rs with nothing in its way: how many turns it needs for an item.
use mathlib.Core.Path.{subst}
use blastdns.Prelude.{
  ℕ, ◌+◌, ◌<◌, ◌≡◌, ◌∙◌, ap, sym, refl, true, Bool, none, some, List, [], ◌∷◌, length, get_elem?,
  u64_mod, if◌then◌else◌, set,
}
use blastdns.Controller.Runs.{slot_taken}
use blastdns.Dns.{Dns}
use blastdns.Float.{Float}
use blastdns.Health.{ResolverHealth, record_dispatch, release, try_acquire}
use blastdns.Limiter.{reserve_slot}
use blastdns.Pacer
use blastdns.Pacer.{AttemptPacer}
use blastdns.Pool.{reserved, reserve_pass}
use blastdns.Pool.Choice.{IsEligible, reserve_pass_finds}
use blastdns.Pool.Passes.{IsEnded, reserve_pass-IsEnded}
use blastdns.Semaphore.{Semaphore}
use blastdns.Worker
use blastdns.Worker.{Exchange}
use blastdns.Worker.Reserved.{
  get_elem?-set_self, get_elem?-update_self, update-set, set-set, reserve_pass-reserved,
}
use blastdns.Worker.Tasks.{
  WorkItem, Pc, receiving, pacing, reserving, holding, slotted, throttled, querying, releasing,
  Shared, worker_step, at_resolver, put_resolver, respond, take_item, receive, after_pass, dispatch,
  ended,
}

module _ (f64 : Float) (sem : Semaphore) (dns : Dns) where
  open f64 use {F}
  open sem use {S}
  open dns use {RecordType, Response}

  -- The turns of one worker at these times, while nobody else does anything; `x` is what its query
  -- comes to.
  unfoldable pub drive :
      Shared S F RecordType Response
      → List ℕ
      → Exchange Response
      → Pc RecordType
      → Shared S F RecordType Response × Pc RecordType
  drive s [] x pc = (s, pc)
  drive s (t ∷ ts) x pc = let (s', pc') = worker_step f64 sem dns s t x pc in drive s' ts x pc'

  drive_step :
      (s : Shared S F RecordType Response) (t : ℕ) (ts : List ℕ) (x : Exchange Response)
      (pc : Pc RecordType) (out : Shared S F RecordType Response × Pc RecordType)
      → worker_step f64 sem dns s t x pc ≡ out
      → drive s (t ∷ ts) x pc ≡ drive out.0 ts x out.1
  unfolding drive
  drive_step s t ts x pc out e = ap (λ p. drive p.0 ts x p.1) e

  receiving_step :
      (s : Shared S F RecordType Response) (t : ℕ) (x : Exchange Response) (w : WorkItem RecordType)
      (q : List (WorkItem RecordType)) (name : dns.Name)
      → s.queue ≡ w ∷ q
      → dns.from_ascii w.query.host ≡ some name
      → worker_step f64 sem dns s t x receiving ≡ (record s { queue = q }, pacing w)
  unfolding worker_step
  receiving_step s t x w q name e n =
      ap (receive f64 sem dns s) e ∙ ap (take_item f64 sem dns (record s { queue = q }) w) n

  reserving_step :
      (s : Shared S F RecordType Response) (t : ℕ) (x : Exchange Response) (w : WorkItem RecordType)
      (j : ℕ) (h : ResolverHealth S)
      → (reserve_pass sem s.pool t).1 ≡ reserved j h
      → worker_step f64 sem dns s t x (reserving w)
        ≡ (record s { pool = (reserve_pass sem s.pool t).0 }, holding w j)
  unfolding worker_step
  reserving_step s t x w j h e =
      ap (after_pass f64 sem dns (record s { pool = (reserve_pass sem s.pool t).0 }) w) e

  unpaced_acquire : (p : AttemptPacer S F) → p.rate ≡ none → Pacer.acquire f64 sem p ≡ (p, true)
  unfolding Pacer.acquire
  unpaced_acquire p e = rw e refl

  slotted_step :
      (s : Shared S F RecordType Response) (t : ℕ) (x : Exchange Response) (w : WorkItem RecordType)
      (j : ℕ)
      → s.pacer.rate ≡ none
      → worker_step f64 sem dns s t x (slotted w j)
        ≡ (at_resolver s j record_dispatch, querying w j)
  unfolding worker_step
  slotted_step s t x w j e =
      ap
        (λ (p : AttemptPacer S F × Bool).
          if p.1
          then dispatch f64 sem dns (record s { pacer = p.0 }) w j
          else (record s { pacer = p.0 }, throttled w j))
        (unpaced_acquire s.pacer e)

  querying_step :
      (s : Shared S F RecordType Response) (t : ℕ) (x : Exchange Response) (w : WorkItem RecordType)
      (j : ℕ) (h : ResolverHealth S)
      → get_elem? s.pool.resolvers j ≡ some h
      → worker_step f64 sem dns s t x (querying w j) ≡ (
        respond
            (put_resolver s j (Worker.conclude dns h x.udp x).0)
            w
            (Worker.conclude dns h x.udp x).1,
        releasing j,
      )
  unfolding worker_step
  querying_step s t x w j h e = ap (ended f64 sem dns s w j x) e

  -- The worker is idle again, the item is out of the queue, and its answer is what a query came to
  -- at a resolver of the pool that was eligible at `now` and had a permit free. That resolver has
  -- the permit taken, the slot of its limiter taken at `slot`, the query counted, and the permit
  -- given back; the others are as they were.
  abbrev pub Served :
      Shared S F RecordType Response
      → WorkItem RecordType
      → List (WorkItem RecordType)
      → Exchange Response
      → (now slot : ℕ) → Shared S F RecordType Response × Pc RecordType
      → Type 0
  Served s w q x now slot (s', pc) =
      (pc ≡ receiving)
      × (s'.queue ≡ q)
      × (j : ℕ) × (r g : ResolverHealth S) × (get_elem? s.pool.resolvers j ≡ some r)
      × IsEligible sem r now
      × (try_acquire sem r ≡ some g)
      × (s'.pool.resolvers
          ≡ set s.pool.resolvers j (release sem (Worker.query dns (slot_taken slot g) x).0))
      × (s'.answers ≡ (w.responder, (Worker.query dns (slot_taken slot g) x).1) ∷ s.answers)

  -- The same from the reservation on: the resolver has its permit taken already.
  abbrev Finished :
      Shared S F RecordType Response
      → WorkItem RecordType
      → Exchange Response
      → ℕ
      → ResolverHealth S
      → Shared S F RecordType Response × Pc RecordType
      → Type 0
  Finished s w x j g (s', pc) =
      (pc ≡ receiving)
      × (s'.queue ≡ s.queue)
      × (s'.pool.resolvers ≡ set s.pool.resolvers j (release sem (Worker.query dns g x).0))
      × (s'.answers ≡ (w.responder, (Worker.query dns g x).1) ∷ s.answers)

  after_reserved :
      (s : Shared S F RecordType Response) (w : WorkItem RecordType) (x : Exchange Response)
      (j t4 t5 t6 t7 : ℕ) (h : ResolverHealth S)
      → s.pacer.rate ≡ none
      → get_elem? s.pool.resolvers j ≡ some h
      → Finished s w x j (slot_taken t4 h) (drive s (t4 ∷ t5 ∷ t6 ∷ t7 ∷ []) x (holding w j))
  unfolding Worker.query drive
  after_reserved s w x j t4 t5 t6 t7 h unpaced at =
      let s1 = at_resolver s j (slot_taken t4) in
      let at1 = get_elem?-update_self s.pool.resolvers j (slot_taken t4) h at in
      let s2 = at_resolver s1 j record_dispatch in
      let at2 = get_elem?-update_self s1.pool.resolvers j record_dispatch (slot_taken t4 h) at1 in
      let d = record_dispatch (slot_taken t4 h) in
      let (g, r) = Worker.conclude dns d x.udp x in
      let s3 = respond (put_resolver s2 j g) w r in
      let at3 = get_elem?-set_self s2.pool.resolvers j d g at2 in
      let e4 =
        drive_step s t4 (t5 ∷ t6 ∷ t7 ∷ []) x (holding w j) (s1, slotted w j)
          (unfold worker_step in refl) in
      let e5 =
        drive_step s1 t5 (t6 ∷ t7 ∷ []) x (slotted w j) (s2, querying w j)
          (slotted_step s1 t5 x w j unpaced) in
      let e6 =
        drive_step s2 t6 (t7 ∷ []) x (querying w j) (s3, releasing j)
          (querying_step s2 t6 x w j d at2) in
      let e7 =
        drive_step s3 t7 [] x (releasing j) (at_resolver s3 j (release sem), receiving)
          (unfold worker_step in refl) in
      let changes =
        update-set s3.pool.resolvers j (release sem) g at3
        ∙ set-set s2.pool.resolvers j g (release sem g)
        ∙ ap (λ hs. set hs j (release sem g))
            (update-set s1.pool.resolvers j record_dispatch (slot_taken t4 h) at1
              ∙ ap (λ hs. set hs j d) (update-set s.pool.resolvers j (slot_taken t4) h at)
              ∙ set-set s.pool.resolvers j (slot_taken t4 h) d)
        ∙ set-set s.pool.resolvers j d (release sem g) in
      subst (Finished s w x j (slot_taken t4 h)) (sym (e4 ∙ e5 ∙ e6 ∙ e7))
        (refl, refl, changes, refl)

  -- A worker in `recv`, with an item in the queue whose host is a name, a pace of attempts that is
  -- not limited, and, when it comes to `reserve`, an active resolver that is not benched and has a
  -- permit free (and the pool's cursor below the end of its range): if nobody comes between, then
  -- seven turns later the worker is in `recv` again, and the item is answered with what a query
  -- came to at a resolver of the pool that was active and not benched, and had a permit free. That
  -- resolver has had its permit taken, a slot of its limiter taken, the query counted, and the
  -- permit given back; the other resolvers are as they were.
  pub drive-Served :
      (s : Shared S F RecordType Response) (w : WorkItem RecordType)
      (q : List (WorkItem RecordType)) (x : Exchange Response) (name : dns.Name) (i : ℕ)
      (r r' : ResolverHealth S) (t1 t2 t3 t4 t5 t6 t7 : ℕ)
      → s.queue ≡ w ∷ q
      → dns.from_ascii w.query.host ≡ some name
      → s.pacer.rate ≡ none
      → s.pool.cursor + length s.pool.resolvers < u64_mod
      → get_elem? s.pool.resolvers i ≡ some r
      → IsEligible sem r t3
      → try_acquire sem r ≡ some r'
      → Served s w q x t3 t4 (drive s (t1 ∷ t2 ∷ t3 ∷ t4 ∷ t5 ∷ t6 ∷ t7 ∷ []) x receiving)
  drive-Served s w q x name i r r' t1 t2 t3 t4 t5 t6 t7 queued named unpaced fits at free permit =
      let s1 = record s { queue = q } in
      let s2 = record s1 { limiter = (reserve_slot s.limiter t2).0 } in
      let s3 = record s2 { pool = (reserve_pass sem s.pool t3).0 } in
      let (j, h, found) = reserve_pass_finds sem s.pool t3 i r r' fits at free permit in
      let later = t4 ∷ t5 ∷ t6 ∷ t7 ∷ [] in
      let e1 =
        drive_step s t1 (t2 ∷ t3 ∷ later) x receiving (s1, pacing w)
          (receiving_step s t1 x w q name queued named) in
      let e2 =
        drive_step s1 t2 (t3 ∷ later) x (pacing w) (s2, reserving w) (unfold worker_step in refl) in
      let e3 =
        drive_step s2 t3 later x (reserving w) (s3, holding w j)
          (reserving_step s2 t3 x w j h found) in
      let (g, at_j, eligible, free_j, pool_after) =
        subst (IsEnded sem s.pool.resolvers t3 (reserve_pass sem s.pool t3).0) found
          (reserve_pass-IsEnded sem s.pool t3 fits).0 in
      let (idle, rest, changed, answered) =
        after_reserved s3 w x j t4 t5 t6 t7 h unpaced
          (reserve_pass-reserved sem s.pool t3 j h found) in
      subst (Served s w q x t3 t4) (sym (e1 ∙ e2 ∙ e3)) (
        idle,
        rest,
        j,
        g,
        h,
        at_j,
        eligible,
        free_j,
        changed
            ∙ ap (λ hs. set hs j (release sem (Worker.query dns (slot_taken t4 h) x).0)) pool_after
            ∙ set-set s.pool.resolvers j h _,
        answered,
      )
