-- ===== src/Worker/Tasks.antt =====
-- The workers of a client at work (src/worker.rs): `spawn` and `run` of `ResolverWorker`, one step
-- of one worker at a time, in any order, over the queue of work items, the pool, the global limiter
-- and the attempt pacer that they share.
use blastdns.Prelude.{
  ℕ, Bool, true, false, ◌&&◌, ◌++◌, Option, none, some, List, [], ◌∷◌, length, get_elem?, set, ltb,
  if◌then◌else◌, replicate, ◌>>=◌,
}
use blastdns.Controller.Runs.{update, slot_taken}
use blastdns.Dns.{Dns}
use blastdns.Error.{Result, err, BlastDnsError}
use blastdns.Float.{Float}
use blastdns.Health.{ResolverHealth, record_dispatch, release, try_acquire}
use blastdns.Limiter
use blastdns.Limiter.{RateLimiter}
use blastdns.Pacer
use blastdns.Pacer.{AttemptPacer}
use blastdns.Pool.{
  ResolverPool, Outcome, reserved, no_resolver, sleep, wait_for, again, reserve_pass, after_wait,
}
use blastdns.Semaphore.{Semaphore}
use blastdns.Worker.{QuerySpec, Exchange, conclude}

-- The sender of the response is the number of its channel.
pub record WorkItem (RecordType : Type 0) : Type 0 where
  pub query : QuerySpec RecordType
  pub responder : ℕ

-- Where a worker stands in `run`. A resolver is its index in the pool.
pub data Pc (RecordType : Type 0) : Type 0 where
  -- in `recv`
  receiving : Pc RecordType
  -- before the global `acquire`
  pacing : WorkItem RecordType → Pc RecordType
  -- at the top of the loop of `reserve`
  reserving : WorkItem RecordType → Pc RecordType
  -- in `reserve`, waiting for a permit of a resolver
  waiting : WorkItem RecordType → ℕ → Pc RecordType
  -- with a reservation, before `acquire_rate`
  holding : WorkItem RecordType → ℕ → Pc RecordType
  -- before `acquire` of the pacer
  slotted : WorkItem RecordType → ℕ → Pc RecordType
  -- waiting for a token of the pacer
  throttled : WorkItem RecordType → ℕ → Pc RecordType
  -- in `query`, after `record_dispatch`
  querying : WorkItem RecordType → ℕ → Pc RecordType
  -- after the response was sent, before the reservation is dropped
  releasing : ℕ → Pc RecordType
  -- out of the loop
  stopped : Pc RecordType

-- What the workers share. The answers are those sent, by the number of the channel, the latest
-- first; `is_open` says that a sender of the queue is left.
pub record Shared (S F RecordType Response : Type 0) : Type 0 where
  pub pool : ResolverPool S
  pub limiter : RateLimiter
  pub pacer : AttemptPacer S F
  pub capacity : ℕ
  pub queue : List (WorkItem RecordType)
  pub is_open : Bool
  pub answers : List (ℕ × Result Response)

-- `sent` are the channels of all items that were ever put into the queue.
pub record System (S F RecordType Response : Type 0) : Type 0 where
  pub shared : Shared S F RecordType Response
  pub workers : List (Pc RecordType)
  pub sent : List ℕ

pub data Event (F RecordType Response : Type 0) : Type 0 where
  -- the worker with this index makes a step at this time; a query that ends now comes out so
  work : ℕ → ℕ → Exchange Response → Event F RecordType Response
  -- a client sends an item, which takes effect when the queue has room
  send : WorkItem RecordType → Event F RecordType Response
  -- the last sender is dropped
  close : Event F RecordType Response
  -- the pacer's task refills it
  refill : F → Event F RecordType Response
  -- the controller sets the pacer's rate, a resolver's interval, or the global one
  pace : Option F → Event F RecordType Response
  steer : ℕ → ℕ → Event F RecordType Response
  steer_global : ℕ → Event F RecordType Response

abbrev pub steered : {S : Type 0} → ℕ → ResolverHealth S → ResolverHealth S
steered interval h = record h { limiter = record h.limiter { interval_ns = interval } }

module _ {S F RecordType Response : Type 0} where
  -- `respond`, and `responder.send`
  abbrev pub respond :
      Shared S F RecordType Response
      → WorkItem RecordType
      → Result Response
      → Shared S F RecordType Response
  respond s w r = record s { answers = (w.responder, r) ∷ s.answers }

  abbrev pub at_resolver :
      Shared S F RecordType Response
      → ℕ
      → (ResolverHealth S → ResolverHealth S)
      → Shared S F RecordType Response
  at_resolver s j f = record s { pool = record s.pool { resolvers = update s.pool.resolvers j f } }

  abbrev pub put_resolver :
      Shared S F RecordType Response → ℕ → ResolverHealth S → Shared S F RecordType Response
  put_resolver s j h = record s { pool = record s.pool { resolvers = set s.pool.resolvers j h } }

  -- The send into a queue with room.
  unfoldable pub enqueue :
      System S F RecordType Response → WorkItem RecordType → System S F RecordType Response
  enqueue y w =
      if y.shared.is_open && ltb (length y.shared.queue) y.shared.capacity
      then record y {
        shared = record y.shared { queue = y.shared.queue ++ w ∷ [] };
        sent = w.responder ∷ y.sent;
      }
      else y

module _ (f64 : Float) (sem : Semaphore) (dns : Dns) where
  open f64 use {F}
  open sem use {S}
  open dns use {RecordType, Response}

  -- An unusable hostname is rejected before it takes a slot.
  unfoldable pub take_item :
      Shared S F RecordType Response
      → WorkItem RecordType
      → Option dns.Name
      → Shared S F RecordType Response × Pc RecordType
  take_item s w none = (respond s w (err (BlastDnsError.invalid_hostname w.query.host)), receiving)
  take_item s w (some name) = (s, pacing w)

  -- `recv` fails once the queue is empty and has no sender.
  unfoldable pub receive :
      Shared S F RecordType Response
      → List (WorkItem RecordType)
      → Shared S F RecordType Response × Pc RecordType
  unfolding take_item
  receive s [] = (s, if s.is_open then receiving else stopped)
  receive s (w ∷ q) = take_item (record s { queue = q }) w (dns.from_ascii w.query.host)

  -- After a pass of `reserve`.
  unfoldable pub after_pass :
      Shared S F RecordType Response
      → WorkItem RecordType
      → Outcome S
      → Shared S F RecordType Response × Pc RecordType
  after_pass s w (reserved j h) = (s, holding w j)
  after_pass s w no_resolver = (respond s w (err BlastDnsError.no_resolvers), receiving)
  after_pass s w (sleep d) = (s, reserving w)
  after_pass s w (wait_for j) = (s, waiting w j)
  after_pass s w again = (s, reserving w)

  -- The wait for a permit of resolver `j`, when the permit is there.
  unfoldable pub wake :
      Shared S F RecordType Response
      → WorkItem RecordType
      → ℕ
      → ℕ
      → Option (ResolverHealth S)
      → Shared S F RecordType Response × Pc RecordType
  unfolding after_wait
  wake s w j now none = (s, waiting w j)
  wake s w j now (some h) =
      let (h', kept) = after_wait sem h now in
      (put_resolver s j h', if kept then holding w j else reserving w)

  unfoldable pub dispatch :
      Shared S F RecordType Response
      → WorkItem RecordType
      → ℕ
      → Shared S F RecordType Response × Pc RecordType
  unfolding record_dispatch
  dispatch s w j = (at_resolver s j record_dispatch, querying w j)

  -- The wait for a token, when it has one.
  unfoldable pub paced :
      Shared S F RecordType Response
      → WorkItem RecordType
      → ℕ
      → Option (AttemptPacer S F)
      → Shared S F RecordType Response × Pc RecordType
  unfolding dispatch
  paced s w j none = (s, throttled w j)
  paced s w j (some p) = dispatch (record s { pacer = p }) w j

  -- The query ends. (An index out of range does not occur.)
  unfoldable pub ended :
      Shared S F RecordType Response
      → WorkItem RecordType
      → ℕ
      → Exchange Response
      → Option (ResolverHealth S)
      → Shared S F RecordType Response × Pc RecordType
  unfolding conclude
  ended s w j x none = (s, querying w j)
  ended s w j x (some h) =
      let (h', r) = conclude dns h x.udp x in (respond (put_resolver s j h') w r, releasing j)

  unfoldable pub worker_step :
      Shared S F RecordType Response
      → ℕ
      → Exchange Response
      → Pc RecordType
      → Shared S F RecordType Response × Pc RecordType
  unfolding receive reserve_pass after_pass wake paced dispatch ended Limiter.reserve_slot
      Pacer.acquire Pacer.granted release
  worker_step s now x receiving = receive s s.queue
  worker_step s now x (pacing w) =
      (record s { limiter = (Limiter.reserve_slot s.limiter now).0 }, reserving w)
  worker_step s now x (reserving w) =
      let (pool, o) = reserve_pass sem s.pool now in after_pass (record s { pool = pool }) w o
  worker_step s now x (waiting w j) =
      wake s w j now (get_elem? s.pool.resolvers j >>= try_acquire sem)
  worker_step s now x (holding w j) = (at_resolver s j (slot_taken now), slotted w j)
  worker_step s now x (slotted w j) =
      let (pacer, passes) = Pacer.acquire f64 sem s.pacer in
      if passes
      then dispatch (record s { pacer = pacer }) w j
      else (record s { pacer = pacer }, throttled w j)
  worker_step s now x (throttled w j) = paced s w j (Pacer.granted f64 sem s.pacer)
  worker_step s now x (querying w j) = ended s w j x (get_elem? s.pool.resolvers j)
  worker_step s now x (releasing j) = (at_resolver s j (release sem), receiving)
  worker_step s now x stopped = (s, stopped)

  unfoldable pub work_of :
      System S F RecordType Response
      → ℕ
      → ℕ
      → Exchange Response
      → Option (Pc RecordType)
      → System S F RecordType Response
  unfolding worker_step
  work_of y i now x none = y
  work_of y i now x (some pc) =
      let (s, pc') = worker_step y.shared now x pc in
      record y { shared = s; workers = set y.workers i pc' }

  unfoldable pub step :
      System S F RecordType Response → Event F RecordType Response → System S F RecordType Response
  unfolding work_of enqueue Pacer.refill Pacer.set_rate
  step y (work i now x) = work_of y i now x (get_elem? y.workers i)
  step y (send w) = enqueue y w
  step y close = record y { shared = record y.shared { is_open = false } }
  step y (refill seconds) = record y {
    shared = record y.shared { pacer = Pacer.refill f64 sem y.shared.pacer seconds };
  }
  step y (pace rate) = record y {
    shared = record y.shared { pacer = Pacer.set_rate f64 y.shared.pacer rate };
  }
  step y (steer j interval) = record y { shared = at_resolver y.shared j (steered interval) }
  step y (steer_global interval) = record y {
    shared = record y.shared { limiter = record y.shared.limiter { interval_ns = interval } };
  }

  unfoldable pub run :
      System S F RecordType Response
      → List (Event F RecordType Response)
      → System S F RecordType Response
  unfolding step
  run y [] = y
  run y (e ∷ es) = run (step y e) es

  -- The workers are spawned on an empty queue.
  abbrev pub spawned : ℕ → ResolverPool S → RateLimiter → ℕ → System S F RecordType Response
  spawned workers pool limiter capacity = record {
    shared = record {
      pool = pool;
      limiter = limiter;
      pacer = Pacer.new f64 sem;
      capacity = capacity;
      queue = [];
      is_open = true;
      answers = [];
    };
    workers = replicate workers receiving;
    sent = [];
  }
