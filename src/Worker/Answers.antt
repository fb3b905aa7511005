-- ===== src/Worker/Answers.antt =====
-- The work items of src/worker.rs and their answers, while any number of workers are at them: where
-- an item is, and what holds once the workers have stopped.
use mathlib.Core.Option
use blastdns.Prelude.{
  ℕ, zero, suc, ◌+◌, ◌≡◌, ap, refl, Bool, false, ◌++◌, Option, none, some, List, [], ◌∷◌, inl, inr,
  arith, get_elem?, set, ◌==◌, if◌then◌else◌, Bool-cases,
}
use blastdns.Dns.{Dns}
use blastdns.Error.{Result}
use blastdns.Float.{Float}
use blastdns.Health.{ResolverHealth}
use blastdns.Pacer
use blastdns.Pacer.{AttemptPacer}
use blastdns.Pool.{ResolverPool, Outcome, reserved, no_resolver, sleep, wait_for, again, after_wait}
use blastdns.Semaphore.{Semaphore}
use blastdns.Worker.{Exchange}
use blastdns.Worker.Tasks.{
  WorkItem, Pc, receiving, pacing, reserving, waiting, holding, slotted, throttled, querying,
  releasing, stopped, Shared, take_item, receive, after_pass, wake, dispatch, paced, ended,
  worker_step,
}

-- How often a channel is in a list.
abbrev pub copies : ℕ → List ℕ → ℕ
copies id [] = 0
copies id (c ∷ cs) = (if c == id then 1 else 0) + copies id cs

abbrev pub queued : {T : Type 0} → ℕ → List (WorkItem T) → ℕ
queued id [] = 0
queued id (w ∷ ws) = (if w.responder == id then 1 else 0) + queued id ws

abbrev pub answered : {R : Type 0} → ℕ → List (ℕ × Result R) → ℕ
answered id [] = 0
answered id ((c, r) ∷ as') = (if c == id then 1 else 0) + answered id as'

-- Whether a worker has an item with this channel that it has not answered.
abbrev pub owes : {T : Type 0} → ℕ → Pc T → ℕ
owes id (pacing w) = if w.responder == id then 1 else 0
owes id (reserving w) = if w.responder == id then 1 else 0
owes id (waiting w j) = if w.responder == id then 1 else 0
owes id (holding w j) = if w.responder == id then 1 else 0
owes id (slotted w j) = if w.responder == id then 1 else 0
owes id (throttled w j) = if w.responder == id then 1 else 0
owes id (querying w j) = if w.responder == id then 1 else 0
owes id _ = 0

abbrev pub in_hand : {T : Type 0} → ℕ → List (Pc T) → ℕ
in_hand id [] = 0
in_hand id (pc ∷ pcs) = owes id pc + in_hand id pcs

pub in_hand-set :
    {T : Type 0} (k : ℕ) (pcs : List (Pc T)) (i : ℕ) (pc pc' : Pc T)
    → get_elem? pcs i ≡ some pc
    → in_hand k (set pcs i pc') + owes k pc ≡ in_hand k pcs + owes k pc'
in_hand-set k [] i pc pc' e = cc
in_hand-set k (x ∷ pcs) zero pc pc' e =
    let same : owes k x ≡ owes k pc = ap (owes k) (Option.some-injective x pc e) in omega arith
in_hand-set k (x ∷ pcs) (suc i) pc pc' e = omega (arith, in_hand-set k pcs i pc pc' e)

pub queued-append :
    {T : Type 0} (id : ℕ) (ws : List (WorkItem T)) (w : WorkItem T)
    → queued id (ws ++ w ∷ []) ≡ (if w.responder == id then 1 else 0) + queued id ws
queued-append id [] w = refl
queued-append id (x ∷ ws) w = omega (arith, queued-append id ws w)

-- A worker that has stopped left the queue closed and empty.
abbrev pub IsOver : {T : Type 0} → List (WorkItem T) → Bool → Pc T → Type 0
IsOver q is_open stopped = (q ≡ []) × (is_open ≡ false)
IsOver q is_open _ = Unit

module _ (f64 : Float) (sem : Semaphore) (dns : Dns) where
  open f64 use {F}
  open sem use {S}
  open dns use {RecordType, Response}

  abbrev pub owed : ℕ → Shared S F RecordType Response → ℕ
  owed id s = queued id s.queue + answered id s.answers

  -- What a step of a worker does to its item.
  pub record Passed (s : Shared S F RecordType Response) (pc : Pc RecordType)
      (s' : Shared S F RecordType Response) (pc' : Pc RecordType) : Type 0 where
    pub balanced : (id : ℕ) → owed id s' + owes id pc' ≡ owed id s + owes id pc
    pub is_open : s'.is_open ≡ s.is_open
    pub over : IsOver s'.queue s'.is_open pc'
    pub empty : s.queue ≡ [] → s'.queue ≡ []

  abbrev pub StepPassed :
      Shared S F RecordType Response
      → Pc RecordType
      → Shared S F RecordType Response × Pc RecordType
      → Type 0
  StepPassed s pc (s', pc') = Passed s pc s' pc'

  receive-Passed :
      (s : Shared S F RecordType Response) (q : List (WorkItem RecordType))
      → s.queue ≡ q
      → StepPassed s receiving (receive f64 sem dns s q)
  unfolding receive take_item
  receive-Passed s [] e = elim (Bool-cases s.is_open) [
    | inl o ↦ rw o (record { balanced = λ id. refl; is_open = refl; over = tt; empty = λ n. n })
    | inr o ↦
        rw o (record { balanced = λ id. refl; is_open = refl; over = (e, refl); empty = λ n. n })
  ]
  receive-Passed s (w ∷ q) e = named (dns.from_ascii w.query.host)
    where
      balance : (id : ℕ) → queued id s.queue ≡ (if w.responder == id then 1 else 0) + queued id q
      balance id = ap (queued id) e

      named :
          (o : Option dns.Name)
          → StepPassed s receiving (take_item f64 sem dns (record s { queue = q }) w o)
      named none = record {
        balanced = λ id. omega (arith, balance id);
        is_open = refl;
        over = tt;
        empty = λ n. cc;
      }
      named (some name) = record {
        balanced = λ id. omega (arith, balance id);
        is_open = refl;
        over = tt;
        empty = λ n. cc;
      }

  -- An item that moves on with its worker.
  Passed-keep :
      (s s' : Shared S F RecordType Response) (pc pc' : Pc RecordType)
      → s'.queue ≡ s.queue
      → s'.answers ≡ s.answers
      → s'.is_open ≡ s.is_open
      → ((id : ℕ) → owes id pc' ≡ owes id pc)
      → IsOver s'.queue s'.is_open pc'
      → Passed s pc s' pc'
  Passed-keep s s' pc pc' q a o same over = record {
    balanced = λ id. omega (arith, ap (queued id) q, ap (answered id) a, same id);
    is_open = o;
    over = over;
    empty = λ n. cc;
  }

  -- An item that is answered.
  Passed-answer :
      (s s' : Shared S F RecordType Response) (w : WorkItem RecordType) (r : Result Response)
      (pc pc' : Pc RecordType)
      → s'.queue ≡ s.queue
      → s'.answers ≡ (w.responder, r) ∷ s.answers
      → s'.is_open ≡ s.is_open
      → ((id : ℕ) → owes id pc ≡ (if w.responder == id then 1 else 0))
      → ((id : ℕ) → owes id pc' ≡ 0)
      → IsOver s'.queue s'.is_open pc'
      → Passed s pc s' pc'
  Passed-answer s s' w r pc pc' q a o before after over = record {
    balanced = λ id. omega (arith, ap (queued id) q, ap (answered id) a, before id, after id);
    is_open = o;
    over = over;
    empty = λ n. cc;
  }

  after_pass-Passed :
      (s : Shared S F RecordType Response) (pool : ResolverPool S) (w : WorkItem RecordType)
      (o : Outcome S)
      → StepPassed s (reserving w) (after_pass f64 sem dns (record s { pool = pool }) w o)
  unfolding after_pass
  after_pass-Passed s pool w (reserved j h) =
      Passed-keep s _ (reserving w) (holding w j) refl refl refl (λ id. refl) tt
  after_pass-Passed s pool w no_resolver =
      Passed-answer s _ w _ (reserving w) receiving refl refl refl (λ id. refl) (λ id. refl) tt
  after_pass-Passed s pool w (sleep d) =
      Passed-keep s _ (reserving w) (reserving w) refl refl refl (λ id. refl) tt
  after_pass-Passed s pool w (wait_for j) =
      Passed-keep s _ (reserving w) (waiting w j) refl refl refl (λ id. refl) tt
  after_pass-Passed s pool w again =
      Passed-keep s _ (reserving w) (reserving w) refl refl refl (λ id. refl) tt

  wake-Passed :
      (s : Shared S F RecordType Response) (w : WorkItem RecordType) (j now : ℕ)
      (o : Option (ResolverHealth S))
      → StepPassed s (waiting w j) (wake f64 sem dns s w j now o)
  unfolding wake
  wake-Passed s w j now none =
      Passed-keep s s (waiting w j) (waiting w j) refl refl refl (λ id. refl) tt
  wake-Passed s w j now (some h) = elim (Bool-cases (after_wait sem h now).1) [
    | inl k ↦ rw k (Passed-keep s _ (waiting w j) (holding w j) refl refl refl (λ id. refl) tt)
    | inr k ↦ rw k (Passed-keep s _ (waiting w j) (reserving w) refl refl refl (λ id. refl) tt)
  ]

  dispatch-Passed :
      (s : Shared S F RecordType Response) (p : AttemptPacer S F) (w : WorkItem RecordType) (j : ℕ)
      (pc : Pc RecordType)
      → ((id : ℕ) → (if w.responder == id then 1 else 0) ≡ owes id pc)
      → StepPassed s pc (dispatch f64 sem dns (record s { pacer = p }) w j)
  unfolding dispatch
  dispatch-Passed s p w j pc same = Passed-keep s _ pc (querying w j) refl refl refl same tt

  paced-Passed :
      (s : Shared S F RecordType Response) (w : WorkItem RecordType) (j : ℕ)
      (o : Option (AttemptPacer S F))
      → StepPassed s (throttled w j) (paced f64 sem dns s w j o)
  unfolding paced
  paced-Passed s w j none =
      Passed-keep s s (throttled w j) (throttled w j) refl refl refl (λ id. refl) tt
  paced-Passed s w j (some p) = dispatch-Passed s p w j (throttled w j) (λ id. refl)

  slotted-Passed :
      (s : Shared S F RecordType Response) (now : ℕ) (x : Exchange Response)
      (w : WorkItem RecordType) (j : ℕ)
      → StepPassed s (slotted w j) (worker_step f64 sem dns s now x (slotted w j))
  unfolding worker_step
  slotted-Passed s now x w j = elim (Bool-cases (Pacer.acquire f64 sem s.pacer).1) [
    | inl p ↦
        rw p (dispatch-Passed s (Pacer.acquire f64 sem s.pacer).0 w j (slotted w j) (λ id. refl))
    | inr p ↦ rw p (Passed-keep s _ (slotted w j) (throttled w j) refl refl refl (λ id. refl) tt)
  ]

  ended-Passed :
      (s : Shared S F RecordType Response) (w : WorkItem RecordType) (j : ℕ) (x : Exchange Response)
      (o : Option (ResolverHealth S))
      → StepPassed s (querying w j) (ended f64 sem dns s w j x o)
  unfolding ended
  ended-Passed s w j x none =
      Passed-keep s s (querying w j) (querying w j) refl refl refl (λ id. refl) tt
  ended-Passed s w j x (some h) =
      Passed-answer s _ w _ (querying w j) (releasing j) refl refl refl (λ id. refl) (λ id. refl) tt

  pub worker_step-Passed :
      (s : Shared S F RecordType Response) (now : ℕ) (x : Exchange Response) (pc : Pc RecordType)
      → IsOver s.queue s.is_open pc
      → StepPassed s pc (worker_step f64 sem dns s now x pc)
  unfolding worker_step
  worker_step-Passed s now x receiving v = receive-Passed s s.queue refl
  worker_step-Passed s now x (pacing w) v =
      Passed-keep s _ (pacing w) (reserving w) refl refl refl (λ id. refl) tt
  worker_step-Passed s now x (reserving w) v = after_pass-Passed s _ w _
  worker_step-Passed s now x (waiting w j) v = wake-Passed s w j now _
  worker_step-Passed s now x (holding w j) v =
      Passed-keep s _ (holding w j) (slotted w j) refl refl refl (λ id. refl) tt
  worker_step-Passed s now x (slotted w j) v = slotted-Passed s now x w j
  worker_step-Passed s now x (throttled w j) v = paced-Passed s w j _
  worker_step-Passed s now x (querying w j) v = ended-Passed s w j x _
  worker_step-Passed s now x (releasing j) v =
      Passed-keep s _ (releasing j) receiving refl refl refl (λ id. refl) tt
  worker_step-Passed s now x stopped v =
      Passed-keep s s stopped stopped refl refl refl (λ id. refl) v
