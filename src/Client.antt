-- ===== src/Client.antt =====
-- `BlastDNSClient` of src/client.rs: the retry loop of `resolve_full`, the cache in front of it,
-- and the counts of outcomes. `none` is a panic.
pub mod Attempts
pub mod Build
pub mod Checks
pub mod Ready
pub mod Started
pub mod Fresh
pub mod Workers
pub mod Counted
use mathlib.Core.Option
use blastdns.Prelude.{
  ℕ, zero, suc, ◌+◌, ◌-◌, Bool, true, false, not, ◌&&◌, ◌||◌, Option, none, some, ltb, ◌==◌,
  if◌then◌else◌, is_empty, saturating_add, wrapping_add, ◌>>=◌,
}
use blastdns.Cache
use blastdns.Cache.{SimpleCache, CacheEntry, Query}
use blastdns.Controller.Global.{Outcomes}
use blastdns.Dns.{Dns, ResponseCode, no_error, nx_domain, other}
use blastdns.Error.{
  Result, ok, err, BlastDnsError, queue_closed, worker_dropped, is_retryable,
  is_congestion_evidence,
}
use blastdns.Lru.{Lru}
use blastdns.Net.{Text}

-- What became of one work item: a worker answered it, dropped it, or the queue was closed.
pub data Delivery (R : Type 0) : Type 0 where
  answered : Result R → Delivery R
  dropped : Delivery R
  closed : Delivery R

pub record State (C : Type 0) : Type 0 where
  pub cache : Option (SimpleCache C)
  pub outcomes : Outcomes

abbrev pub settles : ResponseCode → Bool
settles no_error = true
settles nx_domain = true
settles (other _) = false

module _ (dns : Dns) where
  open dns use {Response}

  unfoldable pub answers_the_question : Response → Bool
  answers_the_question r = settles (dns.response_code r)

-- `completed.fetch_add(1)` and, for a failure, `failed.fetch_add(1)`
unfoldable pub finish : {C : Type 0} → State C → Bool → State C
finish s failed = record s {
  outcomes = record {
    completed = wrapping_add s.outcomes.completed 1;
    failed = if failed then wrapping_add s.outcomes.failed 1 else s.outcomes.failed;
  };
}

module _ (dns : Dns) (lru : Lru (Query dns) (CacheEntry dns.Response)) where
  open dns use {Response, RecordType}
  open lru use {C}

  -- The lookup before the first attempt.
  unfoldable pub look_up : State C → Text → RecordType → ℕ → State C × Option Response
  look_up s host record_type now = elim s.cache [
    | none ↦ (s, none)
    | some cache ↦ elim (dns.from_str host) [
      | none ↦ (s, none)
      | some name ↦
          let (c, r) = Cache.get dns lru cache (name, record_type) now in
          (record s { cache = some c }, r)
    ]
  ]

-- `latest` is the last `Instant` that there is.
module _ (dns : Dns) (lru : Lru (Query dns) (CacheEntry dns.Response)) (latest : ℕ) where
  open dns use {Response, RecordType}
  open lru use {C}

  -- The cache takes a response that has answers, if the host parses as a name.
  unfoldable pub remember : State C → Text → RecordType → Response → ℕ → Option (State C)
  remember s host record_type r now = elim s.cache [
    | none ↦ some s
    | some cache ↦ if is_empty (dns.answers r) then some s else elim (dns.from_str host) [
      | none ↦ some s
      | some name ↦
          Option.map (λ c. record s { cache = some c })
            (Cache.insert dns lru latest cache (name, record_type) r now)
    ]
  ]

  -- The last round of an attempt that returns a response.
  unfoldable pub accept :
      State C → Text → RecordType → Response → ℕ → Option (State C × Result Response)
  unfolding remember finish
  accept s host record_type r now =
      Option.map (λ s'. (finish s' false, ok r)) (remember s host record_type r now)

  -- The last round of an attempt that returns an error.
  unfoldable pub give_up : State C → BlastDnsError → State C × Result Response
  unfolding finish is_congestion_evidence
  give_up s e = (if is_congestion_evidence e then finish s true else s, err e)

  -- What an attempt makes of its delivery; `last` says that no attempt is left, and `retry` is what
  -- the next one does.
  unfoldable pub attempt :
      State C
      → Text
      → RecordType
      → ℕ
      → Delivery Response
      → Bool
      → Option (State C × Result Response)
      → Option (State C × Result Response)
  unfolding accept give_up answers_the_question is_retryable
  attempt s host record_type now (answered (ok r)) last retry =
      if not (answers_the_question dns r) && not last
      then retry
      else accept s host record_type r now
  attempt s host record_type now (answered (err e)) last retry =
      if last || not (is_retryable e) then some (give_up s e) else retry
  attempt s host record_type now dropped last retry =
      if last || not (is_retryable worker_dropped) then some (give_up s worker_dropped) else retry
  attempt s host record_type now closed last retry = some (s, err queue_closed)

  -- The `for` loop: `k` attempts are left, and `a` were made. The deliveries and the clock are
  -- those of each attempt.
  unfoldable pub attempts_from :
      State C
      → Text
      → RecordType
      → (ℕ → ℕ)
      → (ℕ → Delivery Response)
      → ℕ
      → ℕ
      → Option (State C × Result Response)
  unfolding attempt
  attempts_from s host record_type clock deliver zero a = some (s, err worker_dropped)
  attempts_from s host record_type clock deliver (suc k) a =
      let rest = attempts_from s host record_type clock deliver k (a + 1) in
      attempt s host record_type (clock a) (deliver a) (k == 0) rest

  -- `format_ptr_query` is an argument. The workers are running.
  unfoldable pub resolve_full :
      (Text → Text)
      → ℕ
      → State C
      → Text
      → RecordType
      → ℕ
      → (ℕ → ℕ)
      → (ℕ → Delivery Response)
      → Option (State C × Result Response)
  unfolding look_up attempts_from
  resolve_full format_ptr_query max_retries s host record_type now clock deliver =
      let host' = if dns.is_ptr record_type then format_ptr_query host else host in
      let (s', hit) = look_up dns lru s host' record_type now in
      let attempts = saturating_add max_retries 1 in
      elim hit [
        | some r ↦ some (s', ok r)
        | none ↦ attempts_from s' host' record_type clock deliver attempts 0
      ]
