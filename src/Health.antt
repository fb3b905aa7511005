-- ===== src/Health.antt =====
-- `ResolverHealth` and `ResolverStats` of src/health.rs. The counters are `AtomicU64` fields, and
-- `now` is what `now_ns` returned. The connections (`client`, `tcp_client`) are in Connection; what
-- a query over them returns is an argument where it is used.
pub mod Purgatory
pub mod Accounts
pub mod Failures
pub mod Rtt
pub mod Connection
use blastdns.Prelude.{
  ℕ, ◌+◌, ◌-◌, ◌*◌, ◌/◌, ◌%◌, ◌^◌, ◌≤◌, ◌<◌, ◌≡◌, max, Bool, true, false, ◌&&◌, ◌||◌, not, Option,
  none, some, List, [], ◌∷◌, leb, ltb, ◌==◌, if◌then◌else◌, wrapping_add, u64_mod, arith,
}
use mathlib.Core.Option
use blastdns.Float.{Float}
use blastdns.Semaphore.{Semaphore}
use blastdns.Net.{SocketAddr}
use blastdns.Config.{BlastDnsConfig}
use blastdns.Error.{Result, is_err}
use blastdns.Limiter
use blastdns.Limiter.{RateLimiter}

pub record ResolverHealth (S : Type 0) : Type 0 where
  pub resolver : SocketAddr
  pub request_timeout : ℕ
  pub persistent_socket : Bool
  pub purgatory_threshold : ℕ
  pub purgatory_sentence : ℕ
  pub inflight : S
  pub limiter : RateLimiter
  pub active : Bool
  pub attempted : ℕ
  pub answered : ℕ
  pub empty : ℕ
  pub timeout : ℕ
  pub error : ℕ
  pub consecutive_errors : ℕ
  pub benched_until_ns : ℕ
  pub purgatory_entries : ℕ
  pub truncated : ℕ
  pub rtt_ewma_us : ℕ
  pub rtt_min_us : ℕ
  pub rtt_min_window_ns : ℕ

-- `RTT_MIN_WINDOW`, in nanoseconds
abbrev pub rtt_min_window : ℕ
rtt_min_window = 30000000000

-- `PROBE_DEADLINE_FLOOR`, in nanoseconds
abbrev pub probe_deadline_floor : ℕ
probe_deadline_floor = 2000000000

-- `previous - (previous >> RTT_EWMA_SHIFT) + (sample >> RTT_EWMA_SHIFT)`, and the floor of 1
unfoldable pub next_ewma : ℕ → ℕ → ℕ
next_ewma previous sample =
    max
      (if previous == 0
        then sample
        else wrapping_add (previous - previous / 2 ^ 3) (sample / 2 ^ 3))
      1

module _ {S : Type 0} where
  unfoldable pub is_benched : ResolverHealth S → ℕ → Bool
  is_benched h now = ltb now h.benched_until_ns

  unfoldable pub record_dispatch : ResolverHealth S → ResolverHealth S
  record_dispatch h = record h { attempted = wrapping_add h.attempted 1 }

  unfoldable pub record_truncated : ResolverHealth S → ResolverHealth S
  record_truncated h = record h { truncated = wrapping_add h.truncated 1 }

  unfoldable pub decay_errors : ResolverHealth S → ResolverHealth S
  decay_errors h = record h { consecutive_errors = h.consecutive_errors - 1 }

  -- `rtt` in microseconds
  unfoldable pub record_rtt : ResolverHealth S → ℕ → ℕ → ResolverHealth S
  unfolding next_ewma
  record_rtt h rtt now =
      let sample = max (rtt % u64_mod) 1 in
      let h' = record h { rtt_ewma_us = next_ewma h.rtt_ewma_us sample } in
      let lapsed = ltb rtt_min_window (now - h.rtt_min_window_ns) in
      if h.rtt_min_us == 0 || lapsed
      then record h' { rtt_min_us = sample; rtt_min_window_ns = now }
      else if ltb sample h.rtt_min_us
      then record h' { rtt_min_us = sample }
      else h'

  unfoldable pub record_response : ResolverHealth S → ℕ → Bool → ℕ → ResolverHealth S
  unfolding decay_errors record_rtt
  record_response h rtt had_answers now =
      let h' =
        if had_answers
        then record h { answered = wrapping_add h.answered 1 }
        else record h { empty = wrapping_add h.empty 1 } in
      record_rtt (decay_errors h') rtt now

  -- A sentence begins: the failures that earned it are discharged.
  unfoldable pub enter_purgatory : ResolverHealth S → ℕ → ResolverHealth S
  enter_purgatory h now = record h {
    benched_until_ns = wrapping_add now (h.purgatory_sentence % u64_mod);
    purgatory_entries = wrapping_add h.purgatory_entries 1;
    consecutive_errors = 0;
  }

  -- One call with no other in between; Failures takes its atomic accesses one by one.
  unfoldable pub record_error : ResolverHealth S → Bool → ℕ → ResolverHealth S
  unfolding enter_purgatory
  record_error h is_timeout now =
      let h' =
        if is_timeout
        then record h { timeout = wrapping_add h.timeout 1 }
        else record h { error = wrapping_add h.error 1 } in
      let consecutive = wrapping_add h.consecutive_errors 1 in
      let h'' = record h' { consecutive_errors = consecutive } in
      if h.purgatory_threshold == 0 || ltb consecutive h.purgatory_threshold
      then h''
      else if h.purgatory_sentence == 0
      then h''
      else enter_purgatory h'' now

  -- The deadline of the startup probe, and the health after a probe query that came out so.
  unfoldable pub probe_deadline : ResolverHealth S → ℕ
  probe_deadline h = max h.request_timeout probe_deadline_floor

  unfoldable pub probe : {A : Type 0} → ResolverHealth S → Result A → ResolverHealth S × Bool
  probe h answer =
      let alive = not (is_err answer) in (if alive then h else record h { active = false }, alive)

-- The counters of `ResolverStats`; its `resolver` is the address.
pub record ResolverStats (F : Type 0) : Type 0 where
  pub resolver : SocketAddr
  pub attempted : ℕ
  pub answered : ℕ
  pub empty : ℕ
  pub timeout : ℕ
  pub error : ℕ
  pub rtt_mean_us : ℕ
  pub rtt_min_us : ℕ
  pub purgatory_entries : ℕ
  pub truncated : ℕ
  pub rate_qps : Option F

module _ (f64 : Float) where
  open f64 use {F}

  unfoldable pub stats : {S : Type 0} → ResolverHealth S → ResolverStats F
  stats h =
      let rate = Limiter.rate f64 h.limiter in
      record {
        resolver = h.resolver;
        attempted = h.attempted;
        answered = h.answered;
        empty = h.empty;
        timeout = h.timeout;
        error = h.error;
        rtt_mean_us = h.rtt_ewma_us;
        rtt_min_us = h.rtt_min_us;
        purgatory_entries = h.purgatory_entries;
        truncated = h.truncated;
        rate_qps = if f64.lt rate (Limiter.unlimited_qps f64) then some rate else none;
      }

  unfoldable pub set_rate : {S : Type 0} → ResolverHealth S → F → Option (ResolverHealth S)
  set_rate h qps = Option.map (λ l. record h { limiter = l }) (Limiter.set_rate f64 h.limiter qps)

  module _ (sem : Semaphore) where
    open sem use {S}

    -- A resolver at the start, with its limiter.
    abbrev pub fresh : SocketAddr → BlastDnsConfig F → RateLimiter → ResolverHealth S
    fresh resolver config l = record {
      resolver = resolver;
      request_timeout = config.request_timeout;
      persistent_socket = config.persistent_socket;
      purgatory_threshold = config.purgatory_threshold;
      purgatory_sentence = config.purgatory_sentence;
      inflight = sem.new (max config.max_inflight_per_resolver 1);
      limiter = l;
      active = true;
      attempted = 0;
      answered = 0;
      empty = 0;
      timeout = 0;
      error = 0;
      consecutive_errors = 0;
      benched_until_ns = 0;
      purgatory_entries = 0;
      truncated = 0;
      rtt_ewma_us = 0;
      rtt_min_us = 0;
      rtt_min_window_ns = 0;
    }

    -- `none` is a panic: of `Semaphore::new`, or of `RateLimiter::new`.
    unfoldable pub new : SocketAddr → BlastDnsConfig F → Option (ResolverHealth S)
    new resolver config =
        if leb (max config.max_inflight_per_resolver 1) sem.max_permits
        then Option.map (λ l. fresh resolver config l) (Limiter.new f64 (Limiter.unlimited_qps f64))
        else none

module _ (sem : Semaphore) where
  open sem use {S}

  unfoldable pub try_acquire : ResolverHealth S → Option (ResolverHealth S)
  try_acquire h = Option.map (λ s. record h { inflight = s }) (sem.try_acquire h.inflight)

  -- The drop of a permit.
  unfoldable pub release : ResolverHealth S → ResolverHealth S
  release h = record h { inflight = sem.add_permits h.inflight 1 }
