-- ===== src/Config.antt =====
-- `BlastDNSConfig`, its defaults and its wire form (src/config.rs). A `Duration` is its
-- nanoseconds.
use blastdns.Prelude.{
  ℕ, ◌*◌, ◌≤◌, ◌≡◌, max, Bool, true, false, Option, none, some, if◌then◌else◌, arith,
}
use blastdns.Float.{Float}

abbrev pub from_millis : ℕ → ℕ
from_millis n = n * 1000000

abbrev pub from_secs : ℕ → ℕ
from_secs n = n * 1000000000

pub record BlastDnsConfig (F : Type 0) : Type 0 where
  pub max_inflight_per_resolver : ℕ
  pub max_concurrency : ℕ
  pub rate_limit : Option F
  pub adaptive : Bool
  pub resolver_probe : Bool
  pub persistent_socket : Bool
  pub request_timeout : ℕ
  pub max_retries : ℕ
  pub purgatory_threshold : ℕ
  pub purgatory_sentence : ℕ
  pub cache_capacity : ℕ
  pub cache_min_ttl : ℕ
  pub cache_max_ttl : ℕ

pub record BlastDnsConfigWire (F : Type 0) : Type 0 where
  pub max_inflight_per_resolver : ℕ
  pub max_concurrency : ℕ
  pub rate_limit : Option F
  pub adaptive : Bool
  pub resolver_probe : Bool
  pub persistent_socket : Bool
  pub request_timeout_ms : ℕ
  pub max_retries : ℕ
  pub purgatory_threshold : ℕ
  pub purgatory_sentence_ms : ℕ
  pub cache_capacity : ℕ
  pub cache_min_ttl_secs : ℕ
  pub cache_max_ttl_secs : ℕ

-- `BlastDNSConfig::default`
abbrev pub default : {F : Type 0} → BlastDnsConfig F
default = record {
  max_inflight_per_resolver = 2;
  max_concurrency = 256;
  rate_limit = none;
  adaptive = true;
  resolver_probe = false;
  persistent_socket = false;
  request_timeout = from_millis 1000;
  max_retries = 10;
  purgatory_threshold = 10;
  purgatory_sentence = from_millis 1000;
  cache_capacity = 10000;
  cache_min_ttl = from_secs 10;
  cache_max_ttl = from_secs 86400;
}

module _ (f64 : Float) where
  open f64 use {F}

  -- `rate_limit.filter(|r| *r > 0.0)`
  unfoldable pub positive_rate : Option F → Option F
  positive_rate none = none
  positive_rate (some r) = if f64.lt (f64.lit 0 1) r then some r else none

  -- `BlastDNSConfig::from`
  unfoldable pub from : BlastDnsConfigWire F → BlastDnsConfig F
  unfolding positive_rate
  from w = record {
    max_inflight_per_resolver = max w.max_inflight_per_resolver 1;
    max_concurrency = max w.max_concurrency 1;
    rate_limit = positive_rate w.rate_limit;
    adaptive = w.adaptive;
    resolver_probe = w.resolver_probe;
    persistent_socket = w.persistent_socket;
    request_timeout = from_millis (max w.request_timeout_ms 1);
    max_retries = w.max_retries;
    purgatory_threshold = w.purgatory_threshold;
    purgatory_sentence = from_millis (max w.purgatory_sentence_ms 1);
    cache_capacity = w.cache_capacity;
    cache_min_ttl = from_secs w.cache_min_ttl_secs;
    cache_max_ttl = from_secs w.cache_max_ttl_secs;
  }

  -- Nothing that the client divides by, waits for or reserves is zero, and a rate limit is one that
  -- `RateLimiter::new` accepts.
  pub record IsUsable (c : BlastDnsConfig F) : Type 0 where
    pub inflight : 1 ≤ c.max_inflight_per_resolver
    pub concurrency : 1 ≤ c.max_concurrency
    pub timeout : 1000000 ≤ c.request_timeout
    pub sentence : 1000000 ≤ c.purgatory_sentence
    pub rate : (r : F) → c.rate_limit ≡ some r → f64.lt (f64.lit 0 1) r ≡ true

  -- Whatever the wire form holds: of the configuration it is turned into, the permits per resolver
  -- and the concurrency are at least one, the request timeout and the sentence at least a
  -- millisecond, and a rate limit, if there is one, is positive.
  pub from-IsUsable : (w : BlastDnsConfigWire F) → IsUsable (from w)
  unfolding from
  from-IsUsable w = record {
    inflight = ground arith;
    concurrency = ground arith;
    timeout = ground arith;
    sentence = ground arith;
    rate = λ r e. ground arith;
  }
