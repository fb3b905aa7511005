-- ===== src/Error.antt =====
-- `BlastDNSError` of src/error.rs and its three classifications. Of a `source` the model keeps
-- what the code looks at; of a message, the arguments that are formatted into it.
use blastdns.Prelude.{ℕ, Bool, true, false}
use blastdns.Net.{Text, SocketAddr}

-- `ClientErrorKind` of hickory, as far as `is_timeout` tells the kinds apart: of an I/O error
-- whether its kind is `TimedOut`, of a protocol error whether its kind is `Timeout`.
pub data ClientErrorKind : Type 0 where
  timeout : ClientErrorKind
  io : Bool → ClientErrorKind
  proto : Bool → ClientErrorKind
  other : ClientErrorKind

-- What a `Configuration` message is about.
pub data Problem : Type 0 where
  no_record_types : Problem
  too_many_inflight : ℕ → ℕ → Problem
  nofile_unreadable : Problem
  nofile_not_raised : Problem
  nofile_too_low : ℕ → ℕ → Problem
  system_conf_unreadable : Problem
  no_system_resolvers : Problem
  bind_failed : SocketAddr → Problem
  invalid_name : Text → Problem
  invalid_mock_record : Text → Problem
  response_not_built : Problem

pub data BlastDnsError : Type 0 where
  no_resolvers : BlastDnsError
  invalid_resolver : Text → BlastDnsError
  invalid_hostname : Text → BlastDnsError
  queue_closed : BlastDnsError
  worker_dropped : BlastDnsError
  resolver_setup_failed : SocketAddr → BlastDnsError
  resolver_request_failed : SocketAddr → ClientErrorKind → BlastDnsError
  query_timed_out : SocketAddr → ℕ → BlastDnsError
  configuration : Problem → BlastDnsError

pub data Result {ℓ} (A : Type ℓ) : Type ℓ where
  ok : A → Result A
  err : BlastDnsError → Result A

infixl 5 ◌>>=◌
abbrev pub ◌>>=◌ {ℓ κ} : {A : Type ℓ} {B : Type κ} → Result A → (A → Result B) → Result B
ok a >>= f = f a
err e >>= f = err e

-- `Result::is_err`
abbrev pub is_err {ℓ} : {A : Type ℓ} → Result A → Bool
is_err (ok a) = false
is_err (err e) = true

unfoldable pub is_retryable : BlastDnsError → Bool
is_retryable (resolver_request_failed _ _) = true
is_retryable (query_timed_out _ _) = true
is_retryable worker_dropped = true
is_retryable _ = false

unfoldable pub is_congestion_evidence : BlastDnsError → Bool
is_congestion_evidence (invalid_hostname _) = false
is_congestion_evidence (invalid_resolver _) = false
is_congestion_evidence queue_closed = false
is_congestion_evidence (configuration _) = false
is_congestion_evidence _ = true

abbrev kind_is_timeout : ClientErrorKind → Bool
kind_is_timeout timeout = true
kind_is_timeout (io timed_out) = timed_out
kind_is_timeout (proto is_timeout) = is_timeout
kind_is_timeout other = false

unfoldable pub is_timeout : BlastDnsError → Bool
is_timeout (query_timed_out _ _) = true
is_timeout (resolver_request_failed _ source) = kind_is_timeout source
is_timeout _ = false
