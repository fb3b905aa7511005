-- ===== src/Worker.antt =====
-- `ResolverWorker` of src/worker.rs: one query against a reserved resolver, and one work item. What
-- the network returned, and how long it took, are arguments.
pub mod Queries
pub mod Tasks
pub mod Reservations
pub mod Permits
pub mod Dispatches
pub mod Counters
pub mod Answers
pub mod Over
pub mod Shutdown
pub mod Wire
pub mod Reserved
pub mod Progress
pub mod Waiters
pub mod Released
use blastdns.Prelude.{
  ℕ, Bool, true, false, not, Option, none, some, if◌then◌else◌, unwrap_or, is_empty,
}
use blastdns.Dns.{Dns}
use blastdns.Error.{Result, ok, err, BlastDnsError, is_timeout}
use blastdns.Health
use blastdns.Health.{ResolverHealth}
use blastdns.Net.{Text}

-- `QuerySpec`
pub record QuerySpec (RecordType : Type 0) : Type 0 where
  pub host : Text
  pub record_type : RecordType

-- What came of a query: the UDP answer, the TCP answer if TCP was tried and available, the
-- microseconds until the end, and the clock then.
pub record Exchange (R : Type 0) : Type 0 where
  pub udp : Result R
  pub tcp : Result R
  pub rtt : ℕ
  pub now : ℕ

-- `refetch_over_tcp`: any failure of TCP is no answer.
abbrev pub refetch_over_tcp : {R : Type 0} → Result R → Option R
refetch_over_tcp (ok r) = some r
refetch_over_tcp (err e) = none

module _ (dns : Dns) {S : Type 0} where
  open dns use {Response}

  -- A complete response, however it came.
  unfoldable pub respond :
      ResolverHealth S → Response → Exchange Response → ResolverHealth S × Result Response
  unfolding Health.record_response
  respond h response x =
      (Health.record_response h x.rtt (not (is_empty (dns.answers response))) x.now, ok response)

  -- The `match` of `query`.
  unfoldable pub conclude :
      ResolverHealth S → Result Response → Exchange Response → ResolverHealth S × Result Response
  unfolding respond Health.record_truncated Health.record_error is_timeout
  conclude h (ok response) x =
      if dns.truncated response
      then respond (Health.record_truncated h) (unwrap_or (refetch_over_tcp x.tcp) response) x
      else respond h response x
  conclude h (err e) x = (Health.record_error h (is_timeout e) x.now, err e)

  unfoldable pub query : ResolverHealth S → Exchange Response → ResolverHealth S × Result Response
  unfolding Health.record_dispatch conclude
  query h x = conclude (Health.record_dispatch h) x.udp x

  -- One round of `run`: the item's name, and the resolver that was reserved for it, if any. The
  -- health is that of the reserved resolver afterwards.
  unfoldable pub run_item :
      QuerySpec dns.RecordType
      → Option (ResolverHealth S)
      → Exchange Response
      → Option (ResolverHealth S) × Result Response
  unfolding query
  run_item spec reservation x = elim (dns.from_ascii spec.host) [
    | none ↦ (reservation, err (BlastDnsError.invalid_hostname spec.host))
    | some name ↦ elim reservation [
      | none ↦ (none, err BlastDnsError.no_resolvers)
      | some h ↦ let (h', r) = query h x in (some h', r)
    ]
  ]
