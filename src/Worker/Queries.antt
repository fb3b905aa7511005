-- ===== src/Worker/Queries.antt =====
-- What one `query` of `ResolverWorker` (src/worker.rs) reports and counts.
use blastdns.Prelude.{
  ◌+◌, ◌%◌, ◌≡◌, Bool, false, arith, u64_mod, wrapping_add, if◌then◌else◌, unwrap_or, Bool-cases,
  inl, inr,
}
use blastdns.Dns.{Dns}
use blastdns.Error.{Result, ok, err}
use blastdns.Health.{ResolverHealth, record_dispatch}
use blastdns.Health.Accounts.{finished}
use blastdns.Worker.{Exchange, query, refetch_over_tcp, conclude}

module _ (dns : Dns) where
  open dns use {Response}

  -- Whether the UDP answer is a truncated response.
  abbrev pub udp_truncated : Result Response → Bool
  udp_truncated (ok r) = dns.truncated r
  udp_truncated (err e) = false

  -- What the caller gets: the UDP answer, but the TCP response in place of a truncated one, if
  -- there is a TCP response.
  abbrev pub preferred : Result Response → Result Response → Result Response
  preferred (err e) tcp = err e
  preferred (ok r) tcp = ok (if dns.truncated r then unwrap_or (refetch_over_tcp tcp) r else r)

  module _ {S : Type 0} where
    pub conclude_once :
        (h : ResolverHealth S) (udp : Result Response) (x : Exchange Response)
        → let (h', r) = conclude dns h udp x in
          (h'.attempted ≡ h.attempted)
          × (finished h' % u64_mod ≡ (finished h + 1) % u64_mod)
          × (h'.truncated ≡ (if udp_truncated udp then wrapping_add h.truncated 1 else h.truncated))
          × (r ≡ preferred udp x.tcp)
    unfolding conclude
    conclude_once h (ok r) x = elim (Bool-cases (dns.truncated r)) [
      | inl t ↦ rw t (ground arith)
      | inr t ↦ rw t (ground arith)
    ]
    conclude_once h (err e) x = ground arith

    -- One query raises `attempted` by one and, modulo 2 ^ 64, the sum of `answered`, `empty`,
    -- `timeout` and `error` by one; it raises `truncated` exactly if the UDP response is truncated;
    -- and it returns the UDP answer, or the TCP response in place of a truncated one if there is
    -- one.
    pub query_once :
        (h : ResolverHealth S) (x : Exchange Response)
        → let (h', r) = query dns h x in
          (h'.attempted ≡ wrapping_add h.attempted 1)
          × (finished h' % u64_mod ≡ (finished h + 1) % u64_mod)
          × (h'.truncated
              ≡ (if udp_truncated x.udp then wrapping_add h.truncated 1 else h.truncated))
          × (r ≡ preferred x.udp x.tcp)
    unfolding query
    query_once h x = conclude_once (record_dispatch h) x.udp x
