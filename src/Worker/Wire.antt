-- ===== src/Worker/Wire.antt =====
-- One `query` of `ResolverWorker` (src/worker.rs) down to the connections of src/health.rs: which
-- of them it makes, over which it asks, and what that says to the caller.
use blastdns.Prelude.{
  ℕ, ◌≡◌, refl, ap, not, ◌||◌, Option, none, some, is_some, if◌then◌else◌, unwrap_or, Bool-cases,
  inl, inr, is_empty,
}
use blastdns.Dns.{Dns}
use blastdns.Error.{Result, ok, err, worker_dropped, is_timeout}
use blastdns.Health
use blastdns.Health.{ResolverHealth}
use blastdns.Health.Connection
use blastdns.Health.Connection.{
  Connections, Attempt, Reply, tcp_client, query_bounded, query_within, query_within-IsBlamed,
  IsBlamed, get_or_try_init, set_up,
}
use blastdns.Worker.{Exchange, query, conclude, respond, refetch_over_tcp}
use blastdns.Worker.Queries.{udp_truncated}

-- What the network does during a query: how making each connection comes out, what each client's
-- query comes to, the microseconds until the end, and the clock then.
pub record Network (C R : Type 0) : Type 0 where
  pub attempt : Attempt C
  pub send : C → Reply R
  pub tcp_connected : Option C
  pub tcp_send : C → Option R
  pub rtt : ℕ
  pub now : ℕ

-- The query over the TCP client, if there is one.
abbrev pub asked_over_tcp : {C R : Type 0} → (C → Option R) → Result C → Option R
asked_over_tcp tcp_send (err e) = none
asked_over_tcp tcp_send (ok tcp) = tcp_send tcp

-- What came of the query, as `Worker.query` takes it.
abbrev pub exchange : {C R : Type 0} → Network C R → Result R → Option R → Exchange R
exchange net udp full = record {
  udp = udp;
  tcp = elim full [ none ↦ err worker_dropped | some r ↦ ok r ];
  rtt = net.rtt;
  now = net.now;
}

refetch_over_tcp-exchange :
    {C R : Type 0} (net : Network C R) (udp : Result R) (full : Option R)
    → refetch_over_tcp (exchange net udp full).tcp ≡ full
refetch_over_tcp-exchange net udp none = refl
refetch_over_tcp-exchange net udp (some r) = refl

module _ {C : Type 0} (dns : Dns) {S : Type 0} where
  open dns use {Response}

  -- `refetch_over_tcp`
  unfoldable pub refetch :
      ResolverHealth S → Connections C → Network C Response → Connections C × Option Response
  unfolding tcp_client
  refetch h cs net =
      let (cs', tcp) = tcp_client h cs net.tcp_connected in (cs', asked_over_tcp net.tcp_send tcp)

  -- The response is reported as it is.
  unfoldable pub report :
      ResolverHealth S
      → Connections C
      → Network C Response
      → Response
      → ResolverHealth S × Connections C × Result Response
  unfolding Health.record_response
  report h cs net response = (
    Health.record_response h net.rtt (not (is_empty (dns.answers response))) net.now,
    cs,
    ok response,
  )

  -- The `match` of `query`.
  unfoldable pub settle :
      ResolverHealth S
      → Connections C
      → Network C Response
      → Result Response
      → ResolverHealth S × Connections C × Result Response
  unfolding refetch report Health.record_truncated Health.record_error is_timeout
  settle h cs net (ok response) =
      let h' = Health.record_truncated h in
      let (cs', full) = refetch h' cs net in
      if dns.truncated response
      then report h' cs' net (unwrap_or full response)
      else report h cs net response
  settle h cs net (err e) = (Health.record_error h (is_timeout e) net.now, cs, err e)

  unfoldable pub query_over :
      ResolverHealth S
      → Connections C
      → Network C Response
      → ResolverHealth S × Connections C × Result Response
  unfolding settle query_bounded Health.record_dispatch
  query_over h cs net =
      let h' = Health.record_dispatch h in
      let (cs', udp) = query_bounded h' cs net.attempt net.send in settle h' cs' net udp

  -- What the query says of the connections it leaves, where `udp` is the UDP answer.
  pub record Told (h : ResolverHealth S) (cs : Connections C) (net : Network C Response)
      (udp : Result Response) (out : ResolverHealth S × Connections C × Result Response)
      : Type 0 where
    pub blamed :
        IsBlamed
          (is_some cs.client || not h.persistent_socket || net.attempt.bound)
          out.1.client
          out.2
    pub tcp : out.1.tcp_client ≡ (
        if udp_truncated dns udp
        then (get_or_try_init cs.tcp_client (set_up h.resolver net.tcp_connected)).0
        else cs.tcp_client)

  settle-Told :
      (h : ResolverHealth S) (cs cs' : Connections C) (net : Network C Response)
      (udp : Result Response)
      → IsBlamed (is_some cs.client || not h.persistent_socket || net.attempt.bound) cs'.client udp
      → cs'.tcp_client ≡ cs.tcp_client
      → Told h cs net udp (settle h cs' net udp)
  unfolding settle Health.record_truncated
  settle-Told h cs cs' net (err e) b same = record { blamed = b; tcp = same }
  settle-Told h cs cs' net (ok r) b same = elim (Bool-cases (dns.truncated r)) [
    | inl t ↦ rw t (record {
      blamed = b;
      tcp = rw t (ap (λ o. (get_or_try_init o (set_up h.resolver net.tcp_connected)).0) same);
    })
    | inr t ↦ rw t (record { blamed = b; tcp = rw t same })
  ]

  settle-conclude :
      (h : ResolverHealth S) (cs : Connections C) (net : Network C Response) (udp : Result Response)
      → let (h', _, r) = settle h cs net udp in
        (h', r) ≡ conclude dns h udp (exchange net udp (refetch h cs net).1)
  unfolding settle conclude respond report refetch tcp_client Health.record_truncated
  settle-conclude h cs net (err e) = refl
  settle-conclude h cs net (ok r) = elim (Bool-cases (dns.truncated r)) [
    | inl t ↦ rw (t, refetch_over_tcp-exchange net (ok r) (refetch h cs net).1) refl
    | inr t ↦ rw t refl
  ]

  query_bounded_tcp :
      (h : ResolverHealth S) (cs : Connections C) (a : Attempt C) (send : C → Reply Response)
      → (query_bounded h cs a send).0.tcp_client ≡ cs.tcp_client
  unfolding query_bounded query_within Connection.client
  query_bounded_tcp h cs a send = refl

  -- One query, over the connections as they are and a network that does anything: it records and
  -- returns what `query` does for the UDP answer and what TCP made of it. A TCP connection is made,
  -- or used, only if the UDP answer is truncated. After an answer, also one over TCP, there is a
  -- UDP connection; an error is retryable exactly if there is one; and it counts as congestion,
  -- except where a persistent socket had to be bound and could not be.
  pub query_over-Told :
      (h : ResolverHealth S) (cs : Connections C) (net : Network C Response)
      → let dispatched = Health.record_dispatch h in
        let (cs', udp) = query_bounded dispatched cs net.attempt net.send in
        let out = query_over h cs net in
        ((out.0, out.2) ≡ query dns h (exchange net udp (refetch dispatched cs' net).1))
        × Told dispatched cs net udp out
  unfolding query_over query Health.record_dispatch query_bounded
  query_over-Told h cs net =
      let h1 = Health.record_dispatch h in
      let (cs', udp) = query_bounded h1 cs net.attempt net.send in
      (
        settle-conclude h1 cs' net udp,
        settle-Told h1 cs cs' net udp
            (query_within-IsBlamed h1 cs net.attempt net.send h.request_timeout)
            (query_bounded_tcp h1 cs net.attempt net.send),
      )
