-- ===== src/Health/Connection.antt =====
-- The connections of a `ResolverHealth` (src/health.rs), each made by the first query that needs
-- it. hickory's client and what its calls return are arguments.
use blastdns.Prelude.{ℕ, ◌≡◌, refl, Bool, true, false, not, ◌||◌, Option, none, some, is_some}
use blastdns.Error.{
  Result, ok, err, ◌>>=◌, ClientErrorKind, is_retryable, is_congestion_evidence, configuration,
  bind_failed, resolver_setup_failed, resolver_request_failed, query_timed_out,
}
use blastdns.Health.{ResolverHealth, probe_deadline}
use blastdns.Net.{SocketAddr}

-- The two `OnceCell`s.
pub record Connections (C : Type 0) : Type 0 where
  pub client : Option C
  pub tcp_client : Option C

abbrev pub unconnected : {C : Type 0} → Connections C
unconnected = record { client = none; tcp_client = none }

-- What connecting would do: whether a socket can be bound, and the client, if hickory makes one.
pub record Attempt (C : Type 0) : Type 0 where
  pub bound : Bool
  pub connected : Option C

-- What became of a query within its deadline.
pub data Reply (R : Type 0) : Type 0 where
  answered : R → Reply R
  failed : ClientErrorKind → Reply R
  silent : Reply R

abbrev pub settled : {R : Type 0} → SocketAddr → Reply R → ℕ → Result R
settled resolver (answered r) deadline = ok r
settled resolver (failed source) deadline = err (resolver_request_failed resolver source)
settled resolver silent deadline = err (query_timed_out resolver deadline)

abbrev pub set_up : {C : Type 0} → SocketAddr → Option C → Result C
set_up resolver none = err (resolver_setup_failed resolver)
set_up resolver (some c) = ok c

-- `connect_per_query` makes no socket of its own.
abbrev pub connect_persistent : {C : Type 0} → SocketAddr → Bool → Option C → Result C
connect_persistent resolver true connected = set_up resolver connected
connect_persistent resolver false connected = err (configuration (bind_failed resolver))

abbrev pub connect_by : {C : Type 0} → Bool → SocketAddr → Attempt C → Result C
connect_by true resolver a = connect_persistent resolver a.bound a.connected
connect_by false resolver a = set_up resolver a.connected

abbrev filled : {C : Type 0} → Result C → Option C
filled (ok c) = some c
filled (err e) = none

-- `get_or_try_init`: an error leaves the cell empty.
abbrev pub get_or_try_init : {C : Type 0} → Option C → Result C → Option C × Result C
get_or_try_init none made = (filled made, made)
get_or_try_init (some c) made = (some c, ok c)

-- An error is worth another resolver exactly if this one has a connection; it speaks of the path
-- unless the program failed to bind a socket of its own.
abbrev pub IsBlamed : {C R : Type 0} → (reached : Bool) → Option C → Result R → Type 0
IsBlamed reached cell (ok r) = is_some cell ≡ true
IsBlamed reached cell (err e) =
    (is_retryable e ≡ is_some cell) × (is_congestion_evidence e ≡ reached)

settled-IsBlamed :
    {C R : Type 0} (resolver : SocketAddr) (c : C) (reply : Reply R) (deadline : ℕ)
    → IsBlamed true (some c) (settled resolver reply deadline)
unfolding is_retryable is_congestion_evidence
settled-IsBlamed resolver c (answered r) deadline = refl
settled-IsBlamed resolver c (failed source) deadline = (refl, refl)
settled-IsBlamed resolver c silent deadline = (refl, refl)

module _ {C R : Type 0} (resolver : SocketAddr) (send : C → Reply R) (deadline : ℕ) where
  abbrev after : Result C → Result R
  after r = r >>= λ c. settled resolver (send c) deadline

  set_up-IsBlamed :
      (connected : Option C)
      → IsBlamed true (filled (set_up resolver connected)) (after (set_up resolver connected))
  unfolding is_retryable is_congestion_evidence
  set_up-IsBlamed none = (refl, refl)
  set_up-IsBlamed (some c) = settled-IsBlamed resolver c (send c) deadline

  connect_persistent-IsBlamed :
      (bound : Bool) (connected : Option C)
      → IsBlamed bound
          (filled (connect_persistent resolver bound connected))
          (after (connect_persistent resolver bound connected))
  unfolding is_retryable is_congestion_evidence
  connect_persistent-IsBlamed true connected = set_up-IsBlamed connected
  connect_persistent-IsBlamed false connected = (refl, refl)

  connect_by-IsBlamed :
      (persistent : Bool) (a : Attempt C)
      → IsBlamed
          (not persistent || a.bound)
          (filled (connect_by persistent resolver a))
          (after (connect_by persistent resolver a))
  connect_by-IsBlamed true a = connect_persistent-IsBlamed a.bound a.connected
  connect_by-IsBlamed false a = set_up-IsBlamed a.connected

  get_or_try_init-IsBlamed :
      (persistent : Bool) (a : Attempt C) (cell : Option C)
      → IsBlamed
          (is_some cell || not persistent || a.bound)
          (get_or_try_init cell (connect_by persistent resolver a)).0
          (after (get_or_try_init cell (connect_by persistent resolver a)).1)
  get_or_try_init-IsBlamed persistent a none = connect_by-IsBlamed persistent a
  get_or_try_init-IsBlamed persistent a (some c) = settled-IsBlamed resolver c (send c) deadline

module _ {S C : Type 0} (h : ResolverHealth S) where
  unfoldable pub connect : Attempt C → Result C
  connect a = connect_by h.persistent_socket h.resolver a

  unfoldable pub client : Connections C → Attempt C → Connections C × Result C
  unfolding connect
  client s a =
      let (cell, r) = get_or_try_init s.client (connect a) in (record s { client = cell }, r)

  unfoldable pub tcp_client : Connections C → Option C → Connections C × Result C
  tcp_client s connected =
      let (cell, r) = get_or_try_init s.tcp_client (set_up h.resolver connected) in
      (record s { tcp_client = cell }, r)

  module _ {R : Type 0} where
    -- `send` is what a query over that client comes to.
    unfoldable pub query_within :
        Connections C → Attempt C → (C → Reply R) → ℕ → Connections C × Result R
    unfolding client
    query_within s a send deadline =
        let (s', r) = client s a in (s', r >>= λ c. settled h.resolver (send c) deadline)

    unfoldable pub query_bounded :
        Connections C → Attempt C → (C → Reply R) → Connections C × Result R
    unfolding query_within
    query_bounded s a send = query_within s a send h.request_timeout

    -- The query of `probe`.
    unfoldable pub probe_query :
        Connections C → Attempt C → (C → Reply R) → Connections C × Result R
    unfolding query_within probe_deadline
    probe_query s a send = query_within s a send (probe_deadline h)

    -- After any query, also the first, which connects: an answer means that there is a connection
    -- now; an error is retryable exactly if there is one, which there is not where connecting
    -- failed; and it counts as congestion, except where a persistent socket had to be bound and
    -- could not be.
    pub query_within-IsBlamed :
        (s : Connections C) (a : Attempt C) (send : C → Reply R) (deadline : ℕ)
        → IsBlamed
            (is_some s.client || not h.persistent_socket || a.bound)
            (query_within s a send deadline).0.client
            (query_within s a send deadline).1
    unfolding query_within
    query_within-IsBlamed s a send deadline =
        get_or_try_init-IsBlamed h.resolver send deadline h.persistent_socket a s.client
