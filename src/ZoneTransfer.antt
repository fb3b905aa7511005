-- ===== src/ZoneTransfer.antt =====
-- A transfer of a whole zone over TCP, src/zone_transfer.rs. The parsers, the connection and the
-- stream of responses are arguments.
use blastdns.Prelude.{
  ◌≡◌, ◌⊎◌, inl, inr, refl, sym, ap, ◌∙◌, ◌++◌, Option, none, some, List, [], ◌∷◌,
}
use mathlib.Core.List.{append_assoc, append-nil}
use blastdns.Dns.{Dns}
use blastdns.Error.{
  Result, ok, err, ◌>>=◌, ClientErrorKind, invalid_hostname, resolver_setup_failed,
  resolver_request_failed,
}
use blastdns.Net.{Text, IpAddr, SocketAddr}
use blastdns.Strings.{fqdn}
use blastdns.Utils.{parse_resolver}

pub record ZoneTransferResult (Record : Type 0) : Type 0 where
  pub zone : Text
  pub nameserver : SocketAddr
  pub records : List Record

-- An item of the transfer's stream.
pub data Item (R : Type 0) : Type 0 where
  response : R → Item R
  failure : ClientErrorKind → Item R

abbrev pub zone_name : {N : Type 0} → Text → Option N → Result N
zone_name zone none = err (invalid_hostname zone)
zone_name zone (some n) = ok n

abbrev pub connected_to : {C : Type 0} → SocketAddr → Option C → Result C
connected_to addr none = err (resolver_setup_failed addr)
connected_to addr (some c) = ok c

module _ (dns : Dns) where
  open dns use {Name, Record, Response}

  -- The loop over the stream, with what it has collected.
  unfoldable pub collect : SocketAddr → List (Item Response) → List Record → Result (List Record)
  collect addr [] all_records = ok all_records
  collect addr (response r ∷ items) all_records = collect addr items (all_records ++ dns.answers r)
  collect addr (failure source ∷ items) all_records = err (resolver_request_failed addr source)

  -- `connect` makes the client for an address, if it can; `send` gives the stream for a zone.
  unfoldable pub zone_transfer :
      {C : Type 0}
      → (Text → Option SocketAddr)
      → (Text → Option IpAddr)
      → (SocketAddr → Option C)
      → (C → Name → List (Item Response))
      → Text
      → Text
      → Result (ZoneTransferResult Record)
  unfolding collect parse_resolver
  zone_transfer parse_socket parse_ip connect send nameserver zone = do
    addr ← parse_resolver parse_socket parse_ip nameserver
    name ← zone_name zone (dns.from_str (fqdn zone))
    client ← connected_to addr (connect addr)
    records ← collect addr (send client name) []
    ok (record { zone = zone; nameserver = addr; records = records })

  -- What a stream holds: the records of its responses, or the failure that ends it early.
  abbrev pub contents : List (Item Response) → ClientErrorKind ⊎ List Record
  contents [] = inr []
  contents (failure source ∷ items) = inl source
  contents (response r ∷ items) = elim (contents items) [
    | inl source ↦ inl source
    | inr records ↦ inr (dns.answers r ++ records)
  ]

  abbrev completed : SocketAddr → List Record → ClientErrorKind ⊎ List Record → Result (List Record)
  completed addr before (inl source) = err (resolver_request_failed addr source)
  completed addr before (inr records) = ok (before ++ records)

  completed-append :
      (addr : SocketAddr) (before : List Record) (r : Response) (items : List (Item Response))
      → completed addr (before ++ dns.answers r) (contents items)
        ≡ completed addr before (contents (response r ∷ items))
  completed-append addr before r items = go (contents items)
    where
      go :
          (rest : ClientErrorKind ⊎ List Record)
          → completed addr (before ++ dns.answers r) rest
            ≡ completed addr before (elim rest [
              | inl source ↦ inl source
              | inr records ↦ inr (dns.answers r ++ records)
            ])
      go (inl source) = refl
      go (inr records) = ap ok (append_assoc before (dns.answers r) records)

  collect-contents :
      (addr : SocketAddr) (items : List (Item Response)) (before : List Record)
      → collect addr items before ≡ completed addr before (contents items)
  unfolding collect
  collect-contents addr [] before = ap ok (sym (append-nil before))
  collect-contents addr (failure source ∷ items) before = refl
  collect-contents addr (response r ∷ items) before =
      collect-contents addr items (before ++ dns.answers r) ∙ completed-append addr before r items

  -- The outcome of a transfer that has begun.
  abbrev pub transferred :
      Text → SocketAddr → ClientErrorKind ⊎ List Record → Result (ZoneTransferResult Record)
  transferred zone addr (inl source) = err (resolver_request_failed addr source)
  transferred zone addr (inr records) =
      ok (record { zone = zone; nameserver = addr; records = records })

  -- A transfer is whole or fails: with an address, a name and a connection, it returns the
  -- records of all responses in their order, under the zone as it was asked for, or the error that
  -- ended the stream, and then no records.
  pub zone_transfer-contents :
      {C : Type 0} (parse_socket : Text → Option SocketAddr) (parse_ip : Text → Option IpAddr)
      (connect : SocketAddr → Option C) (send : C → Name → List (Item Response))
      (nameserver zone : Text) {addr : SocketAddr} {name : Name} {c : C}
      → parse_resolver parse_socket parse_ip nameserver ≡ ok addr
      → dns.from_str (fqdn zone) ≡ some name
      → connect addr ≡ some c
      → zone_transfer parse_socket parse_ip connect send nameserver zone
        ≡ transferred zone addr (contents (send c name))
  unfolding zone_transfer
  zone_transfer-contents ps pi connect send nameserver zone {addr} {name} {c} p n e =
      rw (p, n, e, collect-contents addr (send c name) []) (go (contents (send c name)))
    where
      go :
          (rest : ClientErrorKind ⊎ List Record)
          → (completed addr [] rest >>= λ records.
              ok (record { zone = zone; nameserver = addr; records = records }))
            ≡ transferred zone addr rest
      go (inl source) = refl
      go (inr records) = refl
