-- ===== src/Tests/Clients.antt =====
-- Examples for the building of a client (src/client.rs), its connections (src/health.rs) and
-- src/zone_transfer.rs.
use blastdns.Prelude.{ℕ, ◌≡◌, refl, true, false, none, some, List, [], ◌∷◌, Option}
use blastdns.Cli.Output.{Payload}
use blastdns.Client.Build.{System}
use blastdns.Error.{ok, timeout}
use blastdns.Health.{record_dispatch}
use blastdns.Health.Connection.{Attempt, Reply, silent, unconnected, query_bounded}
use blastdns.Net.{Text, IpAddr, v4, SocketAddr}
use blastdns.Tests.Answers.{Message, dns, found}
use blastdns.Tests.Resolvers.{resolver}
use blastdns.Worker.{query}
use blastdns.Worker.Wire.{Network, exchange, refetch, query_over, Told, query_over-Told}
use blastdns.ZoneTransfer.{
  Item, response, failure, zone_transfer, zone_transfer-contents, transferred, contents,
}
use blastdns.Utils.{parse_resolver}

-- An address is its last number: "8" is 0.0.0.8.
abbrev pub parse_ip : Text → Option IpAddr
parse_ip [] = none
parse_ip (c ∷ cs) = some (v4 0 0 0 c)

abbrev pub parse_socket : Text → Option SocketAddr
parse_socket t = none

abbrev pub system : System
system = record {
  name_servers = some (v4 1 1 1 1 ∷ []);
  distinct = λ ips. ips;
  to_string = λ ip. 49 ∷ [];
  parse_socket = parse_socket;
  parse_ip = parse_ip;
  nofile = some (record { rlim_cur = 1024; rlim_max = 1024 });
  nofile_raised = true;
  nofile_again = none;
  queue_fits = λ n. true;
}

abbrev attempt : Attempt ℕ
attempt = record { bound = false; connected = some 7 }

abbrev send : ℕ → Reply Message
send c = silent

-- Over UDP nobody answers.
abbrev network : Network ℕ Message
network = record {
  attempt = attempt;
  send = send;
  tcp_connected = none;
  tcp_send = λ c. none;
  rtt = 900;
  now = 5;
}

query_over-Told_example :
    let dispatched = record_dispatch resolver in
    let (cs', udp) = query_bounded dispatched unconnected attempt send in
    let out = query_over dns resolver unconnected network in
    ((out.0, out.2)
      ≡ query dns resolver (exchange network udp (refetch dns dispatched cs' network).1))
    × Told dns dispatched unconnected network udp out
query_over-Told_example = query_over-Told dns resolver unconnected network

abbrev stream : ℕ → ℕ → List (Item Message)
stream c name = response found ∷ failure timeout ∷ response found ∷ []

abbrev connect : SocketAddr → Option ℕ
connect a = some 7

parsed : parse_resolver parse_socket parse_ip (8 ∷ []) ≡ ok (record { ip = v4 0 0 0 8; port = 53 })
unfolding parse_resolver
parsed = refl

zone_transfer-contents_example :
    zone_transfer dns parse_socket parse_ip connect stream (8 ∷ []) (98 ∷ [])
    ≡ transferred dns (98 ∷ []) (record { ip = v4 0 0 0 8; port = 53 }) (contents dns (stream 7 98))
zone_transfer-contents_example =
    zone_transfer-contents dns parse_socket parse_ip connect stream (8 ∷ []) (98 ∷ []) parsed refl
      refl

abbrev line : Payload Message → Text
line (Payload.brief host record_type answers) = host
line (Payload.found host r) = host
line (Payload.failed host error) = host

abbrev lines_read : Option (List (Option Text))
lines_read = some (some (98 ∷ []) ∷ none ∷ some (35 ∷ []) ∷ [])
