-- ===== src/Utils.antt =====
-- src/utils.rs: the addresses of resolvers, the file descriptors that a client needs, and names of
-- PTR queries. The parsers of `std::net` are arguments, and so is what the kernel says of a limit.
pub mod Ptr
pub mod Descriptors
use blastdns.Prelude.{
  ℕ, ◌+◌, ◌/◌, ◌%◌, Bool, true, false, ◌||◌, ◌&&◌, Option, none, some, List, [], ◌∷◌, ◌++◌, map,
  ltb, leb, ◌==◌, if◌then◌else◌, wrapping_add,
}
use mathlib.Core.List.{reverse}
use blastdns.Error.{
  Result, ok, err, invalid_resolver, configuration, nofile_unreadable, nofile_not_raised,
  nofile_too_low, no_system_resolvers, system_conf_unreadable,
}
use blastdns.Net.{Text, IpAddr, v4, v6, SocketAddr}
use blastdns.Strings.{is_whitespace, is_bracket, trim_matches}

-- An address with a port, or an address alone, in brackets perhaps, for port 53.
unfoldable pub parse_resolver :
    (Text → Option SocketAddr) → (Text → Option IpAddr) → Text → Result SocketAddr
parse_resolver parse_socket parse_ip input = elim (parse_socket input) [
  | some addr ↦ ok addr
  | none ↦ elim (parse_ip (trim_matches is_bracket (trim_matches is_whitespace input))) [
    | some ip ↦ ok (record { ip = ip; port = 53 })
    | none ↦ err (invalid_resolver input)
  ]
]

unfoldable pub required_fds : ℕ → ℕ → Bool → ℕ
required_fds max_concurrency resolvers persistent_socket =
    let udp = if persistent_socket then resolvers else max_concurrency in
    wrapping_add (wrapping_add udp max_concurrency) 100

-- `rlimit`
pub record Limit : Type 0 where
  pub rlim_cur : ℕ
  pub rlim_max : ℕ

-- The last check of `check_ulimits`, on the limit that is then in force.
unfoldable pub check_current : ℕ → ℕ → Result {0} Unit
check_current current required =
    if ltb current required then err (configuration (nofile_too_low current required)) else ok tt

-- `first` and `again` are what the two calls of `getrlimit` give, and `raised` whether `setrlimit`
-- was allowed. (Unix.)
unfoldable pub check_ulimits : Option Limit → Bool → Option Limit → ℕ → ℕ → Bool → Result {0} Unit
unfolding required_fds check_current
check_ulimits none raised again max_concurrency resolvers persistent_socket =
    err (configuration nofile_unreadable)
check_ulimits (some first) raised again max_concurrency resolvers persistent_socket =
    let required = required_fds max_concurrency resolvers persistent_socket in
    if ltb first.rlim_cur first.rlim_max
    then if raised
      then elim again [
        | none ↦ err (configuration nofile_unreadable)
        | some limit ↦ check_current limit.rlim_cur required
      ]
      else err (configuration nofile_not_raised)
    else check_current first.rlim_cur required

abbrev pub unless_none : List IpAddr → Result (List IpAddr)
unless_none [] = err (configuration no_system_resolvers)
unless_none (ip ∷ ips) = ok (ip ∷ ips)

-- `read` is the addresses of the name servers in the system's configuration, if it could be read,
-- and `distinct` collects them into a `HashSet` and out of it, in an order of its own.
unfoldable pub get_system_resolvers :
    (List IpAddr → List IpAddr) → Option (List IpAddr) → Result (List IpAddr)
get_system_resolvers distinct none = err (configuration system_conf_unreadable)
get_system_resolvers distinct (some read) = unless_none (distinct read)

-- `{}` of a `u8`
abbrev pub decimal : ℕ → Text
decimal n =
    if ltb n 10
    then (48 + n) ∷ []
    else if ltb n 100
    then (48 + n / 10) ∷ (48 + n % 10) ∷ []
    else (48 + n / 100) ∷ (48 + n / 10 % 10) ∷ (48 + n % 10) ∷ []

-- `{:x}` of a nibble
abbrev pub hex : ℕ → ℕ
hex n = if ltb n 10 then 48 + n else 87 + n

-- `join(".")` of texts of one character
abbrev pub join : List ℕ → Text
join [] = []
join (c ∷ []) = c ∷ []
join (c ∷ d ∷ cs) = c ∷ 46 ∷ join (d ∷ cs)

-- ".in-addr.arpa" and ".ip6.arpa"
abbrev pub in_addr_arpa : Text
in_addr_arpa = 46 ∷ 105 ∷ 110 ∷ 45 ∷ 97 ∷ 100 ∷ 100 ∷ 114 ∷ 46 ∷ 97 ∷ 114 ∷ 112 ∷ 97 ∷ []

abbrev pub ip6_arpa : Text
ip6_arpa = 46 ∷ 105 ∷ 112 ∷ 54 ∷ 46 ∷ 97 ∷ 114 ∷ 112 ∷ 97 ∷ []

-- The four hex digits of every segment.
abbrev pub nibbles : List ℕ → List ℕ
nibbles [] = []
nibbles (s ∷ ss) = (s / 4096 % 16) ∷ (s / 256 % 16) ∷ (s / 16 % 16) ∷ (s % 16) ∷ nibbles ss

unfoldable pub ptr_name : IpAddr → Text
ptr_name (v4 a b c d) =
    decimal d ++ 46 ∷ decimal c ++ 46 ∷ decimal b ++ 46 ∷ decimal a ++ in_addr_arpa
ptr_name (v6 segments) = join (map hex (reverse (nibbles segments))) ++ ip6_arpa

unfoldable pub format_ptr_query : (Text → Option IpAddr) → Text → Text
unfolding ptr_name
format_ptr_query parse_ip host = elim (parse_ip host) [ some ip ↦ ptr_name ip | none ↦ host ]
