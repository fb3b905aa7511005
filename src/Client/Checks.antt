-- ===== src/Client/Checks.antt =====
-- The checks of `with_config` (src/client.rs): every error that they give is final, and what they
-- found.

use blastdns.Prelude.{
  ℕ, ◌≤◌, ◌≡◌, ◌∙◌, refl, Bool, true, false, Option, none, some, List, [], ◌∷◌, arith, length, map,
  is_empty,
}
use blastdns.Client.Build.{
  System, resolvers_or_system, parse_all, check_inflight, queue_capacity, checked,
}
use blastdns.Config.{BlastDnsConfig}
use blastdns.Error.{Result, ok, err, ◌>>=◌, BlastDnsError, is_retryable, is_congestion_evidence}
use blastdns.Net.{Text, IpAddr, SocketAddr}
use blastdns.Utils.{
  Limit, get_system_resolvers, unless_none, parse_resolver, check_current, check_ulimits,
}

-- No other resolver can help, and nothing was asked of any.
abbrev pub IsFinal : BlastDnsError → Type 0
IsFinal e = (is_retryable e ≡ false) × (is_congestion_evidence e ≡ false)

-- Of an outcome, every error is final.
abbrev pub Ensures : {A : Type 0} → (A → Type 0) → Result A → Type 0
Ensures P (ok a) = P a
Ensures P (err e) = IsFinal e

>>=-Ensures :
    {A B : Type 0} (P : A → Type 0) (Q : B → Type 0) (m : Result A) (f : A → Result B)
    → Ensures P m
    → ((a : A) → m ≡ ok a → P a → Ensures Q (f a))
    → Ensures Q (m >>= f)
>>=-Ensures P Q (ok a) f p k = k a refl p
>>=-Ensures P Q (err e) f p k = p

unless_none-Ensures : (ips : List IpAddr) → Ensures (λ l. is_empty l ≡ false) (unless_none ips)
unfolding is_retryable is_congestion_evidence
unless_none-Ensures [] = (refl, refl)
unless_none-Ensures (ip ∷ ips) = refl

get_system_resolvers-Ensures :
    (distinct : List IpAddr → List IpAddr) (read : Option (List IpAddr))
    → Ensures (λ l. is_empty l ≡ false) (get_system_resolvers distinct read)
unfolding get_system_resolvers is_retryable is_congestion_evidence
get_system_resolvers-Ensures distinct none = (refl, refl)
get_system_resolvers-Ensures distinct (some read) = unless_none-Ensures (distinct read)

map-is_empty : {A B : Type 0} (f : A → B) (l : List A) → is_empty (map f l) ≡ is_empty l
map-is_empty f [] = refl
map-is_empty f (x ∷ l) = refl

resolvers_or_system-Ensures :
    (sys : System) (resolvers : List Text)
    → Ensures (λ l. is_empty l ≡ false) (resolvers_or_system sys resolvers)
resolvers_or_system-Ensures sys (r ∷ rs) = refl
resolvers_or_system-Ensures sys [] =
    >>=-Ensures (λ l. is_empty l ≡ false) (λ l. is_empty l ≡ false)
      (get_system_resolvers sys.distinct sys.name_servers) _
      (get_system_resolvers-Ensures sys.distinct sys.name_servers)
      (λ ips e h. map-is_empty _ ips ∙ h)

Ensures-self :
    {A : Type 0} (m : Result A)
    → ((e : BlastDnsError) → m ≡ err e → IsFinal e)
    → Ensures (λ a. m ≡ ok a) m
Ensures-self (ok a) h = refl
Ensures-self (err e) h = h e refl

parse_resolver-IsFinal :
    (ps : Text → Option SocketAddr) (pi : Text → Option IpAddr) (t : Text) (e : BlastDnsError)
    → parse_resolver ps pi t ≡ err e
    → IsFinal e
unfolding parse_resolver is_retryable is_congestion_evidence
parse_resolver-IsFinal ps pi t e h = ground arith

check_current-IsFinal :
    (current required : ℕ) (e : BlastDnsError) → check_current current required ≡ err e → IsFinal e
unfolding check_current is_retryable is_congestion_evidence
check_current-IsFinal current required e h = ground arith

check_ulimits-IsFinal :
    (first : Option Limit) (raised : Bool) (again : Option Limit) (m r : ℕ) (p : Bool)
    (e : BlastDnsError)
    → check_ulimits first raised again m r p ≡ err e
    → IsFinal e
unfolding check_ulimits is_retryable is_congestion_evidence
check_ulimits-IsFinal none raised again m r p e h = ground arith
check_ulimits-IsFinal (some first) true none m r p e h = ground arith
check_ulimits-IsFinal (some first) true (some limit) m r p e h = ground arith
check_ulimits-IsFinal (some first) false again m r p e h = ground arith

parse_all-Ensures :
    (sys : System) (ts : List Text)
    → Ensures
        (λ addrs. map (parse_resolver sys.parse_socket sys.parse_ip) ts ≡ map ok addrs)
        (parse_all sys ts)
unfolding parse_all
parse_all-Ensures sys [] = refl
parse_all-Ensures sys (t ∷ ts) =
    let parse = parse_resolver sys.parse_socket sys.parse_ip in
    >>=-Ensures (λ a. parse t ≡ ok a) _ (parse t) _
      (Ensures-self (parse t) (parse_resolver-IsFinal sys.parse_socket sys.parse_ip t))
      (λ a e h.
        >>=-Ensures (λ l. map parse ts ≡ map ok l) _ (parse_all sys ts) _ (parse_all-Ensures sys ts)
          (λ l e' h'. rw (h, h') refl))

module _ {F : Type 0} (config : BlastDnsConfig F) where
  check_inflight-IsFinal : (e : BlastDnsError) → check_inflight config ≡ err e → IsFinal e
  unfolding is_retryable is_congestion_evidence
  check_inflight-IsFinal e h = ground arith

  -- What the checks found: the resolvers are those that were given or the system's, one at least,
  -- and all of them parse; the transport and the limit on open files allow what is configured.
  pub record IsChecked (sys : System) (resolvers : List Text) (parsed : List SocketAddr)
      : Type 0 where
    pub inputs : List Text
    pub given : resolvers_or_system sys resolvers ≡ ok inputs
    pub filled : is_empty inputs ≡ false
    pub parse : map (parse_resolver sys.parse_socket sys.parse_ip) inputs ≡ map ok parsed
    pub inflight : config.persistent_socket ≡ true → config.max_inflight_per_resolver ≤ 32
    pub files :
        check_ulimits sys.nofile sys.nofile_raised sys.nofile_again
          (queue_capacity config)
          (length parsed)
          config.persistent_socket
        ≡ ok tt

  inflight_of :
      check_inflight config ≡ ok tt
      → config.persistent_socket ≡ true
      → config.max_inflight_per_resolver ≤ 32
  inflight_of h p = ground arith

  pub checked-IsChecked :
      (sys : System) (resolvers : List Text)
      → Ensures (IsChecked sys resolvers) (checked config sys resolvers)
  unfolding checked
  checked-IsChecked sys resolvers =
      let limit = λ (parsed : List SocketAddr).
        check_ulimits sys.nofile sys.nofile_raised sys.nofile_again (queue_capacity config)
          (length parsed) config.persistent_socket in
      >>=-Ensures (λ l. is_empty l ≡ false) _ (resolvers_or_system sys resolvers) _
        (resolvers_or_system-Ensures sys resolvers)
        (λ inputs given filled.
          >>=-Ensures _ _ (parse_all sys inputs) _ (parse_all-Ensures sys inputs) (λ parsed _ parse.
            >>=-Ensures (λ u. check_inflight config ≡ ok u) _ (check_inflight config) _
              (Ensures-self (check_inflight config) check_inflight-IsFinal)
              (λ u _ inflight.
                >>=-Ensures (λ v. limit parsed ≡ ok v) _ (limit parsed) _
                  (Ensures-self (limit parsed) (
                    check_ulimits-IsFinal sys.nofile sys.nofile_raised sys.nofile_again
                      (queue_capacity config) (length parsed) config.persistent_socket))
                  (λ v _ files. record {
                    inputs = inputs;
                    given = given;
                    filled = filled;
                    parse = parse;
                    inflight = inflight_of inflight;
                    files = files;
                  }))))
