-- ===== src/Tests/Answers.antt =====
-- Examples for src/cache.rs, src/worker.rs and src/client.rs.
use blastdns.Prelude.{
  ℕ, zero, suc, ◌+◌, ◌%◌, ◌≤◌, ◌<◌, ◌≡◌, ◌≢◌, ◌⊎◌, refl, min, Bool, true, false, Option, none, some,
  List, [], ◌∷◌, arith, ltb, if◌then◌else◌, u64_mod, wrapping_add, saturating_add, ◌==◌,
}
use blastdns.Dns.{Dns, ResponseCode, no_error}
use blastdns.Error.{ok, err, query_timed_out}
use blastdns.Lru
use blastdns.Lru.Pairs.{pairs, pairs_laws}
use blastdns.Net.{Text}
use blastdns.Cache
use blastdns.Cache.{SimpleCache, CacheEntry, Query, ttl_secs}
use blastdns.Cache.History
use blastdns.Cache.Lookups
use blastdns.Client.{State, Delivery, answered, look_up, resolve_full}
use blastdns.Client.Attempts
use blastdns.Client.Attempts.{resolve_full_cases, settles, result_of, counted}
use blastdns.Health.Accounts.{finished}
use blastdns.Tests.Resolvers.{resolver, here}
use blastdns.Worker.{Exchange, query}
use blastdns.Worker.Queries.{query_once, preferred, udp_truncated}

pub record Message : Type 0 where
  pub ttls : List ℕ
  pub code : ResponseCode
  pub cut : Bool

abbrev pub head : Text → Option ℕ
head [] = none
head (c ∷ cs) = some c

-- A name is its first character, a record its TTL, and type 12 is PTR.
abbrev pub dns : Dns
dns = record {
  Name = ℕ;
  RecordType = ℕ;
  Record = ℕ;
  Response = Message;
  from_str = head;
  from_ascii = head;
  is_ptr = λ t. t == 12;
  answers = λ m. m.ttls;
  ttl = λ t. t;
  response_code = λ m. m.code;
  truncated = λ m. m.cut;
}

-- Storing entries of 10 to 20 seconds.
abbrev pub lru : Lru.Lru (Query dns) (CacheEntry Message)
lru = pairs (CacheEntry Message)

abbrev lru_laws : Lru.LruLaws lru
lru_laws = pairs_laws (CacheEntry Message)

abbrev pub found : Message
found = record { ttls = 300 ∷ 15 ∷ []; code = no_error; cut = false }

abbrev pub cut_off : Message
cut_off = record { ttls = []; code = no_error; cut = true }

-- The last moment that the clock can show.
abbrev latest : ℕ
latest = 900000000000

abbrev empty_cache : SimpleCache (List ((ℕ × ℕ) × CacheEntry Message))
empty_cache = record { inner = []; min_ttl = 10000000000; max_ttl = 20000000000 }

abbrev full_cache : SimpleCache (List ((ℕ × ℕ) × CacheEntry Message))
full_cache = record empty_cache {
  inner = ((7, 1), record { response = found; expire_at = 15000000004 }) ∷ [];
}

abbrev ops : List (History.Op dns)
ops = History.store (7, 1) found 4 ∷ History.look (7, 1) 3 ∷ []

made : Cache.new dns lru 0 10000000000 20000000000 ≡ some empty_cache
unfolding Cache.new
made = refl

run-ops : History.run dns lru latest empty_cache ops ≡ some full_cache
unfolding History.run
run-ops = refl

get_found : (Cache.get dns lru full_cache (7, 1) 15000000003).1 ≡ some found
unfolding Cache.get
get_found = refl

run-get-IsStored_example :
    (e : CacheEntry Message) × (e.response ≡ found)
    × (15000000003 < e.expire_at)
    × History.IsStored dns 10000000000 20000000000 (7, 1) e ops
run-get-IsStored_example =
    History.run-get-IsStored dns lru latest lru_laws 0 10000000000 20000000000 ops empty_cache
      full_cache (7, 1) 15000000003 found made run-ops get_found

get-insert_example :
    let ttl = ttl_secs dns found in
    let inserted = Cache.insert dns lru latest empty_cache (7, 1) found 4 in
    let expiry = Lookups.expiry dns lru empty_cache found 4 in
    ((ttl ≡ 0) × (inserted ≡ some empty_cache))
    ⊎ (((ttl ≢ 0) × (20000000000 < 10000000000) × (inserted ≡ none))
        ⊎ (((ttl ≢ 0) × (10000000000 ≤ 20000000000) × (latest < expiry) × (inserted ≡ none))
            ⊎ ((c' : SimpleCache (List ((ℕ × ℕ) × CacheEntry Message))) × (ttl ≢ 0)
                × (10000000000 ≤ 20000000000)
                × (expiry ≤ latest)
                × (inserted ≡ some c')
                × ((Cache.get dns lru c' (7, 1) 9).1
                    ≡ (if ltb 9 expiry then some found else none)))))
get-insert_example = Lookups.get-insert dns lru latest lru_laws empty_cache (7, 1) found 4 9

abbrev truncated_then_tcp : Exchange Message
truncated_then_tcp = record { udp = ok cut_off; tcp = ok found; rtt = 900; now = 5 }

query_once_example :
    let (h', r) = query dns resolver truncated_then_tcp in
    (h'.attempted ≡ wrapping_add 200 1)
    × (finished h' % u64_mod ≡ (finished resolver + 1) % u64_mod)
    × (h'.truncated ≡ (if udp_truncated dns (ok cut_off) then wrapping_add 0 1 else 0))
    × (r ≡ preferred dns (ok cut_off) (ok found))
query_once_example = query_once dns resolver truncated_then_tcp

-- A client with a cache, whose first attempt times out and whose second one is answered.
abbrev client : State (List ((ℕ × ℕ) × CacheEntry Message))
client = record { cache = some empty_cache; outcomes = record { completed = 0; failed = 0 } }

abbrev deliveries : ℕ → Delivery Message
deliveries zero = answered (err (query_timed_out here 1000000000))
deliveries (suc n) = answered (ok found)

client-IsSafe : Attempts.IsSafe latest client (λ a. min a 5) (saturating_add 10 1)
client-IsSafe i l c e = ground arith

resolve_full_cases_example :
    let full =
      resolve_full dns lru latest (λ h. h) 10 client (7 ∷ []) 1 0 (λ a. min a 5) deliveries in
    let looked = look_up dns lru client (7 ∷ []) 1 0 in
    ((r : Message) × (looked.1 ≡ some r)
      × (full ≡ some (looked.0, ok r))
      × (looked.0.outcomes ≡ client.outcomes))
    ⊎ ((looked.1 ≡ none)
        × (s' : State (List ((ℕ × ℕ) × CacheEntry Message))) × (i : ℕ) × (full
            ≡ some (s', result_of (deliveries i)))
        × (i < saturating_add 10 1)
        × ((settles dns (deliveries i) ≡ true) ⊎ (suc i ≡ saturating_add 10 1))
        × ((j : ℕ) → j < i → settles dns (deliveries j) ≡ false)
        × (s'.outcomes ≡ counted client.outcomes (result_of (deliveries i))))
resolve_full_cases_example =
    resolve_full_cases dns lru latest (λ h. h) 10 client (7 ∷ []) 1 0 (λ a. min a 5) deliveries
      client-IsSafe
