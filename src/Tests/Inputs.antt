-- ===== src/Tests/Inputs.antt =====
-- Examples for src/main.rs, src/mock.rs and src/sim.rs.
use blastdns.Prelude.{
  ℕ, ◌+◌, ◌*◌, ◌≤◌, ◌≡◌, refl, false, true, none, some, inr, List, [], ◌∷◌, All, is_empty, length,
  ◌==◌, arith, Option, is_some,
}
use mathlib.Core.List.{filter_map}
use blastdns.Cli.{Args, config_of, load_resolvers}
use blastdns.Cli.Input.{IsEntry, load_resolvers-IsEntry, config_of-from, wire_of}
use blastdns.Config.{from}
use blastdns.Dns.{no_error}
use blastdns.Error.{ok}
use blastdns.Float.Fixed.{fixed}
use blastdns.Mock.{
  Backend, Message, Responses, new, mock_dns, resolve_full_impl, fabricate_response_with_code,
  MockBlastDnsClient,
}
use blastdns.Net.{Text}
use blastdns.Sim.{SimConfig, fresh, receive, should_drop, spend}
use blastdns.Sim.Capacity.{Arrival, serve, serve_capacity, serve_paced}
use blastdns.Strings.{strip_prefix}

-- " 8.8.8.8 # dns", an empty line and "1.1"
abbrev file : Text
file = 32 ∷ 56 ∷ 46 ∷ 56 ∷ 32 ∷ 35 ∷ 100 ∷ 13 ∷ 10 ∷ 32 ∷ 10 ∷ 49 ∷ 46 ∷ 49 ∷ []

abbrev listed : List Text
listed = (56 ∷ 46 ∷ 56 ∷ []) ∷ (49 ∷ 46 ∷ 49 ∷ []) ∷ []

loaded : load_resolvers (some file) ≡ inr listed
unfolding load_resolvers filter_map
loaded = refl

load_resolvers-IsEntry_example : (is_empty listed ≡ false) × All IsEntry listed
load_resolvers-IsEntry_example = load_resolvers-IsEntry (some file) loaded

abbrev pub args : Args ℕ
args = record {
  max_inflight_per_resolver = 0;
  max_concurrency = 100;
  rate_limit = 5000000;
  resolver_probe = false;
  no_adaptive = false;
  persistent_socket = true;
  timeout_ms = 0;
  retries = 3;
  purgatory_threshold = 10;
  purgatory_sentence_ms = 0;
  skip_empty = true;
  skip_errors = false;
  brief = true;
  cache_capacity = 100;
}

config_of-from_example :
    config_of fixed args ≡ record (from fixed (wire_of fixed args)) { purgatory_sentence = 0 }
config_of-from_example = config_of-from fixed args

-- A pattern fits what it is a prefix of; a record type is its length.
abbrev backend : Backend
backend = record {
  Regex = Text;
  compile = λ t. some t;
  is_match = λ r host. is_some (strip_prefix r host);
  RecordType = ℕ;
  type_eq = ◌==◌;
  type_of_str = λ s. some (length s);
  is_ptr = λ t. t == 3;
  Name = Text;
  name_of_str = λ s. some s;
  RData = Text;
  try_from_str = λ t s. some s;
}

-- "a", and "regex:a"
abbrev table : Responses
table =
    (97 ∷ [], (65 ∷ [], (49 ∷ []) ∷ []) ∷ [])
    ∷ (
      114 ∷ 101 ∷ 103 ∷ 101 ∷ 120 ∷ 58 ∷ 97 ∷ [],
      (65 ∷ [], (50 ∷ []) ∷ []) ∷ (65 ∷ 65 ∷ [], (51 ∷ []) ∷ []) ∷ [],
    )
    ∷ []

abbrev denied : List Text
denied = (98 ∷ []) ∷ []

abbrev sent : Message Text ℕ Text → Option (Message Text ℕ Text)
sent m = some m

abbrev client : MockBlastDnsClient backend
client = mock_dns backend (new backend) table denied

-- The exact entry has no record of type 2, so the pattern's is given.
answered :
    resolve_full_impl backend sent client (97 ∷ []) 2
    ≡ ok (record {
      query_name = 97 ∷ 46 ∷ [];
      query_type = 2;
      code = no_error;
      answers = (51 ∷ []) ∷ [];
    })
unfolding resolve_full_impl mock_dns fabricate_response_with_code
answered = refl

-- 20 milliseconds per query: three of five at once find the budget within the allowance.
abbrev flood : List (Arrival ℕ)
flood =
    record { at = 0; request = some 1 }
    ∷ record { at = 0; request = some 2 }
    ∷ record { at = 0; request = some 3 }
    ∷ record { at = 0; request = some 4 }
    ∷ record { at = 1000000; request = some 5 }
    ∷ []

abbrev plain : SimConfig ℕ
plain = record {
  latency = 0;
  capacity_qps = some 50000000;
  drop_one_in = none;
  refuse_one_in = none;
  truncate_udp = false;
}

flooded : (serve plain (some 20000000) flood fresh).1 ≡ 3
unfolding serve receive should_drop spend
flooded = refl

serve_capacity_example :
    (serve plain (some 20000000) flood fresh).1 * 20000000 ≤ 1000000 + 50000000 + 20000000
serve_capacity_example = serve_capacity plain 20000000 flood 1000000 (omega arith) (omega arith)

abbrev trickle : List (Arrival ℕ)
trickle =
    record { at = 0; request = some 1 }
    ∷ record { at = 20000000; request = some 2 }
    ∷ record { at = 45000000; request = some 3 }
    ∷ []

serve_paced_example :
    ((serve plain (some 20000000) trickle fresh).1 ≡ 3)
    × ((serve plain (some 20000000) trickle fresh).0.dropped ≡ 0)
serve_paced_example = serve_paced plain 20000000 trickle refl (grind arith)
