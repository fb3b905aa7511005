-- ===== src/Cli.antt =====
-- The command line, src/main.rs: the options, the files of resolvers and hosts, and the record
-- type. clap's parsing and the printing are not modelled; what a file holds is an argument.
pub mod Input
pub mod Output
pub mod Shown
use blastdns.Prelude.{
  ℕ, ◌*◌, ◌⊎◌, inl, inr, max, Bool, true, false, not, Option, none, some, List, [], ◌∷◌, is_empty,
  if◌then◌else◌,
}
use mathlib.Core.List.{filter_map}
use blastdns.Config.{BlastDnsConfig, default, from_millis, positive_rate}
use blastdns.Float.{Float}
use blastdns.Net.{Text}
use blastdns.Strings.{trim, before, lines, to_ascii_uppercase}

-- `Args`, without what clap hands over as a path or a record type.
pub record Args (F : Type 0) : Type 0 where
  pub max_inflight_per_resolver : ℕ
  pub max_concurrency : ℕ
  pub rate_limit : F
  pub resolver_probe : Bool
  pub no_adaptive : Bool
  pub persistent_socket : Bool
  pub timeout_ms : ℕ
  pub retries : ℕ
  pub purgatory_threshold : ℕ
  pub purgatory_sentence_ms : ℕ
  pub skip_empty : Bool
  pub skip_errors : Bool
  pub brief : Bool
  pub cache_capacity : ℕ

module _ (f64 : Float) where
  open f64 use {F}

  -- The configuration that `main` builds.
  unfoldable pub config_of : Args F → BlastDnsConfig F
  config_of a = record {
    max_inflight_per_resolver = max a.max_inflight_per_resolver 1;
    max_concurrency = max a.max_concurrency 1;
    rate_limit = if f64.lt (f64.lit 0 1) a.rate_limit then some a.rate_limit else none;
    adaptive = not a.no_adaptive;
    resolver_probe = a.resolver_probe;
    persistent_socket = a.persistent_socket;
    request_timeout = from_millis (max a.timeout_ms 1);
    max_retries = a.retries;
    purgatory_threshold = a.purgatory_threshold;
    purgatory_sentence = from_millis a.purgatory_sentence_ms;
    cache_capacity = a.cache_capacity;
    cache_min_ttl = (default {F = F}).cache_min_ttl;
    cache_max_ttl = (default {F = F}).cache_max_ttl;
  }

-- What is left of a line: no comment, no space around it; nothing of a line that is then empty.
abbrev pub entry : Text → Option Text
entry line = let trimmed = trim (before 35 line) in if is_empty trimmed then none else some trimmed

pub data Failure : Type 0 where
  unreadable : Failure
  empty_resolver_list : Failure

abbrev pub at_least_one : List Text → Failure ⊎ List Text
at_least_one [] = inl empty_resolver_list
at_least_one (t ∷ ts) = inr (t ∷ ts)

-- The file's content, if it could be read.
unfoldable pub load_resolvers : Option Text → Failure ⊎ List Text
unfolding filter_map
load_resolvers none = inl unreadable
load_resolvers (some buf) = at_least_one (filter_map entry (lines buf))

abbrev pub host_entry : Option Text → Option Text
host_entry none = none
host_entry (some line) = entry line

-- The lines of the reader; one that could not be read is skipped.
unfoldable pub load_hosts : List (Option Text) → List Text
unfolding filter_map
load_hosts read = filter_map host_entry read

-- `from_str` is hickory's parser of record types.
unfoldable pub parse_record_type :
    {RecordType : Type 0} → (Text → Option RecordType) → Text → Option RecordType
parse_record_type from_str value = from_str (to_ascii_uppercase (trim value))
