-- ===== src/Cli/Input.antt =====
-- What `load_resolvers`, `load_hosts` and the options of src/main.rs give.
use blastdns.Prelude.{
  inl, inr, ℕ, ◌≡◌, ◌∙◌, ap, refl, false, not, Option, none, some, List, [], ◌∷◌, ◌==◌, is_empty,
  if◌then◌else◌, arith, Bool-cases, Option-cases, All,
}
use mathlib.Core.List.{filter_map}
use blastdns.Config.{BlastDnsConfigWire, from, positive_rate}
use blastdns.Float.{Float}
use blastdns.Net.{Text}
use blastdns.Strings.{trim, before, lines, is_whitespace}
use blastdns.Strings.Trim.{trim_matches-trim_matches, All-trim_matches}
use blastdns.Cli.{Args, config_of, entry, load_resolvers, host_entry, load_hosts, at_least_one}

-- The character is nowhere in the text.
abbrev pub IsWithout : ℕ → Text → Type 0
IsWithout d s = All (λ c. (c == d) ≡ false) s

before-IsWithout : (d : ℕ) (s : Text) → IsWithout d (before d s)
before-IsWithout d [] = tt
before-IsWithout d (c ∷ cs) = elim (Bool-cases (c == d)) [
  | inl e ↦ rw e tt
  | inr e ↦ rw e (e, before-IsWithout d cs)
]

before_of_IsWithout : (d : ℕ) (s : Text) → IsWithout d s → before d s ≡ s
before_of_IsWithout d [] h = refl
before_of_IsWithout d (c ∷ cs) h = rw h.0 (ap (λ t. c ∷ t) (before_of_IsWithout d cs h.1))

-- A line of a resolver or host file as the program uses it: some text, with no comment, and what
-- reading it once more gives.
pub record IsEntry (t : Text) : Type 0 where
  pub filled : is_empty t ≡ false
  pub uncommented : IsWithout 35 t
  pub stable : entry t ≡ some t

trim-IsEntry : (s : Text) → IsWithout 35 s → is_empty (trim s) ≡ false → IsEntry (trim s)
trim-IsEntry s h e =
    let clean : IsWithout 35 (trim s) = All-trim_matches _ is_whitespace s h in
    let once : trim (before 35 (trim s)) ≡ trim s =
      ap trim (before_of_IsWithout 35 (trim s) clean) ∙ trim_matches-trim_matches is_whitespace s in
    record { filled = e; uncommented = clean; stable = rw once (rw e) }

unless_empty :
    (s : Text) {t : Text}
    → (if is_empty s then none else some s) ≡ some t
    → (is_empty s ≡ false) × (s ≡ t)
unless_empty [] h = cc
unless_empty (c ∷ cs) h = (refl, cc)

entry-IsEntry : (line : Text) {t : Text} → entry line ≡ some t → IsEntry t
entry-IsEntry line h =
    let (filled, same) = unless_empty (trim (before 35 line)) h in
    rw (← same) (trim-IsEntry (before 35 line) (before-IsWithout 35 line) filled)

module _ {A : Type 0} (read : A → Option Text)
    (sound : (a : A) (t : Text) → read a ≡ some t → IsEntry t) where
  filter_map-IsEntry : (xs : List A) → All IsEntry (filter_map read xs)
  unfolding filter_map
  filter_map-IsEntry [] = tt
  filter_map-IsEntry (x ∷ xs) = elim (Option-cases (read x)) [
    | inl e ↦ rw e (filter_map-IsEntry xs)
    | inr (t, e) ↦ rw e (sound x t e, filter_map-IsEntry xs)
  ]

host_entry-IsEntry : (o : Option Text) (t : Text) → host_entry o ≡ some t → IsEntry t
host_entry-IsEntry none t h = cc
host_entry-IsEntry (some line) t h = entry-IsEntry line h

at_least_one-IsEntry :
    (ts : List Text) {out : List Text}
    → at_least_one ts ≡ inr out
    → All IsEntry ts
    → (is_empty out ≡ false) × All IsEntry out
at_least_one-IsEntry [] h k = cc
at_least_one-IsEntry (t ∷ ts) {out} h k = let same : t ∷ ts ≡ out = cc in rw (← same) (refl, k)

-- The list of resolvers that `load_resolvers` returns is not empty, and every one of them is
-- some text with no comment and no space around it, which reading it once more gives.
pub load_resolvers-IsEntry :
    (read : Option Text) {out : List Text}
    → load_resolvers read ≡ inr out
    → (is_empty out ≡ false) × All IsEntry out
unfolding load_resolvers
load_resolvers-IsEntry none h = cc
load_resolvers-IsEntry (some buf) h =
    at_least_one-IsEntry (filter_map entry (lines buf)) h
      (filter_map-IsEntry entry (λ line t e. entry-IsEntry line e) (lines buf))

-- So is every host, however many lines could not be read.
pub load_hosts-IsEntry : (read : List (Option Text)) → All IsEntry (load_hosts read)
unfolding load_hosts
load_hosts-IsEntry read = filter_map-IsEntry host_entry host_entry-IsEntry read

module _ (f64 : Float) where
  open f64 use {F}

  -- The wire form with the command line's values.
  abbrev pub wire_of : Args F → BlastDnsConfigWire F
  wire_of a = record {
    max_inflight_per_resolver = a.max_inflight_per_resolver;
    max_concurrency = a.max_concurrency;
    rate_limit = some a.rate_limit;
    adaptive = not a.no_adaptive;
    resolver_probe = a.resolver_probe;
    persistent_socket = a.persistent_socket;
    request_timeout_ms = a.timeout_ms;
    max_retries = a.retries;
    purgatory_threshold = a.purgatory_threshold;
    purgatory_sentence_ms = a.purgatory_sentence_ms;
    cache_capacity = a.cache_capacity;
    cache_min_ttl_secs = 10;
    cache_max_ttl_secs = 86400;
  }

  -- The command line builds the configuration that the wire form with the same values, a cache
  -- for 10 seconds to a day, and any sentence but zero is turned into; with a sentence of zero
  -- milliseconds the command line keeps zero and the wire form makes it one.
  pub config_of-from :
      (a : Args F)
      → config_of f64 a ≡ (
          if a.purgatory_sentence_ms == 0
          then record (from f64 (wire_of a)) { purgatory_sentence = 0 }
          else from f64 (wire_of a))
  unfolding config_of from positive_rate
  config_of-from a = elim (Bool-cases (a.purgatory_sentence_ms == 0)) [
    | inl e ↦ ground arith
    | inr e ↦ ground arith
  ]
