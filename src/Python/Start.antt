-- ===== src/Python/Start.antt =====
-- `Client.__new__` of src/python.rs: from JSON to a client.
use blastdns.Prelude.{
  ◌≡◌, ◌⊎◌, inl, inr, refl, Bool, true, Option, none, some, List, arith, unwrap_or,
}
use blastdns.Cache.{CacheEntry, Query}
use blastdns.Client.Build.{System, BlastDnsClient, with_config}
use blastdns.Client.Checks.{IsFinal}
use blastdns.Client.Ready.{Outcome, IsReady, IsTooLarge, with_config-Outcome}
use blastdns.Config.{BlastDnsConfig, BlastDnsConfigWire, default, from}
use blastdns.Controller.Runs.{ceiling_positive}
use blastdns.Dns.{Dns}
use blastdns.Error.{Result, ok, err, BlastDnsError}
use blastdns.Float.{Float, OrderLaws}
use blastdns.Limiter
use blastdns.Lru.{Lru}
use blastdns.Net.{Text}
use blastdns.Python
use blastdns.Python.{
  ExceptionType, PyErr, PyResult, returns, raises, value_error, config_of, into_py,
  blastdns_error_to_pyerr,
}
use blastdns.Semaphore.{Semaphore}

module _ (f64 : Float) (sem : Semaphore) (dns : Dns)
    (lru : Lru (Query dns) (CacheEntry dns.Response)) (imported : ExceptionType → Bool) where
  open f64 use {F}

  abbrev pub passed_on : {A : Type 0} → Option (Result A) → Option (PyResult A)
  passed_on none = none
  passed_on (some o) = some (into_py imported o)

  abbrev pub built_from :
      System
      → List Text
      → PyResult (BlastDnsConfig F)
      → Option (PyResult (BlastDnsClient f64 sem dns lru))
  built_from sys resolvers (raises e) = some (raises e)
  built_from sys resolvers (returns config) =
      passed_on (with_config f64 sem dns lru sys resolvers config)

  -- `none` is a panic.
  unfoldable pub new :
      System
      → (Text → Option (BlastDnsConfigWire F))
      → List Text
      → Option Text
      → Option (PyResult (BlastDnsClient f64 sem dns lru))
  unfolding with_config from
  new sys from_json resolvers config_json =
      built_from sys resolvers (config_of from_json (from f64) config_json)

  module _ (laws : OrderLaws f64) where
    -- A client that is ready for what the JSON asks for; the error of the JSON; the exception for an
    -- error that no resolver can help; or a panic, the JSON asking for too much.
    abbrev pub Handed :
        System
        → List Text
        → PyResult (BlastDnsConfig F)
        → Option (PyResult (BlastDnsClient f64 sem dns lru))
        → Type 0
    Handed sys resolvers config (some (returns c)) =
        (asked : BlastDnsConfig F) × (config ≡ returns asked)
        × IsReady f64 laws sem dns lru sys resolvers asked c
    Handed sys resolvers config (some (raises e)) =
        (config ≡ raises value_error)
        ⊎ ((b : BlastDnsError) × IsFinal b × (e ≡ blastdns_error_to_pyerr imported b))
    Handed sys resolvers config none =
        (asked : BlastDnsConfig F) × (config ≡ returns asked)
        × IsTooLarge f64 laws sem dns lru sys asked

    passed_on-Handed :
        (sys : System) (resolvers : List Text) (config : BlastDnsConfig F)
        (o : Option (Result (BlastDnsClient f64 sem dns lru)))
        → Outcome f64 laws sem dns lru sys resolvers config o
        → Handed sys resolvers (returns config) (passed_on o)
    passed_on-Handed sys resolvers config none h = (config, refl, h.0)
    passed_on-Handed sys resolvers config (some (ok c)) h = (config, refl, h)
    passed_on-Handed sys resolvers config (some (err b)) h = inr (b, h, refl)

    built_from-Handed :
        (sys : System) (resolvers : List Text) (config : BlastDnsConfig F)
        → f64.lt (f64.lit 0 1) (unwrap_or config.rate_limit (Limiter.unlimited_qps f64)) ≡ true
        → Handed sys resolvers (returns config) (built_from sys resolvers (returns config))
    built_from-Handed sys resolvers config positive =
        passed_on-Handed sys resolvers config _
          (with_config-Outcome f64 laws sem dns lru sys resolvers config positive)

    -- Whatever Python passes as resolvers and as JSON: making a client returns a client that is
    -- ready for the configuration in the JSON, or raises a `ValueError` for JSON that is no
    -- configuration, or else the exception for an error that no other resolver can help and that is
    -- no evidence of congestion. It panics only if the configuration in the JSON is too large: more
    -- queries in flight for a resolver than a semaphore can have permits, no memory for the queue,
    -- or none for the cache.
    pub new-Handed :
        (sys : System) (from_json : Text → Option (BlastDnsConfigWire F)) (resolvers : List Text)
        (config_json : Option Text)
        → Handed sys resolvers
            (config_of from_json (from f64) config_json)
            (new sys from_json resolvers config_json)
    unfolding new
    new-Handed sys from_json resolvers none =
        built_from-Handed sys resolvers default (laws.lit_pos 1000000000 (omega arith))
    new-Handed sys from_json resolvers (some json) = parsed (from_json json)
      where
        parsed :
            (wire : Option (BlastDnsConfigWire F))
            → Handed sys resolvers
                (Python.converted from_json (from f64) wire)
                (built_from sys resolvers (Python.converted from_json (from f64) wire))
        parsed none = inl refl
        parsed (some w) =
            built_from-Handed sys resolvers (from f64 w) (ceiling_positive f64 laws sem w)
