-- ===== src/Client/Build.antt =====
-- How a client is built and started: `BlastDNSClient::with_config` and `ensure_workers`
-- (src/client.rs). What the system says is an argument; `none` is a panic.
use blastdns.Prelude.{
  ℕ, max, Bool, true, false, ◌&&◌, ◌++◌, Option, none, some, List, [], ◌∷◌, length, map, ltb,
  is_some, unwrap_or, if◌then◌else◌,
}
use mathlib.Core.Option
use blastdns.Cache
use blastdns.Cache.{SimpleCache, CacheEntry, Query}
use blastdns.Config.{BlastDnsConfig}
use blastdns.Controller.Global.{Outcomes}
use blastdns.Controller.Tick
use blastdns.Controller.Tick.{AdaptiveController}
use blastdns.Dns.{Dns}
use blastdns.Error.{Result, ok, err, ◌>>=◌, configuration, too_many_inflight}
use blastdns.Float.{Float}
use blastdns.Limiter
use blastdns.Limiter.{RateLimiter}
use blastdns.Lru.{Lru}
use blastdns.Net.{Text, IpAddr, SocketAddr}
use blastdns.Pacer
use blastdns.Pool
use blastdns.Pool.{ResolverPool}
use blastdns.Semaphore.{Semaphore}
use blastdns.Utils.{Limit, get_system_resolvers, parse_resolver, check_ulimits}

-- What a client finds around it: the system's resolvers, the limit on open files, the parsers and
-- the printer of addresses, and whether there is memory for a queue of so many items.
pub record System : Type 0 where
  pub name_servers : Option (List IpAddr)
  pub distinct : List IpAddr → List IpAddr
  pub to_string : IpAddr → Text
  pub parse_socket : Text → Option SocketAddr
  pub parse_ip : Text → Option IpAddr
  pub nofile : Option Limit
  pub nofile_raised : Bool
  pub nofile_again : Option Limit
  pub queue_fits : ℕ → Bool

-- `PERSISTENT_INFLIGHT_LIMIT`
abbrev pub persistent_inflight_limit : ℕ
persistent_inflight_limit = 32

-- The resolvers to parse: those given, or the system's, each with ":53" behind it.
abbrev pub resolvers_or_system : System → List Text → Result (List Text)
resolvers_or_system sys [] = do
  ips ← get_system_resolvers sys.distinct sys.name_servers
  ok (map (λ ip. sys.to_string ip ++ 58 ∷ 53 ∷ 51 ∷ []) ips)
resolvers_or_system sys (r ∷ rs) = ok (r ∷ rs)

-- `collect::<Result<_, _>>` of the parsed resolvers
unfoldable pub parse_all : System → List Text → Result (List SocketAddr)
parse_all sys [] = ok []
parse_all sys (t ∷ ts) = do
  addr ← parse_resolver sys.parse_socket sys.parse_ip t
  rest ← parse_all sys ts
  ok (addr ∷ rest)

module _ {F : Type 0} (config : BlastDnsConfig F) where
  abbrev pub check_inflight : Result {0} Unit
  check_inflight =
      if config.persistent_socket && ltb persistent_inflight_limit config.max_inflight_per_resolver
      then err (
          configuration
            (too_many_inflight config.max_inflight_per_resolver persistent_inflight_limit))
      else ok tt

  abbrev pub queue_capacity : ℕ
  queue_capacity = max config.max_concurrency 1

  -- Every check of `with_config`, in its order.
  unfoldable pub checked : System → List Text → Result (List SocketAddr)
  unfolding parse_all
  checked sys resolvers = do
    inputs ← resolvers_or_system sys resolvers
    parsed ← parse_all sys inputs
    _ ← check_inflight
    _ ←
        check_ulimits sys.nofile sys.nofile_raised sys.nofile_again queue_capacity (length parsed)
          config.persistent_socket
    ok parsed

module _ (f64 : Float) (sem : Semaphore) (dns : Dns)
    (lru : Lru (Query dns) (CacheEntry dns.Response)) where
  open f64 use {F}
  open sem use {S}
  open lru use {C}

  -- The workers, once they run: the controller, if the pace adapts, and how many.
  pub record Running : Type 0 where
    pub controller : Option (AdaptiveController S F)
    pub workers : ℕ

  pub record BlastDnsClient : Type 0 where
    pub resolvers : List SocketAddr
    pub pool : ResolverPool S
    pub limiter : RateLimiter
    pub outcomes : Outcomes
    pub config : BlastDnsConfig F
    pub queue_capacity : ℕ
    pub workers_spawned : Option Running
    pub cache : Option (SimpleCache C)

  abbrev pub cache_of : BlastDnsConfig F → Option (Option (SimpleCache C))
  cache_of config =
      if ltb 0 config.cache_capacity
      then Option.map some
          (Cache.new dns lru config.cache_capacity config.cache_min_ttl config.cache_max_ttl)
      else some none

  abbrev pub assemble :
      List SocketAddr
      → BlastDnsConfig F
      → ResolverPool S
      → RateLimiter
      → Option (SimpleCache C)
      → BlastDnsClient
  assemble parsed config pool limiter cache = record {
    resolvers = parsed;
    pool = pool;
    limiter = limiter;
    outcomes = record { completed = 0; failed = 0 };
    config = config;
    queue_capacity = queue_capacity config;
    workers_spawned = none;
    cache = cache;
  }

  -- Building a pool, a limiter, a queue or a cache may panic.
  abbrev pub joined :
      List SocketAddr
      → BlastDnsConfig F
      → Option (ResolverPool S)
      → Option RateLimiter
      → Bool
      → Option (Option (SimpleCache C))
      → Option (Result BlastDnsClient)
  joined parsed config none limiter queued cache = none
  joined parsed config (some pool) none queued cache = none
  joined parsed config (some pool) (some limiter) false cache = none
  joined parsed config (some pool) (some limiter) true none = none
  joined parsed config (some pool) (some limiter) true (some cache) =
      some (ok (assemble parsed config pool limiter cache))

  abbrev pub build :
      System → BlastDnsConfig F → Result (List SocketAddr) → Option (Result BlastDnsClient)
  build sys config (err e) = some (err e)
  build sys config (ok parsed) =
      joined parsed config (Pool.new f64 sem parsed config)
        (Limiter.new f64 (unwrap_or config.rate_limit (Limiter.unlimited_qps f64)))
        (sys.queue_fits (queue_capacity config)) (cache_of config)

  unfoldable pub with_config :
      System → List Text → BlastDnsConfig F → Option (Result BlastDnsClient)
  unfolding checked
  with_config sys resolvers config = build sys config (checked config sys resolvers)

  -- The first call probes the pool, with these answers, and starts the rest; a later one does
  -- nothing.
  abbrev pub running : BlastDnsClient → Running
  running c = record {
    controller =
        if c.config.adaptive
        then some (
            Tick.new f64 (length c.pool.resolvers) c.limiter (Pacer.new f64 sem)
              (unwrap_or c.config.rate_limit (Limiter.unlimited_qps f64)))
        else none;
    workers = max c.config.max_concurrency 1;
  }

  abbrev pub started : {A : Type 0} → BlastDnsClient → List (Result A) → BlastDnsClient
  started c answers =
      let probed =
        if c.config.resolver_probe
        then (Pool.probe c.pool.resolvers answers).0
        else c.pool.resolvers in
      record c { pool = record (c.pool) { resolvers = probed }; workers_spawned = some (running c) }

  unfoldable pub ensure_workers : {A : Type 0} → BlastDnsClient → List (Result A) → BlastDnsClient
  unfolding Pool.probe Tick.new Pacer.new
  ensure_workers c answers = if is_some c.workers_spawned then c else started c answers
