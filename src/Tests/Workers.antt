-- ===== src/Tests/Workers.antt =====
-- Examples for a client of src/client.rs whose workers (src/worker.rs) run.
use blastdns.Prelude.{
  ℕ, ◌+◌, ◌≤◌, ◌≡◌, refl, true, false, none, some, List, [], ◌∷◌, arith, max, unwrap_or,
}
use blastdns.Cache
use blastdns.Client.Build.{BlastDnsClient, assemble, cache_of, with_config, ensure_workers}
use blastdns.Client.Counted.{AreCounted, with_config-AreCounted}
use blastdns.Client.Started.{Steered, with_config-Steered}
use blastdns.Client.Workers.{AreCapped, spawned_by, with_config-AreCapped}
use blastdns.Config.{from}
use blastdns.Controller.Runs.{Event, work, take_slot, adjust}
use blastdns.Controller.Global.{Outcomes}
use blastdns.Error.{Result, ok, err, worker_dropped}
use blastdns.Float.Fixed.{fixed, fixed_laws}
use blastdns.Health
use blastdns.Health.Accounts.{dispatch, respond, fail}
use blastdns.Limiter
use blastdns.Pacer
use blastdns.Net.{SocketAddr, v4}
use blastdns.Pool
use blastdns.Pool.Choice.{IsEligible}
use blastdns.Pool.{ResolverPool, visit, scan, scan_visit}
use blastdns.Semaphore.{counter, counter_laws}
use blastdns.Tests.Answers.{Message, dns, lru, found}
use blastdns.Tests.Clients.{system}
use blastdns.Tests.Limits.{wire}
use blastdns.Tests.Resolvers.{resolver}
use blastdns.Utils.{check_ulimits, get_system_resolvers, parse_resolver}
use blastdns.Worker.{Exchange}
use blastdns.Worker.Answers.{copies, queued, answered, in_hand}
use blastdns.Worker.Progress.{Served, drive, drive-Served}
use blastdns.Worker.Released.{run_released}
use blastdns.Worker.Over.{HaveStopped}
use blastdns.Worker.Shutdown.{run_accounts, run_shutdown}
use blastdns.Worker.Tasks
use blastdns.Worker.Tasks.{WorkItem, run, spawned}
use blastdns.Worker.Waiters.{waiters}

abbrev outcomes : Outcomes
outcomes = record { completed = 0; failed = 0 }

abbrev events : List Event
events =
    work 0 dispatch
    ∷ take_slot 0 5
    ∷ work 0 (respond 900 true 60)
    ∷ work 1 dispatch
    ∷ adjust 500000000 500000000 outcomes
    ∷ work 1 (fail true 600000000)
    ∷ []

abbrev answers : List (Result ℕ)
answers = ok 1 ∷ err worker_dropped ∷ []

abbrev at_49 : SocketAddr
at_49 = record { ip = v4 0 0 0 49; port = 53 }

-- The client of the one resolver of the system.
abbrev client : BlastDnsClient fixed counter dns lru
client =
    assemble fixed counter dns lru (at_49 ∷ []) (from fixed wire)
      (record {
        resolvers =
            Health.fresh fixed counter at_49 (from fixed wire)
              (record { interval_ns = 1; next_ns = 0 })
            ∷ [];
        cursor = 0;
      })
      (record { interval_ns = 1; next_ns = 0 })
      (unwrap_or (cache_of fixed counter dns lru (from fixed wire)) none)

built : with_config fixed counter dns lru system [] (from fixed wire) ≡ some (ok client)
unfolding with_config check_ulimits get_system_resolvers parse_resolver Pool.new Health.new
    Limiter.new Limiter.interval_for Cache.new from
built = refl

with_config-Steered_example :
    Steered fixed fixed_laws counter dns lru wire client answers answers events
with_config-Steered_example =
    with_config-Steered fixed fixed_laws counter dns lru system [] wire answers answers events built
      refl

abbrev exchange : Exchange Message
exchange = record { udp = ok found; tcp = err worker_dropped; rtt = 900; now = 60 }

abbrev item : ℕ → WorkItem ℕ
item channel = record { query = record { host = 7 ∷ []; record_type = 1 }; responder = channel }

-- The item has no name.
abbrev nameless : ℕ → WorkItem ℕ
nameless channel = record { query = record { host = []; record_type = 1 }; responder = channel }

abbrev turn : ℕ → Tasks.Event ℕ ℕ Message
turn now = Tasks.work 0 now exchange

-- Two items are sent; one worker answers the first, and drops its reservation.
abbrev turns : List (Tasks.Event ℕ ℕ Message)
turns =
    Tasks.send (item 3)
    ∷ Tasks.send (nameless 4)
    ∷ turn 10
    ∷ turn 20
    ∷ turn 30
    ∷ turn 40
    ∷ turn 50
    ∷ turn 60
    ∷ turn 70
    ∷ Tasks.close
    ∷ turn 80
    ∷ turn 90
    ∷ []

abbrev pool : ResolverPool ℕ
pool = record { resolvers = resolver ∷ []; cursor = 4 }

abbrev limiter : Limiter.RateLimiter
limiter = record { interval_ns = 100; next_ns = 0 }

with_config-AreCapped_example :
    let y =
      run fixed counter dns
        (spawned_by fixed counter dns lru (ensure_workers fixed counter dns lru client answers))
        turns in
    AreCapped fixed counter counter_laws dns
      (max (from fixed wire).max_inflight_per_resolver 1)
      y.workers
      0
      y.shared.pool.resolvers
with_config-AreCapped_example =
    with_config-AreCapped fixed counter counter_laws dns lru system [] (from fixed wire) answers
      turns built

with_config-AreCounted_example :
    let y =
      run fixed counter dns
        (spawned_by fixed counter dns lru (ensure_workers fixed counter dns lru client answers))
        turns in
    AreCounted fixed counter dns y.workers 0 y.shared.pool.resolvers
with_config-AreCounted_example =
    with_config-AreCounted fixed counter dns lru system [] (from fixed wire) answers turns built

run_accounts_example :
    let y = run fixed counter dns (spawned fixed counter dns 2 pool limiter 10) turns in
    copies 3 y.sent ≡ queued 3 y.shared.queue + answered 3 y.shared.answers + in_hand 3 y.workers
run_accounts_example = run_accounts fixed counter dns 2 pool limiter 10 turns 3

all_stopped :
    HaveStopped (run fixed counter dns (spawned fixed counter dns 1 pool limiter 10) turns).workers
unfolding run visit scan_visit Health.is_benched Health.try_acquire Pacer.new
all_stopped = (refl, tt)

run_shutdown_example :
    let s = run fixed counter dns (spawned fixed counter dns 1 pool limiter 10) turns in
    (s.shared.is_open ≡ false)
    × (s.shared.queue ≡ [])
    × ((id : ℕ) → answered id s.shared.answers ≡ copies id s.sent)
run_shutdown_example =
    run_shutdown fixed counter dns 1 pool limiter 10 turns (omega arith) all_stopped

abbrev waiting_item : Tasks.Shared ℕ ℕ ℕ Message
waiting_item = record (spawned fixed counter dns 1 pool limiter 10).shared { queue = item 3 ∷ [] }

resolver-IsEligible : IsEligible counter resolver 30
unfolding Health.is_benched
resolver-IsEligible = record { active = refl; free = refl }

resolver-try_acquire : Health.try_acquire counter resolver ≡ some (record resolver { inflight = 1 })
unfolding Health.try_acquire
resolver-try_acquire = refl

unpaced : waiting_item.pacer.rate ≡ none
unfolding Pacer.new
unpaced = refl

drive-Served_example : Served fixed counter dns waiting_item (item 3) [] exchange 30 40 (
    drive fixed counter dns waiting_item
      (10 ∷ 20 ∷ 30 ∷ 40 ∷ 50 ∷ 60 ∷ 70 ∷ [])
      exchange
      Tasks.receiving)
drive-Served_example =
    drive-Served fixed counter dns waiting_item (item 3) [] exchange 7 0 resolver
      (record resolver { inflight = 1 }) 10 20 30 40 50 60 70 refl refl unpaced (omega arith) refl
      resolver-IsEligible resolver-try_acquire

-- The worker waits for a token when the pace is limited.
abbrev held_back : List (Tasks.Event ℕ ℕ Message)
held_back =
    Tasks.pace (some 200000000)
    ∷ Tasks.send (item 3)
    ∷ turn 10
    ∷ turn 20
    ∷ turn 30
    ∷ turn 40
    ∷ turn 50
    ∷ []

waits_for_token :
    waiters (run fixed counter dns (spawned fixed counter dns 1 pool limiter 10) held_back).workers
    ≡ 1
unfolding run visit scan_visit Health.is_benched Health.try_acquire Pacer.new
waits_for_token = refl

run_released_example :
    let y = run fixed counter dns (spawned fixed counter dns 1 pool limiter 10) held_back in
    let y' =
      Tasks.step fixed counter dns
        (Tasks.step fixed counter dns y (Tasks.pace none))
        (Tasks.refill 2000) in
    waiters y'.workers ≤ y'.shared.pacer.tokens
run_released_example =
    run_released fixed counter dns counter_laws 1 pool limiter 10 held_back 2000 (omega arith)
