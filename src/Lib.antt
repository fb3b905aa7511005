-- ===== src/Lib.antt =====
-- blastdns, a DNS resolver that spreads queries over many servers and adapts its rates: the library
-- of the crate under src/, file by file.
--
-- A query goes through these parts. The client (src/client.rs, here Client) looks in the cache
-- (src/cache.rs, Cache) and makes up to `max_retries` + 1 attempts. A worker (src/worker.rs,
-- Worker) takes an attempt: it checks the name, waits for the global rate limiter (src/limiter.rs,
-- Limiter), reserves a resolver of the pool (src/health.rs, Pool), waits for that resolver's own
-- limiter and for the attempt pacer (src/limiter.rs, Pacer), queries, and records the outcome in
-- the resolver's health (src/health.rs, Health). Twice a second the adaptive controller
-- (src/controller.rs, Controller and Brake) reads the counters of all resolvers and of the client,
-- and sets the rate of each resolver, the global rate and the rate of the attempt pacer. Error is
-- src/error.rs and Config is src/config.rs. Around the client stand the command line (src/main.rs,
-- Cli), zone transfers (src/zone_transfer.rs, ZoneTransfer), a mock client with canned responses
-- (src/mock.rs, Mock), a simulated resolver (src/sim.rs, Sim) and the Python bindings
-- (src/python.rs, Python).
--
-- Files. Limiter has the operations of `RateLimiter`; Limiter/Tasks runs `acquire` in any number of
-- tasks, one memory access per step; Limiter/Spacing, Limiter/Pacing and Limiter/Atomic are about
-- those runs. Pacer has `AttemptPacer`, Pacer/Bucket its tokens and Pacer/Spawn the task that
-- refills it. Health has `ResolverHealth`, with the bench in Health/Purgatory, the counters in
-- Health/Accounts and the round trips in Health/Rtt; Health/Failures takes calls of `record_error`
-- that overlap, one atomic access at a time, and Health/Failures/Earned is about them;
-- Health/Connection has its connections and the queries over them. Pool has `ResolverPool`, with
-- its making in Pool/Made, the loop of `reserve` in Pool/Scan, its outcome in Pool/Choice, its
-- sleep in Pool/Soonest and Pool/Sleep, and a whole pass in Pool/Passes. Brake has the data of
-- `AttemptBrake` and its small methods; Brake/Window is `tick` up to the judgement of a window and
-- Brake/Decide the judgement; Brake/Limits and Brake/Probing are about them. Controller/Judge is
-- `LossJudge`, Controller/Resolver the body of the loop of `AdaptiveController::tick` with `relax`,
-- Controller/Global is `adjust_global`, and Controller/Tick is `tick`; Controller/Episodes, Floors,
-- Ceiling and Settling are about them in that order. Controller/Startup is the start of the parts
-- (the end of `with_config` and `ensure_workers` of src/client.rs), Controller/Runs the controller
-- with the workers beside it, and Controller/Spawn its task. Cache has `SimpleCache`, Cache/Lookups
-- is about a lookup after an insert, and Cache/History about runs of its operations. Client has
-- `resolve_full`, and Client/Attempts is about its retry loop; Client/Build has `with_config` and
-- `ensure_workers`, with Client/Checks, Client/Ready, Client/Started and Client/Fresh about them.
-- Worker has one query, with Worker/Queries about it, and Worker/Wire the same query over the
-- connections. Worker/Tasks runs any number of workers on the queue, the pool, the limiter and the
-- pacer that they share, one step of one worker at a time. Worker/Reservations, Worker/Permits and
-- Client/Workers are about the permits in those runs, Worker/Dispatches, Worker/Counters and
-- Client/Counted about the counters, Worker/Answers, Worker/Over and Worker/Shutdown about the
-- items and their answers, Worker/Reserved and Worker/Progress about the turns that an item takes,
-- and Worker/Waiters and Worker/Released about those that wait for the pacer. Utils is
-- src/utils.rs, with Utils/Ptr and Utils/Descriptors about it, and Resolver the default methods of
-- src/resolver.rs, with Resolver/Batch about a batch and Resolver/Iterator its stream over an
-- iterator. Strings has the operations of `str` that the files use, and Strings/Trim is about
-- trimming. Cli has the options and the files of the command line and Cli/Output its `main`;
-- Cli/Input and Cli/Shown are about them. Mock has the mock client over the maps of Mock/Maps;
-- Mock/Table has another reading of the table it is given, and Mock/Answers is about both. Sim has
-- the rule by which the simulated resolver drops, Sim/Messages its responses, and Sim/Capacity is
-- about the rule. Python is src/python.rs, with the batch iterators in Python/Batches, the targets
-- of a record in Python/Records, the JSON of a response in Python/Layout, the making of a client in
-- Python/Start, its batches in Python/Clients, and the mock client in Python/Mocks. Tests has
-- examples.
--
-- How the code is read. A method that changes an object takes the old one and returns the new one.
-- An `Instant` or a `Duration` is a number of nanoseconds, and what reads the clock takes the
-- reading as an argument. A panic, or a state in which a caller has to go on waiting, is `none`.
-- Machine integers are natural numbers with the wrap-around of a release build written out
-- (Prelude/Words). `f64` is a parameter, the record `Float`, since its arithmetic is not the
-- program's; the properties that need the order of floating-point numbers take `OrderLaws`, which
-- are facts of IEEE 754, and Float/Fixed is a number format that meets them. In the same way
-- Semaphore stands for tokio's semaphore and Lru for the LRU crate, with the laws that their
-- documentation states and implementations that meet them, and Dns for the types of hickory, of
-- which nothing is assumed. What else makes the code panic is a parameter too: the permits that a
-- semaphore can have (`max_permits`), the last `Instant` there is (`latest`), the memory for a
-- queue (`queue_fits`) or a cache (`Lru.new`), and the lines that standard output takes (`room`).
--
-- An operation of a resolver is one step of a run of workers, also where it makes several atomic
-- accesses, and a pass of `reserve` is one step with one clock reading; only `acquire`
-- (Limiter/Tasks) and `record_error` (Health/Failures) are cut into their accesses.
--
-- No loop of the code runs on fuel. The loop of `resolve_full` is recursion on the attempts left,
-- the loops of the batch iterators on the stream, the loop of `reserve` is cut into passes, and the
-- loops of `acquire` and of a worker into steps. Only `drain` of Python/Batches, a caller that
-- iterates to the end, counts its calls: one for each item and one more are enough.
--
-- Not modelled: the sockets and the DNS protocol; tokio's scheduler and timers (who steps next, and
-- when, is an argument); logging; clap's parsing of arguments; how a JSON value is written as text;
-- the conversions of PyO3 and the registration of the module in src/python.rs; and src/lib.rs,
-- which only declares modules. The queue of the workers is a list, with a length that bounds it,
-- and receiving from it fails once it is empty and has no sender. A wait for a permit, a slot or a
-- token is a step that is tried again.
pub mod Prelude
pub mod Float
pub mod Semaphore
pub mod Net
pub mod Strings
pub mod Dns
pub mod Lru
pub mod Error
pub mod Config
pub mod Limiter
pub mod Pacer
pub mod Health
pub mod Pool
pub mod Brake
pub mod Controller
pub mod Cache
pub mod Worker
pub mod Client
pub mod Utils
pub mod Resolver
pub mod ZoneTransfer
pub mod Mock
pub mod Sim
pub mod Cli
pub mod Python
pub mod Tests
