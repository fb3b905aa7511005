-- ===== src/Sim.antt =====
-- The simulated resolver of src/sim.rs: a server that drops, refuses or truncates by rule. One
-- task serves UDP, so it alone moves the budget, and the exchange that moves it fails only
-- spuriously, with the same values read again. Messages are hickory's.
pub mod Messages
pub mod Capacity
use blastdns.Prelude.{
  ℕ, ◌+◌, ◌-◌, ◌*◌, ◌%◌, max, Bool, true, false, Option, none, some, List, [], ◌∷◌, ltb, ◌==◌, ◌&&◌,
  ◌||◌, if◌then◌else◌, wrapping_add, saturating_add,
}
use mathlib.Core.Option
use blastdns.Config.{from_millis}
use blastdns.Float.{Float}

-- `BURST_ALLOWANCE`
abbrev pub burst_allowance : ℕ
burst_allowance = from_millis 50

pub record SimConfig (F : Type 0) : Type 0 where
  pub latency : ℕ
  pub capacity_qps : Option F
  pub drop_one_in : Option ℕ
  pub refuse_one_in : Option ℕ
  pub truncate_udp : Bool

abbrev pub default : {F : Type 0} → SimConfig F
default = record {
  latency = from_millis 1;
  capacity_qps = none;
  drop_one_in = none;
  refuse_one_in = none;
  truncate_udp = false;
}

pub record Counters : Type 0 where
  pub received : ℕ
  pub answered : ℕ
  pub dropped : ℕ
  pub tcp_served : ℕ
  pub budget_ns : ℕ

abbrev pub fresh : Counters
fresh = record { received = 0; answered = 0; dropped = 0; tcp_served = 0; budget_ns = 0 }

-- `seq.is_multiple_of(n)` of a positive `n`
abbrev pub one_in : Option ℕ → ℕ → Bool
one_in none seq = false
one_in (some n) seq = ltb 0 n && seq % n == 0

-- The budget after the query, unless the query is dropped. The cursor runs one interval ahead for
-- each query, and a query that finds it too far ahead is dropped.
unfoldable pub spend : (interval_ns now_ns current : ℕ) → Option ℕ
spend interval_ns now_ns current =
    if ltb (saturating_add now_ns burst_allowance) current
    then none
    else some (saturating_add (max current now_ns) interval_ns)

abbrev pub charged : Counters → Option ℕ → Counters × Bool
charged c none = (c, true)
charged c (some next) = (record c { budget_ns = next }, false)

abbrev pub beyond_capacity : Option ℕ → ℕ → Counters → Counters × Bool
beyond_capacity none now_ns c = (c, false)
beyond_capacity (some interval_ns) now_ns c = charged c (spend interval_ns now_ns c.budget_ns)

-- A query that arrived and was not dropped, on its way to be answered.
pub record Answering (Request : Type 0) : Type 0 where
  pub request : Request
  pub refuse : Bool

module _ {F : Type 0} (config : SimConfig F) where
  -- The counters after the decision, and whether to drop.
  unfoldable pub should_drop : Option ℕ → ℕ → ℕ → Counters → Counters × Bool
  should_drop interval_ns now_ns seq c =
      if one_in config.drop_one_in seq then (c, true) else beyond_capacity interval_ns now_ns c

  abbrev pub received : Counters → Counters
  received c = record c { received = wrapping_add c.received 1 }

  abbrev pub dropped : Counters → Counters
  dropped c = record c { dropped = wrapping_add c.dropped 1 }

  module _ {Request : Type 0} where
    -- `from_bytes` gave `request` for the bytes received.
    abbrev pub admit : Option Request → ℕ → Counters → Counters × Option (Answering Request)
    admit none seq c = (dropped c, none)
    admit (some request) seq c =
        (c, some (record { request = request; refuse = one_in config.refuse_one_in seq }))

    abbrev pub decided :
        Option Request → ℕ → Counters × Bool → Counters × Option (Answering Request)
    decided request seq (c, true) = (dropped c, none)
    decided request seq (c, false) = admit request seq c

    -- A round of the loop of `serve`, for a datagram that arrives at `now_ns` after its start.
    unfoldable pub receive :
        Option ℕ → ℕ → Option Request → Counters → Counters × Option (Answering Request)
    receive interval_ns now_ns request c =
        let c' = received c in
        decided request c'.received (should_drop interval_ns now_ns c'.received c')

-- The spawned task, once the latency has passed: the response was encoded and sent, or not.
abbrev pub answer : Bool → Counters → Counters
answer sent c = if sent then record c { answered = wrapping_add c.answered 1 } else c

-- A round of the loop of a connection of `serve_tcp`: read, decoded, encoded and written, or not.
abbrev pub serve_tcp : Bool → Counters → Counters
serve_tcp written c = if written then record c { tcp_served = wrapping_add c.tcp_served 1 } else c

module _ (f64 : Float) where
  open f64 use {F}

  -- Nanoseconds per query at the configured capacity.
  abbrev pub interval_of : SimConfig F → Option ℕ
  interval_of config =
      Option.map
        (λ qps. f64.to_u64 (f64.max (f64.round (f64.div (f64.lit 1000000000 1) qps)) (f64.lit 1 1)))
        config.capacity_qps
