-- ===== src/Limiter/Tasks.antt =====
-- `RateLimiter::acquire` (src/limiter.rs) run by several tasks at once: every load, clock reading
-- and compare-and-swap is a step of its own, in any order, with spurious failures of the weak
-- compare-and-swap and with `set_rate` in between.
use blastdns.Prelude.{
  ℕ, max, Bool, Option, none, some, List, [], ◌∷◌, ◌==◌, ◌&&◌, not, if◌then◌else◌, get_elem?, set,
  saturating_add, wrapping_add,
}
use blastdns.Limiter.{RateLimiter, pause}

-- Where a call of `acquire` stands.
pub data Pc : Type 0 where
  -- before the load of `interval_ns`
  start : Pc
  -- at the top of the loop, with `interval_ns`
  looping : ℕ → Pc
  -- after the load of `current`
  loaded : ℕ → ℕ → Pc
  -- after `now_ns` was read
  timed : ℕ → ℕ → ℕ → Pc
  -- out of the loop, with `slot_ns`
  won : ℕ → Pc
  -- returned, after a sleep of so many nanoseconds, if any
  returned : Option ℕ → Pc

-- A slot as it was handed out, with the interval and the clock reading that it was computed from.
pub record Grant : Type 0 where
  pub slot : ℕ
  pub interval : ℕ
  pub asked : ℕ

-- One step of a call: the limiter and the call after it, and the slot that it was granted.
unfoldable pub acquire_step : RateLimiter → ℕ → Bool → Pc → RateLimiter × Pc × Option Grant
unfolding pause
acquire_step l clock spurious start = (l, looping l.interval_ns, none)
acquire_step l clock spurious (looping interval) = (l, loaded interval l.next_ns, none)
acquire_step l clock spurious (loaded interval current) = (l, timed interval current clock, none)
acquire_step l clock spurious (timed interval current now) =
    let base = max current now in
    let next = saturating_add base interval in
    if l.next_ns == current && not spurious
    then (
      record l { next_ns = next },
      won base,
      some (record { slot = base; interval = interval; asked = now }),
    )
    else (l, looping interval, none)
acquire_step l clock spurious (won slot) = (l, returned (pause slot clock), none)
acquire_step l clock spurious (returned p) = (l, returned p, none)

pub record System : Type 0 where
  pub limiter : RateLimiter
  pub clock : ℕ
  pub tasks : List Pc
  -- every slot handed out, the latest first
  pub granted : List Grant

pub data Event : Type 0 where
  -- the clock moves on
  tick : ℕ → Event
  -- the call with this index makes a step; a compare-and-swap may fail for no reason
  turn : ℕ → Bool → Event
  -- another call of `acquire` begins
  call : Event
  -- `set_rate` stores a new interval
  store_interval : ℕ → Event

abbrev pub grant : Option Grant → List Grant → List Grant
grant none gs = gs
grant (some g) gs = g ∷ gs

unfoldable pub turn_of : System → ℕ → Bool → Option Pc → System
unfolding acquire_step
turn_of s i spurious none = s
turn_of s i spurious (some pc) =
    let (l, pc', g) = acquire_step s.limiter s.clock spurious pc in
    record s { limiter = l; tasks = set s.tasks i pc'; granted = grant g s.granted }

unfoldable pub step : System → Event → System
unfolding turn_of
step s (tick d) = record s { clock = wrapping_add s.clock d }
step s (turn i spurious) = turn_of s i spurious (get_elem? s.tasks i)
step s call = record s { tasks = start ∷ s.tasks }
step s (store_interval i) = record s { limiter = record s.limiter { interval_ns = i } }

unfoldable pub run : System → List Event → System
unfolding step
run s [] = s
run s (e ∷ es) = run (step s e) es

-- A limiter as `new` makes it, and no call yet.
abbrev pub fresh : ℕ → System
fresh interval = record {
  limiter = record { interval_ns = interval; next_ns = 0 };
  clock = 0;
  tasks = [];
  granted = [];
}
