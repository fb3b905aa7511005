-- ===== src/Limiter/Pacing.antt =====
-- The rate that `RateLimiter` (src/limiter.rs) enforces: how many slots it hands out in a stretch
-- of time, how long a caller sleeps for its slot, and what `interval_for` returns.
use blastdns.Prelude.{
  ℕ, max, ◌+◌, ◌*◌, ◌≤◌, ◌<◌, ◌≡◌, refl, Bool, true, false, Option, none, some, List, [], ◌∷◌, All,
  All-set, All-get_elem?, length, get_elem?, u64_max, arith, ◌⊎◌, inl, inr, Bool-cases, unwrap_or,
}
use blastdns.Float.{Float, OrderLaws}
use blastdns.Limiter.{RateLimiter, interval_for, pause, reserve_slot}
use blastdns.Limiter.Spacing.{IsSpaced, run-IsSpaced}
use blastdns.Limiter.Tasks.{
  Pc, start, looping, loaded, timed, won, returned, Grant, acquire_step, System, Event, tick, turn,
  call, store_interval, grant, turn_of, step, run, fresh,
}

-- Every interval in play is at least `floor`.
abbrev pub PcIsPaced : ℕ → Pc → Type 0
PcIsPaced floor (looping i) = floor ≤ i
PcIsPaced floor (loaded i _) = floor ≤ i
PcIsPaced floor (timed i _ _) = floor ≤ i
PcIsPaced floor _ = Unit

abbrev pub EventIsPaced : ℕ → Event → Type 0
EventIsPaced floor (store_interval i) = floor ≤ i
EventIsPaced floor _ = Unit

pub record IsPaced (floor : ℕ) (s : System) : Type 0 where
  pub limiter : floor ≤ s.limiter.interval_ns
  pub tasks : All (PcIsPaced floor) s.tasks
  pub granted : All (λ g. floor ≤ g.interval) s.granted

acquire_step-IsPaced :
    (floor : ℕ) (l : RateLimiter) (clock : ℕ) (spurious : Bool) (pc : Pc) (gs : List Grant)
    → floor ≤ l.interval_ns
    → PcIsPaced floor pc
    → All (λ g. floor ≤ g.interval) gs
    → let (l', pc', g) = acquire_step l clock spurious pc in
      (floor ≤ l'.interval_ns) × PcIsPaced floor pc' × All (λ g. floor ≤ g.interval) (grant g gs)
unfolding acquire_step
acquire_step-IsPaced floor l clock spurious start gs hl hp hg = (hl, hl, hg)
acquire_step-IsPaced floor l clock spurious (looping i) gs hl hp hg = (hl, hp, hg)
acquire_step-IsPaced floor l clock spurious (loaded i c) gs hl hp hg = (hl, hp, hg)
acquire_step-IsPaced floor l clock spurious (timed i c n) gs hl hp hg = ground arith
acquire_step-IsPaced floor l clock spurious (won s) gs hl hp hg = (hl, tt, hg)
acquire_step-IsPaced floor l clock spurious (returned p) gs hl hp hg = (hl, tt, hg)

turn_of-IsPaced :
    (floor : ℕ) (s : System) (i : ℕ) (spurious : Bool) (o : Option Pc)
    → get_elem? s.tasks i ≡ o
    → IsPaced floor s
    → IsPaced floor (turn_of s i spurious o)
unfolding turn_of
turn_of-IsPaced floor s i spurious none e h = h
turn_of-IsPaced floor s i spurious (some pc) e h =
    let (l, p, g) =
      acquire_step-IsPaced floor s.limiter s.clock spurious pc s.granted h.limiter
        (All-get_elem? (PcIsPaced floor) s.tasks i pc e h.tasks) h.granted in
    record { limiter = l; tasks = All-set (PcIsPaced floor) s.tasks i _ p h.tasks; granted = g }

step-IsPaced :
    (floor : ℕ) (s : System) (e : Event)
    → EventIsPaced floor e
    → IsPaced floor s
    → IsPaced floor (step s e)
unfolding step
step-IsPaced floor s (tick d) p h = record {
  limiter = h.limiter;
  tasks = h.tasks;
  granted = h.granted;
}
step-IsPaced floor s (turn i spurious) p h =
    turn_of-IsPaced floor s i spurious (get_elem? s.tasks i) refl h
step-IsPaced floor s call p h = record {
  limiter = h.limiter;
  tasks = (tt, h.tasks);
  granted = h.granted;
}
step-IsPaced floor s (store_interval i) p h = record {
  limiter = p;
  tasks = h.tasks;
  granted = h.granted;
}

run-IsPaced :
    (floor : ℕ) (s : System) (es : List Event)
    → All (EventIsPaced floor) es
    → IsPaced floor s
    → IsPaced floor (run s es)
unfolding run
run-IsPaced floor s [] p h = h
run-IsPaced floor s (e ∷ es) p h =
    run-IsPaced floor (step s e) es p.1 (step-IsPaced floor s e p.0 h)

abbrev pub first_slot : Grant → List Grant → ℕ
first_slot g [] = g.slot
first_slot g (g' ∷ gs) = first_slot g' gs

spaced_pacing :
    (floor bound : ℕ) (g : Grant) (gs : List Grant)
    → IsSpaced bound (g ∷ gs)
    → All (λ g. floor ≤ g.interval) (g ∷ gs)
    → g.slot < u64_max
    → first_slot g gs + length gs * floor ≤ g.slot
spaced_pacing floor bound g [] s p h = omega arith
spaced_pacing floor bound g (g' ∷ gs) s p h =
    omega (arith, spaced_pacing floor g.slot g' gs s.2 p.1 (omega arith))

-- However the callers interleave, and whatever rates are set in between: if no interval is ever
-- below `floor` nanoseconds, then between the first of `n + 1` slots and the last one at least
-- `n * floor` nanoseconds pass. (The cursor is taken to stay below the end of its range.)
pub run_pacing :
    (interval floor : ℕ) (es : List Event) (g : Grant) (gs : List Grant)
    → floor ≤ interval
    → All (EventIsPaced floor) es
    → (run (fresh interval) es).granted ≡ g ∷ gs
    → g.slot < u64_max
    → first_slot g gs + length gs * floor ≤ g.slot
run_pacing interval floor es g gs hi he eq h =
    let s = run (fresh interval) es in
    spaced_pacing floor s.limiter.next_ns g gs (rw eq at (run-IsSpaced interval es))
      (rw eq at
        (run-IsPaced floor (fresh interval) es he
          (record { limiter = hi; tasks = tt; granted = tt })).granted)
      h

-- A caller sleeps no longer than to its slot, and if it does not wait until then it is less than a
-- millisecond early.
pub pause_bounds :
    (slot_ns now_ns : ℕ)
    → let wake = now_ns + unwrap_or (pause slot_ns now_ns) 0 in
      (wake ≤ max slot_ns now_ns) × (slot_ns < wake + 1000000)
unfolding pause
pause_bounds slot_ns now_ns = ground arith

-- One call that runs alone takes the slot of `reserve_slot`, and leaves the cursor where that does.
pub run-reserve_slot :
    (l : RateLimiter) (clock : ℕ)
    → let alone : List Event =
        call ∷ turn 0 false ∷ turn 0 false ∷ turn 0 false ∷ turn 0 false ∷ turn 0 false ∷ [] in
      let s : System = record { limiter = l; clock = clock; tasks = []; granted = [] } in
      let (l', slot) = reserve_slot l clock in
      ((run s alone).limiter ≡ l') × ((run s alone).tasks ≡ returned (pause slot clock) ∷ [])
unfolding run reserve_slot
run-reserve_slot l clock = ground arith

module _ (f64 : Float) (laws : OrderLaws f64) where
  open f64 use {F}

  one-le-to_u64 : (a : F) → 1 ≤ f64.to_u64 (f64.max a (f64.lit 1 1))
  one-le-to_u64 a = omega (
    arith,
    laws.to_u64-lit 1 (omega arith),
    laws.to_u64_mono (f64.lit 1 1) (f64.max a (f64.lit 1 1))
        (laws.le-max_right a (f64.lit 1 1) (laws.lit-IsNumber 1 1)),
  )

  -- A rate is turned into an interval exactly if it is positive (otherwise the code panics), and
  -- that interval is at least a nanosecond at every rate.
  pub interval_for_progress :
      (queries_per_second : F)
      → ((f64.lt (f64.lit 0 1) queries_per_second ≡ false)
          × (interval_for f64 queries_per_second ≡ none))
        ⊎ ((i : ℕ) × (f64.lt (f64.lit 0 1) queries_per_second ≡ true)
            × (interval_for f64 queries_per_second ≡ some i)
            × (1 ≤ i))
  unfolding interval_for
  interval_for_progress q = elim (Bool-cases (f64.lt (f64.lit 0 1) q)) [
    | inl p ↦ inr (
      f64.to_u64 (f64.max (f64.round (f64.div (f64.lit 1000000000 1) q)) (f64.lit 1 1)),
      p,
      rw p,
      one-le-to_u64 _,
    )
    | inr p ↦ inl (p, rw p)
  ]
