-- ===== src/Limiter/Atomic.antt =====
-- The loop of `acquire` (src/limiter.rs) against an atomic reservation: what its callers get in any
-- interleaving is what one caller after another would get from `reserve_slot`.
use blastdns.Prelude.{
  ℕ, zero, suc, ◌+◌, ◌≡◌, sym, refl, Bool, Option, none, some, List, [], ◌∷◌, map, length,
  get_elem?, set, arith,
}
use mathlib.Core.Option
use blastdns.Limiter.{RateLimiter, reserve_slot}
use blastdns.Limiter.Tasks.{
  Pc, start, looping, loaded, timed, won, returned, Grant, acquire_step, System, Event, tick, turn,
  call, store_interval, grant, turn_of, step, run, fresh,
}

-- The requests that were granted, served one after the other; the latest stands first.
unfoldable pub serve : List Grant → ℕ × List ℕ
unfolding reserve_slot
serve [] = (0, [])
serve (g ∷ gs) =
    let (next_ns, slots) = serve gs in
    let (l, slot) = reserve_slot (record { interval_ns = g.interval; next_ns = next_ns }) g.asked in
    (l.next_ns, slot ∷ slots)

-- How many calls have got out of the loop.
abbrev pub is_through : Pc → ℕ
is_through (won slot) = 1
is_through (returned p) = 1
is_through _ = 0

unfoldable pub through : List Pc → ℕ
through [] = 0
through (pc ∷ pcs) = is_through pc + through pcs

abbrev slots_of : List Grant → List ℕ
slots_of gs = map (λ (g : Grant). g.slot) gs

record IsServed (l : RateLimiter) (gs : List Grant) : Type 0 where
  cursor : (serve gs).0 ≡ l.next_ns
  slots : (serve gs).1 ≡ slots_of gs

acquire_step-IsServed :
    (l : RateLimiter) (clock : ℕ) (spurious : Bool) (pc : Pc) (gs : List Grant)
    → IsServed l gs
    → let (l', _, g) = acquire_step l clock spurious pc in IsServed l' (grant g gs)
unfolding acquire_step serve reserve_slot
acquire_step-IsServed l clock spurious start gs h = h
acquire_step-IsServed l clock spurious (looping i) gs h = h
acquire_step-IsServed l clock spurious (loaded i c) gs h = h
acquire_step-IsServed l clock spurious (timed i c n) gs h = ground arith
acquire_step-IsServed l clock spurious (won s) gs h = h
acquire_step-IsServed l clock spurious (returned p) gs h = h

acquire_step-through :
    (l : RateLimiter) (clock : ℕ) (spurious : Bool) (pc : Pc) (gs : List Grant)
    → let (_, pc', g) = acquire_step l clock spurious pc in
      is_through pc' + length gs ≡ is_through pc + length (grant g gs)
unfolding acquire_step
acquire_step-through l clock spurious start gs = refl
acquire_step-through l clock spurious (looping i) gs = refl
acquire_step-through l clock spurious (loaded i c) gs = refl
acquire_step-through l clock spurious (timed i c n) gs = ground arith
acquire_step-through l clock spurious (won s) gs = refl
acquire_step-through l clock spurious (returned p) gs = refl

through-set :
    (pcs : List Pc) (i : ℕ) (pc pc' : Pc)
    → get_elem? pcs i ≡ some pc
    → through (set pcs i pc') + is_through pc ≡ through pcs + is_through pc'
unfolding through
through-set [] i pc pc' e = cc
through-set (x ∷ pcs) zero pc pc' e = ground (arith, Option.some-injective x pc)
through-set (x ∷ pcs) (suc i) pc pc' e = omega (arith, through-set pcs i pc pc' e)

record IsAtomic (s : System) : Type 0 where
  served : IsServed s.limiter s.granted
  counted : through s.tasks ≡ length s.granted

turn_of-IsAtomic :
    (s : System) (i : ℕ) (spurious : Bool) (o : Option Pc)
    → get_elem? s.tasks i ≡ o
    → IsAtomic s
    → IsAtomic (turn_of s i spurious o)
unfolding turn_of
turn_of-IsAtomic s i spurious none e h = h
turn_of-IsAtomic s i spurious (some pc) e h = record {
  served = acquire_step-IsServed s.limiter s.clock spurious pc s.granted h.served;
  counted = omega (
    arith,
    acquire_step-through s.limiter s.clock spurious pc s.granted,
    through-set s.tasks i pc (acquire_step s.limiter s.clock spurious pc).1 e,
    h.counted,
  );
}

step-IsAtomic : (s : System) (e : Event) → IsAtomic s → IsAtomic (step s e)
unfolding step through
step-IsAtomic s (tick d) h = record { served = h.served; counted = h.counted }
step-IsAtomic s (turn i spurious) h = turn_of-IsAtomic s i spurious (get_elem? s.tasks i) refl h
step-IsAtomic s call h = record { served = h.served; counted = omega (arith, h.counted) }
step-IsAtomic s (store_interval i) h = record {
  served = record { cursor = h.served.cursor; slots = h.served.slots };
  counted = h.counted;
}

run_from-IsAtomic : (s : System) (es : List Event) → IsAtomic s → IsAtomic (run s es)
unfolding run
run_from-IsAtomic s [] h = h
run_from-IsAtomic s (e ∷ es) h = run_from-IsAtomic (step s e) es (step-IsAtomic s e h)

-- Whatever the callers, the clock and `set_rate` do, in whatever order, and however often the
-- compare-and-swap fails for no reason: the slots handed out, and the cursor, are those of the same
-- requests (each with the interval and the clock reading of its last round) served by the atomic
-- `reserve_slot` one after the other, in the order of the swaps that succeeded. Every call that has
-- left the loop has exactly one of them.
pub run-serve :
    (interval : ℕ) (es : List Event)
    → let s = run (fresh interval) es in
      (serve s.granted ≡ (s.limiter.next_ns, map (λ (g : Grant). g.slot) s.granted))
      × (length s.granted ≡ through s.tasks)
unfolding serve through
run-serve interval es =
    let h =
      run_from-IsAtomic (fresh interval) es
        (record { served = record { cursor = refl; slots = refl }; counted = refl }) in
    (λ i. (h.served.cursor i, h.served.slots i), sym h.counted)
