-- ===== src/Limiter/Spacing.antt =====
-- The slots that `acquire` (src/limiter.rs) hands out, under every interleaving of its callers.
use blastdns.Prelude.{
  max, ℕ, ◌≤◌, Bool, Option, none, some, List, [], ◌∷◌, get_elem?, saturating_add, arith,
}
use blastdns.Limiter.{RateLimiter}
use blastdns.Limiter.Tasks.{
  Pc, timed, Grant, acquire_step, System, Event, turn, grant, turn_of, step, run, fresh,
}

-- No slot is earlier than the clock its caller read, and each is at least its interval before the
-- next one, the last before `bound`.
abbrev pub IsSpaced : ℕ → List Grant → Type 0
IsSpaced bound [] = Unit
IsSpaced bound (g ∷ gs) =
    (saturating_add g.slot g.interval ≤ bound) × (g.asked ≤ g.slot) × IsSpaced g.slot gs

IsSpaced-mono : (a b : ℕ) (gs : List Grant) → a ≤ b → IsSpaced a gs → IsSpaced b gs
IsSpaced-mono a b [] h s = tt
IsSpaced-mono a b (g ∷ gs) h s = (omega arith, s.1, s.2)

acquire_step-IsSpaced :
    (l : RateLimiter) (clock : ℕ) (spurious : Bool) (pc : Pc) (gs : List Grant)
    → IsSpaced l.next_ns gs
    → let (l', _, g) = acquire_step l clock spurious pc in IsSpaced l'.next_ns (grant g gs)
unfolding acquire_step
acquire_step-IsSpaced l clock spurious (timed interval current now) gs s =
    ground (arith, IsSpaced-mono l.next_ns (max current now) gs)
acquire_step-IsSpaced l clock spurious _ gs s = s

turn_of-IsSpaced :
    (s : System) (i : ℕ) (spurious : Bool) (o : Option Pc)
    → IsSpaced s.limiter.next_ns s.granted
    → IsSpaced (turn_of s i spurious o).limiter.next_ns (turn_of s i spurious o).granted
unfolding turn_of
turn_of-IsSpaced s i spurious none h = h
turn_of-IsSpaced s i spurious (some pc) h =
    acquire_step-IsSpaced s.limiter s.clock spurious pc s.granted h

step-IsSpaced :
    (s : System) (e : Event)
    → IsSpaced s.limiter.next_ns s.granted
    → IsSpaced (step s e).limiter.next_ns (step s e).granted
unfolding step
step-IsSpaced s (turn i spurious) h = turn_of-IsSpaced s i spurious (get_elem? s.tasks i) h
step-IsSpaced s _ h = h

run_from-IsSpaced :
    (s : System) (es : List Event)
    → IsSpaced s.limiter.next_ns s.granted
    → IsSpaced (run s es).limiter.next_ns (run s es).granted
unfolding run
run_from-IsSpaced s [] h = h
run_from-IsSpaced s (e ∷ es) h = run_from-IsSpaced (step s e) es (step-IsSpaced s e h)

-- Whatever the callers, the clock and `set_rate` do, in whatever order: no slot is earlier than the
-- clock that its caller read, and each slot is at least its own interval (added with saturation)
-- before the next one, and the last one before the cursor.
pub run-IsSpaced :
    (interval : ℕ) (es : List Event)
    → let s = run (fresh interval) es in IsSpaced s.limiter.next_ns s.granted
run-IsSpaced interval es = run_from-IsSpaced (fresh interval) es tt
