-- ===== src/Controller/Spawn.antt =====
-- The task that `AdaptiveController::spawn` (src/controller.rs) starts: a tick after each pause,
-- until the pool is dropped. What the workers do in between, and when the task wakes up, is an
-- argument.
use blastdns.Prelude.{ℕ, ◌-◌, ◌≡◌, ◌∙◌, refl, Bool, true, false, Option, some, List, [], ◌∷◌, ◌>>=◌}
use blastdns.Controller.Global.{Outcomes}
use blastdns.Controller.Runs.{Event, run, run-IsInOrder}
use blastdns.Controller.Settling.{IsInOrder, tick-IsInOrder}
use blastdns.Controller.Tick.{AdaptiveController, tick}
use blastdns.Float.{Float, OrderLaws}
use blastdns.Health.{ResolverHealth}

-- `TICK`, in nanoseconds
abbrev pub tick_pause : ℕ
tick_pause = 500000000

-- What happens after a pause: some events at the pool, then the task wakes up, and finds the pool
-- dropped or not.
pub data Wake : Type 0 where
  dropped : List Event → Wake
  upgraded : List Event → ℕ → Outcomes → Wake

-- Whether the pool is dropped at some time.
abbrev pub ends : List Wake → Bool
ends [] = false
ends (dropped es ∷ ws) = true
ends (upgraded es now outcomes ∷ ws) = ends ws

-- The controller and the resolvers, and the variables of the task.
pub record Task (S F : Type 0) : Type 0 where
  pub controller : AdaptiveController S F
  pub resolvers : List (ResolverHealth S)
  pub previous : ℕ
  pub stopped : Bool

module _ (f64 : Float) {S : Type 0} where
  open f64 use {F}

  -- The loop from a time on; `none` is a panic.
  unfoldable pub task :
      AdaptiveController S F → List (ResolverHealth S) → ℕ → List Wake → Option (Task S F)
  unfolding run tick
  task c hs previous [] =
      some (record { controller = c; resolvers = hs; previous = previous; stopped = false })
  task c hs previous (dropped es ∷ ws) = do
    (c', hs') ← run f64 c hs es
    some (record { controller = c'; resolvers = hs'; previous = previous; stopped = true })
  task c hs previous (upgraded es now outcomes ∷ ws) = do
    (c', hs') ← run f64 c hs es
    (c'', hs'') ← tick f64 c' hs' (now - previous) now outcomes
    task c'' hs'' now ws

module _ (f64 : Float) (laws : OrderLaws f64) {S : Type 0} where
  open f64 use {F}

  -- A task that starts in order never panics: it is over exactly if the pool was dropped, and the
  -- controller stays in order, under the same ceiling.
  task-IsInOrder :
      (c : AdaptiveController S F) (hs : List (ResolverHealth S)) (previous : ℕ) (ws : List Wake)
      → IsInOrder f64 laws c hs
      → (t : Task S F) × (task f64 c hs previous ws ≡ some t)
        × (t.stopped ≡ ends ws)
        × (t.controller.global.ceiling ≡ c.global.ceiling)
        × IsInOrder f64 laws t.controller t.resolvers
  unfolding task
  task-IsInOrder c hs previous [] h = (_, refl, refl, refl, h)
  task-IsInOrder c hs previous (dropped es ∷ ws) h =
      let (c', hs', r, k, h') = run-IsInOrder f64 laws c hs es h in
      (
        record { controller = c'; resolvers = hs'; previous = previous; stopped = true },
        rw r refl,
        refl,
        k,
        h',
      )
  task-IsInOrder c hs previous (upgraded es now outcomes ∷ ws) h =
      let (c', hs', r, k, h') = run-IsInOrder f64 laws c hs es h in
      let (c2, hs2, r2, k2, h2) = tick-IsInOrder f64 laws c' hs' (now - previous) now outcomes h' in
      let (t, e, s, k3, h3) = task-IsInOrder c2 hs2 now ws h2 in
      (t, rw (r, r2) e, s, k3 ∙ k2 ∙ k, h3)
