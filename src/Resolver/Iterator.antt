-- ===== src/Resolver/Iterator.antt =====
-- `BlockingIteratorStream` of src/resolver.rs: a stream of an iterator's items, each fetched by a
-- task of its own. Only that task uses the iterator, so what it will return is settled when it is
-- spawned.
use blastdns.Prelude.{
  ℕ, suc, ◌-◌, length, ◌≡◌, ◌∙◌, refl, ap, Option, none, some, List, [], ◌∷◌, ◌++◌, arith,
}

pub record BlockingIteratorStream (T : Type 0) : Type 0 where
  pub iterator : List T
  pub pending : Option (Option T)

-- How the task stands when it is polled: it still runs, it has returned, or it panicked.
pub data Task : Type 0 where
  runs : Task
  returned : Task
  panicked : Task

pub data Poll (T : Type 0) : Type 0 where
  ready : Option T → Poll T
  waiting : Poll T

module _ {T : Type 0} where
  unfoldable pub new : List T → BlockingIteratorStream T
  new iterator = record { iterator = iterator; pending = none }

  -- `iter.next()`
  abbrev pub next_of : List T → Option T
  next_of [] = none
  next_of (x ∷ xs) = some x

  abbrev pub rest_of : List T → List T
  rest_of [] = []
  rest_of (x ∷ xs) = xs

  -- The value that the pending task returns, and the iterator after it.
  abbrev pub spawned : Option (Option T) → List T → Option T × List T
  spawned none iterator = (next_of iterator, rest_of iterator)
  spawned (some value) iterator = (value, iterator)

  abbrev pub polled : Task → Option T × List T → BlockingIteratorStream T × Poll T
  polled runs (value, rest) = (record { iterator = rest; pending = some value }, waiting)
  polled returned (value, rest) = (record { iterator = rest; pending = none }, ready value)
  polled panicked (value, rest) = (record { iterator = rest; pending = none }, ready none)

  unfoldable pub poll_next : Task → BlockingIteratorStream T → BlockingIteratorStream T × Poll T
  poll_next task s = polled task (spawned s.pending s.iterator)

  -- Polls one after the other, and the items that they were ready with.
  abbrev pub yielded : Poll T → List T → List T
  yielded (ready (some x)) xs = x ∷ xs
  yielded (ready none) xs = xs
  yielded waiting xs = xs

  unfoldable pub run : List Task → BlockingIteratorStream T → BlockingIteratorStream T × List T
  unfolding poll_next
  run [] s = (s, [])
  run (task ∷ tasks) s =
      let (s', p) = poll_next task s in let (end', items) = run tasks s' in (end', yielded p items)

  -- What is still to come.
  abbrev pub to_come : Option (Option T) → List T → List T
  to_come none xs = xs
  to_come (some none) xs = xs
  to_come (some (some x)) xs = x ∷ xs

-- No task panics.
abbrev pub AreSound : List Task → Type 0
AreSound [] = Unit
AreSound (runs ∷ tasks) = AreSound tasks
AreSound (returned ∷ tasks) = AreSound tasks
AreSound (panicked ∷ tasks) = ⊥

-- How many of the polls find that the task has returned.
abbrev pub count_returned : List Task → ℕ
count_returned [] = 0
count_returned (runs ∷ tasks) = count_returned tasks
count_returned (returned ∷ tasks) = suc (count_returned tasks)
count_returned (panicked ∷ tasks) = count_returned tasks

module _ {T : Type 0} where
  spawned-to_come :
      (pending : Option (Option T)) (iterator : List T)
      → to_come (some (spawned pending iterator).0) (spawned pending iterator).1
        ≡ to_come pending iterator
  spawned-to_come none [] = refl
  spawned-to_come none (x ∷ xs) = refl
  spawned-to_come (some value) iterator = refl

  yielded-to_come :
      (value : Option T) (rest items after : List T)
      → items ++ after ≡ rest
      → yielded (ready value) items ++ after ≡ to_come (some value) rest
  yielded-to_come none rest items after h = h
  yielded-to_come (some x) rest items after h = ap (λ l. x ∷ l) h

  -- A value that ends the stream is fetched only where the iterator is at its end.
  abbrev IsLast : Option (Option T) → List T → Type 0
  IsLast (some none) iterator = iterator ≡ []
  IsLast (some (some x)) iterator = Unit
  IsLast none iterator = Unit

  spawned-IsLast :
      (pending : Option (Option T)) (iterator : List T)
      → IsLast pending iterator
      → IsLast (some (spawned pending iterator).0) (spawned pending iterator).1
  spawned-IsLast none [] h = refl
  spawned-IsLast none (x ∷ xs) h = tt
  spawned-IsLast (some none) iterator h = h
  spawned-IsLast (some (some x)) iterator h = tt

  length-rest :
      (value : Option T) (rest : List T)
      → IsLast (some value) rest
      → length rest ≡ length (to_come (some value) rest) - 1
  length-rest none rest h = rw h (omega arith)
  length-rest (some x) rest h = omega arith

  run_from :
      (tasks : List Task) (pending : Option (Option T)) (iterator : List T)
      → AreSound tasks
      → IsLast pending iterator
      → let (s, items) = run tasks (record { iterator = iterator; pending = pending }) in
        (items ++ to_come s.pending s.iterator ≡ to_come pending iterator)
        × (length (to_come s.pending s.iterator)
            ≡ length (to_come pending iterator) - count_returned tasks)
  unfolding run
  run_from [] pending iterator h k = (refl, omega arith)
  run_from (runs ∷ tasks) pending iterator h k =
      let (value, rest) = spawned pending iterator in
      let (same, counted) =
        run_from tasks (some value) rest h (spawned-IsLast pending iterator k) in
      (
        same ∙ spawned-to_come pending iterator,
        omega (arith, counted, ap length (spawned-to_come pending iterator)),
      )
  run_from (returned ∷ tasks) pending iterator h k =
      let (value, rest) = spawned pending iterator in
      let (same, counted) = run_from tasks none rest h tt in
      (
        yielded-to_come value rest _ _ same ∙ spawned-to_come pending iterator,
        omega (
          arith,
          counted,
          length-rest value rest (spawned-IsLast pending iterator k),
          ap length (spawned-to_come pending iterator),
        ),
      )
  run_from (panicked ∷ tasks) pending iterator h k = absurd h

  -- However often the stream is polled, as long as no fetch panics: the items it was ready with,
  -- and then those still to come, are the iterator's items in their order; and every poll that
  -- finds its task done brings it one item further, until there are none.
  pub run-new :
      (tasks : List Task) (iterator : List T)
      → AreSound tasks
      → let (s, items) = run tasks (new iterator) in
        (items ++ to_come s.pending s.iterator ≡ iterator)
        × (length (to_come s.pending s.iterator) ≡ length iterator - count_returned tasks)
  unfolding new
  run-new tasks iterator h = run_from tasks none iterator h tt
