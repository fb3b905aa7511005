-- ===== src/Worker/Over.antt =====
-- The workers of src/worker.rs that are out of their loops, and the queue they left.
use blastdns.Prelude.{ℕ, ◌≡◌, refl, Bool, true, false, List, [], ◌∷◌, arith, All}
use blastdns.Worker.Answers.{in_hand, IsOver}
use blastdns.Worker.Tasks.{
  WorkItem, Pc, receiving, pacing, reserving, waiting, holding, slotted, throttled, querying,
  releasing, stopped,
}

module _ {T : Type 0} where
  IsOver-mono :
      (q q' : List (WorkItem T)) (o o' : Bool) (pc : Pc T)
      → (q ≡ [] → q' ≡ [])
      → (o ≡ false → o' ≡ false)
      → IsOver q o pc
      → IsOver q' o' pc
  IsOver-mono q q' o o' receiving e f v = tt
  IsOver-mono q q' o o' (pacing w) e f v = tt
  IsOver-mono q q' o o' (reserving w) e f v = tt
  IsOver-mono q q' o o' (waiting w j) e f v = tt
  IsOver-mono q q' o o' (holding w j) e f v = tt
  IsOver-mono q q' o o' (slotted w j) e f v = tt
  IsOver-mono q q' o o' (throttled w j) e f v = tt
  IsOver-mono q q' o o' (querying w j) e f v = tt
  IsOver-mono q q' o o' (releasing j) e f v = tt
  IsOver-mono q q' o o' stopped e f v = (e v.0, f v.1)

  pub All-IsOver-mono :
      (q q' : List (WorkItem T)) (o o' : Bool) (pcs : List (Pc T))
      → (q ≡ [] → q' ≡ [])
      → (o ≡ false → o' ≡ false)
      → All (IsOver q o) pcs
      → All (IsOver q' o') pcs
  All-IsOver-mono q q' o o' [] e f v = tt
  All-IsOver-mono q q' o o' (pc ∷ pcs) e f v =
      (IsOver-mono q q' o o' pc e f v.0, All-IsOver-mono q q' o o' pcs e f v.1)

  -- While the queue is open, no worker has stopped.
  IsOver-open :
      (q q' : List (WorkItem T)) (o : Bool) (pc : Pc T) → o ≡ true → IsOver q o pc → IsOver q' o pc
  IsOver-open q q' o stopped h v = absurd (ground (arith, h, v.1))
  IsOver-open q q' o receiving h v = tt
  IsOver-open q q' o (pacing w) h v = tt
  IsOver-open q q' o (reserving w) h v = tt
  IsOver-open q q' o (waiting w j) h v = tt
  IsOver-open q q' o (holding w j) h v = tt
  IsOver-open q q' o (slotted w j) h v = tt
  IsOver-open q q' o (throttled w j) h v = tt
  IsOver-open q q' o (querying w j) h v = tt
  IsOver-open q q' o (releasing j) h v = tt

  pub All-IsOver-open :
      (q q' : List (WorkItem T)) (o : Bool) (pcs : List (Pc T))
      → o ≡ true
      → All (IsOver q o) pcs
      → All (IsOver q' o) pcs
  All-IsOver-open q q' o [] h v = tt
  All-IsOver-open q q' o (pc ∷ pcs) h v =
      (IsOver-open q q' o pc h v.0, All-IsOver-open q q' o pcs h v.1)

  -- Every worker is out of its loop.
  abbrev pub HaveStopped : List (Pc T) → Type 0
  HaveStopped pcs = All (λ pc. pc ≡ stopped) pcs

  pub in_hand_of_stopped : (id : ℕ) (pcs : List (Pc T)) → HaveStopped pcs → in_hand id pcs ≡ 0
  in_hand_of_stopped id [] h = refl
  in_hand_of_stopped id (pc ∷ pcs) h = rw h.0 (omega (arith, in_hand_of_stopped id pcs h.1))
