-- ===== src/Python/Batches.antt =====
-- `__anext__` of the two batch iterators of src/python.rs. The stream of results is the list of
-- what it delivers, each with the time at which it does.
use blastdns.Prelude.{
  ℕ, zero, suc, ◌+◌, ◌-◌, ◌≤◌, ◌<◌, ◌≡◌, ◌∙◌, inl, inr, refl, ap, max, Bool, true, false, not, ◌&&◌,
  ◌||◌, Option, none, some, List, [], ◌∷◌, ◌++◌, length, is_empty, leb, if◌then◌else◌, arith, All,
  Bool-cases,
}
use mathlib.Core.List.{append_assoc}
use blastdns.Config.{from_millis}
use blastdns.Python.{PyErr, PyResult, returns, raises, stop_async_iteration}

-- Full, or not empty and 200 milliseconds old.
abbrev pub is_due : {A : Type 0} → List A → ℕ → Bool
is_due batch elapsed =
    leb 1000 (length batch) || (not (is_empty batch) && leb (from_millis 200) elapsed)

abbrev pub at_end : {A : Type 0} → List A → PyResult (List A)
at_end batch = if is_empty batch then raises stop_async_iteration else returns batch

abbrev pub put_first :
    {B : Type 0} → List B → Option (List (List B) × PyErr) → Option (List (List B) × PyErr)
put_first batch none = none
put_first batch (some (batches, e)) = some (batch ∷ batches, e)

abbrev pub gather :
    {A B : Type 0}
    → List (ℕ × A) × PyResult (List B)
    → (List (ℕ × A) → Option (List (List B) × PyErr))
    → Option (List (List B) × PyErr)
gather (rest, raises e) next = some ([], e)
gather (rest, returns batch) next = put_first batch (next rest)

module _ {A B : Type 0} (payload : A → PyResult B) where
  -- The loop, with what it has collected since `start`: what is left of the stream, and the
  -- outcome.
  unfoldable pub fill : ℕ → List B → ℕ → List (ℕ × A) → List (ℕ × A) × PyResult (List B)
  fill start batch now [] = ([], if is_due batch (now - start) then returns batch else at_end batch)
  fill start batch now ((at, a) ∷ stream) = elim (is_due batch (now - start)) [
    | true ↦ ((at, a) ∷ stream, returns batch)
    | false ↦ elim (payload a) [
      | raises e ↦ (stream, raises e)
      | returns b ↦ fill start (batch ++ b ∷ []) (max now at) stream
    ]
  ]

  unfoldable pub anext : ℕ → List (ℕ × A) → List (ℕ × A) × PyResult (List B)
  unfolding fill
  anext start stream = fill start [] start stream

  -- A caller that iterates to the end: its batches, and what ended it. The calls begin at `starts`.
  unfoldable pub drain : ℕ → (ℕ → ℕ) → ℕ → List (ℕ × A) → Option (List (List B) × PyErr)
  unfolding anext
  drain zero starts k stream = none
  drain (suc fuel) starts k stream =
      gather (anext (starts k) stream) (λ rest. drain fuel starts (k + 1) rest)

abbrev pub join : {B : Type 0} → List (List B) → List B
join [] = []
join (b ∷ bs) = b ++ join bs

-- A batch as it is handed over: not empty, and of a thousand items at most.
abbrev pub IsBatch : {B : Type 0} → List B → Type 0
IsBatch b = (is_empty b ≡ false) × (length b ≤ 1000)

module _ {A B : Type 0} (payload : A → PyResult B) (bytes : A → B)
    (total : (a : A) → payload a ≡ returns (bytes a)) where
  abbrev pub payloads : List (ℕ × A) → List B
  payloads [] = []
  payloads ((at, a) ∷ stream) = bytes a ∷ payloads stream

  -- What a call gives: nothing where there is nothing left, or else a batch that comes first in
  -- what was left.
  abbrev Filled : List B → List (ℕ × A) → List (ℕ × A) × PyResult (List B) → Type 0
  Filled batch stream (rest, raises e) = (batch ≡ []) × (stream ≡ []) × (e ≡ stop_async_iteration)
  Filled batch stream (rest, returns b) =
      IsBatch b
      × (b ++ payloads rest ≡ batch ++ payloads stream)
      × (length b + length rest ≡ length batch + length stream)

  at_end-Filled : (batch : List B) → length batch ≤ 1000 → Filled batch [] ([], at_end batch)
  at_end-Filled [] h = (refl, refl, refl)
  at_end-Filled (b ∷ bs) h = ((refl, h), refl, refl)

  is_due-is_empty :
      (batch : List B) (elapsed : ℕ) → is_due batch elapsed ≡ true → is_empty batch ≡ false
  is_due-is_empty [] elapsed h = cc
  is_due-is_empty (b ∷ bs) elapsed h = refl

  is_due_short : (batch : List B) (elapsed : ℕ) → is_due batch elapsed ≡ false → length batch < 1000
  is_due_short batch elapsed h = ground arith

  length-snoc : (batch : List B) (b : B) → length (batch ++ b ∷ []) ≡ suc (length batch)
  length-snoc [] b = refl
  length-snoc (c ∷ batch) b = ap suc (length-snoc batch b)

  snoc-ne-nil : (batch : List B) (b : B) → batch ++ b ∷ [] ≡ [] → ⊥
  snoc-ne-nil [] b h = cc
  snoc-ne-nil (c ∷ batch) b h = cc

  Filled-snoc :
      (batch : List B) (at : ℕ) (a : A) (stream : List (ℕ × A))
      (r : List (ℕ × A) × PyResult (List B))
      → Filled (batch ++ bytes a ∷ []) stream r
      → Filled batch ((at, a) ∷ stream) r
  Filled-snoc batch at a stream (rest, raises e) h = absurd (snoc-ne-nil batch (bytes a) h.0)
  Filled-snoc batch at a stream (rest, returns b) (is_batch, same, counted) = (
    is_batch,
    same ∙ append_assoc batch (bytes a ∷ []) (payloads stream),
    omega (arith, counted, length-snoc batch (bytes a)),
  )

  fill-Filled :
      (start : ℕ) (batch : List B) (now : ℕ) (stream : List (ℕ × A))
      → length batch ≤ 1000
      → Filled batch stream (fill payload start batch now stream)
  unfolding fill
  fill-Filled start batch now [] h = elim (Bool-cases (is_due batch (now - start))) [
    | inl e ↦ rw e ((is_due-is_empty batch (now - start) e, h), refl, refl)
    | inr e ↦ rw e (at_end-Filled batch h)
  ]
  fill-Filled start batch now ((at, a) ∷ stream) h =
      elim (Bool-cases (is_due batch (now - start))) [
        | inl e ↦ rw (fill, e) ((is_due-is_empty batch (now - start) e, h), refl, refl)
        | inr e ↦
            rw (fill, e, total a)
              (Filled-snoc batch at a stream
                (fill payload start (batch ++ bytes a ∷ []) (max now at) stream)
                (fill-Filled start (batch ++ bytes a ∷ []) (max now at) stream
                  (omega (arith, length-snoc batch (bytes a), is_due_short batch (now - start) e))))
      ]

  -- Every item is handed over once and in order.
  abbrev pub Drained : List (ℕ × A) → Option (List (List B) × PyErr) → Type 0
  Drained stream none = ⊥
  Drained stream (some (batches, e)) =
      (e ≡ stop_async_iteration) × (join batches ≡ payloads stream) × All IsBatch batches

  Drained-cons :
      (stream rest : List (ℕ × A)) (b : List B) (d : Option (List (List B) × PyErr))
      → IsBatch b
      → b ++ payloads rest ≡ payloads stream
      → Drained rest d
      → Drained stream (put_first b d)
  Drained-cons stream rest b none is_batch same h = h
  Drained-cons stream rest b (some (batches, e)) is_batch same (stop, joined, all) =
      (stop, ap (λ l. b ++ l) joined ∙ same, (is_batch, all))

  gather-Drained :
      (stream : List (ℕ × A)) (r : List (ℕ × A) × PyResult (List B))
      (next : List (ℕ × A) → Option (List (List B) × PyErr))
      → Filled [] stream r
      → ((rest : List (ℕ × A)) → length rest < length stream → Drained rest (next rest))
      → Drained stream (gather r next)
  gather-Drained stream (rest, raises e) next (_, empty, stop) k = (stop, rw empty refl, tt)
  gather-Drained stream (rest, returns []) next (is_batch, same, counted) k = cc
  gather-Drained stream (rest, returns (b ∷ bs)) next (is_batch, same, counted) k =
      Drained-cons stream rest (b ∷ bs) (next rest) is_batch same (k rest (omega (arith, counted)))

  -- Iterating to the end takes a call for each item at most and one more, however the results are
  -- spaced in time and whenever the calls begin, if every result can be serialized. It stops with
  -- `StopAsyncIteration`; the batches hold every result once, in the order of the stream; and each
  -- of them has at least one and at most a thousand.
  pub drain-Drained :
      (fuel : ℕ) (starts : ℕ → ℕ) (k : ℕ) (stream : List (ℕ × A))
      → length stream < fuel
      → Drained stream (drain payload fuel starts k stream)
  unfolding drain
  drain-Drained zero starts k stream h = absurd (omega arith)
  drain-Drained (suc fuel) starts k stream h =
      gather-Drained stream (anext payload (starts k) stream)
        (λ rest. drain payload fuel starts (k + 1) rest)
        (fill-Filled (starts k) [] (starts k) stream (omega arith))
        (λ rest shorter. drain-Drained fuel starts (k + 1) rest (omega arith))
