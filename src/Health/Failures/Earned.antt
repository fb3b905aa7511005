-- ===== src/Health/Failures/Earned.antt =====
-- What sentences cost when calls of `record_error` (src/health.rs) overlap.
use mathlib.Core.Option
use blastdns.Prelude.{
  ℕ, zero, suc, ◌+◌, ◌≤◌, ◌<◌, ◌≡◌, ◌⊎◌, refl, ap, sym, Bool, true, false, Option, none, some, List,
  [], ◌∷◌, arith, get_elem?, set, inl, inr,
}
use blastdns.Health.{ResolverHealth, decay_errors, record_error}
use blastdns.Health.Failures.{
  Pc, counting, adding, benching, entering, clearing, finished, Event, access, decay, Calls,
  error_step, access_of, step, run, alone, run-alone,
}

abbrev pub is_counted : Pc → ℕ
is_counted (counting _) = 0
is_counted adding = 0
is_counted _ = 1

-- Calls that have raised `consecutive_errors`.
abbrev pub counted : List Pc → ℕ
counted [] = 0
counted (pc ∷ pcs) = is_counted pc + counted pcs

counted-set :
    (pcs : List Pc) (i : ℕ) (pc pc' : Pc)
    → get_elem? pcs i ≡ some pc
    → counted (set pcs i pc') + is_counted pc ≡ counted pcs + is_counted pc'
counted-set [] i pc pc' h = cc
counted-set (x ∷ pcs) zero pc pc' h =
    let same : is_counted x ≡ is_counted pc = ap is_counted (Option.some-injective x pc h) in
    omega (arith, same)
counted-set (x ∷ pcs) (suc i) pc pc' h = omega (arith, counted-set pcs i pc pc' h)

-- The call has a sentence to begin or under way.
abbrev pub is_sentencing : Pc → Bool
is_sentencing benching = true
is_sentencing entering = true
is_sentencing clearing = true
is_sentencing _ = false

set-cases :
    (pcs : List Pc) (i j : ℕ) (pc q : Pc)
    → get_elem? (set pcs i pc) j ≡ some q
    → (pc ≡ q) ⊎ (get_elem? pcs j ≡ some q)
set-cases [] i j pc q h = inr h
set-cases (x ∷ pcs) zero zero pc q h = inl (Option.some-injective pc q h)
set-cases (x ∷ pcs) zero (suc j) pc q h = inr h
set-cases (x ∷ pcs) (suc i) zero pc q h = inr h
set-cases (x ∷ pcs) (suc i) (suc j) pc q h = set-cases pcs i j pc q h

-- The calls that begin with these causes.
abbrev pub fresh : List Bool → List Pc
fresh [] = []
fresh (b ∷ bs) = counting b ∷ fresh bs

fresh-calm :
    (bs : List Bool)
    → (counted (fresh bs) ≡ 0)
      × ((i : ℕ) (pc : Pc) → get_elem? (fresh bs) i ≡ some pc → is_sentencing pc ≡ false)
fresh-calm [] = (refl, λ i pc h. cc)
fresh-calm (b ∷ bs) =
    let (none_yet, calm) = fresh-calm bs in (omega (arith, none_yet), λ i pc h. later calm i pc h)
  where
    later :
        ((i : ℕ) (pc : Pc) → get_elem? (fresh bs) i ≡ some pc → is_sentencing pc ≡ false)
        → (i : ℕ) (pc : Pc) → get_elem? (counting b ∷ fresh bs) i ≡ some pc
        → is_sentencing pc ≡ false
    later calm zero pc h = ap is_sentencing (sym (Option.some-injective (counting b) pc h))
    later calm (suc i) pc h = calm i pc h

module _ {S : Type 0} where
  -- Purgatory is off, or so many failures are fewer than its threshold.
  abbrev pub IsBelow : ResolverHealth S → ℕ → Type 0
  IsBelow h n =
      (h.purgatory_threshold ≡ 0) ⊎ ((h.purgatory_sentence ≡ 0) ⊎ (n < h.purgatory_threshold))

  -- What one access does, by what its call is to do next.
  record Accessed (h h' : ResolverHealth S) (pc pc' : Pc) : Type 0 where
    threshold : h'.purgatory_threshold ≡ h.purgatory_threshold
    sentence : h'.purgatory_sentence ≡ h.purgatory_sentence
    count : h'.consecutive_errors + is_counted pc ≤ h.consecutive_errors + is_counted pc'
    onward : is_counted pc ≤ is_counted pc'
    idle :
        is_sentencing pc ≡ false
        → (h'.benched_until_ns ≡ h.benched_until_ns) × (h'.purgatory_entries ≡ h.purgatory_entries)
    below :
        is_sentencing pc ≡ false
        → (h.purgatory_threshold ≡ 0)
          ⊎ ((h.purgatory_sentence ≡ 0)
              ⊎ (h.consecutive_errors + is_counted pc' < h.purgatory_threshold + is_counted pc))
        → is_sentencing pc' ≡ false

  error_step-Accessed :
      (h : ResolverHealth S) (now : ℕ) (pc : Pc)
      → Accessed h (error_step h now pc).0 pc (error_step h now pc).1
  unfolding error_step
  error_step-Accessed h now (counting is_timeout) = record {
    threshold = ground arith;
    sentence = ground arith;
    count = ground arith;
    onward = omega arith;
    idle = λ _. ground arith;
    below = λ _ _. refl;
  }
  error_step-Accessed h now adding = record {
    threshold = refl;
    sentence = refl;
    count = ground arith;
    onward = omega arith;
    idle = λ _. (refl, refl);
    below = λ _ b. ground arith;
  }
  error_step-Accessed h now benching = record {
    threshold = refl;
    sentence = refl;
    count = omega arith;
    onward = omega arith;
    idle = λ f. cc;
    below = λ f. cc;
  }
  error_step-Accessed h now entering = record {
    threshold = refl;
    sentence = refl;
    count = omega arith;
    onward = omega arith;
    idle = λ f. cc;
    below = λ f. cc;
  }
  error_step-Accessed h now clearing = record {
    threshold = refl;
    sentence = refl;
    count = omega arith;
    onward = omega arith;
    idle = λ f. cc;
    below = λ f. cc;
  }
  error_step-Accessed h now finished = record {
    threshold = refl;
    sentence = refl;
    count = omega arith;
    onward = omega arith;
    idle = λ _. (refl, refl);
    below = λ _ _. refl;
  }

  -- Since `old`, the calls have not raised the count beyond their number, and until they are as
  -- many as the threshold together with the old count, no sentence has begun.
  pub record IsEarned (old : ResolverHealth S) (y : Calls S) : Type 0 where
    pub threshold : y.health.purgatory_threshold ≡ old.purgatory_threshold
    pub sentence : y.health.purgatory_sentence ≡ old.purgatory_sentence
    pub count : y.health.consecutive_errors ≤ old.consecutive_errors + counted y.calls
    pub idle :
        IsBelow old (old.consecutive_errors + counted y.calls)
        → (y.health.benched_until_ns ≡ old.benched_until_ns)
          × (y.health.purgatory_entries ≡ old.purgatory_entries)
          × ((i : ℕ) (pc : Pc) → get_elem? y.calls i ≡ some pc → is_sentencing pc ≡ false)

  access_of-IsEarned :
      (old : ResolverHealth S) (y : Calls S) (i now : ℕ) (o : Option Pc)
      → get_elem? y.calls i ≡ o
      → IsEarned old y
      → IsEarned old (access_of y i now o)
  access_of-IsEarned old y i now none e r = r
  access_of-IsEarned old y i now (some pc) e r =
      let a = error_step-Accessed y.health now pc in
      let (h', pc') = error_step y.health now pc in
      let more = counted-set y.calls i pc pc' e in
      record {
        threshold = omega (arith, a.threshold, r.threshold);
        sentence = omega (arith, a.sentence, r.sentence);
        count = omega (arith, a.count, r.count, more);
        idle = λ below.
            let before : IsBelow old (old.consecutive_errors + counted y.calls) =
              ground (arith, below, more, a.onward) in
            let (bench, entries, calm) = r.idle before in
            let (bench', entries') = a.idle (calm i pc e) in
            let next =
              a.below (calm i pc e)
                (ground (arith, below, more, r.count, r.threshold, r.sentence)) in
            (
              omega (arith, bench, bench'),
              omega (arith, entries, entries'),
              λ j q g. elim (set-cases y.calls i j pc' q g) [
                | inl same ↦ rw (← same) next
                | inr g' ↦ calm j q g'
              ],
            );
      }

  step-IsEarned :
      (old : ResolverHealth S) (y : Calls S) (e : Event) → IsEarned old y → IsEarned old (step y e)
  unfolding step decay_errors
  step-IsEarned old y (access i now) r = access_of-IsEarned old y i now (get_elem? y.calls i) refl r
  step-IsEarned old y decay r = record {
    threshold = r.threshold;
    sentence = r.sentence;
    count = omega (arith, r.count);
    idle = r.idle;
  }

  steps-IsEarned :
      (old : ResolverHealth S) (es : List Event) (y : Calls S)
      → IsEarned old y
      → IsEarned old (run y es)
  unfolding run
  steps-IsEarned old [] y r = r
  steps-IsEarned old (e ∷ es) y r = steps-IsEarned old es (step y e) (step-IsEarned old y e r)

  begun-IsEarned :
      (h : ResolverHealth S) (causes : List Bool) (es : List Event)
      → IsEarned h (run (record { health = h; calls = fresh causes }) es)
  begun-IsEarned h causes es =
      let (none_yet, calm) = fresh-calm causes in
      steps-IsEarned h es (record { health = h; calls = fresh causes })
        (record {
          threshold = refl;
          sentence = refl;
          count = omega (arith, none_yet);
          idle = λ _. (refl, refl, calm);
        })

  -- A call of `record_error` with no other in between does what the atomic `record_error` does.
  -- And however the accesses of any number of calls, and the decay by responses, interleave: the
  -- count of failures grows by no more than the calls that have raised it; and as long as those,
  -- with the failures counted before, are fewer than the threshold, or purgatory is off, no sentence
  -- begins: the bench and the number of sentences are what they were.
  pub run-IsEarned :
      (h : ResolverHealth S) (causes : List Bool) (es : List Event) (is_timeout : Bool) (now : ℕ)
      → ((run (record { health = h; calls = fresh (is_timeout ∷ []) }) (alone now)).health
          ≡ record_error h is_timeout now)
        × IsEarned h (run (record { health = h; calls = fresh causes }) es)
  run-IsEarned h causes es is_timeout now = (run-alone h is_timeout now, begun-IsEarned h causes es)
