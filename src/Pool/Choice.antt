-- ===== src/Pool/Choice.antt =====
-- Which resolver a pass of `reserve` (src/health.rs) picks, and what it knows when it picks none.

use blastdns.Prelude.{
  ℕ, zero, suc, ◌+◌, ◌<◌, ◌≡◌, ◌⊎◌, inl, inr, refl, true, false, none, some, List, [], ◌∷◌, u64_mod,
  arith, length, get_elem?, is_empty, Option-cases, Bool-cases, ◌==◌, ==_iff,
}
use native.Mathlib.Nat.{zero-add}
use blastdns.Semaphore.{Semaphore}
use blastdns.Health.{ResolverHealth, is_benched, try_acquire}
use blastdns.Pool.{
  ResolverPool, inactive, benched, busy, taken, Tally, Outcome, reserved, no_resolver, sleep,
  wait_for, again, no_tally, visit, scan, conclude, reserve_pass, sleep_until_first_eligible,
}
use blastdns.Pool.Scan.{Passed, Waits, scan-inl, scan-inr, scan-Waits, place-surjective, IsSkipped}

module _ (sem : Semaphore) where
  open sem use {S}

  -- A resolver that may be given a query now, if it has a permit.
  pub record IsEligible (r : ResolverHealth S) (now : ℕ) : Type 0 where
    pub active : r.active ≡ true
    pub free : is_benched r now ≡ false

  -- What the end of a pass promises about the resolvers as they were before it.
  abbrev pub IsRight : List (ResolverHealth S) → ℕ → Outcome S → Type 0
  IsRight rs now (reserved j r') =
      (r : ResolverHealth S) × (get_elem? rs j ≡ some r)
      × IsEligible r now
      × (try_acquire sem r ≡ some r')
  IsRight rs now no_resolver =
      (j : ℕ) (r : ResolverHealth S) → get_elem? rs j ≡ some r → r.active ≡ false
  IsRight rs now (sleep d) =
      (d ≡ sleep_until_first_eligible rs now)
      × ((j : ℕ) (r : ResolverHealth S)
          → get_elem? rs j ≡ some r
          → (r.active ≡ false) ⊎ (is_benched r now ≡ true))
  IsRight rs now (wait_for w) =
      ((r : ResolverHealth S) × (get_elem? rs w ≡ some r)
        × IsEligible r now
        × (try_acquire sem r ≡ none))
      × ((j : ℕ) (r : ResolverHealth S)
          → get_elem? rs j ≡ some r
          → IsEligible r now
          → try_acquire sem r ≡ none)
  IsRight rs now again = ⊥

  pub visit_taken :
      (r r' : ResolverHealth S) (now : ℕ)
      → visit sem r now ≡ taken r'
      → IsEligible r now × (try_acquire sem r ≡ some r')
  unfolding visit
  visit_taken r r' now h = ground arith

  visit_inactive : (r : ResolverHealth S) (now : ℕ) → visit sem r now ≡ inactive → r.active ≡ false
  unfolding visit
  visit_inactive r now h = ground arith

  visit_benched :
      (r : ResolverHealth S) (now : ℕ) → visit sem r now ≡ benched → is_benched r now ≡ true
  unfolding visit
  visit_benched r now h = ground arith

  visit_busy :
      (r : ResolverHealth S) (now : ℕ)
      → visit sem r now ≡ busy
      → IsEligible r now × (try_acquire sem r ≡ none)
  unfolding visit
  visit_busy r now h = ground arith

  visit_skipped :
      (r : ResolverHealth S) (now : ℕ)
      → IsSkipped sem (visit sem r now)
      → IsEligible r now
      → try_acquire sem r ≡ none
  unfolding visit
  visit_skipped r now s e = ground arith

  lt_of_get_elem? :
      {A : Type 0} (xs : List A) (j : ℕ) (x : A) → get_elem? xs j ≡ some x → j < length xs
  lt_of_get_elem? [] j x h = ground arith
  lt_of_get_elem? (y ∷ ys) zero x h = omega arith
  lt_of_get_elem? (y ∷ ys) (suc j) x h = omega (arith, lt_of_get_elem? ys j x h)

  -- After a scan that found nothing, every resolver of the pool was passed.
  all-Passed :
      (rs : List (ResolverHealth S)) (now offset : ℕ) (t : Tally)
      → scan sem rs now offset (length rs) 0 no_tally ≡ inr t
      → offset + length rs < u64_mod
      → (j : ℕ) (r : ResolverHealth S) → get_elem? rs j ≡ some r
      → Passed sem t (visit sem r now)
  all-Passed rs now offset t h fits j r e =
      let below : j < length rs = lt_of_get_elem? rs j r e in
      let (m, lt, at) = place-surjective sem rs offset j fits below in
      scan-inr sem rs now offset (length rs) 0 no_tally t m r h (omega arith) (omega arith) lt
        (rw (zero-add, at) e)

  conclude-IsRight :
      (rs : List (ResolverHealth S)) (now : ℕ) (t : Tally)
      → Waits sem rs now t
      → ((j : ℕ) (r : ResolverHealth S) → get_elem? rs j ≡ some r → Passed sem t (visit sem r now))
      → IsRight rs now (conclude sem rs now (inr t))
  unfolding conclude
  conclude-IsRight rs now t w p = elim (Bool-cases (t.active == 0)) [
    | inl z ↦ rw z (λ j r e. visit_inactive r now ((p j r e).none_active ((==_iff _ _).0 z)))
    | inr nz ↦ rw nz (elim (Bool-cases (t.benched == t.active)) [
      | inl b ↦ rw b (refl, λ j r e. slept j r e (ground arith))
      | inr nb ↦ rw nb (elim (Option-cases t.waitable) [
        | inl n ↦ absurd (busy_wait n nb)
        | inr (x, q) ↦ rw q (waits x q)
      ])
    ])
  ]
    where
      slept :
          (j : ℕ) (r : ResolverHealth S)
          → get_elem? rs j ≡ some r
          → t.benched ≡ t.active
          → (r.active ≡ false) ⊎ (is_benched r now ≡ true)
      slept j r e q = elim ((p j r e).all_benched q) [
        | inl i ↦ inl (visit_inactive r now i)
        | inr i ↦ inr (visit_benched r now i)
      ]

      busy_wait : t.waitable ≡ none → (t.benched == t.active) ≡ false → ⊥
      busy_wait n nb = ground (arith, w.no_one n)

      waits : (x : ℕ) → t.waitable ≡ some x → IsRight rs now (wait_for x)
      waits x q =
          let (r, e, v) = w.some_one x q in
          let (el, no_permit) = visit_busy r now v in
          ((r, e, el, no_permit), λ j r' e' el'. visit_skipped r' now (p j r' e').skipped el')

  scan-IsRight :
      (rs : List (ResolverHealth S)) (now offset : ℕ) (o : (ℕ × ResolverHealth S) ⊎ Tally)
      → scan sem rs now offset (length rs) 0 no_tally ≡ o
      → offset + length rs < u64_mod
      → IsRight rs now (conclude sem rs now o)
  unfolding conclude
  scan-IsRight rs now offset (inl (j, r')) h fits =
      let (r, e, v) = scan-inl sem rs now offset (length rs) 0 no_tally j r' h in
      let (el, taken_one) = visit_taken r r' now v in (r, e, el, taken_one)
  scan-IsRight rs now offset (inr t) h fits =
      conclude-IsRight rs now t
        (scan-Waits sem rs now offset (length rs) 0 no_tally t h
          (record { benched = omega arith; no_one = λ _. refl; some_one = λ w q. ground arith }))
        (all-Passed rs now offset t h fits)

  -- Whatever the pool is like, as long as the cursor has not reached the end of its range: a pass
  -- that reserves a resolver has found one that is active and not benched, with a permit free; a
  -- pass that returns `None` has only inactive resolvers; one that sleeps has all its active
  -- resolvers benched; one that waits does so for a resolver that is active and not benched, and no
  -- such resolver has a permit free. No pass ends any other way.
  pub reserve_pass-IsRight :
      (p : ResolverPool S) (now : ℕ)
      → p.cursor + length p.resolvers < u64_mod
      → IsRight p.resolvers now (reserve_pass sem p now).1
  unfolding reserve_pass
  reserve_pass-IsRight p now fits = elim (Bool-cases (is_empty p.resolvers)) [
    | inl e ↦ rw e (empty_pool p.resolvers e)
    | inr e ↦ rw e (scan-IsRight p.resolvers now p.cursor _ refl fits)
  ]
    where
      empty_pool : (rs : List (ResolverHealth S)) → is_empty rs ≡ true → IsRight rs now no_resolver
      empty_pool [] h j r q = ground arith
      empty_pool (x ∷ xs) h j r q = ground arith

  -- A pass on a pool that has an eligible resolver with a free permit reserves some resolver.
  pub reserve_pass_finds :
      (p : ResolverPool S) (now j : ℕ) (r r' : ResolverHealth S)
      → p.cursor + length p.resolvers < u64_mod
      → get_elem? p.resolvers j ≡ some r
      → IsEligible r now
      → try_acquire sem r ≡ some r'
      → (i : ℕ) × (q : ResolverHealth S) × ((reserve_pass sem p now).1 ≡ reserved i q)
  reserve_pass_finds p now j r r' fits e el free =
      found (reserve_pass sem p now).1 (reserve_pass-IsRight p now fits)
    where
      found :
          (o : Outcome S)
          → IsRight p.resolvers now o
          → (i : ℕ) × (q : ResolverHealth S) × (o ≡ reserved i q)
      found (reserved i q) right = (i, q, refl)
      found no_resolver right = absurd (ground (arith, right j r e, el.active))
      found (sleep d) right = absurd (ground (arith, right.1 j r e, el.active, el.free))
      found (wait_for w) right = absurd (ground (arith, right.1 j r e el))
      found again right = absurd right
