-- ===== src/Pool/Passes.antt =====
-- One pass of `reserve` (src/health.rs): how it ends, and the pool that it leaves.
use blastdns.Prelude.{
  ℕ, zero, suc, ◌+◌, ◌<◌, ◌≡◌, ◌⊎◌, inl, inr, refl, sym, ap, true, false, none, some, List, [], ◌∷◌,
  u64_mod, arith, length, get_elem?, set, is_empty, Bool-cases, Option-cases, wrapping_add,
  if◌then◌else◌,
}
use mathlib.Core.Sum.{inr-injective}
use blastdns.Health.{ResolverHealth, try_acquire}
use blastdns.Pool.{
  ResolverPool, Outcome, Tally, inactive, reserved, no_resolver, sleep, wait_for, again,
  reserve_pass, keep, visit, scan, no_tally, conclude, count, scan_visit,
}
use blastdns.Pool.Choice.{IsEligible, IsRight, reserve_pass-IsRight}
use blastdns.Pool.Sleep.{benched_until, sleep_length}
use blastdns.Pool.Scan.{place}
use blastdns.Pool.Soonest.{IsSoonest, soonest-IsSoonest, soonest_of_active}
use blastdns.Semaphore.{Semaphore}

module _ {S : Type 0} where
  active_or_idle :
      (rs : List (ResolverHealth S))
      → ((j : ℕ) × (r : ResolverHealth S) × (get_elem? rs j ≡ some r) × (r.active ≡ true))
        ⊎ ((j : ℕ) (r : ResolverHealth S) → get_elem? rs j ≡ some r → r.active ≡ false)
  active_or_idle [] = inr (λ j r e. ground arith)
  active_or_idle (x ∷ rs) = elim (Bool-cases x.active) [
    | inl a ↦ inl (0, x, refl, a)
    | inr a ↦ elim (active_or_idle rs) [
      | inl (j, r, e, b) ↦ inl (suc j, r, e, b)
      | inr idle ↦ inr (idle_cons a idle)
    ]
  ]
    where
      idle_cons :
          x.active ≡ false
          → ((j : ℕ) (r : ResolverHealth S) → get_elem? rs j ≡ some r → r.active ≡ false)
          → (j : ℕ) (r : ResolverHealth S) → get_elem? (x ∷ rs) j ≡ some r
          → r.active ≡ false
      idle_cons a idle zero r e = ground arith
      idle_cons a idle (suc j) r e = idle j r e

module _ (sem : Semaphore) where
  open sem use {S}

  visit_idle : (r : ResolverHealth S) (now : ℕ) → r.active ≡ false → visit sem r now ≡ inactive
  unfolding visit
  visit_idle r now h = rw h refl

  -- A scan of resolvers that are all inactive leaves the tally as it was.
  scan_idle :
      (rs : List (ResolverHealth S)) (now offset k i : ℕ) (t t' : Tally)
      → ((j : ℕ) (r : ResolverHealth S) → get_elem? rs j ≡ some r → r.active ≡ false)
      → scan sem rs now offset k i t ≡ inr t'
      → t'.active ≡ t.active
  unfolding scan scan_visit
  scan_idle rs now offset zero i t t' idle h = ground arith
  scan_idle rs now offset (suc k) i t t' idle h =
      elim (Option-cases (get_elem? rs (place sem rs offset i))) [
        | inl e ↦ ap (λ u. u.active) (sym (inr-injective t t' (rw (e, scan) at h)))
        | inr (r, e) ↦
            scan_idle rs now offset k (i + 1) t t' idle
              (rw (e, scan, visit_idle r now (idle _ r e), scan_visit, count) at h)
      ]

  -- A pass that sleeps has an active resolver.
  sleeper :
      (rs : List (ResolverHealth S)) (now offset d : ℕ) (o : (ℕ × ResolverHealth S) ⊎ Tally)
      → scan sem rs now offset (length rs) 0 no_tally ≡ o
      → conclude sem rs now o ≡ sleep d
      → (j : ℕ) × (r : ResolverHealth S) × (get_elem? rs j ≡ some r) × (r.active ≡ true)
  unfolding conclude
  sleeper rs now offset d (inl (j, r)) e h = absurd (ground arith)
  sleeper rs now offset d (inr t) e h = elim (active_or_idle rs) [
    | inl found ↦ found
    | inr idle ↦
        let none_active : t.active ≡ 0 = scan_idle rs now offset (length rs) 0 no_tally t idle e in
        absurd (ground arith)
  ]

  -- What a pass that began with these resolvers at `now` ends with: the pool after it, and how it
  -- ended.
  abbrev pub IsEnded : List (ResolverHealth S) → ℕ → ResolverPool S → Outcome S → Type 0
  IsEnded rs now p' (reserved j r') =
      (r : ResolverHealth S) × (get_elem? rs j ≡ some r)
      × IsEligible sem r now
      × (try_acquire sem r ≡ some r')
      × (p'.resolvers ≡ set rs j r')
  IsEnded rs now p' no_resolver =
      ((j : ℕ) (r : ResolverHealth S) → get_elem? rs j ≡ some r → r.active ≡ false)
      × (p'.resolvers ≡ rs)
  IsEnded rs now p' (sleep d) = (0 < d) × IsSoonest rs (now + d) × (p'.resolvers ≡ rs)
  IsEnded rs now p' (wait_for w) =
      ((r : ResolverHealth S) × (get_elem? rs w ≡ some r)
        × IsEligible sem r now
        × (try_acquire sem r ≡ none))
      × ((j : ℕ) (r : ResolverHealth S)
          → get_elem? rs j ≡ some r
          → IsEligible sem r now
          → try_acquire sem r ≡ none)
      × (p'.resolvers ≡ rs)
  IsEnded rs now p' again = ⊥

  -- The pool after a pass keeps its resolvers, but for the one that was reserved.
  abbrev kept : List (ResolverHealth S) → Outcome S → List (ResolverHealth S)
  kept rs (reserved j r) = set rs j r
  kept rs _ = rs

  keep-kept :
      (p : ResolverPool S) (o : Outcome S)
      → ((keep p o).resolvers ≡ kept p.resolvers o) × ((keep p o).cursor ≡ p.cursor)
  keep-kept p (reserved j r) = (refl, refl)
  keep-kept p no_resolver = (refl, refl)
  keep-kept p (sleep d) = (refl, refl)
  keep-kept p (wait_for w) = (refl, refl)
  keep-kept p again = (refl, refl)

  pass-IsEnded :
      (rs : List (ResolverHealth S)) (now : ℕ) (p' : ResolverPool S) (o : Outcome S)
      → IsRight sem rs now o
      → ((d : ℕ)
          → o ≡ sleep d
          → (j : ℕ) × (r : ResolverHealth S) × (get_elem? rs j ≡ some r) × (r.active ≡ true))
      → p'.resolvers ≡ kept rs o
      → IsEnded rs now p' o
  pass-IsEnded rs now p' (reserved j r') (r, e, el, free) awake k = (r, e, el, free, k)
  pass-IsEnded rs now p' no_resolver idle awake k = (idle, k)
  pass-IsEnded rs now p' again bad awake k = absurd bad
  pass-IsEnded rs now p' (wait_for w) (one, all) awake k = (one, all, k)
  pass-IsEnded rs now p' (sleep d) (same, asleep) awake k =
      let (j, r, e, a) = awake d refl in
      let (s, n) = soonest_of_active rs j r e a in
      let soon = soonest-IsSoonest rs s n in
      let late : now < s = elim (asleep soon.index soon.first soon.listed) [
        | inl idle ↦ absurd (ground (arith, idle, soon.active))
        | inr b ↦ rw (← soon.ends) (benched_until sem soon.first now b)
      ] in
      let wakes : now + d ≡ s = rw same (sleep_length sem rs now s n late) in
      (omega (arith, late, wakes), rw wakes soon, k)

  -- Whatever the pool is like, as long as the cursor has not reached the end of its range. A pass
  -- that reserves a resolver takes a permit of one that is active and not benched, and the pool
  -- holds that permit less; any other pass leaves the resolvers as they are. A pass that returns
  -- `None` has only inactive resolvers; one that sleeps does so until the first moment at which the
  -- sentence of an active resolver ends, which is later than now; one that waits does so for a
  -- resolver that is active and not benched, and no such resolver has a permit free. No pass ends
  -- any other way, and each one on a pool that is not empty moves the cursor on by one.
  pub reserve_pass-IsEnded :
      (p : ResolverPool S) (now : ℕ)
      → p.cursor + length p.resolvers < u64_mod
      → let (p', o) = reserve_pass sem p now in
        IsEnded p.resolvers now p' o
        × (p'.cursor ≡ (if is_empty p.resolvers then p.cursor else wrapping_add p.cursor 1))
  unfolding reserve_pass
  reserve_pass-IsEnded p now fits =
      let right = reserve_pass-IsRight sem p now fits in
      elim (Bool-cases (is_empty p.resolvers)) [
        | inl e ↦ rw e ((simp e at right, refl), refl)
        | inr e ↦
            let o =
              conclude sem p.resolvers now
                (scan sem p.resolvers now p.cursor (length p.resolvers) 0 no_tally) in
            let p1 = record p { cursor = wrapping_add p.cursor 1 } in
            let k = keep-kept p1 o in
            rw e (
              pass-IsEnded p.resolvers now (keep p1 o) o (simp e at right)
                  (λ d h. sleeper p.resolvers now p.cursor d _ refl h) k.0,
              k.1,
            )
      ]
