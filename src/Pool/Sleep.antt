-- ===== src/Pool/Sleep.antt =====
-- The sleep of `reserve` (src/health.rs) when every active resolver is benched.
use blastdns.Prelude.{
  ℕ, ◌+◌, ◌<◌, ◌≤◌, ◌≡◌, ◌∙◌, ◌⊎◌, inl, inr, refl, sym, ap, Bool, true, false, some, List, u64_mod,
  arith, length, get_elem?, is_empty, Bool-cases, wrapping_add,
}
use mathlib.Core.Path.{subst}
use blastdns.Semaphore.{Semaphore}
use blastdns.Health.{ResolverHealth, is_benched, try_acquire}
use blastdns.Pool.{
  ResolverPool, Outcome, reserved, sleep, soonest, reserve_pass, sleep_until_first_eligible, keep,
}
use blastdns.Pool.Choice.{IsEligible, IsRight, reserve_pass-IsRight, reserve_pass_finds}
use blastdns.Pool.Soonest.{IsSoonest, soonest-IsSoonest, soonest_of_active}

clash : {b : Bool} → b ≡ false → b ≡ true → ⊥
clash f t = cc

module _ (sem : Semaphore) where
  open sem use {S}

  -- What a sleep that begins at `now` leads to.
  pub record IsTimely (p : ResolverPool S) (now d : ℕ) : Type 0 where
    pub index : ℕ
    pub first : ResolverHealth S
    pub listed : get_elem? p.resolvers index ≡ some first
    pub eligible : IsEligible sem first (now + d)
    pub not_before :
        (t : ℕ)
        → t < now + d
        → (j : ℕ) (r : ResolverHealth S) → get_elem? p.resolvers j ≡ some r
        → r.active ≡ true
        → is_benched r t ≡ true
    pub finds :
        (q : ResolverHealth S)
        → try_acquire sem first ≡ some q
        → (i : ℕ) × (x : ResolverHealth S) × ((reserve_pass sem
              (reserve_pass sem p now).0
              (now + d)).1
            ≡ reserved i x)

  benched_later :
      (r : ResolverHealth S) (s t : ℕ) → s ≤ r.benched_until_ns → t < s → is_benched r t ≡ true
  unfolding is_benched
  benched_later r s t h k = ground arith

  pub benched_until :
      (r : ResolverHealth S) (now : ℕ) → is_benched r now ≡ true → now < r.benched_until_ns
  unfolding is_benched
  benched_until r now h = ground arith

  free_at : (r : ResolverHealth S) (t : ℕ) → r.benched_until_ns ≡ t → is_benched r t ≡ false
  unfolding is_benched
  free_at r t h = ground arith

  pub sleep_length :
      (rs : List (ResolverHealth S)) (now s : ℕ)
      → soonest rs ≡ some s
      → now < s
      → now + sleep_until_first_eligible rs now ≡ s
  unfolding sleep_until_first_eligible
  sleep_length rs now s h k = rw h (omega arith)

  keep-sleep : (p : ResolverPool S) (o : Outcome S) (d : ℕ) → o ≡ sleep d → keep p o ≡ p
  keep-sleep p (reserved j r) d h = cc
  keep-sleep p Outcome.no_resolver d h = refl
  keep-sleep p (sleep e) d h = refl
  keep-sleep p (Outcome.wait_for w) d h = refl
  keep-sleep p Outcome.again d h = refl

  reserve_pass-sleep :
      (p : ResolverPool S) (now d : ℕ)
      → (reserve_pass sem p now).1 ≡ sleep d
      → p.cursor + 1 < u64_mod
      → (reserve_pass sem p now).0 ≡ record p { cursor = p.cursor + 1 }
  unfolding reserve_pass
  reserve_pass-sleep p now d h fits = elim (Bool-cases (is_empty p.resolvers)) [
    | inl e ↦ absurd (ground arith)
    | inr e ↦
        let next : wrapping_add p.cursor 1 ≡ p.cursor + 1 = omega arith in
        rw e (
          keep-sleep (record p { cursor = wrapping_add p.cursor 1 }) _ d (ground arith)
          ∙ ap (λ c. record p { cursor = c }) next)
  ]

  -- When a pass sleeps, the pool has an active resolver, and the cursor has not reached the end of
  -- its range: the sleep ends at the first moment at which one of the active resolvers is not
  -- benched, not later, and all of them are benched until then. If that resolver has a permit and
  -- nothing else has changed, the next pass reserves one.
  pub reserve_pass-IsTimely :
      (p : ResolverPool S) (now d j : ℕ) (r : ResolverHealth S)
      → p.cursor + 1 + length p.resolvers < u64_mod
      → (reserve_pass sem p now).1 ≡ sleep d
      → get_elem? p.resolvers j ≡ some r
      → r.active ≡ true
      → IsTimely p now d
  reserve_pass-IsTimely p now d j r fits h e a =
      let right : IsRight sem p.resolvers now (sleep d) =
        subst (IsRight sem p.resolvers now) h (reserve_pass-IsRight sem p now (omega arith)) in
      let (s, n) = soonest_of_active p.resolvers j r e a in
      let soon = soonest-IsSoonest p.resolvers s n in
      let late : now < s = still_benched soon right.1 in
      let wakes : now + d ≡ s = rw right.0 (sleep_length p.resolvers now s n late) in
      let eligible : IsEligible sem soon.first (now + d) = record {
        active = soon.active;
        free = free_at soon.first (now + d) (soon.ends ∙ sym wakes);
      } in
      record {
        index = soon.index;
        first = soon.first;
        listed = soon.listed;
        eligible = eligible;
        not_before =
            λ t lt k x e' b. benched_later x s t (soon.least k x e' b) (omega (arith, lt, wakes));
        finds = λ q free. rw (reserve_pass-sleep p now d h (omega arith)) (
            reserve_pass_finds sem (record p { cursor = p.cursor + 1 }) (now + d) soon.index
              soon.first q fits soon.listed eligible free);
      }
    where
      still_benched :
          {s : ℕ}
          → IsSoonest p.resolvers s
          → ((k : ℕ) (x : ResolverHealth S)
              → get_elem? p.resolvers k ≡ some x
              → (x.active ≡ false) ⊎ (is_benched x now ≡ true))
          → now < s
      still_benched soon benched = elim (benched soon.index soon.first soon.listed) [
        | inl idle ↦ absurd (clash idle soon.active)
        | inr b ↦ rw (← soon.ends) (benched_until soon.first now b)
      ]
