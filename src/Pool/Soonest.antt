-- ===== src/Pool/Soonest.antt =====
-- The soonest end of a sentence in the pool, as `sleep_until_first_eligible` (src/health.rs) finds
-- it.
use blastdns.Prelude.{
  ℕ, zero, suc, ◌≤◌, ◌≡◌, inl, inr, refl, min, true, false, none, some, List, [], ◌∷◌, arith,
  get_elem?, leb, Bool-cases, Option-cases,
}
use mathlib.Core.Option
use blastdns.Health.{ResolverHealth}
use blastdns.Pool.{soonest}

module _ {S : Type 0} where
  -- The value is the least end of a sentence among the active resolvers.
  pub record IsSoonest (rs : List (ResolverHealth S)) (s : ℕ) : Type 0 where
    pub index : ℕ
    pub first : ResolverHealth S
    pub listed : get_elem? rs index ≡ some first
    pub active : first.active ≡ true
    pub ends : first.benched_until_ns ≡ s
    pub least :
        (j : ℕ) (r : ResolverHealth S)
        → get_elem? rs j ≡ some r
        → r.active ≡ true
        → s ≤ r.benched_until_ns

  soonest-none :
      (rs : List (ResolverHealth S))
      → soonest rs ≡ none
      → (j : ℕ) (r : ResolverHealth S) → get_elem? rs j ≡ some r
      → r.active ≡ false
  unfolding soonest
  soonest-none [] h j r e = ground arith
  soonest-none (x ∷ rs) h zero r e = ground arith
  soonest-none (x ∷ rs) h (suc j) r e = ground (arith, soonest-none rs _ j r e)

  IsSoonest-later :
      (x : ResolverHealth S) (rs : List (ResolverHealth S)) (s : ℕ)
      → IsSoonest rs s
      → (x.active ≡ true → s ≤ x.benched_until_ns)
      → IsSoonest (x ∷ rs) s
  IsSoonest-later x rs s h k = record {
    index = suc h.index;
    first = h.first;
    listed = h.listed;
    active = h.active;
    ends = h.ends;
    least = least;
  }
    where
      least :
          (j : ℕ) (r : ResolverHealth S)
          → get_elem? (x ∷ rs) j ≡ some r
          → r.active ≡ true
          → s ≤ r.benched_until_ns
      least zero r e a = let same = Option.some-injective x r e in rw (← same) (k (rw same a))
      least (suc j) r e a = h.least j r e a

  IsSoonest-first :
      (x : ResolverHealth S) (rs : List (ResolverHealth S))
      → x.active ≡ true
      → ((j : ℕ) (r : ResolverHealth S)
          → get_elem? rs j ≡ some r
          → r.active ≡ true
          → x.benched_until_ns ≤ r.benched_until_ns)
      → IsSoonest (x ∷ rs) x.benched_until_ns
  IsSoonest-first x rs a k = record {
    index = 0;
    first = x;
    listed = refl;
    active = a;
    ends = refl;
    least = least;
  }
    where
      least :
          (j : ℕ) (r : ResolverHealth S)
          → get_elem? (x ∷ rs) j ≡ some r
          → r.active ≡ true
          → x.benched_until_ns ≤ r.benched_until_ns
      least zero r e _ = rw (Option.some-injective x r e) (omega arith)
      least (suc j) r e b = k j r e b

  pub soonest-IsSoonest :
      (rs : List (ResolverHealth S)) (s : ℕ) → soonest rs ≡ some s → IsSoonest rs s
  unfolding soonest
  soonest-IsSoonest [] s h = cc
  soonest-IsSoonest (x ∷ rs) s h = elim (Bool-cases x.active) [
    | inr idle ↦ IsSoonest-later x rs s (soonest-IsSoonest rs s (ground arith)) (λ a. cc)
    | inl a ↦ elim (Option-cases (soonest rs)) [
      | inl n ↦
          let same : x.benched_until_ns ≡ s = ground arith in
          rw (← same)
            (IsSoonest-first x rs a (λ j r e b. absurd (ground (arith, soonest-none rs n j r e))))
      | inr (t, n) ↦
          let same : min x.benched_until_ns t ≡ s = ground arith in
          let rest = soonest-IsSoonest rs t n in
          elim (Bool-cases (leb x.benched_until_ns t)) [
            | inl le ↦
                let here : x.benched_until_ns ≡ s = ground arith in
                rw (← here) (IsSoonest-first x rs a (λ j r e b. ground (arith, rest.least j r e b)))
            | inr gt ↦
                let there : t ≡ s = ground arith in
                rw (← there) (IsSoonest-later x rs t rest (λ _. ground arith))
          ]
    ]
  ]

  -- With an active resolver in the pool, there is a soonest end.
  pub soonest_of_active :
      (rs : List (ResolverHealth S)) (j : ℕ) (r : ResolverHealth S)
      → get_elem? rs j ≡ some r
      → r.active ≡ true
      → (s : ℕ) × (soonest rs ≡ some s)
  soonest_of_active rs j r e a = elim (Option-cases (soonest rs)) [
    | inl n ↦ absurd (ground (arith, soonest-none rs n j r e))
    | inr found ↦ found
  ]
