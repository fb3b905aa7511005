-- ===== src/Worker/Reserved.antt =====
-- The resolver that a pass of `reserve` (src/health.rs) has reserved, in the pool after it.
use mathlib.Core.Option
use blastdns.Prelude.{
  ap, ℕ, zero, suc, ◌≡◌, refl, some, List, [], ◌∷◌, length, arith, get_elem?, set, is_empty,
  Bool-cases, inl, inr, wrapping_add, ◌⊎◌,
}
use blastdns.Controller.Runs.{update}
use blastdns.Health.{ResolverHealth}
use blastdns.Pool.{ResolverPool, Tally, reserved, reserve_pass, conclude, keep, scan, no_tally}
use blastdns.Pool.Scan.{scan-inl}
use blastdns.Semaphore.{Semaphore}

module _ {S : Type 0} where
  pub get_elem?-set_self :
      (hs : List (ResolverHealth S)) (j : ℕ) (h g : ResolverHealth S)
      → get_elem? hs j ≡ some h
      → get_elem? (set hs j g) j ≡ some g
  get_elem?-set_self [] j h g e = cc
  get_elem?-set_self (x ∷ hs) zero h g e = refl
  get_elem?-set_self (x ∷ hs) (suc j) h g e = get_elem?-set_self hs j h g e

  pub get_elem?-update_self :
      (hs : List (ResolverHealth S)) (j : ℕ) (f : ResolverHealth S → ResolverHealth S)
      (h : ResolverHealth S)
      → get_elem? hs j ≡ some h
      → get_elem? (update hs j f) j ≡ some (f h)
  get_elem?-update_self [] j f h e = cc
  get_elem?-update_self (x ∷ hs) zero f h e = cc
  get_elem?-update_self (x ∷ hs) (suc j) f h e = get_elem?-update_self hs j f h e

  pub update-set :
      (hs : List (ResolverHealth S)) (j : ℕ) (f : ResolverHealth S → ResolverHealth S)
      (h : ResolverHealth S)
      → get_elem? hs j ≡ some h
      → update hs j f ≡ set hs j (f h)
  update-set [] j f h e = cc
  update-set (x ∷ hs) zero f h e = ap (λ y. f y ∷ hs) (Option.some-injective x h e)
  update-set (x ∷ hs) (suc j) f h e = ap (λ ys. x ∷ ys) (update-set hs j f h e)

  pub set-set :
      (hs : List (ResolverHealth S)) (j : ℕ) (h g : ResolverHealth S)
      → set (set hs j h) j g ≡ set hs j g
  set-set [] j h g = refl
  set-set (x ∷ hs) zero h g = refl
  set-set (x ∷ hs) (suc j) h g = ap (λ ys. x ∷ ys) (set-set hs j h g)

module _ (sem : Semaphore) where
  open sem use {S}

  -- The pool after a pass that reserved a resolver has that resolver, with its permit taken.
  conclude-reserved :
      (p : ResolverPool S) (c now : ℕ) (o : (ℕ × ResolverHealth S) ⊎ Tally) (j : ℕ)
      (h' : ResolverHealth S)
      → ((i : ℕ) (g : ResolverHealth S)
          → o ≡ inl (i, g)
          → (h : ResolverHealth S) × (get_elem? p.resolvers i ≡ some h))
      → conclude sem p.resolvers now o ≡ reserved j h'
      → get_elem? (keep (record p { cursor = c }) (conclude sem p.resolvers now o)).resolvers j
        ≡ some h'
  unfolding conclude
  conclude-reserved p c now (inl (i, g)) j h' found e =
      let (h, at) = found i g refl in
      let at_i = get_elem?-set_self p.resolvers i h g at in ground (arith, at_i, e)
  conclude-reserved p c now (inr t) j h' found e = ground (arith, e)

  pub reserve_pass-reserved :
      (p : ResolverPool S) (now j : ℕ) (h' : ResolverHealth S)
      → (reserve_pass sem p now).1 ≡ reserved j h'
      → get_elem? (reserve_pass sem p now).0.resolvers j ≡ some h'
  unfolding reserve_pass
  reserve_pass-reserved p now j h' e = elim (Bool-cases (is_empty p.resolvers)) [
    | inl n ↦ absurd (ground (arith, n, e))
    | inr n ↦ simp n (
        conclude-reserved p (wrapping_add p.cursor 1) now
          (scan sem p.resolvers now p.cursor (length p.resolvers) 0 no_tally) j h'
          (λ i g q.
            let (h, at, _) =
              scan-inl sem p.resolvers now p.cursor (length p.resolvers) 0 no_tally i g q in
            (h, at))
          (simp n at e))
  ]
