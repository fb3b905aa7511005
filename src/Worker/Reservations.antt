-- ===== src/Worker/Reservations.antt =====
-- The permits of the resolvers (src/health.rs) that the workers of src/worker.rs have, and what a
-- change of the pool does to them.
use mathlib.Core.Option
use mathlib.Core.Path.{subst}
use blastdns.Prelude.{
  ℕ, zero, suc, ◌+◌, ◌≡◌, ◌≢◌, sym, ap, refl, ◌∙◌, some, List, [], ◌∷◌, inl, inr, arith, get_elem?,
  set, ◌==◌, if◌then◌else◌, Option-cases, ◌⊎◌,
}
use blastdns.Controller.Runs.{update}
use blastdns.Health.{ResolverHealth, release, try_acquire}
use blastdns.Pool.{after_wait}
use blastdns.Semaphore.{Semaphore, SemaphoreLaws}
use blastdns.Worker.Tasks.{Pc, holding, slotted, throttled, querying, releasing}

-- Whether a worker has a reservation of resolver `j`, and so a permit of it.
abbrev pub has : {T : Type 0} → ℕ → Pc T → ℕ
has j (holding w i) = if i == j then 1 else 0
has j (slotted w i) = if i == j then 1 else 0
has j (throttled w i) = if i == j then 1 else 0
has j (querying w i) = if i == j then 1 else 0
has j (releasing i) = if i == j then 1 else 0
has j _ = 0

-- How many reservations of resolver `j` there are.
abbrev pub reservations : {T : Type 0} → ℕ → List (Pc T) → ℕ
reservations j [] = 0
reservations j (pc ∷ pcs) = has j pc + reservations j pcs

-- What is found at `j` after the entry at `i` was changed from `h` to `h'`.
abbrev pub Changed : {A : Type 0} → ℕ → ℕ → A → A → A → Type 0
Changed i j h g h' = ((i ≡ j) × (h' ≡ g)) ⊎ ((i ≢ j) × (h' ≡ h))

Changed-suc :
    {A : Type 0} (i j : ℕ) (h g h' : A) → Changed i j h g h' → Changed (suc i) (suc j) h g h'
Changed-suc i j h g h' (inl (e, q)) = inl (ap suc e, q)
Changed-suc i j h g h' (inr (n, q)) = inr ((λ e. n (omega arith)), q)

module _ {S : Type 0} where
  pub get_elem?-update :
      (hs : List (ResolverHealth S)) (i j : ℕ) (f : ResolverHealth S → ResolverHealth S)
      (h' : ResolverHealth S)
      → get_elem? (update hs i f) j ≡ some h'
      → (h : ResolverHealth S) × (get_elem? hs j ≡ some h) × Changed i j h (f h) h'
  get_elem?-update [] i j f h' e = cc
  get_elem?-update (h ∷ hs) zero zero f h' e =
      (h, refl, inl (refl, sym (Option.some-injective _ _ e)))
  get_elem?-update (h ∷ hs) zero (suc j) f h' e = (h', e, inr ((λ z. omega arith), refl))
  get_elem?-update (h ∷ hs) (suc i) zero f h' e =
      (h, refl, inr ((λ z. omega arith), sym (Option.some-injective _ _ e)))
  get_elem?-update (h ∷ hs) (suc i) (suc j) f h' e =
      let (g, at, c) = get_elem?-update hs i j f h' e in (g, at, Changed-suc i j g (f g) h' c)

  pub get_elem?-set :
      (hs : List (ResolverHealth S)) (i j : ℕ) (g h' : ResolverHealth S)
      → get_elem? (set hs i g) j ≡ some h'
      → (h : ResolverHealth S) × (get_elem? hs j ≡ some h) × Changed i j h g h'
  get_elem?-set [] i j g h' e = cc
  get_elem?-set (h ∷ hs) zero zero g h' e = (h, refl, inl (refl, sym (Option.some-injective _ _ e)))
  get_elem?-set (h ∷ hs) zero (suc j) g h' e = (h', e, inr ((λ z. omega arith), refl))
  get_elem?-set (h ∷ hs) (suc i) zero g h' e =
      (h, refl, inr ((λ z. omega arith), sym (Option.some-injective _ _ e)))
  get_elem?-set (h ∷ hs) (suc i) (suc j) g h' e =
      let (h0, at, c) = get_elem?-set hs i j g h' e in (h0, at, Changed-suc i j h0 g h' c)

pub reservations-set :
    {T : Type 0} (k : ℕ) (pcs : List (Pc T)) (i : ℕ) (pc pc' : Pc T)
    → get_elem? pcs i ≡ some pc
    → reservations k (set pcs i pc') + has k pc ≡ reservations k pcs + has k pc'
reservations-set k [] i pc pc' e = cc
reservations-set k (x ∷ pcs) zero pc pc' e =
    let same : has k x ≡ has k pc = ap (has k) (Option.some-injective x pc e) in omega arith
reservations-set k (x ∷ pcs) (suc i) pc pc' e = omega (arith, reservations-set k pcs i pc pc' e)

module _ (sem : Semaphore) (laws : SemaphoreLaws sem) where
  open sem use {S, available_permits}

  -- From the pool `hs` to `hs'`, what each resolver's permits lose is what its reservations gain.
  abbrev pub Moved : List (ResolverHealth S) → List (ResolverHealth S) → (ℕ → ℕ) → (ℕ → ℕ) → Type 0
  Moved hs hs' before after =
      (j : ℕ) (h' : ResolverHealth S)
      → get_elem? hs' j ≡ some h'
      → (h : ResolverHealth S) × (get_elem? hs j ≡ some h)
        × (available_permits h'.inflight + after j ≡ available_permits h.inflight + before j)

  pub Moved-same :
      (hs : List (ResolverHealth S)) (before after : ℕ → ℕ)
      → ((j : ℕ) → before j ≡ after j)
      → Moved hs hs before after
  Moved-same hs before after same j h' e = (h', e, omega (arith, same j))

  -- A change of one resolver.
  pub Moved-update :
      (hs : List (ResolverHealth S)) (i : ℕ) (f : ResolverHealth S → ResolverHealth S)
      (before after : ℕ → ℕ)
      → ((h : ResolverHealth S)
          → available_permits (f h).inflight + after i ≡ available_permits h.inflight + before i)
      → ((j : ℕ) → i ≢ j → before j ≡ after j)
      → Moved hs (update hs i f) before after
  Moved-update hs i f before after here there j h' e =
      let (h, at, c) = get_elem?-update hs i j f h' e in (h, at, balanced h c)
    where
      balanced :
          (h : ResolverHealth S)
          → Changed i j h (f h) h'
          → available_permits h'.inflight + after j ≡ available_permits h.inflight + before j
      balanced h (inl (same, q)) =
          ap (λ x. available_permits x.inflight + after j) q
          ∙ subst
              (λ k.
                available_permits (f h).inflight + after k
                ≡ available_permits h.inflight + before k)
              same (here h)
      balanced h (inr (other, q)) =
          ap (λ x. available_permits x.inflight + after j) q ∙ omega (arith, there j other)

  pub Moved-set :
      (hs : List (ResolverHealth S)) (i : ℕ) (g : ResolverHealth S) (before after : ℕ → ℕ)
      → ((h : ResolverHealth S)
          → get_elem? hs i ≡ some h
          → available_permits g.inflight + after i ≡ available_permits h.inflight + before i)
      → ((j : ℕ) → i ≢ j → before j ≡ after j)
      → Moved hs (set hs i g) before after
  Moved-set hs i g before after here there j h' e =
      let (h, at, c) = get_elem?-set hs i j g h' e in (h, at, balanced h at c)
    where
      balanced :
          (h : ResolverHealth S)
          → get_elem? hs j ≡ some h
          → Changed i j h g h'
          → available_permits h'.inflight + after j ≡ available_permits h.inflight + before j
      balanced h at (inl (same, q)) =
          ap (λ x. available_permits x.inflight + after j) q
          ∙ subst
              (λ k.
                get_elem? hs k ≡ some h
                → available_permits g.inflight + after k ≡ available_permits h.inflight + before k)
              same (here h) at
      balanced h at (inr (other, q)) =
          ap (λ x. available_permits x.inflight + after j) q ∙ omega (arith, there j other)

  pub try_acquire_lem :
      (h h' : ResolverHealth S)
      → try_acquire sem h ≡ some h'
      → available_permits h'.inflight + 1 ≡ available_permits h.inflight
  unfolding try_acquire
  try_acquire_lem h h' e = elim (Option-cases (sem.try_acquire h.inflight)) [
    | inl n ↦ ground (arith, n)
    | inr (s, q) ↦ ground (arith, q, laws.try_acquire-some h.inflight s q)
  ]

  pub taken_permit :
      (h h' : ResolverHealth S) (i : ℕ)
      → try_acquire sem h ≡ some h'
      → available_permits h'.inflight + (if i == i then 1 else 0) ≡ available_permits h.inflight + 0
  taken_permit h h' i e = ground (arith, try_acquire_lem h h' e)

  pub after_wait_lem :
      (h : ResolverHealth S) (now : ℕ)
      → let (h', kept) = after_wait sem h now in
        available_permits h'.inflight + (if kept then 1 else 0) ≡ available_permits h.inflight + 1
  unfolding after_wait release
  after_wait_lem h now = ground (arith, laws.available_permits-add_permits h.inflight 1)

  pub elsewhere : (i j : ℕ) → i ≢ j → ◌≡◌ {A = ℕ} 0 (if i == j then 1 else 0)
  elsewhere i j n = ground arith
