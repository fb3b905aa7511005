-- ===== src/Worker/Dispatches.antt =====
-- What the counters of a resolver (src/health.rs) say while workers (src/worker.rs) query it: how
-- many queries were dispatched, and how many of them came to an end.
use mathlib.Core.Option
use mathlib.Core.Path.{subst}
use blastdns.Prelude.{
  ℕ, zero, suc, ◌+◌, ◌%◌, ◌≡◌, ◌≢◌, sym, ap, refl, some, List, [], ◌∷◌, inl, inr, arith, get_elem?,
  set, ◌==◌, if◌then◌else◌, u64_mod,
}
use blastdns.Controller.Runs.{update}
use blastdns.Health.{ResolverHealth}
use blastdns.Health.Accounts.{finished}
use blastdns.Worker.Reservations.{Changed, get_elem?-update, get_elem?-set}
use blastdns.Worker.Tasks.{Pc, querying}

-- Whether a worker has dispatched a query to resolver `j` that has not come to an end.
abbrev pub asks : {T : Type 0} → ℕ → Pc T → ℕ
asks j (querying w i) = if i == j then 1 else 0
asks j _ = 0

abbrev pub asking : {T : Type 0} → ℕ → List (Pc T) → ℕ
asking j [] = 0
asking j (pc ∷ pcs) = asks j pc + asking j pcs

pub asking-set :
    {T : Type 0} (k : ℕ) (pcs : List (Pc T)) (i : ℕ) (pc pc' : Pc T)
    → get_elem? pcs i ≡ some pc
    → asking k (set pcs i pc') + asks k pc ≡ asking k pcs + asks k pc'
asking-set k [] i pc pc' e = cc
asking-set k (x ∷ pcs) zero pc pc' e =
    let same : asks k x ≡ asks k pc = ap (asks k) (Option.some-injective x pc e) in omega arith
asking-set k (x ∷ pcs) (suc i) pc pc' e = omega (arith, asking-set k pcs i pc pc' e)

module _ {S : Type 0} where
  -- What the dispatches and the ends of a resolver's queries gain, on either side.
  abbrev pub Agrees : ResolverHealth S → ResolverHealth S → ℕ → ℕ → Type 0
  Agrees h h' before after =
      (h'.attempted + finished h + before) % u64_mod ≡ (h.attempted + finished h' + after) % u64_mod

  abbrev pub Counted :
      List (ResolverHealth S) → List (ResolverHealth S) → (ℕ → ℕ) → (ℕ → ℕ) → Type 0
  Counted hs hs' before after =
      (j : ℕ) (h' : ResolverHealth S)
      → get_elem? hs' j ≡ some h'
      → (h : ResolverHealth S) × (get_elem? hs j ≡ some h) × Agrees h h' (before j) (after j)

  pub Counted-same : (hs : List (ResolverHealth S)) (n : ℕ → ℕ) → Counted hs hs n n
  Counted-same hs n j h' e = (h', e, refl)

  Counted_of_Changed :
      (i j : ℕ) (h g h' : ResolverHealth S) (before after : ℕ → ℕ)
      → Changed i j h g h'
      → Agrees h g (before i) (after i)
      → ((j : ℕ) → i ≢ j → before j ≡ after j)
      → Agrees h h' (before j) (after j)
  Counted_of_Changed i j h g h' before after (inl (same, q)) here there =
      subst (λ x. Agrees h x (before j) (after j)) (sym q)
        (subst (λ k. Agrees h g (before k) (after k)) same here)
  Counted_of_Changed i j h g h' before after (inr (other, q)) here there =
      subst (λ x. Agrees h x (before j) (after j)) (sym q) (rw (there j other) refl)

  pub Counted-update :
      (hs : List (ResolverHealth S)) (i : ℕ) (f : ResolverHealth S → ResolverHealth S)
      (before after : ℕ → ℕ)
      → ((h : ResolverHealth S) → Agrees h (f h) (before i) (after i))
      → ((j : ℕ) → i ≢ j → before j ≡ after j)
      → Counted hs (update hs i f) before after
  Counted-update hs i f before after here there j h' e =
      let (h, at, c) = get_elem?-update hs i j f h' e in
      (h, at, Counted_of_Changed i j h (f h) h' before after c (here h) there)

  pub Counted-set :
      (hs : List (ResolverHealth S)) (i : ℕ) (g : ResolverHealth S) (before after : ℕ → ℕ)
      → ((h : ResolverHealth S) → get_elem? hs i ≡ some h → Agrees h g (before i) (after i))
      → ((j : ℕ) → i ≢ j → before j ≡ after j)
      → Counted hs (set hs i g) before after
  Counted-set hs i g before after here there j h' e =
      let (h, at, c) = get_elem?-set hs i j g h' e in (h, at, changed h at c)
    where
      changed :
          (h : ResolverHealth S)
          → get_elem? hs j ≡ some h
          → Changed i j h g h'
          → Agrees h h' (before j) (after j)
      changed h at (inl (same, q)) =
          Counted_of_Changed i j h g h' before after (inl (same, q))
            (here h (subst (λ k. get_elem? hs k ≡ some h) (sym same) at)) there
      changed h at (inr (other, q)) =
          subst (λ x. Agrees h x (before j) (after j)) (sym q) (rw (there j other) refl)
