-- ===== src/Pool/Scan.antt =====
-- The `for` loop of `reserve` (src/health.rs): what a scan has seen when it ends.
use blastdns.Prelude.{
  ℕ, zero, suc, ◌+◌, ◌-◌, ◌%◌, ◌≤◌, ◌<◌, ◌≡◌, ◌⊎◌, inl, inr, refl, none, some, List, wrapping_add,
  u64_mod, arith, length, get_elem?, Option-cases, sym, get_elem?-none, Bool-cases, leb, leb→le,
}
use native.Mathlib.Nat.{mod-lt, mod-add-mod, mod-eq_of_lt, add-mod_right, add-zero}
use mathlib.Core.Option
use mathlib.Core.Path.{subst, ◌∙◌}
use blastdns.Semaphore.{Semaphore}
use blastdns.Health.{ResolverHealth}
use blastdns.Pool.{Visit, inactive, benched, busy, taken, Tally, count, visit, scan_visit, scan}

rotation : (offset n j : ℕ) → j < n → (m : ℕ) × (m < n) × ((offset + m) % n ≡ j)
rotation offset n j l =
    let o : ℕ = offset % n in
    let small : o < n = mod-lt offset (omega arith) in
    elim (Bool-cases (leb o j)) [
      | inl p ↦
          let le : o ≤ j = leb→le o j p in
          let sum : o + (j - o) ≡ j = omega arith in
          (j - o, omega arith, sym (mod-add-mod offset n (j - o)) ∙ (rw sum (mod-eq_of_lt l)))
      | inr p ↦
          let lt : j < o = ground arith in
          let sum : o + (j + n - o) ≡ j + n = omega arith in
          (
            j + n - o,
            omega arith,
            sym (mod-add-mod offset n (j + n - o)) ∙ (rw sum (add-mod_right j n ∙ mod-eq_of_lt l)),
          )
    ]

module _ (sem : Semaphore) where
  open sem use {S}

  -- The resolver at this place of the rotation.
  abbrev pub place : List (ResolverHealth S) → ℕ → ℕ → ℕ
  place rs offset i = wrapping_add offset i % length rs

  scan_visit-inl :
      (v : Visit S) (j : ℕ) (t : Tally) (rest : Tally → (ℕ × ResolverHealth S) ⊎ Tally) (j' : ℕ)
      (r' : ResolverHealth S)
      → scan_visit sem v j t rest ≡ inl (j', r')
      → ((v ≡ taken r') × (j ≡ j')) ⊎ ((t' : Tally) × (rest t' ≡ inl (j', r')))
  unfolding scan_visit
  scan_visit-inl (taken r) j t rest j' r' h = inl (ground arith, ground arith)
  scan_visit-inl inactive j t rest j' r' h = inr (_, h)
  scan_visit-inl benched j t rest j' r' h = inr (_, h)
  scan_visit-inl busy j t rest j' r' h = inr (_, h)

  pub scan-inl :
      (rs : List (ResolverHealth S)) (now offset k i : ℕ) (t : Tally) (j : ℕ)
      (r' : ResolverHealth S)
      → scan sem rs now offset k i t ≡ inl (j, r')
      → (r : ResolverHealth S) × (get_elem? rs j ≡ some r) × (visit sem r now ≡ taken r')
  unfolding scan
  scan-inl rs now offset zero i t j r' h = ground arith
  scan-inl rs now offset (suc k) i t j r' h =
      elim (Option-cases (get_elem? rs (place rs offset i))) [
        | inl e ↦ ground arith
        | inr (r, e) ↦
            elim (scan_visit-inl (visit sem r now) (place rs offset i) t
              (scan sem rs now offset k (i + 1)) j r' (rw (e, scan) at h)) [
                | inl (v, p) ↦ (r, rw (← p) e, v)
                | inr (t', q) ↦ scan-inl rs now offset k (i + 1) t' j r' q
              ]
      ]

  abbrev pub IsSkipped : Visit S → Type 0
  IsSkipped v = (v ≡ inactive) ⊎ ((v ≡ Visit.benched) ⊎ (v ≡ busy))

  scan_visit-inr :
      (v : Visit S) (j : ℕ) (t : Tally) (rest : Tally → (ℕ × ResolverHealth S) ⊎ Tally) (t' : Tally)
      → scan_visit sem v j t rest ≡ inr t'
      → IsSkipped v × (rest (count v j t) ≡ inr t')
  unfolding scan_visit
  scan_visit-inr (taken r) j t rest t' h = ground arith
  scan_visit-inr inactive j t rest t' h = (inl refl, h)
  scan_visit-inr benched j t rest t' h = (inr (inl refl), h)
  scan_visit-inr busy j t rest t' h = (inr (inr refl), h)

  -- A round either keeps the tally, or adds a resolver to it.
  count_grows :
      (v : Visit S) (j : ℕ) (t : Tally)
      → let t' = count v j t in
        (t.active ≤ t'.active) × (t.active + t'.benched ≤ t'.active + t.benched)
  unfolding count
  count_grows inactive j t = ground arith
  count_grows benched j t = ground arith
  count_grows busy j t = ground arith
  count_grows (taken r) j t = ground arith

  -- What a finished scan says of one resolver that it passed.
  pub record Passed (t' : Tally) (v : Visit S) : Type 0 where
    pub skipped : IsSkipped v
    pub none_active : t'.active ≡ 0 → v ≡ inactive
    pub all_benched : t'.benched ≡ t'.active → (v ≡ inactive) ⊎ (v ≡ Visit.benched)

  count-Passed :
      (v : Visit S) (j : ℕ) (t t' : Tally)
      → t.benched ≤ t.active
      → (count v j t).active ≤ t'.active
      → (count v j t).active + t'.benched ≤ t'.active + (count v j t).benched
      → IsSkipped v
      → Passed t' v
  unfolding count
  count-Passed inactive j t t' b g g' s = ground arith
  count-Passed benched j t t' b g g' s = ground arith
  count-Passed busy j t t' b g g' s = ground arith
  count-Passed (taken r) j t t' b g g' s = ground arith

  place-lt :
      (rs : List (ResolverHealth S)) (offset i : ℕ) → 0 < length rs → place rs offset i < length rs
  place-lt rs offset i h = mod-lt (wrapping_add offset i) h

  scan-inr_grows :
      (rs : List (ResolverHealth S)) (now offset k i : ℕ) (t t' : Tally)
      → scan sem rs now offset k i t ≡ inr t'
      → (t.active ≤ t'.active) × (t.active + t'.benched ≤ t'.active + t.benched)
  unfolding scan
  scan-inr_grows rs now offset zero i t t' h = ground arith
  scan-inr_grows rs now offset (suc k) i t t' h =
      elim (Option-cases (get_elem? rs (place rs offset i))) [
        | inl e ↦ ground arith
        | inr (r, e) ↦
            let (_, q) =
              scan_visit-inr (visit sem r now) (place rs offset i) t
                (scan sem rs now offset k (i + 1)) t' (rw (e, scan) at h) in
            omega (
              arith,
              count_grows (visit sem r now) (place rs offset i) t,
              scan-inr_grows rs now offset k (i + 1) (count (visit sem r now) (place rs offset i) t)
                  t' q,
            )
      ]

  scan-inr_place :
      (rs : List (ResolverHealth S)) (now offset i : ℕ) (t' : Tally) (m : ℕ)
      (r r₀ : ResolverHealth S)
      → get_elem? rs (place rs offset i) ≡ some r₀
      → get_elem? rs (place rs offset (i + m)) ≡ some r
      → Passed t' (visit sem r₀ now)
      → ((m' : ℕ)
          → m ≡ suc m'
          → get_elem? rs (place rs offset (i + 1 + m')) ≡ some r
          → Passed t' (visit sem r now))
      → Passed t' (visit sem r now)
  scan-inr_place rs now offset i t' zero r r₀ e₀ e p ih =
      subst (λ x. Passed t' (visit sem x now))
        (Option.some-injective r₀ r
          (sym e₀ ∙ subst (λ x. get_elem? rs (place rs offset x) ≡ some r) (add-zero i) e))
        p
  scan-inr_place rs now offset i t' (suc m) r r₀ e₀ e p ih =
      ih m refl (subst (λ x. get_elem? rs (place rs offset x) ≡ some r) (omega arith) e)

  -- A scan that ends without a resolver has passed every place of its rounds.
  pub scan-inr :
      (rs : List (ResolverHealth S)) (now offset k i : ℕ) (t t' : Tally) (m : ℕ)
      (r : ResolverHealth S)
      → scan sem rs now offset k i t ≡ inr t'
      → 0 < length rs
      → t.benched ≤ t.active
      → m < k
      → get_elem? rs (place rs offset (i + m)) ≡ some r
      → Passed t' (visit sem r now)
  unfolding scan
  scan-inr rs now offset zero i t t' m r h n b l e = absurd (omega arith)
  scan-inr rs now offset (suc k) i t t' m r h n b l e =
      elim (Option-cases (get_elem? rs (place rs offset i))) [
        | inl e' ↦ absurd (omega (arith, get_elem?-none rs _ e', place-lt rs offset i n))
        | inr (r₀, e') ↦
            let (s, q) =
              scan_visit-inr (visit sem r₀ now) (place rs offset i) t
                (scan sem rs now offset k (i + 1)) t' (rw (e', scan) at h) in
            let t₁ = count (visit sem r₀ now) (place rs offset i) t in
            let grown = scan-inr_grows rs now offset k (i + 1) t₁ t' q in
            scan-inr_place rs now offset i t' m r r₀ e' e
              (count-Passed (visit sem r₀ now) (place rs offset i) t t' b grown.0 grown.1 s)
              (λ m' l' e''.
                scan-inr rs now offset k (i + 1) t₁ t' m' r q n
                  (omega (arith, count_grows (visit sem r₀ now) (place rs offset i) t))
                  (omega arith) e'')
      ]

  -- Every place of a pool is reached in as many rounds as there are resolvers.
  pub place-surjective :
      (rs : List (ResolverHealth S)) (offset j : ℕ)
      → offset + length rs < u64_mod
      → j < length rs
      → (m : ℕ) × (m < length rs) × (place rs offset m ≡ j)
  place-surjective rs offset j h l =
      let (m, lt, e) = rotation offset (length rs) j l in
      let fits : wrapping_add offset m ≡ offset + m = omega arith in (m, lt, rw fits e)

  -- What the tally says of the resolver to wait for.
  pub record Waits (rs : List (ResolverHealth S)) (now : ℕ) (t : Tally) : Type 0 where
    pub benched : t.benched ≤ t.active
    pub no_one : t.waitable ≡ none → t.benched ≡ t.active
    pub some_one :
        (w : ℕ)
        → t.waitable ≡ some w
        → (r : ResolverHealth S) × (get_elem? rs w ≡ some r) × (visit sem r now ≡ busy)

  count-Waits :
      (rs : List (ResolverHealth S)) (now j : ℕ) (t : Tally) (r : ResolverHealth S) (v : Visit S)
      → get_elem? rs j ≡ some r
      → visit sem r now ≡ v
      → Waits rs now t
      → Waits rs now (count v j t)
  unfolding count
  count-Waits rs now j t r inactive e e' w = w
  count-Waits rs now j t r benched e e' w = record {
    benched = omega (arith, w.benched);
    no_one = λ h. omega (arith, w.no_one h);
    some_one = w.some_one;
  }
  count-Waits rs now j t r (taken _) e e' w = w
  count-Waits rs now j t r busy e e' w = record {
    benched = omega (arith, w.benched);
    no_one = λ h. ground arith;
    some_one = λ x h. elim (Option-cases t.waitable) [
      | inl n ↦ (r, ground arith, e')
      | inr (y, n) ↦ w.some_one x (ground arith)
    ];
  }

  pub scan-Waits :
      (rs : List (ResolverHealth S)) (now offset k i : ℕ) (t t' : Tally)
      → scan sem rs now offset k i t ≡ inr t'
      → Waits rs now t
      → Waits rs now t'
  unfolding scan
  scan-Waits rs now offset zero i t t' h w = subst (Waits rs now) (ground arith) w
  scan-Waits rs now offset (suc k) i t t' h w =
      elim (Option-cases (get_elem? rs (place rs offset i))) [
        | inl e ↦ subst (Waits rs now) (ground arith) w
        | inr (r, e) ↦
            let (_, q) =
              scan_visit-inr (visit sem r now) (place rs offset i) t
                (scan sem rs now offset k (i + 1)) t' (rw (e, scan) at h) in
            scan-Waits rs now offset k (i + 1) (count (visit sem r now) (place rs offset i) t) t' q
              (count-Waits rs now (place rs offset i) t r (visit sem r now) e refl w)
      ]
