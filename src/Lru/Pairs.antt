-- ===== src/Lru/Pairs.antt =====
-- An `Lru` that meets the laws: an association list with no bound, whose keys are two numbers.
use blastdns.Prelude.{
  inl, inr, ℕ, ◌≡◌, ◌⊎◌, ap, refl, Bool, true, ◌&&◌, Option, none, some, List, [], ◌∷◌, ◌==◌,
  if◌then◌else◌, arith, Bool-cases,
}
use mathlib.Core.Option
use mathlib.Core.Path.{◌∙◌, sym}
use blastdns.Lru.{Lru, LruLaws}

abbrev pub key_eq : ℕ × ℕ → ℕ × ℕ → Bool
key_eq (a, b) (c, d) = (a == c) && (b == d)

pub key_eq_refl : (k : ℕ × ℕ) → key_eq k k ≡ true
key_eq_refl (a, b) = ground arith

eq_of_key_eq : (k q : ℕ × ℕ) → key_eq k q ≡ true → k ≡ q
eq_of_key_eq (a, b) (c, d) h =
    let e : a ≡ c = ground arith in let f : b ≡ d = ground arith in rw (e, f)

module _ {V : Type 0} where
  abbrev pub find : List ((ℕ × ℕ) × V) → ℕ × ℕ → Option V
  find [] q = none
  find ((k, v) ∷ c) q = if key_eq q k then some v else find c q

  abbrev pub remove : List ((ℕ × ℕ) × V) → ℕ × ℕ → List ((ℕ × ℕ) × V)
  remove [] q = []
  remove ((k, v) ∷ c) q = if key_eq q k then remove c q else (k, v) ∷ remove c q

  pub find-remove_self : (c : List ((ℕ × ℕ) × V)) (q : ℕ × ℕ) → find (remove c q) q ≡ none
  find-remove_self [] q = refl
  find-remove_self ((k, v) ∷ c) q = elim (Bool-cases (key_eq q k)) [
    | inl e ↦ rw e (find-remove_self c q)
    | inr e ↦ rw (e, e) (find-remove_self c q)
  ]

  pub find_of_remove :
      (c : List ((ℕ × ℕ) × V)) (k q : ℕ × ℕ) (w : V)
      → find (remove c k) q ≡ some w
      → find c q ≡ some w
  find_of_remove [] k q w h = h
  find_of_remove ((a, v) ∷ c) k q w h = elim (Bool-cases (key_eq k a)) [
    | inl e ↦ elim (Bool-cases (key_eq q a)) [
      | inl f ↦ absurd (
          Option.none-ne-some w (
            sym (find-remove_self c k)
            ∙ ap (find (remove c k)) (eq_of_key_eq k a e ∙ sym (eq_of_key_eq q a f))
            ∙ (rw e at h)))
      | inr f ↦ rw f (find_of_remove c k q w (rw e at h))
    ]
    | inr e ↦ elim (Bool-cases (key_eq q a)) [
      | inl f ↦ rw f (rw (e, f) at h)
      | inr f ↦ rw f (find_of_remove c k q w (rw (e, f) at h))
    ]
  ]

  pub find_put :
      (c : List ((ℕ × ℕ) × V)) (k q : ℕ × ℕ) (v w : V)
      → find ((k, v) ∷ c) q ≡ some w
      → ((q ≡ k) × (w ≡ v)) ⊎ (find c q ≡ some w)
  find_put c k q v w h = elim (Bool-cases (key_eq q k)) [
    | inl e ↦ inl (eq_of_key_eq q k e, ground arith)
    | inr e ↦ inr (ground arith)
  ]

abbrev pub pairs : (V : Type 0) → Lru (ℕ × ℕ) V
pairs V = record {
  C = List ((ℕ × ℕ) × V);
  new = λ n. some [];
  get = λ c q. (c, find c q);
  pop = remove;
  put = λ c k v. (k, v) ∷ c;
}

pub get-none :
    {V : Type 0} (n : ℕ) (c : List ((ℕ × ℕ) × V)) (k : ℕ × ℕ) → some [] ≡ some c → find c k ≡ none
get-none n [] k h = refl
get-none n (x ∷ c) k h = cc

abbrev pub pairs_laws : (V : Type 0) → LruLaws (pairs V)
pairs_laws V = record {
  get-new = get-none;
  get-put_self = λ c k v. rw (key_eq_refl k);
  get-put = find_put;
  get-get = λ c k q. refl;
  get-pop_self = find-remove_self;
  get-pop = find_of_remove;
}
