-- ===== src/Mock/Maps.antt =====
-- A `HashMap` of src/mock.rs as an association list with one entry for each key.
use blastdns.Prelude.{
  Bool, true, ◌≡◌, ◌↔◌, refl, Option, none, some, List, [], ◌∷◌, if◌then◌else◌, arith,
}
use blastdns.Strings.{text_eq}

abbrev pub Map : Type 0 → Type 0 → Type 0
Map K V = List (K × V)

module _ {K : Type 0} (eq : K → K → Bool) where
  abbrev pub get : {V : Type 0} → K → Map K V → Option V
  get k [] = none
  get k ((j, v) ∷ m) = if eq j k then some v else get k m

  abbrev pub insert : {V : Type 0} → K → V → Map K V → Map K V
  insert k v [] = (k, v) ∷ []
  insert k v ((j, w) ∷ m) = if eq j k then (j, v) ∷ m else (j, w) ∷ insert k v m

module _ {K L : Type 0} (eq : K → K → Bool) (leq : L → L → Bool) where
  -- `entry(k).or_default().insert(l, v)`
  abbrev pub entry_insert : {V : Type 0} → K → L → V → Map K (Map L V) → Map K (Map L V)
  entry_insert k l v [] = (k, (l, v) ∷ []) ∷ []
  entry_insert k l v ((j, n) ∷ m) =
      if eq j k then (j, insert leq l v n) ∷ m else (j, n) ∷ entry_insert k l v m

-- The test decides equality.
abbrev pub IsEquality : {K : Type 0} → (K → K → Bool) → Type 0
IsEquality {K} eq = (j k : K) → (eq j k ≡ true) ↔ (j ≡ k)

pub text_eq-IsEquality : IsEquality text_eq
text_eq-IsEquality [] [] = (λ _. refl, λ _. refl)
text_eq-IsEquality [] (c ∷ t) = (λ h. cc, λ h. cc)
text_eq-IsEquality (c ∷ s) [] = (λ h. cc, λ h. cc)
text_eq-IsEquality (c ∷ s) (d ∷ t) =
    (λ h. ground (arith, text_eq-IsEquality s t), λ h. ground (arith, text_eq-IsEquality s t))

module _ {K : Type 0} (eq : K → K → Bool) (law : IsEquality eq) where
  pub get-insert :
      {V : Type 0} (j k : K) (v : V) (m : Map K V)
      → get eq j (insert eq k v m) ≡ (if eq k j then some v else get eq j m)
  get-insert j k v [] = refl
  get-insert j k v ((i, w) ∷ m) = ground (arith, law i k, law i j, law k j, get-insert j k v m)

-- The first of two that is there.
abbrev pub first_some : {A : Type 0} → Option A → Option A → Option A
first_some none o = o
first_some (some a) o = some a

pub first_some_assoc :
    {A : Type 0} (x y z : Option A) → first_some x (first_some y z) ≡ first_some (first_some x y) z
first_some_assoc none y z = refl
first_some_assoc (some a) y z = refl

pub first_some-none : {A : Type 0} (x : Option A) → first_some x none ≡ x
first_some-none none = refl
first_some-none (some a) = refl
