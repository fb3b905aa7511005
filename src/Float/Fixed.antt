-- ===== src/Float/Fixed.antt =====
-- Fixed-point numbers with six decimals, which meet the laws that the properties assume of `f64`.
use native.Mathlib.Nat.{le-div_iff_mul-le, div-le_of_le-mul}
use blastdns.Prelude.{
  ℕ, ◌+◌, ◌-◌, ◌*◌, ◌/◌, min, max, true, false, ◌≡◌, arith, ltb, leb, leb→le, ◌==◌, ◌≤◌, ◌<◌,
}
use blastdns.Float.{Float, OrderLaws}

abbrev pub fixed : Float
fixed = record {
  F = ℕ;
  lit = λ n d. n * 1000000 / d;
  of_u64 = λ n. n * 1000000;
  to_u64 = λ a. a / 1000000;
  add = λ a b. a + b;
  sub = λ a b. a - b;
  mul = λ a b. a * b / 1000000;
  div = λ a b. a * 1000000 / b;
  lt = ltb;
  le = leb;
  eq = λ a b. a == b;
  total_le = leb;
  min = min;
  max = max;
  floor = λ a. a / 1000000 * 1000000;
  round = λ a. (a + 500000) / 1000000 * 1000000;
}

pub fixed_le_trans : (a b c : ℕ) → leb a b ≡ true → leb b c ≡ true → leb a c ≡ true
fixed_le_trans a b c h k = ground arith

pub fixed_le-max_right : (a b : ℕ) → leb b (max a b) ≡ true
fixed_le-max_right a b = ground arith

pub fixed_min-le_left : (a b : ℕ) → leb (min a b) a ≡ true
fixed_min-le_left a b = ground arith

pub fixed_min-le_right : (a b : ℕ) → leb (min a b) b ≡ true
fixed_min-le_right a b = ground arith

pub fixed_le_min : (a b c : ℕ) → leb c a ≡ true → leb c b ≡ true → leb c (min a b) ≡ true
fixed_le_min a b c h k = ground arith

pub fixed_le-add : (a b : ℕ) → leb a (a + b) ≡ true
fixed_le-add a b = ground arith

pub fixed_le_refl : (a : ℕ) → leb a a ≡ true
fixed_le_refl a = ground arith

pub fixed_le_of_not-le : (a b : ℕ) → leb a b ≡ false → leb b a ≡ true
fixed_le_of_not-le a b h = ground arith

pub fixed_to_u64_mono : (a b : ℕ) → leb a b ≡ true → a / 1000000 ≤ b / 1000000
fixed_to_u64_mono a b h = omega (arith, leb→le a b h)

pub fixed_to_u64-lit : (n : ℕ) → n < 9007199254740992 → n * 1000000 / 1 / 1000000 ≡ n
fixed_to_u64-lit n h = omega arith

pub fixed_lit_pos : (n : ℕ) → 0 < n → ltb (0 * 1000000 / 1) (n * 1000000 / 1) ≡ true
fixed_lit_pos n h = ground arith

pub fixed_max_eq_left : (a b : ℕ) → ltb (0 * 1000000 / 1) b ≡ true → leb b a ≡ true → max a b ≡ a
fixed_max_eq_left a b p h = ground arith

pub fixed_max_le : (a b c : ℕ) → leb a c ≡ true → leb b c ≡ true → leb (max a b) c ≡ true
fixed_max_le a b c h k = ground arith

pub fixed_lt_of_lt_of_le : (a b c : ℕ) → ltb a b ≡ true → leb b c ≡ true → ltb a c ≡ true
fixed_lt_of_lt_of_le a b c h k = ground arith

pub fixed_lit_mono : (n m : ℕ) → n ≤ m → leb (n * 1000000 / 1) (m * 1000000 / 1) ≡ true
fixed_lit_mono n m h = ground arith

fixed_lit_le : (n d : ℕ) → 0 < d → d ≤ n → 1000000 ≤ n * 1000000 / d
fixed_lit_le n d p h = (le-div_iff_mul-le p).1 (omega arith)

fixed_le-mul : (a q : ℕ) → 1000000 ≤ q → a ≤ a * q / 1000000
fixed_le-mul a q h =
    let k : 1000000 * a ≤ q * a = grind arith in (le-div_iff_mul-le (omega arith)).1 (omega arith)

pub fixed_le-mul_lit :
    (a n d : ℕ)
    → 0 < d
    → d ≤ n
    → ltb (0 * 1000000 / 1) a ≡ true
    → leb a (a * (n * 1000000 / d) / 1000000) ≡ true
fixed_le-mul_lit a n d p h _ = ground (arith, fixed_le-mul a _ (fixed_lit_le n d p h))

pub fixed_rate_of_interval :
    (i : ℕ)
    → 1 ≤ i
    → i ≤ 1000000000
    → leb (1 * 1000000 / 1) (1000000000 * 1000000 / 1 * 1000000 / (i * 1000000)) ≡ true
fixed_rate_of_interval i p h =
    let k : 1000000 ≤ 1000000000 * 1000000 / 1 * 1000000 / (i * 1000000) =
      (le-div_iff_mul-le (omega arith)).1 (omega arith) in
    ground arith

pub fixed_interval_of_rate :
    (q : ℕ)
    → leb (1 * 1000000 / 1) q ≡ true
    → leb
        ((1000000000 * 1000000 / 1 * 1000000 / q + 500000) / 1000000 * 1000000)
        (1000000000 * 1000000 / 1)
      ≡ true
fixed_interval_of_rate q h =
    let k : 1000000 ≤ q = omega (arith, leb→le (1 * 1000000 / 1) q h) in
    let m : 1000000000000000 * 1000000 ≤ q * 1000000000000000 = grind arith in
    let r : 1000000000000000 * 1000000 / q ≤ 1000000000000000 = div-le_of_le-mul q m in ground arith

pub fixed_lt_min : (a b c : ℕ) → ltb c a ≡ true → ltb c b ≡ true → ltb c (min a b) ≡ true
fixed_lt_min a b c h k = ground arith

-- Every fixed-point value is a number.
abbrev pub fixed_laws : OrderLaws fixed
fixed_laws = record {
  IsNumber = λ _. Unit;
  lit-IsNumber = λ _ _. tt;
  max-IsNumber = λ _ _ _. tt;
  min-IsNumber = λ _ _ _. tt;
  le_refl = λ a _. fixed_le_refl a;
  le_trans = fixed_le_trans;
  le-max_right = λ a b _. fixed_le-max_right a b;
  min-le_left = λ a b _. fixed_min-le_left a b;
  min-le_right = λ a b _. fixed_min-le_right a b;
  le_min = fixed_le_min;
  le-add_lit = λ a n d _. fixed_le-add a (n * 1000000 / d);
  to_u64_mono = fixed_to_u64_mono;
  to_u64-lit = fixed_to_u64-lit;
  lit_pos = fixed_lit_pos;
  max_eq_left = fixed_max_eq_left;
  max_le = fixed_max_le;
  lt_of_lt_of_le = fixed_lt_of_lt_of_le;
  lit_mono = fixed_lit_mono;
  le-mul_lit = fixed_le-mul_lit;
  mul_lit-IsNumber = λ _ _ _ _ _ _. tt;
  rate_of_interval = fixed_rate_of_interval;
  interval_of_rate = fixed_interval_of_rate;
  lt_min = fixed_lt_min;
  le_of_not-le = λ a b _ _ h. fixed_le_of_not-le a b h;
  number_of_lt = λ _ _ _. tt;
}
