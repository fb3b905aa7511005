-- ===== src/Float.antt =====
-- `f64`, as the parameter of every component that computes with it: its operations, and the
-- facts of IEEE 754 that some properties use, as hypotheses of their own. `Fixed` meets them.
pub mod Fixed
use blastdns.Prelude.{
  ℕ, ◌+◌, ◌-◌, ◌*◌, ◌/◌, min, max, Bool, true, false, ◌≡◌, arith, ltb, leb, leb→le, ◌==◌, ◌≤◌, ◌<◌,
}

-- The operations. `of_u64` and `to_u64` are the casts `as f64` and `as u64`; `lit n d` is the
-- literal with the value n / d; `min` and `max` are `f64::min` and `f64::max`.
pub record Float : Type 1 where
  pub F : Type 0
  pub lit : ℕ → ℕ → F
  pub of_u64 : ℕ → F
  pub to_u64 : F → ℕ
  pub add : F → F → F
  pub sub : F → F → F
  pub mul : F → F → F
  pub div : F → F → F
  pub lt : F → F → Bool
  pub le : F → F → Bool
  pub eq : F → F → Bool
  -- `total_cmp(a, b) != Greater`
  pub total_le : F → F → Bool
  pub min : F → F → F
  pub max : F → F → F
  pub floor : F → F
  pub round : F → F

-- What IEEE 754 says of the order: it is total on what is no NaN, `min` and `max` of two numbers
-- are bounds, and a literal is a number.
pub record OrderLaws (f64 : Float) : Type 1 where
  pub IsNumber : f64.F → Type 0
  pub lit-IsNumber : (n d : ℕ) → IsNumber (f64.lit n d)
  pub max-IsNumber : (a b : f64.F) → IsNumber b → IsNumber (f64.max a b)
  pub min-IsNumber : (a b : f64.F) → IsNumber b → IsNumber (f64.min a b)
  pub le_refl : (a : f64.F) → IsNumber a → f64.le a a ≡ true
  pub le_trans : (a b c : f64.F) → f64.le a b ≡ true → f64.le b c ≡ true → f64.le a c ≡ true
  pub le-max_right : (a b : f64.F) → IsNumber b → f64.le b (f64.max a b) ≡ true
  pub min-le_left : (a b : f64.F) → IsNumber a → f64.le (f64.min a b) a ≡ true
  pub min-le_right : (a b : f64.F) → IsNumber b → f64.le (f64.min a b) b ≡ true
  pub le_min :
      (a b c : f64.F) → f64.le c a ≡ true → f64.le c b ≡ true → f64.le c (f64.min a b) ≡ true
  pub le-add_lit : (a : f64.F) (n d : ℕ) → IsNumber a → f64.le a (f64.add a (f64.lit n d)) ≡ true
  pub to_u64_mono : (a b : f64.F) → f64.le a b ≡ true → f64.to_u64 a ≤ f64.to_u64 b
  -- small whole numbers are exact
  pub to_u64-lit : (n : ℕ) → n < 9007199254740992 → f64.to_u64 (f64.lit n 1) ≡ n
  pub lit_pos : (n : ℕ) → 0 < n → f64.lt (f64.lit 0 1) (f64.lit n 1) ≡ true
  -- of a positive value; two zeros may differ in their signs
  pub max_eq_left :
      (a b : f64.F) → f64.lt (f64.lit 0 1) b ≡ true → f64.le b a ≡ true → f64.max a b ≡ a
  pub max_le :
      (a b c : f64.F) → f64.le a c ≡ true → f64.le b c ≡ true → f64.le (f64.max a b) c ≡ true
  pub lt_of_lt_of_le : (a b c : f64.F) → f64.lt a b ≡ true → f64.le b c ≡ true → f64.lt a c ≡ true
  pub lit_mono : (n m : ℕ) → n ≤ m → f64.le (f64.lit n 1) (f64.lit m 1) ≡ true
  -- a factor of at least one does not shrink a positive value
  pub le-mul_lit :
      (a : f64.F) (n d : ℕ)
      → 0 < d
      → d ≤ n
      → f64.lt (f64.lit 0 1) a ≡ true
      → f64.le a (f64.mul a (f64.lit n d)) ≡ true
  pub mul_lit-IsNumber :
      (a : f64.F) (n d : ℕ) → 0 < d → d ≤ n → IsNumber a → IsNumber (f64.mul a (f64.lit n d))
  -- a whole number of nanoseconds up to a second, as a rate per second, and back
  pub rate_of_interval :
      (i : ℕ)
      → 1 ≤ i
      → i ≤ 1000000000
      → f64.le (f64.lit 1 1) (f64.div (f64.lit 1000000000 1) (f64.of_u64 i)) ≡ true
  pub interval_of_rate :
      (q : f64.F)
      → f64.le (f64.lit 1 1) q ≡ true
      → f64.le (f64.round (f64.div (f64.lit 1000000000 1) q)) (f64.lit 1000000000 1) ≡ true
  pub lt_min :
      (a b c : f64.F) → f64.lt c a ≡ true → f64.lt c b ≡ true → f64.lt c (f64.min a b) ≡ true
  pub le_of_not-le :
      (a b : f64.F) → IsNumber a → IsNumber b → f64.le a b ≡ false → f64.le b a ≡ true
  -- nothing compares with a NaN
  pub number_of_lt : (a b : f64.F) → f64.lt a b ≡ true → IsNumber b
