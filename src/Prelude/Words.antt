-- ===== src/Prelude/Words.antt =====
-- The arithmetic of `u64`, `u32` and `u8` that the program uses: `fetch_add` wraps around and the
-- `saturating_*` operations stop at the ends of the range. `saturating_sub` is `-` on ℕ.
use Prim.Native.Nat.{ℕ, ◌+◌, ◌%◌, min}

abbrev pub u64_mod : ℕ
u64_mod = 18446744073709551616

abbrev pub u64_max : ℕ
u64_max = 18446744073709551615

-- `AtomicU64::fetch_add`, and `+` of a release build
abbrev pub wrapping_add : ℕ → ℕ → ℕ
wrapping_add a b = (a + b) % 18446744073709551616

-- `u64::saturating_add`
abbrev pub saturating_add : ℕ → ℕ → ℕ
saturating_add a b = min (a + b) 18446744073709551615

-- `u8::saturating_add`
abbrev pub saturating_add_u8 : ℕ → ℕ → ℕ
saturating_add_u8 a b = min (a + b) 255

-- `u32::saturating_add`
abbrev pub saturating_add_u32 : ℕ → ℕ → ℕ
saturating_add_u32 a b = min (a + b) 4294967295
