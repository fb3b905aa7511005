-- ===== src/Utils/Ptr.antt =====
-- `format_ptr_query` (src/utils.rs) read back.
use blastdns.Prelude.{
  ℕ, ◌+◌, ◌-◌, ◌*◌, ◌/◌, ◌%◌, ◌<◌, ◌≡◌, ◌∙◌, ap, refl, Bool, true, ◌||◌, ◌&&◌, List, [], ◌∷◌, ◌++◌,
  map, All, leb, if◌then◌else◌, arith,
}
use mathlib.Core.List.{reverse, reverse_aux, reverse-reverse}
use blastdns.Net.{Text, v6}
use blastdns.Utils.{hex, join, ip6_arpa, nibbles, ptr_name}

abbrev pub is_hex : ℕ → Bool
is_hex c = (leb 48 c && leb c 57) || (leb 97 c && leb c 102)

abbrev pub hex_value : ℕ → ℕ
hex_value c = if leb c 57 then c - 48 else c - 87

-- The hex digits at the front, each followed by another character.
abbrev pub read_nibbles : Text → List ℕ
read_nibbles [] = []
read_nibbles (c ∷ []) = []
read_nibbles (c ∷ d ∷ cs) = if is_hex c then hex_value c ∷ read_nibbles cs else []

abbrev pub segments_of : List ℕ → List ℕ
segments_of (a ∷ b ∷ c ∷ d ∷ ns) = (a * 4096 + b * 256 + c * 16 + d) ∷ segments_of ns
segments_of _ = []

-- An IPv6 address from the name of its PTR query.
abbrev pub read_ptr_name : Text → List ℕ
read_ptr_name t = segments_of (reverse (read_nibbles t))

hex_lem : (n : ℕ) → n < 16 → (is_hex (hex n) ≡ true) × (hex_value (hex n) ≡ n)
hex_lem n h = ground arith

read_nibbles-join :
    (ns : List ℕ) → All (λ n. n < 16) ns → read_nibbles (join (map hex ns) ++ ip6_arpa) ≡ ns
read_nibbles-join [] h = refl
read_nibbles-join (n ∷ []) h = let (e, v) = hex_lem n h.0 in rw (e, v)
read_nibbles-join (n ∷ m ∷ ns) h =
    let (e, v) = hex_lem n h.0 in rw (e, v) (ap (λ r. n ∷ r) (read_nibbles-join (m ∷ ns) h.1))

All-reverse_aux : (P : ℕ → Type 0) (xs r : List ℕ) → All P xs → All P r → All P (reverse_aux xs r)
All-reverse_aux P [] r h k = k
All-reverse_aux P (x ∷ xs) r h k = All-reverse_aux P xs (x ∷ r) h.1 (h.0, k)

nibbles-All : (ss : List ℕ) → All (λ n. n < 16) (nibbles ss)
nibbles-All [] = tt
nibbles-All (s ∷ ss) = (omega arith, (omega arith, (omega arith, (omega arith, nibbles-All ss))))

segments_of-nibbles : (ss : List ℕ) → All (λ s. s < 65536) ss → segments_of (nibbles ss) ≡ ss
segments_of-nibbles [] h = refl
segments_of-nibbles (s ∷ ss) h =
    let e : s / 4096 % 16 * 4096 + s / 256 % 16 * 256 + s / 16 % 16 * 16 + s % 16 ≡ s =
      omega (arith, h.0) in
    rw e (ap (λ r. s ∷ r) (segments_of-nibbles ss h.1))

-- The name of a PTR query for an IPv6 address spells out the whole address: its 16-bit segments can
-- be read back from the name.
pub read_ptr_name-ptr_name :
    (segments : List ℕ)
    → All (λ s. s < 65536) segments
    → read_ptr_name (ptr_name (v6 segments)) ≡ segments
unfolding ptr_name
read_ptr_name-ptr_name segments h =
    ap (λ ns. segments_of (reverse ns))
      (read_nibbles-join (reverse (nibbles segments))
        (All-reverse_aux (λ n. n < 16) (nibbles segments) [] (nibbles-All segments) tt))
    ∙ ap segments_of (reverse-reverse (nibbles segments))
    ∙ segments_of-nibbles segments h
