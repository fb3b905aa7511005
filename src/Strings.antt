-- ===== src/Strings.antt =====
-- The operations of `str` that src/*.rs uses, on lists of code points.
pub mod Trim
use blastdns.Prelude.{
  ℕ, ◌+◌, ◌-◌, Bool, true, false, not, ◌||◌, ◌&&◌, Option, none, some, List, [], ◌∷◌, ◌++◌, map,
  leb, ◌==◌, if◌then◌else◌,
}
use mathlib.Core.List.{reverse}
use blastdns.Net.{Text}

-- `char::is_whitespace`
abbrev pub is_whitespace : ℕ → Bool
is_whitespace c =
    (leb 9 c && leb c 13)
    || c == 32
    || c == 133
    || c == 160
    || c == 5760
    || (leb 8192 c && leb c 8202)
    || c == 8232
    || c == 8233
    || c == 8239
    || c == 8287
    || c == 12288

abbrev pub is_bracket : ℕ → Bool
is_bracket c = c == 91 || c == 93

-- `trim_start_matches`, and `trim_matches`, which also covers `trim`
abbrev pub trim_start_matches : (ℕ → Bool) → Text → Text
trim_start_matches p [] = []
trim_start_matches p (c ∷ cs) = if p c then trim_start_matches p cs else c ∷ cs

abbrev pub trim_matches : (ℕ → Bool) → Text → Text
trim_matches p s = reverse (trim_start_matches p (reverse (trim_start_matches p s)))

-- `trim`
abbrev pub trim : Text → Text
trim s = trim_matches is_whitespace s

-- `trim_end_matches` of one character
abbrev pub trim_end_matches : (ℕ → Bool) → Text → Text
trim_end_matches p s = reverse (trim_start_matches p (reverse s))

-- `split(c).next()`
abbrev pub before : ℕ → Text → Text
before d [] = []
before d (c ∷ cs) = if c == d then [] else c ∷ before d cs

-- `to_ascii_uppercase` and `to_ascii_lowercase`
abbrev pub to_ascii_uppercase : Text → Text
to_ascii_uppercase s = map (λ c. if leb 97 c && leb c 122 then c - 32 else c) s

abbrev pub to_ascii_lowercase : Text → Text
to_ascii_lowercase s = map (λ c. if leb 65 c && leb c 90 then c + 32 else c) s

-- `strip_prefix`
abbrev pub strip_prefix : Text → Text → Option Text
strip_prefix [] s = some s
strip_prefix (p ∷ ps) [] = none
strip_prefix (p ∷ ps) (c ∷ cs) = if p == c then strip_prefix ps cs else none

-- `ends_with` of one character
abbrev pub ends_with : ℕ → Text → Bool
ends_with d [] = false
ends_with d (c ∷ []) = c == d
ends_with d (c ∷ e ∷ cs) = ends_with d (e ∷ cs)

-- A name with its final dot.
abbrev pub fqdn : Text → Text
fqdn host = if ends_with 46 host then host else host ++ 46 ∷ []

abbrev pub text_eq : Text → Text → Bool
text_eq [] [] = true
text_eq (a ∷ as') (b ∷ bs) = a == b && text_eq as' bs
text_eq _ _ = false

abbrev pub prepend : ℕ → List Text → List Text
prepend c [] = (c ∷ []) ∷ []
prepend c (l ∷ ls) = (c ∷ l) ∷ ls

-- `lines`: a line ends with a line feed, or with a carriage return and a line feed.
abbrev pub lines : Text → List Text
lines [] = []
lines (c ∷ []) = if c == 10 then [] ∷ [] else (c ∷ []) ∷ []
lines (c ∷ d ∷ cs) =
    let rest = lines (d ∷ cs) in
    if c == 10 then [] ∷ rest else if c == 13 && d == 10 then rest else prepend c rest
