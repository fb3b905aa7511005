-- ===== src/Strings/Trim.antt =====
-- About the trimming of a text.
use blastdns.Prelude.{
  ℕ, ◌≡◌, ◌∙◌, inl, inr, ap, sym, refl, Bool, false, [], ◌∷◌, ◌++◌, Bool-cases, All,
}
use mathlib.Core.List.{reverse, reverse-cons, reverse-append, reverse-reverse}
use blastdns.Net.{Text}
use blastdns.Strings.{trim_start_matches, trim_matches, trim_end_matches}

module _ (p : ℕ → Bool) where
  -- Empty, or with a first character that stays.
  abbrev pub IsTrimmed : Text → Type 0
  IsTrimmed [] = Unit
  IsTrimmed (c ∷ cs) = p c ≡ false

  trim_start_matches-IsTrimmed : (s : Text) → IsTrimmed (trim_start_matches p s)
  trim_start_matches-IsTrimmed [] = tt
  trim_start_matches-IsTrimmed (c ∷ cs) = elim (Bool-cases (p c)) [
    | inl e ↦ rw e (trim_start_matches-IsTrimmed cs)
    | inr e ↦ rw e e
  ]

  trim_start_matches_of_IsTrimmed : (s : Text) → IsTrimmed s → trim_start_matches p s ≡ s
  trim_start_matches_of_IsTrimmed [] h = refl
  trim_start_matches_of_IsTrimmed (c ∷ cs) h = rw h

  trim_start_matches-append :
      (s : Text) (c : ℕ)
      → p c ≡ false
      → trim_start_matches p (s ++ c ∷ []) ≡ trim_start_matches p s ++ c ∷ []
  trim_start_matches-append [] c h = rw h
  trim_start_matches-append (d ∷ ds) c h = elim (Bool-cases (p d)) [
    | inl e ↦ rw e (trim_start_matches-append ds c h)
    | inr e ↦ rw e
  ]

  trim_end_matches-cons :
      (c : ℕ) (cs : Text) → p c ≡ false → trim_end_matches p (c ∷ cs) ≡ c ∷ trim_end_matches p cs
  trim_end_matches-cons c cs h =
      ap (λ s. reverse (trim_start_matches p s)) (reverse-cons c cs)
      ∙ ap reverse (trim_start_matches-append (reverse cs) c h)
      ∙ reverse-append (trim_start_matches p (reverse cs)) (c ∷ [])

  trim_end_matches-trim_end_matches :
      (s : Text) → trim_end_matches p (trim_end_matches p s) ≡ trim_end_matches p s
  trim_end_matches-trim_end_matches s =
      ap (λ t. reverse (trim_start_matches p t))
        (reverse-reverse (trim_start_matches p (reverse s)))
      ∙ ap reverse (
          trim_start_matches_of_IsTrimmed (trim_start_matches p (reverse s))
            (trim_start_matches-IsTrimmed (reverse s)))

  trim_again :
      (s : Text) → IsTrimmed s → trim_matches p (trim_end_matches p s) ≡ trim_end_matches p s
  trim_again [] h = refl
  trim_again (c ∷ cs) h =
      ap (trim_matches p) (trim_end_matches-cons c cs h)
      ∙ ap (trim_end_matches p) (trim_start_matches_of_IsTrimmed (c ∷ trim_end_matches p cs) h)
      ∙ trim_end_matches-cons c (trim_end_matches p cs) h
      ∙ ap (λ t. c ∷ t) (trim_end_matches-trim_end_matches cs)
      ∙ sym (trim_end_matches-cons c cs h)

  -- What was trimmed once stays as it is.
  pub trim_matches-trim_matches : (s : Text) → trim_matches p (trim_matches p s) ≡ trim_matches p s
  trim_matches-trim_matches s = trim_again (trim_start_matches p s) (trim_start_matches-IsTrimmed s)

module _ (P : ℕ → Type 0) where
  All-append : (s t : Text) → All P s → All P t → All P (s ++ t)
  All-append [] t h k = k
  All-append (c ∷ cs) t h k = (h.0, All-append cs t h.1 k)

  All-reverse : (s : Text) → All P s → All P (reverse s)
  All-reverse [] h = tt
  All-reverse (c ∷ cs) h =
      rw (reverse-cons c cs) (All-append (reverse cs) (c ∷ []) (All-reverse cs h.1) (h.0, tt))

  All-trim_start_matches : (p : ℕ → Bool) (s : Text) → All P s → All P (trim_start_matches p s)
  All-trim_start_matches p [] h = tt
  All-trim_start_matches p (c ∷ cs) h = elim (Bool-cases (p c)) [
    | inl e ↦ rw e (All-trim_start_matches p cs h.1)
    | inr e ↦ rw e h
  ]

  -- Trimming brings in no character.
  pub All-trim_matches : (p : ℕ → Bool) (s : Text) → All P s → All P (trim_matches p s)
  All-trim_matches p s h = All-reverse (trim_start_matches p (reverse (trim_start_matches p s))) (
      All-trim_start_matches p (reverse (trim_start_matches p s))
        (All-reverse (trim_start_matches p s) (All-trim_start_matches p s h)))
