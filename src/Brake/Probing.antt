-- ===== src/Brake/Probing.antt =====
-- The probe of `AttemptBrake` (src/controller.rs) from its start to its end, and the age of the
-- windows on record.
use mathlib.Core.Option
use blastdns.Prelude.{
  inl, inr, ℕ, ◌+◌, ◌-◌, ◌≤◌, ◌≡◌, refl, Bool, false, Option, none, some, List, [], ◌∷◌, ◌++◌,
  arith, All, Bool-cases, ltb, unwrap_or, is_some, not, ◌&&◌,
}
use blastdns.Float.{Float, OrderLaws}
use blastdns.Brake.{
  AttemptBrake, Sample, remember, expire, attempt_min_rate, attempt_probe_fraction, congested,
}
use blastdns.Brake.Decide.{decide}
use blastdns.Brake.Limits.{IsFloored}

-- The samples are in the order in which they were taken, none before `start`.
abbrev pub IsOrdered : {F : Type 0} → ℕ → List (Sample F) → Type 0
IsOrdered start [] = Unit
IsOrdered start (s ∷ ss) = (start ≤ s.at) × IsOrdered s.at ss

expire-ordered :
    {F : Type 0} (window now start : ℕ) (ss : List (Sample F))
    → now ≤ start + window
    → IsOrdered start ss
    → All (λ s. now ≤ s.at + window) ss
expire-ordered window now start [] h o = tt
expire-ordered window now start (s ∷ ss) h o =
    (omega arith, expire-ordered window now s.at ss (omega arith) o.1)

expire-All :
    {F : Type 0} (window now start : ℕ) (ss : List (Sample F))
    → IsOrdered start ss
    → All (λ s. now ≤ s.at + window) (expire window now ss)
unfolding expire
expire-All window now start [] o = tt
expire-All window now start (s ∷ ss) o = elim (Bool-cases (ltb window (now - s.at))) [
  | inl e ↦ rw e (expire-All window now s.at ss o.1)
  | inr e ↦ rw e (ground arith, expire-ordered window now s.at ss (ground arith) o.1)
]

IsOrdered-append :
    {F : Type 0} (start : ℕ) (ss : List (Sample F)) (s : Sample F)
    → start ≤ s.at
    → All (λ x. x.at ≤ s.at) ss
    → IsOrdered start ss
    → IsOrdered start (ss ++ s ∷ [])
IsOrdered-append start [] s h a o = (h, tt)
IsOrdered-append start (x ∷ xs) s h a o = (o.0, IsOrdered-append x.at xs s a.0 a.1 o.1)

module _ (f64 : Float) {S : Type 0} where
  open f64 use {F}

  -- When a sample is recorded, every sample left on record is at most the reference window old, as
  -- long as samples were recorded in the order of time.
  pub remember-All :
      (b : AttemptBrake S F) (s : Sample F)
      → IsOrdered 0 b.history
      → All (λ x. x.at ≤ s.at) b.history
      → All (λ x. s.at ≤ x.at + b.reference_window) (remember f64 b s).history
  unfolding remember
  remember-All b s o a =
      expire-All b.reference_window s.at 0 (b.history ++ s ∷ [])
        (IsOrdered-append 0 b.history s (omega arith) a o)

module _ (f64 : Float) (laws : OrderLaws f64) where
  open f64 use {F}

  restored :
      (limit : Option F)
      → IsFloored f64 limit
      → Option.map (λ l. f64.max l (attempt_min_rate f64)) limit ≡ limit
  restored none h = refl
  restored (some l) h =
      rw (laws.max_eq_left l (attempt_min_rate f64) (laws.lit_pos 10 (omega arith)) h)

module _ (f64 : Float) (laws : OrderLaws f64) {S : Type 0} where
  open f64 use {F}

  -- A probe starts when a window has no clearly lower load on record to be compared with. It sets
  -- half the rate (at least the floor), holds it over the next judged window, and after the second
  -- one the limit is what it was before, whatever the two windows showed, and the probe is over.
  -- The limit is at or above its floor before, no probe is on, and the window is not one that ran
  -- below the limit.
  pub decide_probe_round :
      (b : AttemptBrake S F) (s s₁ s₂ : Sample F) (shaped shaped₁ shaped₂ : Bool)
      → IsFloored f64 b.limit
      → b.probe ≡ none
      → (is_some b.limit && not shaped) ≡ false
      → congested f64
          (remember f64 b (record s { rate = unwrap_or b.limit s.rate })).history
          (unwrap_or b.limit s.rate)
          s.loss
        ≡ none
      → let b₁ = decide f64 b shaped s in
        let b₂ = decide f64 b₁ shaped₁ s₁ in
        let b₃ = decide f64 b₂ shaped₂ s₂ in
        (b₁.limit
          ≡ some (
              f64.max
                (f64.mul (unwrap_or b.limit s.rate) (attempt_probe_fraction f64))
                (attempt_min_rate f64)))
        × (b₂.limit ≡ b₁.limit)
        × (b₃.limit ≡ b.limit)
        × (b₃.probe ≡ none)
  unfolding decide
  decide_probe_round b s s₁ s₂ shaped shaped₁ shaped₂ fl p sh c =
      ground (arith, restored f64 laws b.limit fl)
