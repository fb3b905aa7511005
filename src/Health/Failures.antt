-- ===== src/Health/Failures.antt =====
-- `record_error` of `ResolverHealth` (src/health.rs) where workers share a resolver: any number of
-- calls at once, one atomic access of one call at a time.
pub mod Earned
use blastdns.Prelude.{
  ℕ, zero, suc, ◌+◌, ◌%◌, ◌≤◌, ◌<◌, ◌≡◌, ◌⊎◌, refl, ap, sym, Bool, true, false, ◌||◌, Option, none,
  some, List, [], ◌∷◌, ltb, ◌==◌, if◌then◌else◌, wrapping_add, u64_mod, arith, get_elem?, set, inl,
  inr,
}
use blastdns.Health.{ResolverHealth, decay_errors, record_error}

-- Where a call of `record_error` is.
pub data Pc : Type 0 where
  -- before `timeout` or `error` is raised
  counting : Bool → Pc
  -- before `consecutive_errors` is raised and compared with the threshold
  adding : Pc
  -- before `benched_until_ns` is stored
  benching : Pc
  -- before `purgatory_entries` is raised
  entering : Pc
  -- before `consecutive_errors` is cleared
  clearing : Pc
  finished : Pc

-- One access by one call, with the clock of the moment, or the `decay_errors` of a response.
pub data Event : Type 0 where
  access : ℕ → ℕ → Event
  decay : Event

pub record Calls (S : Type 0) : Type 0 where
  pub health : ResolverHealth S
  pub calls : List Pc

-- The accesses of the first call, one after the other.
abbrev pub alone : ℕ → List Event
alone now = access 0 now ∷ access 0 now ∷ access 0 now ∷ access 0 now ∷ access 0 now ∷ []

module _ {S : Type 0} where
  -- The early returns of `record_error`, by the count that its `fetch_add` came to.
  abbrev pub next_of : ResolverHealth S → ℕ → Pc
  next_of h consecutive =
      if h.purgatory_threshold == 0 || ltb consecutive h.purgatory_threshold
      then finished
      else if h.purgatory_sentence == 0
      then finished
      else benching

  unfoldable pub error_step : ResolverHealth S → ℕ → Pc → ResolverHealth S × Pc
  error_step h now (counting is_timeout) = (
    if is_timeout
        then record h { timeout = wrapping_add h.timeout 1 }
        else record h { error = wrapping_add h.error 1 },
    adding,
  )
  error_step h now adding =
      let consecutive = wrapping_add h.consecutive_errors 1 in
      (record h { consecutive_errors = consecutive }, next_of h consecutive)
  error_step h now benching =
      (record h { benched_until_ns = wrapping_add now (h.purgatory_sentence % u64_mod) }, entering)
  error_step h now entering =
      (record h { purgatory_entries = wrapping_add h.purgatory_entries 1 }, clearing)
  error_step h now clearing = (record h { consecutive_errors = 0 }, finished)
  error_step h now finished = (h, finished)

  abbrev pub access_of : Calls S → ℕ → ℕ → Option Pc → Calls S
  access_of y i now none = y
  access_of y i now (some pc) =
      let (h, pc') = error_step y.health now pc in record { health = h; calls = set y.calls i pc' }

  unfoldable pub step : Calls S → Event → Calls S
  unfolding error_step decay_errors
  step y (access i now) = access_of y i now (get_elem? y.calls i)
  step y decay = record y { health = decay_errors y.health }

  unfoldable pub run : Calls S → List Event → Calls S
  unfolding step
  run y [] = y
  run y (e ∷ es) = run (step y e) es

  -- A call with nobody in between does what `record_error` does.
  pub run-alone :
      (h : ResolverHealth S) (is_timeout : Bool) (now : ℕ)
      → (run (record { health = h; calls = counting is_timeout ∷ [] }) (alone now)).health
        ≡ record_error h is_timeout now
  unfolding run record_error
  run-alone h is_timeout now = ground arith
