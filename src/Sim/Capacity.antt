-- ===== src/Sim/Capacity.antt =====
-- How the simulated resolver of src/sim.rs limits what it answers.
use blastdns.Prelude.{
  ℕ, ◌+◌, ◌*◌, ◌≤◌, ◌≡◌, refl, ◌∙◌, max, true, Option, none, some, List, [], ◌∷◌, arith, is_some,
  length, u64_max,
}
use blastdns.Sim.{SimConfig, Counters, spend, receive, should_drop, fresh}

-- A datagram: when it arrives, in nanoseconds from the start, and the request that it holds.
pub record Arrival (Request : Type 0) : Type 0 where
  pub at : ℕ
  pub request : Option Request

abbrev pub admitted {ℓ} : {A : Type ℓ} → Option A → ℕ
admitted none = 0
admitted (some a) = 1

module _ {F Request : Type 0} (config : SimConfig F) where
  -- The counters, and how many queries go on to be answered.
  unfoldable pub serve : Option ℕ → List (Arrival Request) → Counters → Counters × ℕ
  serve interval_ns [] c = (c, 0)
  serve interval_ns (a ∷ as') c =
      let (c', went) = receive config interval_ns a.at a.request c in
      let (end', n) = serve interval_ns as' c' in (end', admitted went + n)

-- In order of time, from `t` on to `end`.
abbrev pub IsTimed : {Request : Type 0} → ℕ → List (Arrival Request) → ℕ → Type 0
IsTimed t [] end = t ≤ end
IsTimed t (a ∷ as') end = (t ≤ a.at) × IsTimed a.at as' end

-- At least `gap` apart, the first from `t` on, and every one of them a request.
abbrev pub IsPaced : {Request : Type 0} → ℕ → ℕ → List (Arrival Request) → Type 0
IsPaced gap t [] = Unit
IsPaced gap t (a ∷ as') = (t ≤ a.at) × (is_some a.request ≡ true) × IsPaced gap (a.at + gap) as'

le_of_add : {m n : ℕ} → 0 + m ≤ n → m ≤ n
le_of_add h = omega arith

IsTimed-le :
    {Request : Type 0} (t : ℕ) (as' : List (Arrival Request)) (end : ℕ)
    → IsTimed t as' end
    → t ≤ end
IsTimed-le t [] end h = h
IsTimed-le t (a ∷ as') end h = omega (arith, IsTimed-le a.at as' end h.1)

module _ {F Request : Type 0} (config : SimConfig F) (i : ℕ) where
  -- A query that is admitted moves the budget by an interval at least, and no query moves it
  -- beyond the allowance.
  receive-spend :
      (at : ℕ) (request : Option Request) (c : Counters)
      → at + 50000000 + i ≤ u64_max
      → (c.budget_ns + admitted (receive config (some i) at request c).1 * i
          ≤ (receive config (some i) at request c).0.budget_ns)
        × ((receive config (some i) at request c).0.budget_ns ≤ max c.budget_ns (at + 50000000 + i))
  unfolding receive should_drop spend
  receive-spend at none c h = ground arith
  receive-spend at (some r) c h = ground arith

  serve_budget :
      (t : ℕ) (as' : List (Arrival Request)) (end : ℕ) (c : Counters)
      → IsTimed t as' end
      → end + 50000000 + i ≤ u64_max
      → c.budget_ns ≤ t + 50000000 + i
      → c.budget_ns + (serve config (some i) as' c).1 * i ≤ end + 50000000 + i
  unfolding serve
  serve_budget t [] end c h k b = omega arith
  serve_budget t (a ∷ as') end c h k b =
      let before = IsTimed-le a.at as' end h.1 in
      let step = receive-spend a.at a.request c (omega arith) in
      let rest =
        serve_budget a.at as' end (receive config (some i) a.at a.request c).0 h.1 k
          (omega arith) in
      grind arith

  -- As long as the times fit 64 bits and the datagrams come in order of time: of the datagrams that
  -- reach the resolver until `end`, it goes on to answer no more than its capacity in that time and
  -- in the allowance of 50 milliseconds, and one more: the answered queries times the interval
  -- between queries is at most `end`, the allowance and one interval.
  pub serve_capacity :
      (as' : List (Arrival Request)) (end : ℕ)
      → IsTimed 0 as' end
      → end + 50000000 + i ≤ u64_max
      → (serve config (some i) as' fresh).1 * i ≤ end + 50000000 + i
  serve_capacity as' end h k = le_of_add (serve_budget 0 as' end fresh h k (omega arith))

  receive_paced :
      (at : ℕ) (request : Option Request) (c : Counters)
      → config.drop_one_in ≡ none
      → is_some request ≡ true
      → c.budget_ns ≤ at
      → c.budget_ns ≤ u64_max
      → (admitted (receive config (some i) at request c).1 ≡ 1)
        × ((receive config (some i) at request c).0.budget_ns ≤ at + i)
        × ((receive config (some i) at request c).0.budget_ns ≤ u64_max)
        × ((receive config (some i) at request c).0.dropped ≡ c.dropped)
  unfolding receive should_drop spend
  receive_paced at none c e h b k = cc
  receive_paced at (some r) c e h b k = rw e (ground arith)

  serve_paced_from :
      (t : ℕ) (as' : List (Arrival Request)) (c : Counters)
      → config.drop_one_in ≡ none
      → IsPaced i t as'
      → c.budget_ns ≤ t
      → c.budget_ns ≤ u64_max
      → ((serve config (some i) as' c).1 ≡ length as')
        × ((serve config (some i) as' c).0.dropped ≡ c.dropped)
  unfolding serve
  serve_paced_from t [] c e h b k = (refl, refl)
  serve_paced_from t (a ∷ as') c e h b k =
      let step = receive_paced a.at a.request c e h.1 (omega arith) k in
      let rest =
        serve_paced_from (a.at + i) as' (receive config (some i) a.at a.request c).0 e h.2 step.1
          step.2 in
      (omega arith, rest.1 ∙ step.3)

  -- Requests that arrive no faster than the capacity, with no share of them dropped by rule, are
  -- all on their way to an answer, and none is counted as dropped.
  pub serve_paced :
      (as' : List (Arrival Request))
      → config.drop_one_in ≡ none
      → IsPaced i 0 as'
      → ((serve config (some i) as' fresh).1 ≡ length as')
        × ((serve config (some i) as' fresh).0.dropped ≡ 0)
  serve_paced as' e h = serve_paced_from 0 as' fresh e h (omega arith) (omega arith)
