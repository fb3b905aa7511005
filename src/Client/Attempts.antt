-- ===== src/Client/Attempts.antt =====
-- Which attempt decides what `resolve_full` (src/client.rs) returns, and what it counts.

use blastdns.Prelude.{
  inl, inr, ℕ, zero, suc, ◌+◌, ◌≤◌, ◌<◌, ◌≡◌, ◌≢◌, ◌∙◌, ap, sym, ◌⊎◌, refl, Bool, true, false, not,
  ◌&&◌, ◌||◌, Option, none, some, ◌==◌, if◌then◌else◌, is_empty, saturating_add, wrapping_add,
  arith, Bool-cases, Option-cases,
}
use blastdns.Cache
use blastdns.Cache.{SimpleCache, CacheEntry, Query}
use blastdns.Client.{
  Delivery, answered, dropped, closed, State, answers_the_question, finish, remember, accept,
  give_up, attempt, attempts_from, look_up, resolve_full,
}
use blastdns.Controller.Global.{Outcomes}
use blastdns.Dns.{Dns}
use blastdns.Error.{
  Result, ok, err, queue_closed, worker_dropped, is_retryable, is_congestion_evidence,
}
use blastdns.Lru.{Lru}
use blastdns.Net.{Text}

-- What an attempt reports.
abbrev pub result_of : {R : Type 0} → Delivery R → Result R
result_of (answered r) = r
result_of dropped = err worker_dropped
result_of closed = err queue_closed

-- The counters after a query with this result: a response is a query that finished, an error one
-- that also failed, unless it is no evidence about the path.
abbrev pub counted : {R : Type 0} → Outcomes → Result R → Outcomes
counted o (ok r) = record o { completed = wrapping_add o.completed 1 }
counted o (err e) =
    if is_congestion_evidence e
    then record { completed = wrapping_add o.completed 1; failed = wrapping_add o.failed 1 }
    else o

module _ (dns : Dns) where
  open dns use {Response}

  -- The delivery leaves nothing to retry.
  abbrev pub settles : Delivery Response → Bool
  settles (answered (ok r)) = answers_the_question dns r
  settles (answered (err e)) = not (is_retryable e)
  settles dropped = false
  settles closed = true

-- Storing a response at `now` cannot panic: the range of TTLs is not empty, and the longest lifetime
-- ends at an `Instant`.
abbrev pub IsSafeAt : {C : Type 0} → ℕ → State C → ℕ → Type 0
IsSafeAt latest s now =
    (c : SimpleCache _) → s.cache ≡ some c → (c.min_ttl ≤ c.max_ttl) × (now + c.max_ttl ≤ latest)

-- Nor at the clock readings of the first `n` attempts.
abbrev pub IsSafe : {C : Type 0} → ℕ → State C → (ℕ → ℕ) → ℕ → Type 0
IsSafe latest s clock n = (i : ℕ) → i < n → IsSafeAt latest s (clock i)

module _ (dns : Dns) (lru : Lru (Query dns) (CacheEntry dns.Response)) (latest : ℕ) where
  open dns use {Response, RecordType}
  open lru use {C}

  insert-≢none :
      (c : SimpleCache C) (q : Query dns) (r : Response) (now : ℕ)
      → c.min_ttl ≤ c.max_ttl
      → now + c.max_ttl ≤ latest
      → Cache.insert dns lru latest c q r now ≢ none
  unfolding Cache.insert Cache.clamp Cache.add
  insert-≢none c q r now h k = ground arith

  insert-some :
      (c : SimpleCache C) (q : Query dns) (r : Response) (now : ℕ)
      → c.min_ttl ≤ c.max_ttl
      → now + c.max_ttl ≤ latest
      → (c' : SimpleCache C) × (Cache.insert dns lru latest c q r now ≡ some c')
  insert-some c q r now h k = elim (Option-cases (Cache.insert dns lru latest c q r now)) [
    | inl e ↦ absurd (insert-≢none c q r now h k e)
    | inr found ↦ found
  ]

  remember-some :
      (s : State C) (host : Text) (t : RecordType) (r : Response) (now : ℕ)
      → IsSafeAt latest s now
      → (s' : State C) × (remember dns lru latest s host t r now ≡ some s')
        × (s'.outcomes ≡ s.outcomes)
  unfolding remember
  remember-some s host t r now safe = elim (Option-cases s.cache) [
    | inl e ↦ (s, rw e, refl)
    | inr (c, e) ↦ elim (Bool-cases (is_empty (dns.answers r))) [
      | inl b ↦ (s, rw (e, b), refl)
      | inr b ↦ elim (Option-cases (dns.from_str host)) [
        | inl n ↦ (s, rw (e, b, n), refl)
        | inr (name, n) ↦
            let (c', i) = insert-some c (name, t) r now (safe c e).0 (safe c e).1 in
            (record s { cache = some c' }, rw (e, b, n, i), refl)
      ]
    ]
  ]

  -- An attempt that leaves nothing to do ends the loop with its result, and the result is counted.
  attempt_ends :
      (s : State C) (host : Text) (t : RecordType) (now : ℕ) (d : Delivery Response) (last : Bool)
      (retry : Option (State C × Result Response))
      → IsSafeAt latest s now
      → settles dns d || last ≡ true
      → (s' : State C) × (attempt dns lru latest s host t now d last retry ≡ some (s', result_of d))
        × (s'.outcomes ≡ counted s.outcomes (result_of d))
  unfolding attempt accept finish give_up is_congestion_evidence is_retryable
  attempt_ends s host t now (answered (ok r)) last retry safe h =
      let (s', e, o) = remember-some s host t r now safe in
      let l : not (answers_the_question dns r) && not last ≡ false = ground arith in
      (finish s' false, rw (l, e), rw o)
  attempt_ends s host t now (answered (err x)) last retry safe h =
      let l : last || not (is_retryable x) ≡ true = ground arith in
      (
        (give_up dns lru latest s x).0,
        rw l,
        elim (Bool-cases (is_congestion_evidence x)) [ inl c ↦ rw c | inr c ↦ rw c ],
      )
  attempt_ends s host t now dropped last retry safe h =
      ((give_up dns lru latest s worker_dropped).0, rw h, refl)
  attempt_ends s host t now closed last retry safe h = (s, refl, refl)

  -- Any other attempt is followed by the next.
  attempt_retries :
      (s : State C) (host : Text) (t : RecordType) (now : ℕ) (d : Delivery Response) (last : Bool)
      (retry : Option (State C × Result Response))
      → settles dns d || last ≡ false
      → attempt dns lru latest s host t now d last retry ≡ retry
  unfolding attempt is_retryable
  attempt_retries s host t now (answered (ok r)) last retry h = ground arith
  attempt_retries s host t now (answered (err x)) last retry h = ground arith
  attempt_retries s host t now dropped last retry h = ground arith
  attempt_retries s host t now closed last retry h = ground arith

  eq_or_lt : (a j : ℕ) → a ≤ j → (a ≡ j) ⊎ (a + 1 ≤ j)
  eq_or_lt a j h = omega arith

  -- For `k` attempts from attempt `a`: the loop returns what attempt `i` reports, where `i` is the
  -- first that settles the query, or the last one if none does, and it counts that result alone.
  -- Storing a response cannot panic, and an attempt is left.
  attempts_from_first :
      (s : State C) (host : Text) (t : RecordType) (clock : ℕ → ℕ) (deliver : ℕ → Delivery Response)
      (k a n : ℕ)
      → IsSafe latest s clock n
      → a + k ≤ n
      → 0 < k
      → (s' : State C) × (i : ℕ) × (attempts_from dns lru latest s host t clock deliver k a
          ≡ some (s', result_of (deliver i)))
        × (a ≤ i)
        × (i < a + k)
        × ((settles dns (deliver i) ≡ true) ⊎ (suc i ≡ a + k))
        × ((j : ℕ) → a ≤ j → j < i → settles dns (deliver j) ≡ false)
        × (s'.outcomes ≡ counted s.outcomes (result_of (deliver i)))
  unfolding attempts_from
  attempts_from_first s host t clock deliver zero a n safe fits h = absurd (omega arith)
  attempts_from_first s host t clock deliver (suc k) a n safe fits h =
      let rest = attempts_from dns lru latest s host t clock deliver k (a + 1) in
      elim (Bool-cases (settles dns (deliver a) || (k == 0))) [
        | inl e ↦
            let (s', r, o) =
              attempt_ends s host t (clock a) (deliver a) (k == 0) rest (safe a (omega arith)) e in
            let d : (settles dns (deliver a) ≡ true) ⊎ (suc a ≡ a + suc k) = ground arith in
            (s', a, r, omega arith, omega arith, d, λ j l m. absurd (omega arith), o)
        | inr e ↦
            let p : 0 < k = ground arith in
            let no : settles dns (deliver a) ≡ false = ground arith in
            let (s', i, r, l, u, d, b, o) =
              attempts_from_first s host t clock deliver k (a + 1) n safe (omega arith) p in
            (
              s',
              i,
              attempt_retries s host t (clock a) (deliver a) (k == 0) rest e ∙ r,
              omega arith,
              omega arith,
              elim d [ inl y ↦ inl y | inr y ↦ inr (omega arith) ],
              λ j x y. elim (eq_or_lt a j x) [
                | inl q ↦ ap (λ w. settles dns (deliver w)) (sym q) ∙ no
                | inr q ↦ b j q y
              ],
              o,
            )
      ]

  found_keeps :
      (c : SimpleCache C) (q : Query dns) (now : ℕ) (p : C × Option (CacheEntry Response))
      → ((Cache.found dns lru c q now p).0.min_ttl ≡ c.min_ttl)
        × ((Cache.found dns lru c q now p).0.max_ttl ≡ c.max_ttl)
  found_keeps c q now (inner, none) = (refl, refl)
  found_keeps c q now (inner, some entry) = (ground arith, ground arith)

  look_up_keeps :
      (s : State C) (host : Text) (t : RecordType) (now : ℕ) (clock : ℕ → ℕ) (n : ℕ)
      → IsSafe latest s clock n
      → IsSafe latest (look_up dns lru s host t now).0 clock n
        × ((look_up dns lru s host t now).0.outcomes ≡ s.outcomes)
  unfolding look_up Cache.get
  look_up_keeps s host t now clock n safe = elim (Option-cases s.cache) [
    | inl e ↦ (λ i l c' e'. absurd (ground arith), rw e)
    | inr (c, e) ↦ elim (Option-cases (dns.from_str host)) [
      | inl m ↦ (λ i l c' e'. let (h, k) = safe i l c e in ground arith, ground arith)
      | inr (name, m) ↦
          let (lo, hi) = found_keeps c (name, t) now (lru.get c.inner (name, t)) in
          (λ i l c' e'. let (h, k) = safe i l c e in ground arith, ground arith)
    ]
  ]

  -- Given what comes of each attempt (a worker answers it, or drops it, or the queue is closed): a
  -- full query returns in every case, if the cache, where there is one, has a range of TTLs that is
  -- not empty and whose upper end, added to the clock at any of the attempts, is an `Instant`. Either the cache has an answer, which is returned with no attempt made and
  -- nothing counted. Or the query returns what attempt `i` reports, where `i` is the first of the
  -- `max_retries` + 1 attempts (at most 2 ^ 64 - 1) that settles it, or the last one if none does;
  -- and it counts that result alone.
  pub resolve_full_cases :
      (format_ptr_query : Text → Text) (max_retries : ℕ) (s : State C) (host : Text)
      (t : RecordType) (now : ℕ) (clock : ℕ → ℕ) (deliver : ℕ → Delivery Response)
      → IsSafe latest s clock (saturating_add max_retries 1)
      → let host' = if dns.is_ptr t then format_ptr_query host else host in
        let full =
          resolve_full dns lru latest format_ptr_query max_retries s host t now clock deliver in
        let looked = look_up dns lru s host' t now in
        ((r : Response) × (looked.1 ≡ some r)
          × (full ≡ some (looked.0, ok r))
          × (looked.0.outcomes ≡ s.outcomes))
        ⊎ ((looked.1 ≡ none)
            × (s' : State C) × (i : ℕ) × (full ≡ some (s', result_of (deliver i)))
            × (i < saturating_add max_retries 1)
            × ((settles dns (deliver i) ≡ true) ⊎ (suc i ≡ saturating_add max_retries 1))
            × ((j : ℕ) → j < i → settles dns (deliver j) ≡ false)
            × (s'.outcomes ≡ counted s.outcomes (result_of (deliver i))))
  unfolding resolve_full
  resolve_full_cases format max_retries s host t now clock deliver safe =
      let host' = if dns.is_ptr t then format host else host in
      let (kept, o) = look_up_keeps s host' t now clock (saturating_add max_retries 1) safe in
      elim (Option-cases (look_up dns lru s host' t now).1) [
        | inr (r, e) ↦ inl (r, e, rw (resolve_full, e), o)
        | inl e ↦
            let (s', i, f, l, u, d, b, c) =
              attempts_from_first (look_up dns lru s host' t now).0 host' t clock deliver
                (saturating_add max_retries 1) 0 (saturating_add max_retries 1) kept (omega arith)
                (omega arith) in
            let ends : (settles dns (deliver i) ≡ true) ⊎ (suc i ≡ saturating_add max_retries 1) =
              elim d [ inl y ↦ inl y | inr y ↦ inr (omega arith) ] in
            inr (
              e,
              s',
              i,
              rw (resolve_full, e) f,
              omega arith,
              ends,
              λ j m. b j (omega arith) m,
              c ∙ ap (λ w. counted w (result_of (deliver i))) o,
            )
      ]
