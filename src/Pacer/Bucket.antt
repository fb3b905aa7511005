-- ===== src/Pacer/Bucket.antt =====
-- The tokens of `AttemptPacer` (src/limiter.rs): how full the bucket gets, and that clearing the
-- rate lets every waiter go.
use blastdns.Prelude.{
  ℕ, ◌%◌, ◌⊎◌, true, false, zero, suc, ◌+◌, ◌-◌, ◌≤◌, ◌<◌, ◌≡◌, inl, inr, refl, min, max, Option,
  none, some, arith, u64_mod, Option-cases, ◌>>=◌,
}
use blastdns.Float.{Float}
use blastdns.Semaphore.{Semaphore, SemaphoreLaws}
use blastdns.Pacer.{
  AttemptPacer, burst, granted, acquire, cancelled, refill, set_rate, drop_waiting,
}

module _ (f64 : Float) (sem : Semaphore) (laws : SemaphoreLaws sem) where
  open f64 use {F}
  open sem use {S, available_permits}

  -- A refill at a rate never takes the bucket past its burst size, if it was not past it before,
  -- and adds no more than the whole tokens that the time was worth.
  pub refill-burst :
      (p : AttemptPacer S F) (seconds rate : F)
      → p.rate ≡ some rate
      → let n = available_permits p.tokens in
        let n' = available_permits (refill f64 sem p seconds).tokens in
        (n ≤ n')
        × (n' ≤ max n (burst f64 rate))
        × (n' ≤ n + f64.to_u64 (f64.floor (f64.add p.carry (f64.mul rate seconds))))
  unfolding refill
  refill-burst p seconds rate e = rw e (
      let k =
        min (f64.to_u64 (f64.floor (f64.add p.carry (f64.mul rate seconds))))
          (burst f64 rate - available_permits p.tokens) in
      omega (arith, laws.available_permits-add_permits p.tokens k))

  -- `n` waiters that get a token one after the other.
  unfoldable pub grant_all : ℕ → AttemptPacer S F → Option (AttemptPacer S F)
  grant_all zero p = some p
  grant_all (suc n) p = do p' ← granted f64 sem p; grant_all n p'

  granted-some :
      (p : AttemptPacer S F)
      → 0 < available_permits p.tokens
      → 0 < p.waiting
      → p.waiting < u64_mod
      → (p' : AttemptPacer S F) × (granted f64 sem p ≡ some p')
        × (available_permits p.tokens ≡ suc (available_permits p'.tokens))
        × (p.waiting ≡ suc p'.waiting)
  unfolding granted
  granted-some p h w l = elim (Option-cases (sem.try_acquire p.tokens)) [
    | inl e ↦ absurd (omega (arith, laws.try_acquire-none p.tokens e))
    | inr (t, e) ↦ (
      drop_waiting (record p { tokens = t }),
      rw e,
      laws.try_acquire-some p.tokens t e,
      omega arith,
    )
  ]

  grant_all-waiting :
      (n : ℕ) (p : AttemptPacer S F)
      → n ≡ p.waiting
      → p.waiting ≤ available_permits p.tokens
      → p.waiting < u64_mod
      → (p' : AttemptPacer S F) × (grant_all n p ≡ some p') × (p'.waiting ≡ 0)
  unfolding grant_all
  grant_all-waiting zero p e h l = (p, refl, omega arith)
  grant_all-waiting (suc n) p e h l =
      let (p', g, t, w) = granted-some p (omega arith) (omega arith) l in
      let (q, r, z) = grant_all-waiting n p' (omega arith) (omega arith) (omega arith) in
      (q, rw g r, z)

  -- Once the rate is cleared, one refill has a token for every caller that still waits: all of them
  -- get one, and nobody is left waiting. (Fewer than 2 ^ 64 wait.)
  pub clear-refill_releases :
      (p : AttemptPacer S F) (seconds : F)
      → p.waiting < u64_mod
      → (p' : AttemptPacer S F) × (grant_all p.waiting
            (refill f64 sem (set_rate f64 p none) seconds)
          ≡ some p')
        × (p'.waiting ≡ 0)
  unfolding refill set_rate
  clear-refill_releases p seconds l =
      grant_all-waiting p.waiting _ refl
        (omega (
          arith,
          laws.available_permits-add_permits p.tokens (p.waiting - available_permits p.tokens),
        ))
        l

  -- A call of `acquire` with all its ends: a caller goes through at once and nothing changes; or it
  -- is counted as waiting, and a cancelled wait spends no token, a granted one spends one, and both
  -- restore the count.
  abbrev pub IsBalanced : AttemptPacer S F → Type 0
  IsBalanced p =
      let (q, at_once) = acquire f64 sem p in
      ((p.rate ≡ none) × (at_once ≡ true) × (q ≡ p))
      ⊎ ((at_once ≡ false)
          × (q.waiting ≡ (p.waiting + 1) % u64_mod)
          × ((cancelled f64 sem q).waiting ≡ p.waiting)
          × (available_permits (cancelled f64 sem q).tokens ≡ available_permits p.tokens)
          × (((granted f64 sem q ≡ none) × (available_permits p.tokens ≡ 0))
              ⊎ ((q' : AttemptPacer S F) × (granted f64 sem q ≡ some q')
                  × (available_permits p.tokens ≡ suc (available_permits q'.tokens))
                  × (q'.waiting ≡ p.waiting))))

  balance :
      (rate : Option F) (tokens : S) (carry : F) (waiting : ℕ)
      → waiting < u64_mod
      → IsBalanced (record { rate = rate; tokens = tokens; carry = carry; waiting = waiting })
  unfolding acquire cancelled granted
  balance none tokens carry waiting l = inl (refl, refl, refl)
  balance (some r) tokens carry waiting l =
      let w = (waiting + 1) % u64_mod in
      inr (
        refl,
        refl,
        omega arith,
        refl,
        elim (Option-cases (sem.try_acquire tokens)) [
          | inl n ↦ inl (rw n, laws.try_acquire-none tokens n)
          | inr (t, n) ↦ inr (
            drop_waiting (record { rate = some r; tokens = t; carry = carry; waiting = w }),
            rw n,
            laws.try_acquire-some tokens t n,
            omega arith,
          )
        ],
      )

  -- While the pacer is unlimited, a caller goes through at once and nothing changes. Otherwise the
  -- caller is counted as waiting, and whichever way its wait ends the count is back to what it was:
  -- if it is cancelled, no token is spent; if there is a token, it gets it and exactly one is
  -- spent; if there is none, it cannot be granted one. (Fewer than 2 ^ 64 wait.)
  pub acquire-IsBalanced : (p : AttemptPacer S F) → p.waiting < u64_mod → IsBalanced p
  acquire-IsBalanced p l = balance p.rate p.tokens p.carry p.waiting l
