-- ===== src/Semaphore.antt =====
-- `tokio::sync::Semaphore`, which caps the queries in flight at a resolver (src/health.rs) and
-- holds the tokens of the attempt pacer (src/limiter.rs): an interface, and a counter that meets
-- it.
use blastdns.Prelude.{ℕ, zero, suc, ◌+◌, ◌≡◌, refl, Option, none, some, arith}

-- `new` panics with more permits than `MAX_PERMITS`: who calls it compares with `max_permits`.
-- `try_acquire` takes a permit without waiting; `add_permits` also stands for the drop of a permit.
pub record Semaphore : Type 1 where
  pub S : Type 0
  pub max_permits : ℕ
  pub new : ℕ → S
  pub available_permits : S → ℕ
  pub try_acquire : S → Option S
  pub add_permits : S → ℕ → S

-- What the documentation of tokio says of them.
pub record SemaphoreLaws (sem : Semaphore) : Type 0 where
  pub available_permits-new : (n : ℕ) → sem.available_permits (sem.new n) ≡ n
  pub available_permits-add_permits :
      (s : sem.S) (n : ℕ)
      → sem.available_permits (sem.add_permits s n) ≡ sem.available_permits s + n
  pub try_acquire-none : (s : sem.S) → sem.try_acquire s ≡ none → sem.available_permits s ≡ 0
  pub try_acquire-some :
      (s s' : sem.S)
      → sem.try_acquire s ≡ some s'
      → sem.available_permits s ≡ suc (sem.available_permits s')

abbrev pub take_one : ℕ → Option ℕ
take_one zero = none
take_one (suc n) = some n

pub take_one-none : (s : ℕ) → take_one s ≡ none → s ≡ 0
take_one-none zero h = refl
take_one-none (suc s) h = ground arith

pub take_one-some : (s s' : ℕ) → take_one s ≡ some s' → s ≡ suc s'
take_one-some zero s' h = ground arith
take_one-some (suc s) s' h = ground arith

abbrev pub counter : Semaphore
counter = record {
  S = ℕ;
  max_permits = 2305843009213693951;
  new = λ n. n;
  available_permits = λ s. s;
  try_acquire = take_one;
  add_permits = λ s n. s + n;
}

abbrev pub counter_laws : SemaphoreLaws counter
counter_laws = record {
  available_permits-new = λ n. refl;
  available_permits-add_permits = λ s n. refl;
  try_acquire-none = take_one-none;
  try_acquire-some = take_one-some;
}
