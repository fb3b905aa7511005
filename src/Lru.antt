-- ===== src/Lru.antt =====
-- `lru::LruCache`, which holds the entries of `SimpleCache` (src/cache.rs): an interface. A lookup
-- makes its entry the most recent one, so it returns the cache too. A new cache allocates room for
-- its capacity; `none` is the panic when that cannot be had.
pub mod Pairs
use blastdns.Prelude.{ℕ, ◌≡◌, ◌≢◌, ◌⊎◌, Option, none, some}

pub record Lru (K V : Type 0) : Type 1 where
  pub C : Type 0
  pub new : ℕ → Option C
  pub get : C → K → C × Option V
  pub pop : C → K → C
  pub put : C → K → V → C

-- What its documentation says of lookups: `put` may evict other entries, `get` only changes the
-- order, and `pop` removes its key.
pub record LruLaws {K V : Type 0} (lru : Lru K V) : Type 0 where
  pub get-new : (n : ℕ) (c : lru.C) (k : K) → lru.new n ≡ some c → (lru.get c k).1 ≡ none
  pub get-put_self : (c : lru.C) (k : K) (v : V) → (lru.get (lru.put c k v) k).1 ≡ some v
  pub get-put :
      (c : lru.C) (k q : K) (v w : V)
      → (lru.get (lru.put c k v) q).1 ≡ some w
      → ((q ≡ k) × (w ≡ v)) ⊎ ((lru.get c q).1 ≡ some w)
  pub get-get : (c : lru.C) (k q : K) → (lru.get (lru.get c k).0 q).1 ≡ (lru.get c q).1
  pub get-pop_self : (c : lru.C) (k : K) → (lru.get (lru.pop c k) k).1 ≡ none
  pub get-pop :
      (c : lru.C) (k q : K) (w : V)
      → (lru.get (lru.pop c k) q).1 ≡ some w
      → (lru.get c q).1 ≡ some w
