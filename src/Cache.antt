-- ===== src/Cache.antt =====
-- `SimpleCache` of src/cache.rs. Its lock is never poisoned here: no operation panics while it
-- holds the lock. `now` is the `Instant` argument, in nanoseconds; `none` is a panic: of
-- `Duration::clamp`, of the addition to an `Instant`, or of `LruCache::new`.
pub mod Lookups
pub mod History
use blastdns.Prelude.{
  ℕ, ◌+◌, ◌*◌, ◌≤◌, min, max, Bool, true, false, Option, none, some, List, [], ◌∷◌, ltb, leb, ◌==◌,
  if◌then◌else◌, unwrap_or, map, is_some, ◌>>=◌,
}
use mathlib.Core.Option
use blastdns.Dns.{Dns}
use blastdns.Lru.{Lru}

-- `CacheEntry`
pub record CacheEntry (R : Type 0) : Type 0 where
  pub response : R
  pub expire_at : ℕ

pub record SimpleCache (C : Type 0) : Type 0 where
  pub inner : C
  pub min_ttl : ℕ
  pub max_ttl : ℕ

-- `Iterator::min`
unfoldable pub least : List ℕ → Option ℕ
least [] = none
least (x ∷ xs) = some (elim (least xs) [ none ↦ x | some y ↦ min x y ])

-- `Duration::clamp`, which panics on an empty range.
unfoldable pub clamp : ℕ → ℕ → ℕ → Option ℕ
clamp d lo hi = if leb lo hi then some (min (max d lo) hi) else none

-- `Instant + Duration`, which panics if the sum is no `Instant`; `latest` is the last one there is.
unfoldable pub add : ℕ → ℕ → ℕ → Option ℕ
add latest now d = if leb (now + d) latest then some (now + d) else none

module _ (dns : Dns) where
  open dns use {Name, RecordType, Response}

  -- `Query::query`
  abbrev pub Query : Type 0
  Query = Name × RecordType

  -- The least TTL of the answers, in seconds; 0 if there are none.
  unfoldable pub ttl_secs : Response → ℕ
  unfolding least
  ttl_secs r = unwrap_or (least (map dns.ttl (dns.answers r))) 0

module _ (dns : Dns) (lru : Lru (Query dns) (CacheEntry dns.Response)) where
  open dns use {Name, RecordType, Response}
  open lru use {C}

  unfoldable pub new : ℕ → ℕ → ℕ → Option (SimpleCache C)
  new capacity min_ttl max_ttl = do
    inner ← lru.new (max capacity 1)
    some (record { inner = inner; min_ttl = min_ttl; max_ttl = max_ttl })

  -- The lookup of `get` and `contains`: a fresh entry, or none. An expired one is dropped.
  abbrev pub found :
      SimpleCache C
      → Query dns
      → ℕ
      → C × Option (CacheEntry Response)
      → SimpleCache C × Option Response
  found c q now (inner, none) = (record c { inner = inner }, none)
  found c q now (inner, some entry) =
      if ltb now entry.expire_at
      then (record c { inner = inner }, some entry.response)
      else (record c { inner = lru.pop inner q }, none)

  unfoldable pub get : SimpleCache C → Query dns → ℕ → SimpleCache C × Option Response
  get c q now = found c q now (lru.get c.inner q)

  unfoldable pub contains : SimpleCache C → Query dns → ℕ → SimpleCache C × Bool
  contains c q now = let (c', r) = found c q now (lru.get c.inner q) in (c', is_some r)

  unfoldable pub insert : ℕ → SimpleCache C → Query dns → Response → ℕ → Option (SimpleCache C)
  unfolding ttl_secs clamp add
  insert latest c q response now =
      let secs = ttl_secs dns response in
      if secs == 0 then some c else do
        ttl ← clamp (secs * 1000000000) c.min_ttl c.max_ttl
        expire_at ← add latest now ttl
        some (record c {
          inner = lru.put c.inner q (record { response = response; expire_at = expire_at });
        })
