-- ===== src/Cache/Lookups.antt =====
-- A lookup in `SimpleCache` (src/cache.rs) right after an insert.
use mathlib.Core.Path.{◌∙◌, ap}
use blastdns.Prelude.{
  inl, inr, ℕ, ◌+◌, ◌*◌, ◌≤◌, ◌<◌, ◌≡◌, ◌≢◌, ◌⊎◌, min, max, none, some, ltb, leb, ◌==◌, ==_iff,
  if◌then◌else◌, Bool-cases, arith,
}
use blastdns.Dns.{Dns}
use blastdns.Lru.{Lru, LruLaws}
use blastdns.Cache.{CacheEntry, SimpleCache, Query, ttl_secs, clamp, add, found, get, insert}

module _ (dns : Dns) (lru : Lru (Query dns) (CacheEntry dns.Response)) where
  open dns use {Response}
  open lru use {C}

  -- When a response that is stored now expires.
  abbrev pub expiry : SimpleCache C → Response → ℕ → ℕ
  expiry c r now = now + min (max (ttl_secs dns r * 1000000000) c.min_ttl) c.max_ttl

  module _ (latest : ℕ) (laws : LruLaws lru) where
    found-entry :
        (c : SimpleCache C) (q : Query dns) (e : CacheEntry Response) (at : ℕ) (inner : C)
        → (found dns lru c q at (inner, some e)).1
          ≡ (if ltb at e.expire_at then some e.response else none)
    found-entry c q e at inner = ground arith

    get-entry :
        (c : SimpleCache C) (q : Query dns) (e : CacheEntry Response) (at : ℕ)
        → (lru.get c.inner q).1 ≡ some e
        → (get dns lru c q at).1 ≡ (if ltb at e.expire_at then some e.response else none)
    unfolding get
    get-entry c q e at h =
        ap (λ o. (found dns lru c q at ((lru.get c.inner q).0, o)).1) h
        ∙ found-entry c q e at (lru.get c.inner q).0

    -- An insert either leaves the cache alone, the least TTL being 0; or panics, the configured
    -- range of lifetimes being empty; or panics, the clamped lifetime ending after the latest
    -- `Instant` that there is; or makes the next lookup of the query return the response before the
    -- clamped lifetime is over, and nothing from then on.
    pub get-insert :
        (c : SimpleCache C) (q : Query dns) (r : Response) (now at : ℕ)
        → let inserted = insert dns lru latest c q r now in
          ((ttl_secs dns r ≡ 0) × (inserted ≡ some c))
          ⊎ (((ttl_secs dns r ≢ 0) × (c.max_ttl < c.min_ttl) × (inserted ≡ none))
              ⊎ (((ttl_secs dns r ≢ 0)
                    × (c.min_ttl ≤ c.max_ttl)
                    × (latest < expiry c r now)
                    × (inserted ≡ none))
                  ⊎ ((c' : SimpleCache C) × (ttl_secs dns r ≢ 0)
                      × (c.min_ttl ≤ c.max_ttl)
                      × (expiry c r now ≤ latest)
                      × (inserted ≡ some c')
                      × ((get dns lru c' q at).1
                          ≡ (if ltb at (expiry c r now) then some r else none)))))
    unfolding insert
    get-insert c q r now at = elim (Bool-cases (ttl_secs dns r == 0)) [
      | inl z ↦ inl ((==_iff _ 0).0 z, rw z)
      | inr nz ↦ elim (Bool-cases (leb c.min_ttl c.max_ttl)) [
        | inr l ↦ inr (inl (ground arith, ground arith, rw (nz, clamp, l)))
        | inl l ↦ elim (Bool-cases (leb (expiry c r now) latest)) [
          | inr f ↦
              inr (inr (inl (ground arith, ground arith, ground arith, rw (nz, clamp, l, add, f))))
          | inl f ↦
              let entry : CacheEntry Response = record {
                response = r;
                expire_at = expiry c r now;
              } in
              let c' : SimpleCache C = record c { inner = lru.put c.inner q entry } in
              inr (
                inr (
                  inr (
                    c',
                    ground arith,
                    ground arith,
                    ground arith,
                    rw (nz, clamp, l, add, f),
                    get-entry c' q entry at (laws.get-put_self c.inner q entry),
                  )))
        ]
      ]
    ]
