-- ===== src/Cache/History.antt =====
-- What `SimpleCache` (src/cache.rs) returns, over any sequence of its operations.
use mathlib.Core.Option
use mathlib.Core.Path.{◌∙◌, subst, ap}
use blastdns.Prelude.{
  inl, inr, ℕ, ◌+◌, ◌*◌, ◌<◌, ◌≡◌, ◌≢◌, ◌⊎◌, refl, sym, min, max, false, Option, none, some, List,
  [], ◌∷◌, ltb, leb, ◌==◌, Bool-cases, Option-cases, arith, ◌>>=◌, ltb→lt,
}
use blastdns.Dns.{Dns}
use blastdns.Lru.{Lru, LruLaws}
use blastdns.Cache.Lookups.{expiry}
use blastdns.Cache.{
  CacheEntry, SimpleCache, Query, ttl_secs, clamp, add, new, found, get, contains, insert,
}

module _ (dns : Dns) where
  open dns use {Response}

  pub data Op : Type 0 where
    look : Query dns → ℕ → Op
    check : Query dns → ℕ → Op
    store : Query dns → Response → ℕ → Op

  -- The entry was stored under the query by one of the operations, with its clamped lifetime.
  abbrev pub IsStored : ℕ → ℕ → Query dns → CacheEntry Response → List Op → Type 0
  IsStored lo hi q e [] = ⊥
  IsStored lo hi q e (store q' r now ∷ os) =
      ((q ≡ q')
        × (e.response ≡ r)
        × (ttl_secs dns r ≢ 0)
        × (e.expire_at ≡ now + min (max (ttl_secs dns r * 1000000000) lo) hi))
      ⊎ IsStored lo hi q e os
  IsStored lo hi q e (look _ _ ∷ os) = IsStored lo hi q e os
  IsStored lo hi q e (check _ _ ∷ os) = IsStored lo hi q e os

module _ (dns : Dns) (lru : Lru (Query dns) (CacheEntry dns.Response)) (latest : ℕ) where
  open dns use {Response}
  open lru use {C}

  unfoldable pub apply : SimpleCache C → Op dns → Option (SimpleCache C)
  unfolding get contains insert
  apply c (look q now) = some (get dns lru c q now).0
  apply c (check q now) = some (contains dns lru c q now).0
  apply c (store q r now) = insert dns lru latest c q r now

  -- The operations, the latest first.
  unfoldable pub run : SimpleCache C → List (Op dns) → Option (SimpleCache C)
  unfolding apply
  run c [] = some c
  run c (o ∷ os) = do c' ← run c os; apply c' o

  module _ (laws : LruLaws lru) where
    -- Every entry that a lookup can find was stored.
    record IsBacked (lo hi : ℕ) (os : List (Op dns)) (c : SimpleCache C) : Type 0 where
      lower : c.min_ttl ≡ lo
      upper : c.max_ttl ≡ hi
      backed :
          (q : Query dns) (e : CacheEntry Response)
          → (lru.get c.inner q).1 ≡ some e
          → IsStored dns lo hi q e os

    found-IsBacked :
        (lo hi : ℕ) (os os' : List (Op dns)) (c : SimpleCache C) (k : Query dns) (now : ℕ)
        → IsBacked lo hi os c
        → ((q : Query dns) (e : CacheEntry Response)
            → IsStored dns lo hi q e os
            → IsStored dns lo hi q e os')
        → IsBacked lo hi os' (found dns lru c k now (lru.get c.inner k)).0
    found-IsBacked lo hi os os' c k now b up = kept (lru.get c.inner k).1 refl
      where
        kept :
            (o : Option (CacheEntry Response))
            → (lru.get c.inner k).1 ≡ o
            → IsBacked lo hi os' (found dns lru c k now ((lru.get c.inner k).0, o)).0
        kept none e = record {
          lower = b.lower;
          upper = b.upper;
          backed = λ q x h. up q x (b.backed q x (sym (laws.get-get c.inner k q) ∙ h));
        }
        kept (some y) e = elim (Bool-cases (ltb now y.expire_at)) [
          | inl f ↦ rw f (record {
            lower = b.lower;
            upper = b.upper;
            backed = λ q x h. up q x (b.backed q x (sym (laws.get-get c.inner k q) ∙ h));
          })
          | inr f ↦ rw f (record {
            lower = b.lower;
            upper = b.upper;
            backed = λ q x h.
                up q x (b.backed q x (sym (laws.get-get c.inner k q) ∙ laws.get-pop _ k q x h));
          })
        ]

    insert-IsBacked :
        (lo hi : ℕ) (os : List (Op dns)) (c c' : SimpleCache C) (k : Query dns) (r : Response)
        (now : ℕ)
        → insert dns lru latest c k r now ≡ some c'
        → IsBacked lo hi os c
        → IsBacked lo hi (store k r now ∷ os) c'
    unfolding insert
    insert-IsBacked lo hi os c c' k r now h b = elim (Bool-cases (ttl_secs dns r == 0)) [
      | inl z ↦
          subst (IsBacked lo hi (store k r now ∷ os)) (Option.some-injective c c' (rw z at h))
            (record { lower = b.lower; upper = b.upper; backed = λ q x g. inr (b.backed q x g) })
      | inr nz ↦ elim (Bool-cases (leb c.min_ttl c.max_ttl)) [
        | inr l ↦ absurd (Option.none-ne-some c' (rw (nz, clamp, l) at h))
        | inl l ↦ elim (Bool-cases (leb (expiry dns lru c r now) latest)) [
          | inr f ↦ absurd (Option.none-ne-some c' (rw (nz, clamp, l, add, f) at h))
          | inl f ↦
              subst (IsBacked lo hi (store k r now ∷ os))
                (Option.some-injective _ c' (rw (nz, clamp, l, add, f) at h))
                (record {
                  lower = b.lower;
                  upper = b.upper;
                  backed = λ q x g. put_cases nz q x (laws.get-put c.inner k q _ x g);
                })
        ]
      ]
    ]
      where
        put_cases :
            (ttl_secs dns r == 0) ≡ false
            → (q : Query dns) (x : CacheEntry Response)
            → ((q ≡ k)
                × (x ≡ record {
                  response = r;
                  expire_at = now + min (max (ttl_secs dns r * 1000000000) c.min_ttl) c.max_ttl;
                }))
              ⊎ ((lru.get c.inner q).1 ≡ some x)
            → IsStored dns lo hi q x (store k r now ∷ os)
        put_cases nz q x (inl (e, w)) = inl (
          e,
          ap (λ y. y.response) w,
          ground arith,
          ap (λ y. y.expire_at) w ∙ (rw (b.lower, b.upper)),
        )
        put_cases nz q x (inr g) = inr (b.backed q x g)

    apply-IsBacked :
        (lo hi : ℕ) (os : List (Op dns)) (d c : SimpleCache C) (o : Op dns)
        → apply d o ≡ some c
        → IsBacked lo hi os d
        → IsBacked lo hi (o ∷ os) c
    unfolding apply
    apply-IsBacked lo hi os d c (look k now) h b =
        subst (IsBacked lo hi (look k now ∷ os)) (Option.some-injective _ c h)
          (found-IsBacked lo hi os (look k now ∷ os) d k now b (λ q e s. s))
    apply-IsBacked lo hi os d c (check k now) h b =
        subst (IsBacked lo hi (check k now ∷ os)) (Option.some-injective _ c h)
          (found-IsBacked lo hi os (check k now ∷ os) d k now b (λ q e s. s))
    apply-IsBacked lo hi os d c (store k r now) h b = insert-IsBacked lo hi os d c k r now h b

    new-IsBacked :
        (cap lo hi : ℕ) (c : SimpleCache C) → new dns lru cap lo hi ≡ some c → IsBacked lo hi [] c
    unfolding new
    new-IsBacked cap lo hi c h = elim (Option-cases (lru.new (max cap 1))) [
      | inl n ↦ absurd (Option.none-ne-some c (rw (n, new) at h))
      | inr (inner, n) ↦
          subst (IsBacked lo hi []) (Option.some-injective _ c (rw (n, new) at h)) (record {
            lower = refl;
            upper = refl;
            backed = λ q e g.
                absurd (Option.none-ne-some e (sym (laws.get-new (max cap 1) inner q n) ∙ g));
          })
    ]

    run-IsBacked :
        (cap lo hi : ℕ) (os : List (Op dns)) (b c : SimpleCache C)
        → new dns lru cap lo hi ≡ some b
        → run b os ≡ some c
        → IsBacked lo hi os c
    unfolding run
    run-IsBacked cap lo hi [] b c m h =
        subst (IsBacked lo hi []) (Option.some-injective b c h) (new-IsBacked cap lo hi b m)
    run-IsBacked cap lo hi (o ∷ os) b c m h =
        after (λ d e. run-IsBacked cap lo hi os b d m e) (run b os) refl h
      where
        after :
            ((d : SimpleCache C) → run b os ≡ some d → IsBacked lo hi os d)
            → (m : Option (SimpleCache C)) → run b os ≡ m
            → (m >>= λ c'. apply c' o) ≡ some c
            → IsBacked lo hi (o ∷ os) c
        after ih none e g = absurd (Option.none-ne-some c g)
        after ih (some d) e g = apply-IsBacked lo hi os d c o g (ih d e)

    found_fresh :
        (c : SimpleCache C) (q : Query dns) (now : ℕ) (r : Response)
        → (get dns lru c q now).1 ≡ some r
        → (e : CacheEntry Response) × ((lru.get c.inner q).1 ≡ some e)
          × (e.response ≡ r)
          × (now < e.expire_at)
    unfolding get
    found_fresh c q now r h = fresh (lru.get c.inner q).1 refl h
      where
        fresh :
            (o : Option (CacheEntry Response))
            → (lru.get c.inner q).1 ≡ o
            → (found dns lru c q now ((lru.get c.inner q).0, o)).1 ≡ some r
            → (e : CacheEntry Response) × ((lru.get c.inner q).1 ≡ some e)
              × (e.response ≡ r)
              × (now < e.expire_at)
        fresh none e g = absurd (Option.none-ne-some r g)
        fresh (some x) e g = elim (Bool-cases (ltb now x.expire_at)) [
          | inl f ↦ (x, e, Option.some-injective x.response r (rw f at g), ltb→lt now x.expire_at f)
          | inr f ↦ absurd (Option.none-ne-some r (rw f at g))
        ]

    -- Whatever was done with a new cache: a response that `get` returns was stored under that very
    -- query, with a TTL other than 0, and its lifetime, clamped to the configured range, is not
    -- over.
    pub run-get-IsStored :
        (cap lo hi : ℕ) (os : List (Op dns)) (b c : SimpleCache C) (q : Query dns) (now : ℕ)
        (r : Response)
        → new dns lru cap lo hi ≡ some b
        → run b os ≡ some c
        → (get dns lru c q now).1 ≡ some r
        → (e : CacheEntry Response) × (e.response ≡ r)
          × (now < e.expire_at)
          × IsStored dns lo hi q e os
    run-get-IsStored cap lo hi os b c q now r m h g =
        let (e, f, same, fresh) = found_fresh c q now r g in
        (e, same, fresh, (run-IsBacked cap lo hi os b c m h).backed q e f)
