-- ===== src/Pool.antt =====
-- `ResolverPool` of src/health.rs: the rotation that picks a resolver for a query. `now` is the
-- clock of the pass, which every resolver of a pool shares.
pub mod Scan
pub mod Choice
pub mod Soonest
pub mod Sleep
pub mod Passes
pub mod Made
use blastdns.Prelude.{
  ◌⊎◌, inl, inr, ℕ, zero, suc, ◌+◌, ◌-◌, ◌%◌, ◌≤◌, ◌<◌, ◌≡◌, min, max, Bool, true, false, ◌&&◌, not,
  Option, none, some, List, [], ◌∷◌, leb, ltb, ◌==◌, if◌then◌else◌, wrapping_add, arith, length,
  get_elem?, set, map, is_empty, unwrap_or, retain, is_none,
}
use blastdns.Float.{Float}
use blastdns.Semaphore.{Semaphore}
use blastdns.Net.{SocketAddr}
use blastdns.Config.{BlastDnsConfig}
use blastdns.Error.{Result}
use blastdns.Health
use blastdns.Health.{ResolverHealth, ResolverStats, is_benched, try_acquire, release}

pub record ResolverPool (S : Type 0) : Type 0 where
  pub resolvers : List (ResolverHealth S)
  pub cursor : ℕ

-- What the body of the `for` loop of `reserve` makes of one resolver.
pub data Visit (S : Type 0) : Type 0 where
  inactive : Visit S
  benched : Visit S
  busy : Visit S
  taken : ResolverHealth S → Visit S

-- `active`, `benched` and `waitable` of a pass.
pub record Tally : Type 0 where
  pub active : ℕ
  pub benched : ℕ
  pub waitable : Option ℕ

-- What a pass of the `loop` of `reserve` ends with. A resolver is its index.
pub data Outcome (S : Type 0) : Type 0 where
  -- a resolver is reserved; the pool holds one permit less
  reserved : ℕ → ResolverHealth S → Outcome S
  -- `None`
  no_resolver : Outcome S
  -- every active resolver is benched: sleep for so many nanoseconds (0 is `yield_now`)
  sleep : ℕ → Outcome S
  -- wait for a permit of this resolver
  wait_for : ℕ → Outcome S
  -- no resolver to wait for: the next pass begins at once
  again : Outcome S

abbrev pub no_tally : Tally
no_tally = record { active = 0; benched = 0; waitable = none }

-- A skipped resolver enters the tally; only the first busy one is waited for.
unfoldable pub count : {S : Type 0} → Visit S → ℕ → Tally → Tally
count inactive j t = t
count benched j t = record t { active = t.active + 1; benched = t.benched + 1 }
count busy j t = record t {
  active = t.active + 1;
  waitable = elim t.waitable [ none ↦ some j | some w ↦ some w ];
}
count (taken _) j t = t

-- The soonest end of a sentence among the active resolvers, if one is active.
unfoldable pub soonest : {S : Type 0} → List (ResolverHealth S) → Option ℕ
soonest [] = none
soonest (r ∷ rs) =
    let rest = soonest rs in
    if r.active
    then some (elim rest [ none ↦ r.benched_until_ns | some s ↦ min r.benched_until_ns s ])
    else rest

-- The wait of `sleep_until_first_eligible`.
unfoldable pub sleep_until_first_eligible : {S : Type 0} → List (ResolverHealth S) → ℕ → ℕ
unfolding soonest
sleep_until_first_eligible rs now = unwrap_or (soonest rs) now - now

-- The pool with the reserved resolver's permit taken.
abbrev pub keep : {S : Type 0} → ResolverPool S → Outcome S → ResolverPool S
keep p (reserved j r) = record p { resolvers = set p.resolvers j r }
keep p _ = p

module _ (sem : Semaphore) where
  open sem use {S}

  abbrev pub visit_free : Option (ResolverHealth S) → Visit S
  visit_free none = busy
  visit_free (some r) = taken r

  unfoldable pub visit : ResolverHealth S → ℕ → Visit S
  unfolding is_benched
  visit r now =
      if not r.active
      then inactive
      else if is_benched r now
      then benched
      else visit_free (try_acquire sem r)

  -- The end of the body of the `for` loop: `return`, or on to the next round.
  unfoldable pub scan_visit :
      Visit S
      → ℕ
      → Tally
      → (Tally → (ℕ × ResolverHealth S) ⊎ Tally)
      → (ℕ × ResolverHealth S) ⊎ Tally
  unfolding count
  scan_visit (taken r) j t rest = inl (j, r)
  scan_visit inactive j t rest = rest (count {S = S} inactive j t)
  scan_visit benched j t rest = rest (count {S = S} benched j t)
  scan_visit busy j t rest = rest (count {S = S} busy j t)

  -- The `for` loop from `i`, with `k` rounds to go. (An index out of range does not occur.)
  unfoldable pub scan :
      List (ResolverHealth S) → ℕ → ℕ → ℕ → ℕ → Tally → (ℕ × ResolverHealth S) ⊎ Tally
  scan rs now offset zero i t = inr t
  scan rs now offset (suc k) i t =
      let j = wrapping_add offset i % length rs in
      elim (get_elem? rs j) [
        | none ↦ inr t
        | some r ↦ scan_visit (visit r now) j t (λ t'. scan rs now offset k (i + 1) t')
      ]

  -- What follows the `for` loop.
  unfoldable pub conclude : List (ResolverHealth S) → ℕ → (ℕ × ResolverHealth S) ⊎ Tally → Outcome S
  unfolding sleep_until_first_eligible
  conclude rs now (inl (j, r)) = reserved j r
  conclude rs now (inr t) =
      if t.active == 0
      then no_resolver
      else if t.benched == t.active
      then sleep (sleep_until_first_eligible rs now)
      else elim t.waitable [ none ↦ again | some j ↦ wait_for j ]

  -- One pass of `reserve`.
  unfoldable pub reserve_pass : ResolverPool S → ℕ → ResolverPool S × Outcome S
  unfolding scan conclude
  reserve_pass p now =
      if is_empty p.resolvers
      then (p, no_resolver)
      else let o =
          conclude p.resolvers now
            (scan p.resolvers now p.cursor (length p.resolvers) 0 no_tally) in
        (keep (record p { cursor = wrapping_add p.cursor 1 }) o, o)

  -- The `if let` chain after the wait for a permit of `r`: the permit is kept only if the resolver
  -- is still eligible, and dropped otherwise.
  unfoldable pub after_wait : ResolverHealth S → ℕ → ResolverHealth S × Bool
  unfolding is_benched release
  after_wait r now =
      if r.active && not (is_benched r now) then (r, true) else (release sem r, false)

module _ (f64 : Float) where
  open f64 use {F}

  abbrev pub all_built :
      {S : Type 0} → List (Option (ResolverHealth S)) → Option (List (ResolverHealth S))
  all_built [] = some []
  all_built (none ∷ rs) = none
  all_built (some r ∷ rs) = elim (all_built rs) [ none ↦ none | some rs' ↦ some (r ∷ rs') ]

  unfoldable pub stats : {S : Type 0} → ResolverPool S → List (ResolverStats F)
  stats p = map (Health.stats f64) p.resolvers

  module _ (sem : Semaphore) where
    open sem use {S}

    unfoldable pub new : List SocketAddr → BlastDnsConfig F → Option (ResolverPool S)
    new resolvers config = elim (all_built (map (λ a. Health.new f64 sem a config) resolvers)) [
      | none ↦ none
      | some rs ↦ some (record { resolvers = rs; cursor = 0 })
    ]

-- `probe`: every resolver by the answer that its probe query got, and how many stay active.
unfoldable pub probe :
    {S A : Type 0} → List (ResolverHealth S) → List (Result A) → List (ResolverHealth S) × ℕ
probe (r ∷ rs) (a ∷ as') =
    let (r', alive) = Health.probe r a in
    let (rs', n) = probe rs as' in (r' ∷ rs', if alive then suc n else n)
probe rs _ = (rs, 0)
