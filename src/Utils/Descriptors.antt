-- ===== src/Utils/Descriptors.antt =====
-- What a passed `check_ulimits` (src/utils.rs) guarantees.
use blastdns.Prelude.{
  ℕ, ◌+◌, ◌≤◌, ◌<◌, ◌≡◌, ◌⊎◌, refl, inl, inr, ltb, Bool-cases, Bool, true, false, Option, none,
  some, arith, if◌then◌else◌, u64_mod,
}
use blastdns.Error.{ok}
use blastdns.Utils.{Limit, check_ulimits}

-- If the check passes, then the limit in force afterwards (the one that was read again if the soft
-- limit had to be raised, and else the first one) has room for a socket per query in flight for
-- TCP, for the UDP sockets (one per resolver if they persist, else one per query in flight), and
-- for 100 more. (That number is below 2 ^ 64.)
pub check_ulimits_enough :
    (first : Limit) (raised : Bool) (again : Option Limit) (max_concurrency resolvers : ℕ)
    (persistent_socket : Bool)
    → max_concurrency + max_concurrency + resolvers + 100 < u64_mod
    → check_ulimits (some first) raised again max_concurrency resolvers persistent_socket ≡ ok tt
    → (limit : Limit) × ((again ≡ some limit)
        ⊎ ((limit ≡ first) × (first.rlim_max ≤ first.rlim_cur)))
      × ((if persistent_socket then resolvers else max_concurrency) + max_concurrency + 100
          ≤ limit.rlim_cur)
unfolding check_ulimits
check_ulimits_enough first false again m r p fits h =
    elim (Bool-cases (ltb first.rlim_cur first.rlim_max)) [
      | inl e ↦ absurd (ground arith)
      | inr e ↦ (first, inr (refl, ground arith), ground arith)
    ]
check_ulimits_enough first true none m r p fits h =
    elim (Bool-cases (ltb first.rlim_cur first.rlim_max)) [
      | inl e ↦ absurd (ground arith)
      | inr e ↦ (first, inr (refl, ground arith), ground arith)
    ]
check_ulimits_enough first true (some limit) m r p fits h =
    elim (Bool-cases (ltb first.rlim_cur first.rlim_max)) [
      | inl e ↦ (limit, inl refl, ground arith)
      | inr e ↦ (first, inr (refl, ground arith), ground arith)
    ]
