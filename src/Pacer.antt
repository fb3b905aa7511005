-- ===== src/Pacer.antt =====
-- `AttemptPacer` of src/limiter.rs. `acquire` is split where it waits: `acquire` up to the
-- wait, and `granted` or `cancelled` when the wait ends; both drop the `Waiting` guard.
pub mod Bucket
pub mod Spawn
use blastdns.Prelude.{
  ℕ, ◌+◌, ◌-◌, ◌≤◌, ◌≡◌, min, Bool, true, false, Option, none, some, ◌==◌, ◌&&◌, if◌then◌else◌,
  is_none, wrapping_add, ◌%◌,
}
use mathlib.Core.Option
use blastdns.Float.{Float}
use blastdns.Semaphore.{Semaphore}

pub record AttemptPacer (S F : Type 0) : Type 0 where
  pub rate : Option F
  pub tokens : S
  pub carry : F
  pub waiting : ℕ

-- `PACER_TICK` and `PACER_IDLE_TICK`, in nanoseconds
abbrev pub pacer_tick : ℕ
pacer_tick = 2000000

abbrev pub pacer_idle_tick : ℕ
pacer_idle_tick = 100000000

-- `fetch_sub(1)`
abbrev pub drop_waiting : {S F : Type 0} → AttemptPacer S F → AttemptPacer S F
drop_waiting p = record p { waiting = (p.waiting + 18446744073709551615) % 18446744073709551616 }

-- The pause until the next refill.
unfoldable pub next_pause : {S F : Type 0} → AttemptPacer S F → ℕ
next_pause p = if is_none p.rate && p.waiting == 0 then pacer_idle_tick else pacer_tick

module _ (f64 : Float) where
  open f64 use {F}

  unfoldable pub set_rate : {S : Type 0} → AttemptPacer S F → Option F → AttemptPacer S F
  set_rate p rate = record p { rate = rate; carry = f64.lit 0 1 }

  -- The size of the bucket at a rate: `PACER_BURST_SECONDS` of tokens, at least one.
  unfoldable pub burst : F → ℕ
  burst rate = f64.to_u64 (f64.max (f64.mul rate (f64.lit 1 100)) (f64.lit 1 1))

module _ (f64 : Float) (sem : Semaphore) where
  open f64 use {F}
  open sem use {S}

  unfoldable pub new : AttemptPacer S F
  new = record { rate = none; tokens = sem.new 0; carry = f64.lit 0 1; waiting = 0 }

  -- Whether `acquire` returns at once, and the pacer while it waits if not.
  unfoldable pub acquire : AttemptPacer S F → AttemptPacer S F × Bool
  acquire p = elim p.rate [
    | none ↦ (p, true)
    | some _ ↦ (record p { waiting = wrapping_add p.waiting 1 }, false)
  ]

  -- A waiting caller gets a token, if there is one. `forget` keeps it from coming back.
  unfoldable pub granted : AttemptPacer S F → Option (AttemptPacer S F)
  granted p = Option.map (λ t. drop_waiting (record p { tokens = t })) (sem.try_acquire p.tokens)

  unfoldable pub cancelled : AttemptPacer S F → AttemptPacer S F
  cancelled p = drop_waiting p

  unfoldable pub refill : AttemptPacer S F → F → AttemptPacer S F
  unfolding burst
  refill p seconds = elim p.rate [
    | none ↦ record p {
      tokens = sem.add_permits p.tokens (p.waiting - sem.available_permits p.tokens);
    }
    | some rate ↦
        let carry = f64.add p.carry (f64.mul rate seconds) in
        let whole = f64.floor carry in
        let room = burst f64 rate - sem.available_permits p.tokens in
        record p {
          tokens = sem.add_permits p.tokens (min (f64.to_u64 whole) room);
          carry = f64.sub carry whole;
        }
  ]
