-- ===== src/Brake/Limits.antt =====
-- What every tick of `AttemptBrake` (src/controller.rs) keeps: the pacer has the limit, the limit
-- has its floor, and the probe and the reference window stay in their ranges.
use blastdns.Prelude.{
  [], ℕ, ◌≤◌, ◌≡◌, inl, inr, refl, Bool, true, false, Option, none, some, arith, Bool-cases, not,
  ◌&&◌, is_some, ltb, sym, ltb→lt,
}
use mathlib.Core.Option
use mathlib.Core.Path.{subst}
use blastdns.Float.{Float, OrderLaws}
use blastdns.Brake.{
  AttemptBrake, Probe, Sample, attempt_reference_window, attempt_max_reference_window, set_limit,
  remember, attempt_min_rate, attempt_goodput_floor, attempt_growth, attempt_probe_fraction,
  retreat, congested,
}
use blastdns.Brake.Decide.{
  probe_window, settle, judged_window, decide_probe, is_not_congested, raise_limit,
  next_reference_window,
}
use blastdns.Brake.Window.{tick, idle_tick, restore_probe, wake, gather, close, is_open, is_idle}

abbrev pub IsProbing : {F : Type 0} → Option (Probe F) → Type 0
IsProbing none = Unit
IsProbing (some p) = (1 ≤ p.windows) × (p.windows ≤ 2)

module _ (f64 : Float) where
  open f64 use {F}

  abbrev pub IsFloored : Option F → Type 0
  IsFloored none = Unit
  IsFloored (some l) = f64.le (attempt_min_rate f64) l ≡ true

  pub record IsSound {S : Type 0} (b : AttemptBrake S F) : Type 0 where
    pub synced : b.pacer.rate ≡ b.limit
    pub floored : IsFloored b.limit
    pub window_min : attempt_reference_window ≤ b.reference_window
    pub window_max : b.reference_window ≤ attempt_max_reference_window
    pub probing : IsProbing b.probe

module _ (f64 : Float) (laws : OrderLaws f64) where
  open f64 use {F}

  -- The limit that `set_limit` sets.
  raised :
      (limit : Option F) → IsFloored f64 (Option.map (λ l. f64.max l (attempt_min_rate f64)) limit)
  raised none = tt
  raised (some l) = laws.le-max_right l (attempt_min_rate f64) (laws.lit-IsNumber 10 1)

module _ (f64 : Float) (laws : OrderLaws f64) {S : Type 0} where
  open f64 use {F}

  pub set_limit-IsSound :
      (b : AttemptBrake S F) (limit : Option F)
      → IsSound f64 b
      → IsSound f64 (set_limit f64 b limit)
  unfolding set_limit
  set_limit-IsSound b limit h = record {
    synced = refl;
    floored = raised f64 laws limit;
    window_min = h.window_min;
    window_max = h.window_max;
    probing = h.probing;
  }

  -- A change of what the invariant does not mention, of the probe, or of the reference window.
  updated :
      (b b' : AttemptBrake S F)
      → b'.pacer ≡ b.pacer
      → b'.limit ≡ b.limit
      → attempt_reference_window ≤ b'.reference_window
      → b'.reference_window ≤ attempt_max_reference_window
      → IsProbing b'.probe
      → IsSound f64 b
      → IsSound f64 b'
  updated b b' p l n x k h = record {
    synced = rw (p, l) h.synced;
    floored = subst (IsFloored f64) (sym l) h.floored;
    window_min = n;
    window_max = x;
    probing = k;
  }

  probe_window-IsSound :
      (b : AttemptBrake S F) (p : Probe F) (s : Sample F)
      → IsSound f64 b
      → IsProbing (some p)
      → IsSound f64 (probe_window f64 b p s)
  unfolding probe_window
  probe_window-IsSound b p s h k = elim (Bool-cases (ltb 1 p.windows)) [
    | inl e ↦
        rw e (updated b _ refl refl h.window_min h.window_max (ground (arith, ltb→lt _ _ e)) h)
    | inr e ↦ rw e (
        updated (set_limit f64 (remember f64 b s) p.restore) _ refl refl h.window_min h.window_max
          h.probing
          (set_limit-IsSound (remember f64 b s) p.restore
            (updated b (remember f64 b s) refl refl h.window_min h.window_max h.probing h)))
  ]

  raise_limit-IsSound :
      (b : AttemptBrake S F) (limit : Option F)
      → IsSound f64 b
      → IsSound f64 (raise_limit f64 b limit)
  unfolding raise_limit
  raise_limit-IsSound b none h = h
  raise_limit-IsSound b (some l) h = set_limit-IsSound b (some (f64.mul l (attempt_growth f64))) h

  next_reference_window_range :
      (b : AttemptBrake S F)
      → IsSound f64 b
      → (attempt_reference_window ≤ next_reference_window f64 b)
        × (next_reference_window f64 b ≤ attempt_max_reference_window)
  unfolding next_reference_window
  next_reference_window_range b h = ground (arith, h.window_min, h.window_max)

  settle-IsSound :
      (b : AttemptBrake S F) (c : Option Bool) (s : Sample F) (best : F)
      → IsSound f64 b
      → IsSound f64 (settle f64 b c s best)
  unfolding settle
  settle-IsSound b none s best h =
      set_limit-IsSound (record b { probe = some (record { restore = b.limit; windows = 2 }) })
        (some (f64.mul s.rate (attempt_probe_fraction f64)))
        (updated b _ refl refl h.window_min h.window_max (omega arith) h)
  settle-IsSound b (some true) s best h =
      let b' = record b { probed = false; reference_window = attempt_reference_window } in
      let h' : IsSound f64 b' = updated b b' refl refl (omega arith) (omega arith) h.probing h in
      elim (Bool-cases (f64.lt s.delivered (f64.mul best (attempt_goodput_floor f64)))) [
        | inl e ↦ rw e h'
        | inr e ↦ rw e (set_limit-IsSound b' (some (f64.mul s.rate (retreat f64))) h')
      ]
  settle-IsSound b (some false) s best h =
      let (n, x) = next_reference_window_range b h in
      raise_limit-IsSound _ b.limit (updated b _ refl refl n x h.probing h)

  remember-IsSound :
      (b : AttemptBrake S F) (s : Sample F) → IsSound f64 b → IsSound f64 (remember f64 b s)
  unfolding remember
  remember-IsSound b s h = updated b _ refl refl h.window_min h.window_max h.probing h

  judged_window-IsSound :
      (b : AttemptBrake S F) (shaped : Bool) (s : Sample F)
      → IsSound f64 b
      → IsSound f64 (judged_window f64 b shaped s)
  unfolding judged_window
  judged_window-IsSound b shaped s h = elim (Bool-cases (is_some b.limit && not shaped)) [
    | inl e ↦ rw e (elim (Bool-cases (is_not_congested (congested f64 b.history s.rate s.loss))) [
      | inl c ↦ rw c (set_limit-IsSound b none h)
      | inr c ↦ rw c h
    ])
    | inr e ↦ rw e (settle-IsSound (remember f64 b s) _ s _ (remember-IsSound b s h))
  ]

  decide_probe-IsSound :
      (b : AttemptBrake S F) (p : Option (Probe F)) (shaped : Bool) (s : Sample F)
      → b.probe ≡ p
      → IsSound f64 b
      → IsSound f64 (decide_probe f64 b p shaped s)
  unfolding decide_probe
  decide_probe-IsSound b none shaped s e h = judged_window-IsSound b shaped s h
  decide_probe-IsSound b (some p) shaped s e h =
      probe_window-IsSound (record b { probe = none }) p s
        (updated b _ refl refl h.window_min h.window_max tt h) (subst IsProbing e h.probing)

  close-IsSound : (b : AttemptBrake S F) (now : ℕ) → IsSound f64 b → IsSound f64 (close f64 b now)
  unfolding close
  close-IsSound b now h = elim (Bool-cases b.settling) [
    | inl e ↦ rw e (updated b _ refl refl h.window_min h.window_max h.probing h)
    | inr e ↦ rw e (
        decide_probe-IsSound _ b.probe _ _ refl
          (updated b _ refl refl h.window_min h.window_max h.probing h))
  ]

  restore_probe-IsSound :
      (b : AttemptBrake S F) (p : Option (Probe F))
      → IsSound f64 b
      → IsSound f64 (restore_probe f64 b p)
  unfolding restore_probe
  restore_probe-IsSound b none h = h
  restore_probe-IsSound b (some p) h =
      set_limit-IsSound (record b { probe = none }) p.restore
        (updated b _ refl refl h.window_min h.window_max tt h)

  idle_tick-IsSound : (b : AttemptBrake S F) → IsSound f64 b → IsSound f64 (idle_tick f64 b)
  unfolding idle_tick
  idle_tick-IsSound b h =
      let k = restore_probe-IsSound b b.probe h in
      updated (restore_probe f64 b b.probe) _ refl refl k.window_min k.window_max k.probing k

  wake-IsSound :
      (b : AttemptBrake S F) (seconds : F) → IsSound f64 b → IsSound f64 (wake f64 b seconds)
  unfolding wake
  wake-IsSound b seconds h = elim (Bool-cases (ltb 0 b.idle_ticks)) [
    | inl e ↦
        rw e
          (elim (Bool-cases (f64.le (f64.lit 60 1) (f64.mul seconds (f64.of_u64 b.idle_ticks)))) [
            | inl long ↦ rw long (
                set_limit-IsSound
                  (record b {
                    idle_ticks = 0;
                    settling = true;
                    history = [];
                    reference_window = attempt_reference_window;
                    probed = false;
                  })
                  none (updated b _ refl refl (omega arith) (omega arith) h.probing h))
            | inr short ↦ rw short (updated b _ refl refl h.window_min h.window_max h.probing h)
          ])
    | inr e ↦ rw e h
  ]

  -- Every tick keeps the pacer's rate equal to the limit, the limit at or above its floor, the
  -- reference window between 60 and 480 seconds, and the windows left of a probe between 1 and 2.
  pub tick-IsSound :
      (b : AttemptBrake S F) (seconds : F) (attempted lost responded : ℕ) (longest_timeout : F)
      (now : ℕ)
      → IsSound f64 b
      → IsSound f64 (tick f64 b seconds attempted lost responded longest_timeout now)
  unfolding tick
  tick-IsSound b seconds attempted lost responded longest_timeout now h =
      elim (Bool-cases (is_idle f64 seconds attempted)) [
        | inl e ↦ rw e (idle_tick-IsSound b h)
        | inr e ↦
            let b' = gather f64 (wake f64 b seconds) seconds attempted lost responded in
            let h' : IsSound f64 b' = gathered in
            rw e (elim (Bool-cases (is_open f64 b' longest_timeout)) [
              | inl o ↦ rw o h'
              | inr o ↦ rw o (close-IsSound b' now h')
            ])
      ]
    where
      gathered : IsSound f64 (gather f64 (wake f64 b seconds) seconds attempted lost responded)
      gathered =
          let k = wake-IsSound b seconds h in
          updated (wake f64 b seconds) _ refl refl k.window_min k.window_max k.probing k
