-- ===== src/Brake/Window.antt =====
-- `AttemptBrake::tick` (src/controller.rs): the idle check, the open window, and when it is judged.
use blastdns.Prelude.{
  ℕ, ◌+◌, ◌%◌, Bool, true, false, ◌||◌, Option, none, some, [], ltb, ◌==◌, if◌then◌else◌,
  wrapping_add, saturating_add_u32,
}
use blastdns.Float.{Float}
use blastdns.Brake.{
  Sample, Probe, AttemptBrake, attempt_min_window, attempt_reference_window,
  attempt_window_timeouts, attempt_idle_qps, attempt_shaped_fraction, set_limit, reset_window,
}
use blastdns.Brake.Decide.{decide}

module _ (f64 : Float) where
  open f64 use {F}

  -- A tick that sent too little to learn from.
  unfoldable pub is_idle : F → ℕ → Bool
  is_idle seconds attempted = f64.lt (f64.of_u64 attempted) (f64.mul (attempt_idle_qps f64) seconds)

module _ (f64 : Float) {S : Type 0} where
  open f64 use {F}

  unfoldable pub restore_probe : AttemptBrake S F → Option (Probe F) → AttemptBrake S F
  unfolding set_limit
  restore_probe b none = b
  restore_probe b (some p) = set_limit f64 (record b { probe = none }) p.restore

  -- The early return on an idle tick.
  unfoldable pub idle_tick : AttemptBrake S F → AttemptBrake S F
  unfolding restore_probe reset_window
  idle_tick b =
      let b' = restore_probe b b.probe in
      reset_window f64 (record b' { idle_ticks = saturating_add_u32 b'.idle_ticks 1 })

  -- The first tick with traffic after idle ones.
  unfoldable pub wake : AttemptBrake S F → F → AttemptBrake S F
  unfolding set_limit
  wake b seconds =
      let idle = f64.mul seconds (f64.of_u64 b.idle_ticks) in
      let b' = record b { idle_ticks = 0; settling = true } in
      let b'' = record b' {
        history = [];
        reference_window = attempt_reference_window;
        probed = false;
      } in
      if ltb 0 b.idle_ticks
      then if f64.le (f64.lit 60 1) idle then set_limit f64 b'' none else b'
      else b

  -- What the tick brought is added to the open window.
  unfoldable pub gather : AttemptBrake S F → F → ℕ → ℕ → ℕ → AttemptBrake S F
  gather b seconds attempted lost responded = record b {
    window = record b.window {
      lost = wrapping_add b.window.lost lost;
      responded = wrapping_add b.window.responded responded;
    };
    dispatched = wrapping_add b.dispatched attempted;
    seconds = f64.add b.seconds seconds;
    unshaped_ticks =
        if b.pacer.waiting == 0 then (b.unshaped_ticks + 1) % 4294967296 else b.unshaped_ticks;
  }

  -- Whether the open window is too short or too small to be judged.
  unfoldable pub is_open : AttemptBrake S F → F → Bool
  is_open b longest_timeout =
      ltb (wrapping_add b.window.lost b.window.responded) attempt_min_window
      || f64.lt b.seconds (f64.mul longest_timeout (attempt_window_timeouts f64))

  -- Whether the limit, rather than the workload or another limit, set the rate.
  unfoldable pub is_shaped : AttemptBrake S F → F → Bool
  is_shaped b rate = elim b.limit [
    | none ↦ true
    | some limit ↦
        b.unshaped_ticks == 0 || f64.le (f64.mul limit (attempt_shaped_fraction f64)) rate
  ]

  -- The figures of the window.
  unfoldable pub measure : AttemptBrake S F → ℕ → Sample F
  measure b now = record {
    at = now;
    rate = f64.div (f64.of_u64 b.dispatched) b.seconds;
    loss =
        f64.div (f64.of_u64 b.window.lost)
          (f64.of_u64 (wrapping_add b.window.lost b.window.responded));
    delivered = f64.div (f64.of_u64 b.window.responded) b.seconds;
  }

  -- The window is closed. One that straddles a change of the rate is not judged.
  unfoldable pub close : AttemptBrake S F → ℕ → AttemptBrake S F
  unfolding reset_window measure is_shaped decide
  close b now =
      let s = measure b now in
      let b' = record (reset_window f64 b) { settling = false } in
      if b.settling then b' else decide f64 b' (is_shaped b s.rate) s

  unfoldable pub tick : AttemptBrake S F → F → ℕ → ℕ → ℕ → F → ℕ → AttemptBrake S F
  unfolding is_idle idle_tick wake gather is_open close
  tick b seconds attempted lost responded longest_timeout now =
      if is_idle f64 seconds attempted
      then idle_tick b
      else let b' = gather (wake b seconds) seconds attempted lost responded in
        if is_open b' longest_timeout then b' else close b' now
