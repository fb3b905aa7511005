-- ===== src/Brake/Decide.antt =====
-- `AttemptBrake::tick` (src/controller.rs) from the point where a window is judged.
use blastdns.Prelude.{
  ℕ, ◌-◌, ◌*◌, min, Bool, true, false, not, ◌&&◌, Option, none, some, ltb, if◌then◌else◌, unwrap_or,
  is_some,
}
use blastdns.Float.{Float}
use blastdns.Brake.{
  Sample, Probe, AttemptBrake, attempt_probe_windows, attempt_reference_window,
  attempt_max_reference_window, retreat, attempt_probe_fraction, attempt_goodput_floor,
  attempt_growth, set_limit, remember, congested, best_higher,
}

-- `Option<bool> != Some(true)`
abbrev pub is_not_congested : Option Bool → Bool
is_not_congested (some c) = not c
is_not_congested none = true

module _ (f64 : Float) {S : Type 0} where
  open f64 use {F}

  -- A window measured by the probe `p`, which `take` has removed.
  unfoldable pub probe_window : AttemptBrake S F → Probe F → Sample F → AttemptBrake S F
  unfolding remember set_limit
  probe_window b p s =
      let b' = remember f64 b s in
      if ltb 1 p.windows
      then record b' { probe = some (record p { windows = p.windows - 1 }) }
      else record (set_limit f64 b' p.restore) { probed = true }

  -- Traffic ran below the limit.
  unfoldable pub unshaped_window : AttemptBrake S F → F → F → AttemptBrake S F
  unfolding set_limit
  unshaped_window b rate loss =
      if is_not_congested (congested f64 b.history rate loss) then set_limit f64 b none else b

  -- The end of a clear window.
  unfoldable pub raise_limit : AttemptBrake S F → Option F → AttemptBrake S F
  unfolding set_limit
  raise_limit b none = b
  raise_limit b (some limit) = set_limit f64 b (some (f64.mul limit (attempt_growth f64)))

  -- The reference window after a clear window: a probe that found no bottleneck doubles it.
  unfoldable pub next_reference_window : AttemptBrake S F → ℕ
  next_reference_window b =
      if b.probed
      then min (b.reference_window * 2) attempt_max_reference_window
      else b.reference_window

  -- The verdict on a window is in; `best` is `best_higher`.
  unfoldable pub settle : AttemptBrake S F → Option Bool → Sample F → F → AttemptBrake S F
  unfolding set_limit raise_limit next_reference_window
  settle b none s best =
      set_limit f64
        (record b { probe = some (record { restore = b.limit; windows = attempt_probe_windows }) })
        (some (f64.mul s.rate (attempt_probe_fraction f64)))
  settle b (some true) s best =
      let b' = record b { probed = false; reference_window = attempt_reference_window } in
      if f64.lt s.delivered (f64.mul best (attempt_goodput_floor f64))
      then b'
      else set_limit f64 b' (some (f64.mul s.rate (retreat f64)))
  settle b (some false) s best =
      raise_limit (record b { probed = false; reference_window = next_reference_window b }) b.limit

  -- A judged window; the rate of `s` is the limit, where there is one.
  unfoldable pub judged_window : AttemptBrake S F → Bool → Sample F → AttemptBrake S F
  unfolding unshaped_window settle remember
  judged_window b shaped s =
      if is_some b.limit && not shaped
      then unshaped_window b s.rate s.loss
      else let best = best_higher f64 b.history s.rate (f64.lit 0 1) in
        let b' = remember f64 b s in settle b' (congested f64 b'.history s.rate s.loss) s best

  unfoldable pub decide_probe :
      AttemptBrake S F → Option (Probe F) → Bool → Sample F → AttemptBrake S F
  unfolding probe_window judged_window
  decide_probe b none shaped s = judged_window b shaped s
  decide_probe b (some p) shaped s = probe_window (record b { probe = none }) p s

  -- `tick` after the check of `settling`, with the figures of the window.
  unfoldable pub decide : AttemptBrake S F → Bool → Sample F → AttemptBrake S F
  unfolding decide_probe
  decide b shaped s = decide_probe b b.probe shaped (record s { rate = unwrap_or b.limit s.rate })
