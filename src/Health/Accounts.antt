-- ===== src/Health/Accounts.antt =====
-- The counters of `ResolverHealth` (src/health.rs) over a run of operations: every finished query
-- is counted once, and every sentence is paid for. The operations follow one another; Failures is
-- about calls of `record_error` that overlap.
use blastdns.Prelude.{ℕ, ◌+◌, ◌*◌, ◌%◌, ◌≤◌, ◌≡◌, Bool, List, [], ◌∷◌, u64_mod, arith}
use blastdns.Health.{
  ResolverHealth, record_error, record_response, record_dispatch, record_truncated,
}

-- A call that `ResolverWorker::query` makes, with the clock of the moment.
pub data Op : Type 0 where
  dispatch : Op
  truncate : Op
  respond : ℕ → Bool → ℕ → Op
  fail : Bool → ℕ → Op

module _ {S : Type 0} where
  unfoldable pub apply : ResolverHealth S → Op → ResolverHealth S
  unfolding record_dispatch record_truncated record_response record_error
  apply h dispatch = record_dispatch h
  apply h truncate = record_truncated h
  apply h (respond rtt had_answers now) = record_response h rtt had_answers now
  apply h (fail is_timeout now) = record_error h is_timeout now

  unfoldable pub run : ResolverHealth S → List Op → ResolverHealth S
  unfolding apply
  run h [] = h
  run h (o ∷ os) = run (apply h o) os

abbrev pub is_dispatch : Op → ℕ
is_dispatch dispatch = 1
is_dispatch _ = 0

abbrev pub is_finish : Op → ℕ
is_finish (respond _ _ _) = 1
is_finish (fail _ _) = 1
is_finish _ = 0

abbrev pub is_fail : Op → ℕ
is_fail (fail _ _) = 1
is_fail _ = 0

abbrev pub tally : (Op → ℕ) → List Op → ℕ
tally f [] = 0
tally f (o ∷ os) = f o + tally f os

-- Queries that came to an end, by the counters.
abbrev pub finished : {S : Type 0} → ResolverHealth S → ℕ
finished h = h.answered + h.empty + h.timeout + h.error

wrapped_mul-le : (e t : ℕ) → (e + 1) % 18446744073709551616 * t ≤ e * t + t
wrapped_mul-le e t =
    let h : (e + 1) % 18446744073709551616 ≤ e + 1 = omega arith in
    let k : (e + 1) % 18446744073709551616 * t ≤ (e + 1) * t = grind arith in omega arith

module _ {S : Type 0} where
  apply-finished :
      (h : ResolverHealth S) (o : Op)
      → ((finished (apply h o)) % u64_mod ≡ (finished h + is_finish o) % u64_mod)
        × ((apply h o).attempted % u64_mod ≡ (h.attempted + is_dispatch o) % u64_mod)
  unfolding apply
  apply-finished h dispatch = ground arith
  apply-finished h truncate = ground arith
  apply-finished h (respond rtt had_answers now) = ground arith
  apply-finished h (fail is_timeout now) = ground arith

  -- Over any run, `attempted` grows by the dispatches, and `answered`, `empty`, `timeout` and
  -- `error` together by the queries that finished, all modulo 2 ^ 64. So the four account for all
  -- that was attempted exactly when as many queries finished as were dispatched.
  pub run-finished :
      (h : ResolverHealth S) (os : List Op)
      → (finished (run h os) % u64_mod ≡ (finished h + tally is_finish os) % u64_mod)
        × ((run h os).attempted % u64_mod ≡ (h.attempted + tally is_dispatch os) % u64_mod)
  unfolding run
  run-finished h [] = omega arith
  run-finished h (o ∷ os) = omega (arith, apply-finished h o, run-finished (apply h o) os)

  apply_threshold :
      (h : ResolverHealth S) (o : Op)
      → ((apply h o).purgatory_threshold ≡ h.purgatory_threshold)
        × ((apply h o).purgatory_sentence ≡ h.purgatory_sentence)
  unfolding apply
  apply_threshold h dispatch = ground arith
  apply_threshold h truncate = ground arith
  apply_threshold h (respond rtt had_answers now) = ground arith
  apply_threshold h (fail is_timeout now) = ground arith

  -- Failures already paid for by sentences, and those that count towards the next one.
  abbrev paid : ResolverHealth S → ℕ
  paid h = h.purgatory_entries * h.purgatory_threshold + h.consecutive_errors

  apply-paid : (h : ResolverHealth S) (o : Op) → paid (apply h o) ≤ paid h + is_fail o
  unfolding apply
  apply-paid h dispatch = ground arith
  apply-paid h truncate = ground arith
  apply-paid h (respond rtt had_answers now) = ground arith
  apply-paid h (fail is_timeout now) =
      ground (arith, wrapped_mul-le h.purgatory_entries h.purgatory_threshold)

  -- If no two calls overlap, each sentence takes a full threshold of failures of its own: however
  -- responses and failures mix, `n` sentences need `n` times the threshold in failures.
  run-paid : (h : ResolverHealth S) (os : List Op) → paid (run h os) ≤ paid h + tally is_fail os
  unfolding run
  run-paid h [] = omega arith
  run-paid h (o ∷ os) = omega (arith, apply-paid h o, run-paid (apply h o) os)
