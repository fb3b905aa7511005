-- ===== src/Tests/Bindings.antt =====
-- Examples for src/python.rs.
use blastdns.Prelude.{ℕ, ◌+◌, ◌≡◌, refl, Bool, true, some, List, [], ◌∷◌, Option, arith}
use blastdns.Config.{BlastDnsConfigWire, from}
use blastdns.Float.Fixed.{fixed, fixed_laws}
use blastdns.Net.{Text}
use blastdns.Python.{ExceptionType, PyResult, returns, stop_async_iteration, config_of}
use blastdns.Python.Batches.{drain, Drained, drain-Drained}
use blastdns.Python.Start.{new, Handed, new-Handed}
use blastdns.Semaphore.{counter}
use blastdns.Tests.Answers.{dns, lru}
use blastdns.Tests.Clients.{system}
use blastdns.Tests.Limits.{wire}

abbrev imported : ExceptionType → Bool
imported t = true

abbrev from_json : Text → Option (BlastDnsConfigWire ℕ)
from_json t = some wire

new-Handed_example :
    Handed fixed counter dns lru imported fixed_laws system []
      (config_of from_json (from fixed) (some (123 ∷ [])))
      (new fixed counter dns lru imported system from_json [] (some (123 ∷ [])))
new-Handed_example =
    new-Handed fixed counter dns lru imported fixed_laws system from_json [] (some (123 ∷ []))

abbrev payload : ℕ → PyResult ℕ
payload n = returns (n + 1)

abbrev increased : ℕ → ℕ
increased n = n + 1

abbrev stream : List (ℕ × ℕ)
stream = (1000, 1) ∷ (200001000, 2) ∷ (200002000, 3) ∷ []

abbrev starts : ℕ → ℕ
starts k = 1000

-- The second result comes after 200 milliseconds, so the third is left to the second call.
drained :
    drain payload 4 starts 0 stream ≡ some ((2 ∷ 3 ∷ []) ∷ (4 ∷ []) ∷ [], stop_async_iteration)
unfolding drain
drained = refl

drain-Drained_example :
    Drained payload increased (λ n. refl) stream (drain payload 4 starts 0 stream)
drain-Drained_example = drain-Drained payload increased (λ n. refl) 4 starts 0 stream (omega arith)
