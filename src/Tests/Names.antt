-- ===== src/Tests/Names.antt =====
-- Examples for src/utils.rs and src/resolver.rs.
use blastdns.Prelude.{
  ℕ, ◌+◌, ◌≤◌, ◌<◌, ◌≡◌, ◌⊎◌, refl, true, some, List, [], ◌∷◌, ◌++◌, All, arith, length,
  if◌then◌else◌,
}
use blastdns.Error.{Result, ok, err, worker_dropped}
use blastdns.Net.{Text, v6}
use blastdns.Resolver.{resolve_batch, resolve_batch_full}
use blastdns.Resolver.Batch.{answered, resolve_batch_lem}
use blastdns.Resolver.Iterator.{Task, runs, returned, run, new, to_come, run-new}
use blastdns.Tests.Answers.{Message, dns, found, cut_off}
use blastdns.Utils.{Limit, check_ulimits, ptr_name}
use blastdns.Utils.Descriptors.{check_ulimits_enough}
use blastdns.Utils.Ptr.{read_ptr_name, read_ptr_name-ptr_name}

-- 2001:4860:4860::8888
abbrev segments : List ℕ
segments = 8193 ∷ 18528 ∷ 18528 ∷ 0 ∷ 0 ∷ 0 ∷ 0 ∷ 34952 ∷ []

segments_below : All (λ s. s < 65536) segments
segments_below = (
  omega arith,
  (
    omega arith,
    (omega arith, (omega arith, (omega arith, (omega arith, (omega arith, (omega arith, tt)))))),
  ),
)

read_ptr_name-ptr_name_example : read_ptr_name (ptr_name (v6 segments)) ≡ segments
read_ptr_name-ptr_name_example = read_ptr_name-ptr_name segments segments_below

abbrev soft : Limit
soft = record { rlim_cur = 256; rlim_max = 4096 }

abbrev hard : Limit
hard = record { rlim_cur = 4096; rlim_max = 4096 }

passed : check_ulimits (some soft) true (some hard) 1000 50 true ≡ ok tt
unfolding check_ulimits
passed = refl

check_ulimits_enough_example :
    (limit : Limit) × ((some hard ≡ some limit) ⊎ ((limit ≡ soft) × (4096 ≤ 256)))
    × ((if true then 50 else 1000) + 1000 + 100 ≤ limit.rlim_cur)
check_ulimits_enough_example =
    check_ulimits_enough soft true (some hard) 1000 50 true (omega arith) passed

abbrev data_to_string : ℕ → Text
data_to_string n = n ∷ []

abbrev done : List (Text × Result Message)
done = (1 ∷ [], ok found) ∷ (2 ∷ [], err worker_dropped) ∷ (3 ∷ [], ok cut_off) ∷ []

resolve_batch_lem_example :
    (resolve_batch dns data_to_string (65 ∷ []) done ≡ answered dns data_to_string (65 ∷ []) done)
    × (length (resolve_batch dns data_to_string (65 ∷ []) done)
        ≡ length (resolve_batch_full dns data_to_string true true done))
resolve_batch_lem_example = resolve_batch_lem dns data_to_string (65 ∷ []) done

abbrev tasks : List Task
tasks = runs ∷ returned ∷ returned ∷ returned ∷ []

abbrev fetched : List ℕ
fetched = 7 ∷ 8 ∷ []

-- Two items, and then the end.
iterated : (run tasks (new fetched)).1 ≡ fetched
unfolding run new
iterated = refl

run-new_example :
    let (s, items) = run tasks (new fetched) in
    (items ++ to_come s.pending s.iterator ≡ fetched) × (length (to_come s.pending s.iterator) ≡ 0)
run-new_example = run-new tasks fetched tt
