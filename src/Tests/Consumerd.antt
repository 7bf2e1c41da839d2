-- ===== src/Tests/Consumerd.antt =====
-- The theorems on the consumerd's queue, its retries and the worker pools at concrete inputs.
use kubecc.Common.{
  ◌+◌, ℕ, ok, arith, ◌≡◌, false, refl, suc, All, drop, List, [], ◌∷◌, ◌++◌, true, length,
}
use kubecc.Consumerd.Queue.{
  unknown, local, new_split_queue, QueueEvent, executes, selects_local, selects_remote,
  receives_local, receives_remote, ends_local, availability, queue_run,
}
use kubecc.Consumerd.Server.{
  TaskResult, no_agents_retry, no_agents_run_local, finished, failed, run_loop,
}
use kubecc.Consumerd.Server.Retries.{IsLocal, answer, first_local, all_retries, run_loop-retries}
use kubecc.Consumerd.Telemetry.{Entry, running_tasks, filter_entries, time_range}
use kubecc.Consumerd.Telemetry.Range.{IsOrdered, in_range, time_range-filter}
use kubecc.Run.{WorkerPool}
use kubecc.Consumerd.Queue.Counters.{in_queue, all_given, queue_counters}

-- Three tasks, of which one is run and ends and one is lost with a stopped worker, while the
-- scheduler becomes available.
abbrev shift : List QueueEvent
shift =
    executes (record { id = 1; exclusivity = unknown })
    ∷ executes (record { id = 2; exclusivity = local })
    ∷ executes (record { id = 3; exclusivity = unknown })
    ∷ selects_local true
    ∷ availability true
    ∷ selects_remote true
    ∷ receives_local 0 false
    ∷ receives_remote 0 true
    ∷ ends_local 0
    ∷ []

queue_counters_example :
    (queue_run new_split_queue shift).num_queued ≡ in_queue (queue_run new_split_queue shift)
    × (queue_run new_split_queue shift).num_running
      ≡ length (queue_run new_split_queue shift).running
    × (queue_run new_split_queue shift).num_delegated
      ≡ length (queue_run new_split_queue shift).delegated
    × (queue_run new_split_queue shift).num_queued
        + (queue_run new_split_queue shift).num_running
        + (queue_run new_split_queue shift).num_delegated
        + (queue_run new_split_queue shift).num_completed_local
        + (queue_run new_split_queue shift).num_completed_remote
      ≡ all_given shift
queue_counters_example = queue_counters shift

-- The scheduler has no agents twice, and asks for a local run the second time.
abbrev retries : List TaskResult
retries = no_agents_retry ∷ no_agents_run_local ∷ []

retries_lem : all_retries retries ≡ true
unfolding all_retries
retries_lem = refl

run_loop-retries_example :
    ((run_loop unknown (retries ++ finished 0 ∷ failed ∷ [])).1 ≡ answer (finished 0))
    × (length (run_loop unknown (retries ++ finished 0 ∷ failed ∷ [])).0 ≡ suc (length retries))
    × All IsLocal (
        drop (suc (first_local retries)) (run_loop unknown (retries ++ finished 0 ∷ failed ∷ [])).0)
run_loop-retries_example =
    run_loop-retries unknown retries (finished 0) (failed ∷ []) retries_lem refl

-- Two workers loop and one is leaving.
abbrev pool : WorkerPool
pool = record { looping = 2; leaving = 1; waiting_stops = 0; paused = false }

abbrev sample : ℕ → Entry
sample time = record { x = time; y = 1; kind = running_tasks }

abbrev samples : List Entry
samples = sample 2 ∷ sample 4 ∷ sample 4 ∷ sample 7 ∷ []

in_order : IsOrdered samples
in_order = (
  ((omega arith), ((omega arith), ((omega arith), tt))),
  (((omega arith), ((omega arith), tt)), (((omega arith), tt), (tt, tt))),
)

time_range-filter_example : time_range samples 3 7 ≡ ok (filter_entries (in_range 3 7) samples)
time_range-filter_example = time_range-filter samples 3 7 in_order (omega arith) (omega arith)
