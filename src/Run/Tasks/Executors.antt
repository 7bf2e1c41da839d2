-- ===== src/Run/Tasks/Executors.antt =====
-- The counters of the queued executor, pkg/run/executor.go.
use kubecc.Common.{ℕ, ◌+◌, ◌≡◌, refl, List, [], ◌∷◌, arith}
use kubecc.Run.Tasks.{
  QueuedExecutor, new_queued_executor, exec_queues, exec_sent, exec_returns, background_done,
  ExecutorEvent, called, taken, ended, executor_step, executor_run,
}

-- The calls of a history.
abbrev pub calls : List ExecutorEvent → ℕ
calls [] = 0
calls (called ∷ es) = calls es + 1
calls (taken ∷ es) = calls es
calls (ended ∷ es) = calls es

executor_step-counts :
    (e : ExecutorEvent) (x : QueuedExecutor)
    → x.num_running ≡ x.waiting
    → ((executor_step e x).num_running ≡ (executor_step e x).waiting)
      × ((executor_step e x).num_queued + (executor_step e x).num_running
          ≡ x.num_queued + x.num_running + calls (e ∷ []))
unfolding executor_step exec_queues exec_sent exec_returns background_done
executor_step-counts called x h = (h, omega arith)
executor_step-counts taken x h = ground arith
executor_step-counts ended x h = (h, omega arith)

executor_run-counts :
    (es : List ExecutorEvent) (x : QueuedExecutor)
    → x.num_running ≡ x.waiting
    → ((executor_run es x).num_running ≡ (executor_run es x).waiting)
      × ((executor_run es x).num_queued + (executor_run es x).num_running
          ≡ x.num_queued + x.num_running + calls es)
unfolding executor_run
executor_run-counts [] x h = (h, omega arith)
executor_run-counts (called ∷ es) x h =
    let (a, b) = executor_step-counts called x h in
    let (c, d) = executor_run-counts es (executor_step called x) a in (c, omega (arith, b, d))
executor_run-counts (taken ∷ es) x h =
    let (a, b) = executor_step-counts taken x h in
    let (c, d) = executor_run-counts es (executor_step taken x) a in (c, omega (arith, b, d))
executor_run-counts (ended ∷ es) x h =
    let (a, b) = executor_step-counts ended x h in
    let (c, d) = executor_run-counts es (executor_step ended x) a in (c, omega (arith, b, d))

-- After every history of a new queued executor, however many of its tasks have ended: no call of `Exec`
-- has returned, the tasks that it counts as running are the calls that wait, and with the queued
-- ones they are as many as all calls.
pub executor_run-never_returns :
    (es : List ExecutorEvent)
    → let x = executor_run es new_queued_executor in
      (x.num_running ≡ x.waiting) × (x.num_queued + x.waiting ≡ calls es)
unfolding new_queued_executor
executor_run-never_returns es =
    let (a, b) = executor_run-counts es new_queued_executor refl in (a, omega (arith, a, b))
