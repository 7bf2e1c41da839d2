-- ===== src/Run/Workers.antt =====
-- The tasks that pass through a `WorkerPool` of pkg/run/workerpool.go. A task is a number; a worker is
-- an index, and the channel of the future task that it holds is part of its state. The steps of
-- `manageQueue` and of the workers' `Run` come in any order.
pub mod Kept
pub mod Stops
use kubecc.Common.{
  ℕ, ◌+◌, if◌then◌else◌, List, [], ◌∷◌, ◌++◌, Option, none, some, Bool, true, false, get_or, set,
}

pub data Worker : Type 0 where
  idle holding gone : Worker
  -- a task is on the channel of the worker's future task
  given : ℕ → Worker
  running : ℕ → Worker

-- `manageQueue` sends a future task to a worker, or waits for a task for the one that it was sent to.
pub data Manager : Type 0 where
  offering : Manager
  selecting : ℕ → Manager

pub record TaskPool : Type 0 where
  pub upstream : List ℕ
  pub manager : Manager
  pub workers : List Worker
  pub ran : List ℕ
  -- tasks on the channels of future tasks that no worker holds any more
  pub lost : List ℕ

unfoldable pub worker_at : TaskPool → ℕ → Worker
worker_at p i = get_or p.workers i gone

unfoldable pub set_worker : ℕ → Worker → TaskPool → TaskPool
set_worker i w p = record p { workers = set p.workers i w }

unfoldable pub accept : Manager → Worker → ℕ → TaskPool → TaskPool
accept offering idle i p = record (set_worker i holding p) { manager = selecting i }
accept m w i p = p

-- A worker receives a future task.
unfoldable pub future_sent : ℕ → TaskPool → TaskPool
future_sent i p = accept p.manager (worker_at p i) i p

unfoldable pub give : Worker → ℕ → ℕ → TaskPool → TaskPool
give holding i t p = set_worker i (given t) p
give w i t p = record p { lost = t ∷ p.lost }

unfoldable pub select_from : Manager → List ℕ → TaskPool → TaskPool
select_from (selecting i) (t ∷ ts) p =
    give (worker_at p i) i t (record p { upstream = ts; manager = offering })
select_from m ts p = p

-- A task of the upstream queue is sent on the channel of the future task.
unfoldable pub task_selected : TaskPool → TaskPool
task_selected p = select_from p.manager p.upstream p

unfoldable pub begin : Worker → ℕ → TaskPool → TaskPool
begin (given t) i p = set_worker i (running t) p
begin w i p = p

-- A worker receives its task.
unfoldable pub task_taken : ℕ → TaskPool → TaskPool
task_taken i p = begin (worker_at p i) i p

unfoldable pub finish : Worker → ℕ → TaskPool → TaskPool
finish (running t) i p = record (set_worker i idle p) { ran = t ∷ p.ran }
finish w i p = p

unfoldable pub task_finished : ℕ → TaskPool → TaskPool
task_finished i p = finish (worker_at p i) i p

unfoldable pub leave : Worker → ℕ → TaskPool → TaskPool
leave idle i p = set_worker i gone p
leave holding i p = set_worker i gone p
leave (given t) i p = record (set_worker i gone p) { lost = t ∷ p.lost }
leave w i p = p

-- A worker receives a stop, at either of its two waits.
unfoldable pub worker_stopped : ℕ → TaskPool → TaskPool
worker_stopped i p = leave (worker_at p i) i p

unfoldable pub task_queued : ℕ → TaskPool → TaskPool
task_queued t p = record p { upstream = p.upstream ++ t ∷ [] }

unfoldable pub worker_added : TaskPool → TaskPool
worker_added p = record p { workers = p.workers ++ idle ∷ [] }

pub data PoolEvent : Type 0 where
  queues : ℕ → PoolEvent
  adds : PoolEvent
  sends_future : ℕ → PoolEvent
  selects : PoolEvent
  takes : ℕ → PoolEvent
  finishes : ℕ → PoolEvent
  stops : ℕ → PoolEvent

unfoldable pub pool_step : PoolEvent → TaskPool → TaskPool
pool_step (queues t) p = task_queued t p
pool_step adds p = worker_added p
pool_step (sends_future i) p = future_sent i p
pool_step selects p = task_selected p
pool_step (takes i) p = task_taken i p
pool_step (finishes i) p = task_finished i p
pool_step (stops i) p = worker_stopped i p

unfoldable pub pool_run : List PoolEvent → TaskPool → TaskPool
pool_run [] p = p
pool_run (e ∷ es) p = pool_run es (pool_step e p)

unfoldable pub new_task_pool : TaskPool
new_task_pool = record { upstream = []; manager = offering; workers = []; ran = []; lost = [] }
