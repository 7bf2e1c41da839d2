-- ===== src/Run/Workers/Stops.antt =====
-- Stops that workers of pkg/run/workerpool.go take, and the tasks that are lost by them.
use kubecc.Common.{
  ℕ, zero, suc, ◌<◌, ◌≡◌, ◌≢◌, refl, sym, ap, subst, ◌∙◌, if◌then◌else◌, List, [], ◌∷◌, ◌++◌, Bool,
  true, false, length, get_or, set, arith, get_or-set_ne, get_or-set_self, get_or-append_ne,
  get_or_outside, Bool-cases, inl, inr,
}
use kubecc.Run.Workers.{
  Worker, idle, holding, gone, given, running, Manager, offering, selecting, TaskPool, worker_at,
  set_worker, accept, future_sent, give, select_from, task_selected, begin, task_taken, finish,
  task_finished, leave, worker_stopped, task_queued, worker_added, PoolEvent, queues, adds,
  sends_future, selects, takes, finishes, stops, pool_step, pool_run, new_task_pool,
}
use kubecc.Run.Workers.Kept.{all_tasks, queued, pool_run-tasks}

no_gone : gone ≢ holding
no_gone e = cc

there : (ws : List Worker) (j : ℕ) → get_or ws j gone ≡ idle → j < length ws
there [] j e = cc
there (w ∷ ws) zero e = omega arith
there (w ∷ ws) (suc j) e = omega (arith, there ws j e)

held_there : (ws : List Worker) (j : ℕ) → get_or ws j gone ≡ holding → j < length ws
held_there [] j e = cc
held_there (w ∷ ws) zero e = omega arith
held_there (w ∷ ws) (suc j) e = omega (arith, held_there ws j e)

-- The worker that a task is awaited for holds its future task.
abbrev Awaited : Manager → List Worker → Type 0
Awaited offering ws = Unit
Awaited (selecting i) ws = get_or ws i gone ≡ holding

Awaited-set :
    (ws : List Worker) (m : Manager) (j : ℕ) (v w : Worker)
    → get_or ws j gone ≡ w
    → w ≢ holding
    → Awaited m ws
    → Awaited m (set ws j v)
Awaited-set ws offering j v w a n h = tt
Awaited-set ws (selecting i) j v w a n h =
    let ne : j ≢ i = λ e. n (sym a ∙ ap (λ k. get_or ws k gone) e ∙ h) in
    get_or-set_ne ws j i v gone ne ∙ h

Awaited-append : (ws : List Worker) (m : Manager) → Awaited m ws → Awaited m (ws ++ idle ∷ [])
Awaited-append ws offering h = tt
Awaited-append ws (selecting i) h =
    let out = get_or_outside ws (length ws) gone (omega arith) in
    let ne : i ≢ length ws = λ e. no_gone (sym out ∙ ap (λ k. get_or ws k gone) (sym e) ∙ h) in
    get_or-append_ne ws idle gone i ne ∙ h

-- No task was lost, and the worker that a task is awaited for is there.
abbrev NoneLost : TaskPool → Type 0
NoneLost p = (p.lost ≡ []) × Awaited p.manager p.workers

module _ (p : TaskPool) (j : ℕ) where
  begin-NoneLost : (w : Worker) → get_or p.workers j gone ≡ w → NoneLost p → NoneLost (begin w j p)
  unfolding begin set_worker
  begin-NoneLost (given t) a (l, h) =
      (l, Awaited-set p.workers p.manager j (running t) (given t) a (λ e. cc) h)
  begin-NoneLost w a h = h

  finish-NoneLost :
      (w : Worker) → get_or p.workers j gone ≡ w → NoneLost p → NoneLost (finish w j p)
  unfolding finish set_worker
  finish-NoneLost (running t) a (l, h) =
      (l, Awaited-set p.workers p.manager j idle (running t) a (λ e. cc) h)
  finish-NoneLost w a h = h

  accept-NoneLost :
      (m : Manager) (w : Worker)
      → p.manager ≡ m
      → get_or p.workers j gone ≡ w
      → NoneLost p
      → NoneLost (accept m w j p)
  unfolding accept set_worker
  accept-NoneLost offering idle e a (l, h) =
      (l, get_or-set_self p.workers j holding gone (there p.workers j a))
  accept-NoneLost m w e a h = h

  select_from-NoneLost :
      (m : Manager) (ts : List ℕ) → p.manager ≡ m → NoneLost p → NoneLost (select_from m ts p)
  unfolding select_from give worker_at set_worker
  select_from-NoneLost (selecting i) (t ∷ ts) e (l, h) =
      let at : get_or p.workers i gone ≡ holding = subst (λ m. Awaited m p.workers) e h in
      rw (give, at) (l, tt)
  select_from-NoneLost m ts e h = h

-- A history in which no worker takes a stop.
abbrev pub no_stops : List PoolEvent → Bool
no_stops [] = true
no_stops (stops i ∷ es) = false
no_stops (e ∷ es) = no_stops es

pool_run-NoneLost :
    (es : List PoolEvent) (p : TaskPool)
    → no_stops es ≡ true
    → NoneLost p
    → NoneLost (pool_run es p)
unfolding pool_run pool_step task_queued worker_added future_sent task_selected task_taken
    task_finished worker_at
pool_run-NoneLost [] p n h = h
pool_run-NoneLost (queues t ∷ es) p n h = pool_run-NoneLost es (pool_step (queues t) p) n h
pool_run-NoneLost (adds ∷ es) p n (l, h) =
    pool_run-NoneLost es (pool_step adds p) n (l, Awaited-append p.workers p.manager h)
pool_run-NoneLost (sends_future i ∷ es) p n h =
    pool_run-NoneLost es (pool_step (sends_future i) p) n
      (accept-NoneLost p i p.manager (get_or p.workers i gone) refl refl h)
pool_run-NoneLost (selects ∷ es) p n h =
    pool_run-NoneLost es (pool_step selects p) n
      (select_from-NoneLost p 0 p.manager p.upstream refl h)
pool_run-NoneLost (takes i ∷ es) p n h =
    pool_run-NoneLost es (pool_step (takes i) p) n
      (begin-NoneLost p i (get_or p.workers i gone) refl h)
pool_run-NoneLost (finishes i ∷ es) p n h =
    pool_run-NoneLost es (pool_step (finishes i) p) n
      (finish-NoneLost p i (get_or p.workers i gone) refl h)
pool_run-NoneLost (stops i ∷ es) p n h = cc

-- After every history of a new pool: the tasks that were given to the queue are as many as those in the
-- queue, with the workers, run and lost together; and if no worker took a stop, none is lost.
pub pool_run-kept :
    (es : List PoolEvent)
    → (all_tasks (pool_run es new_task_pool) ≡ queued es)
      × ((if no_stops es then (pool_run es new_task_pool).lost else []) ≡ [])
unfolding new_task_pool
pool_run-kept es = (
  omega (arith, pool_run-tasks es new_task_pool),
  elim (Bool-cases (no_stops es)) [
    | inl n ↦ rw n (pool_run-NoneLost es new_task_pool n (refl, tt)).0
    | inr n ↦ rw n refl
  ],
)

-- When the worker that holds the awaited future task takes a stop, the next task of the queue is lost.
pub worker_stopped-loses :
    (p : TaskPool) (i t : ℕ) (ts : List ℕ)
    → p.manager ≡ selecting i
    → worker_at p i ≡ holding
    → p.upstream ≡ t ∷ ts
    → (task_selected (worker_stopped i p)).lost ≡ t ∷ p.lost
unfolding task_selected worker_stopped select_from leave set_worker give worker_at
worker_stopped-loses p i t ts m h u =
    let out = get_or-set_self p.workers i gone gone (held_there p.workers i h) in
    rw (leave, h) (rw (select_from, m, u) (rw (give, out) refl))
