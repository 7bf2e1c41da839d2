-- ===== src/Run/Workers/Kept.antt =====
-- What becomes of the tasks of pkg/run/workerpool.go.
use kubecc.Common.{
  ℕ, zero, suc, ◌+◌, ◌≡◌, refl, ap, List, [], ◌∷◌, ◌++◌, Bool, true, false, length, length-append,
  get_or, set, arith,
}
use kubecc.Run.Workers.{
  Worker, idle, holding, gone, given, running, Manager, offering, selecting, TaskPool, worker_at,
  set_worker, accept, future_sent, give, select_from, task_selected, begin, task_taken, finish,
  task_finished, leave, worker_stopped, task_queued, worker_added, PoolEvent, queues, adds,
  sends_future, selects, takes, finishes, stops, pool_step, pool_run,
}

-- The tasks that a worker has.
abbrev pub in_hand : Worker → ℕ
in_hand idle = 0
in_hand holding = 0
in_hand gone = 0
in_hand (given t) = 1
in_hand (running t) = 1

abbrev pub in_hands : List Worker → ℕ
in_hands [] = 0
in_hands (w ∷ ws) = in_hand w + in_hands ws

abbrev is_there : Worker → Bool
is_there gone = false
is_there w = true

in_hands-append : (ws : List Worker) → in_hands (ws ++ idle ∷ []) ≡ in_hands ws
in_hands-append [] = refl
in_hands-append (w ∷ ws) = omega (arith, in_hands-append ws)

in_hands-set :
    (ws : List Worker) (i : ℕ) (v : Worker)
    → is_there (get_or ws i gone) ≡ true
    → in_hands (set ws i v) + in_hand (get_or ws i gone) ≡ in_hands ws + in_hand v
in_hands-set [] i v h = cc
in_hands-set (w ∷ ws) zero v h = omega arith
in_hands-set (w ∷ ws) (suc i) v h = omega (arith, in_hands-set ws i v h)

-- The tasks of a pool, wherever they are.
abbrev pub all_tasks : TaskPool → ℕ
all_tasks p = length p.upstream + in_hands p.workers + length p.ran + length p.lost

abbrev pub queued : List PoolEvent → ℕ
queued [] = 0
queued (queues t ∷ es) = queued es + 1
queued (e ∷ es) = queued es

module _ (p : TaskPool) (i : ℕ) where
  accept-tasks :
      (m : Manager) (w : Worker) → worker_at p i ≡ w → all_tasks (accept m w i p) ≡ all_tasks p
  unfolding accept worker_at set_worker
  accept-tasks offering idle e =
      let e' = in_hands-set p.workers i holding (ap is_there e) in
      let z = ap in_hand e in omega (arith, e', z)
  accept-tasks m w e = refl

  begin-tasks : (w : Worker) → worker_at p i ≡ w → all_tasks (begin w i p) ≡ all_tasks p
  unfolding begin worker_at set_worker
  begin-tasks (given t) e =
      let e' = in_hands-set p.workers i (running t) (ap is_there e) in
      let z = ap in_hand e in omega (arith, e', z)
  begin-tasks w e = refl

  finish-tasks : (w : Worker) → worker_at p i ≡ w → all_tasks (finish w i p) ≡ all_tasks p
  unfolding finish worker_at set_worker
  finish-tasks (running t) e =
      let e' = in_hands-set p.workers i idle (ap is_there e) in
      let z = ap in_hand e in omega (arith, e', z)
  finish-tasks w e = refl

  leave-tasks : (w : Worker) → worker_at p i ≡ w → all_tasks (leave w i p) ≡ all_tasks p
  unfolding leave worker_at set_worker
  leave-tasks idle e =
      let e' = in_hands-set p.workers i gone (ap is_there e) in
      let z = ap in_hand e in omega (arith, e', z)
  leave-tasks holding e =
      let e' = in_hands-set p.workers i gone (ap is_there e) in
      let z = ap in_hand e in omega (arith, e', z)
  leave-tasks (given t) e =
      let e' = in_hands-set p.workers i gone (ap is_there e) in
      let z = ap in_hand e in omega (arith, e', z)
  leave-tasks w e = refl

  give-tasks : (w : Worker) (t : ℕ) → worker_at p i ≡ w → all_tasks (give w i t p) ≡ all_tasks p + 1
  unfolding give worker_at set_worker
  give-tasks holding t e =
      let e' = in_hands-set p.workers i (given t) (ap is_there e) in
      let z = ap in_hand e in omega (arith, e', z)
  give-tasks w t e = omega arith

select_from-tasks :
    (m : Manager) (ts : List ℕ) (p : TaskPool)
    → p.upstream ≡ ts
    → all_tasks (select_from m ts p) ≡ all_tasks p
unfolding select_from
select_from-tasks (selecting i) (t ∷ ts) p e =
    let g =
      give-tasks (record p { upstream = ts; manager = offering }) i (worker_at p i) t
        (unfold worker_at in refl) in
    omega (arith, g, ap length e)
select_from-tasks m ts p e = refl

pool_step-tasks :
    (e : PoolEvent) (p : TaskPool) → all_tasks (pool_step e p) ≡ all_tasks p + queued (e ∷ [])
unfolding pool_step task_queued worker_added future_sent task_selected task_taken task_finished
    worker_stopped
pool_step-tasks (queues t) p = omega (arith, length-append {0} p.upstream (t ∷ []))
pool_step-tasks adds p = omega (arith, in_hands-append p.workers)
pool_step-tasks (sends_future i) p = omega (arith, accept-tasks p i p.manager (worker_at p i) refl)
pool_step-tasks selects p = omega (arith, select_from-tasks p.manager p.upstream p refl)
pool_step-tasks (takes i) p = omega (arith, begin-tasks p i (worker_at p i) refl)
pool_step-tasks (finishes i) p = omega (arith, finish-tasks p i (worker_at p i) refl)
pool_step-tasks (stops i) p = omega (arith, leave-tasks p i (worker_at p i) refl)

queued-cons : (e : PoolEvent) (es : List PoolEvent) → queued (e ∷ es) ≡ queued (e ∷ []) + queued es
queued-cons (queues t) es = omega arith
queued-cons adds es = omega arith
queued-cons (sends_future i) es = omega arith
queued-cons selects es = omega arith
queued-cons (takes i) es = omega arith
queued-cons (finishes i) es = omega arith
queued-cons (stops i) es = omega arith

pub pool_run-tasks :
    (es : List PoolEvent) (p : TaskPool) → all_tasks (pool_run es p) ≡ all_tasks p + queued es
unfolding pool_run
pool_run-tasks [] p = omega arith
pool_run-tasks (e ∷ es) p =
    omega (arith, pool_run-tasks es (pool_step e p), pool_step-tasks e p, queued-cons e es)
