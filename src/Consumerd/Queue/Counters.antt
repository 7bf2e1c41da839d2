-- ===== src/Consumerd/Queue/Counters.antt =====
-- The counters of pkg/consumerd/telemetry.go over the histories of the queue.
use kubecc.Common.{
  ℕ, zero, suc, ◌+◌, ◌≡◌, refl, ap, List, [], ◌∷◌, some, Bool, true, false, length, length-append,
  get_elem?, erase_idx, arith, Option-cases, ◌⊎◌, inl, inr, if◌then◌else◌,
}
use kubecc.Consumerd.Queue.{
  SplitTaskLocation, unknown, local, remote, SplitTask, SplitQueue, new_split_queue, enqueue, exec,
  start_local, start_remote, local_selects, remote_selects, local_receives, remote_receives,
  local_finishes, remote_finishes, QueueEvent, executes, selects_local, selects_remote,
  receives_local, receives_remote, ends_local, ends_remote, availability, queue_step, queue_run,
}

-- The tasks in the three channels, those held for a worker, and those that were lost.
abbrev pub in_queue : SplitQueue → ℕ
in_queue q =
    length q.shared_queue
    + length q.local_queue
    + length q.remote_queue
    + length q.held_local
    + length q.held_remote
    + length q.lost

-- The counters of a queue that was given a number of tasks.
pub record IsMetered (q : SplitQueue) (given : ℕ) : Type 0 where
  pub queued : q.num_queued ≡ in_queue q
  pub running : q.num_running ≡ length q.running
  pub delegated : q.num_delegated ≡ length q.delegated
  pub all :
      q.num_queued + q.num_running + q.num_delegated + q.num_completed_local
        + q.num_completed_remote
      ≡ given

erase_idx-length :
    {A : Type 0} (xs : List A) (i : ℕ) (x : A)
    → get_elem? xs i ≡ some x
    → length xs ≡ suc (length (erase_idx xs i))
erase_idx-length [] i x h = absurd (grind arith)
erase_idx-length (y ∷ xs) zero x h = refl
erase_idx-length (y ∷ xs) (suc i) x h = ap suc (erase_idx-length xs i x h)

if-IsMetered :
    (given : ℕ) (b : Bool) (p q : SplitQueue)
    → IsMetered p given
    → IsMetered q given
    → IsMetered (if b then p else q) given
if-IsMetered given true p q v w = v
if-IsMetered given false p q v w = w

List-cases : {A : Type 0} (l : List A) → (l ≡ []) ⊎ ((x : A) × (rest : List A) × l ≡ x ∷ rest)
List-cases [] = inl refl
List-cases (x ∷ rest) = inr (x, rest, refl)

module _ (q : SplitQueue) (given : ℕ) (v : IsMetered q given) where
  enqueue-IsMetered :
      (t : SplitTask) (l : SplitTaskLocation)
      → IsMetered (enqueue (record q { num_queued = q.num_queued + 1 }) t l) (suc given)
  unfolding enqueue
  enqueue-IsMetered t unknown = record {
    queued = omega (arith, v.queued, length-append q.shared_queue (t ∷ []));
    running = v.running;
    delegated = v.delegated;
    all = omega (arith, v.all);
  }
  enqueue-IsMetered t local = record {
    queued = omega (arith, v.queued, length-append q.local_queue (t ∷ []));
    running = v.running;
    delegated = v.delegated;
    all = omega (arith, v.all);
  }
  enqueue-IsMetered t remote = record {
    queued = omega (arith, v.queued, length-append q.remote_queue (t ∷ []));
    running = v.running;
    delegated = v.delegated;
    all = omega (arith, v.all);
  }

  exec-IsMetered : (t : SplitTask) → IsMetered (exec q t) (suc given)
  unfolding exec
  exec-IsMetered t = enqueue-IsMetered t t.exclusivity

  local_finishes-IsMetered : (i : ℕ) → IsMetered (local_finishes q i) given
  unfolding local_finishes
  local_finishes-IsMetered i = elim (Option-cases (get_elem? q.running i)) [
    | inl e ↦ rw (local_finishes, e) v
    | inr (t, e) ↦
        rw (local_finishes, e)
          (record {
            queued = v.queued;
            running = omega (arith, v.running, erase_idx-length q.running i t e);
            delegated = v.delegated;
            all = omega (arith, v.all, v.running, erase_idx-length q.running i t e);
          })
  ]

  remote_finishes-IsMetered : (i : ℕ) → IsMetered (remote_finishes q i) given
  unfolding remote_finishes
  remote_finishes-IsMetered i = elim (Option-cases (get_elem? q.delegated i)) [
    | inl e ↦ rw (remote_finishes, e) v
    | inr (t, e) ↦
        rw (remote_finishes, e)
          (record {
            queued = v.queued;
            running = v.running;
            delegated = omega (arith, v.delegated, erase_idx-length q.delegated i t e);
            all = omega (arith, v.all, v.delegated, erase_idx-length q.delegated i t e);
          })
  ]

  local_selects-shared : IsMetered (local_selects q true) given
  unfolding local_selects
  local_selects-shared = elim (List-cases q.shared_queue) [
    | inl e ↦ rw (local_selects, e) v
    | inr (t, rest, e) ↦
        rw (local_selects, e)
          (record {
            queued = omega (arith, v.queued, ap length e);
            running = v.running;
            delegated = v.delegated;
            all = v.all;
          })
  ]

  local_selects-own : IsMetered (local_selects q false) given
  unfolding local_selects
  local_selects-own = elim (List-cases q.local_queue) [
    | inl e ↦ rw (local_selects, e) v
    | inr (t, rest, e) ↦
        rw (local_selects, e)
          (record {
            queued = omega (arith, v.queued, ap length e);
            running = v.running;
            delegated = v.delegated;
            all = v.all;
          })
  ]

  remote_selects-shared : IsMetered (remote_selects q true) given
  unfolding remote_selects
  remote_selects-shared = elim (List-cases q.shared_queue) [
    | inl e ↦ rw (remote_selects, e) v
    | inr (t, rest, e) ↦
        rw (remote_selects, e)
          (record {
            queued = omega (arith, v.queued, ap length e);
            running = v.running;
            delegated = v.delegated;
            all = v.all;
          })
  ]

  remote_selects-own : IsMetered (remote_selects q false) given
  unfolding remote_selects
  remote_selects-own = elim (List-cases q.remote_queue) [
    | inl e ↦ rw (remote_selects, e) v
    | inr (t, rest, e) ↦
        rw (remote_selects, e)
          (record {
            queued = omega (arith, v.queued, ap length e);
            running = v.running;
            delegated = v.delegated;
            all = v.all;
          })
  ]

  local_receives-IsMetered : (i : ℕ) (stopped : Bool) → IsMetered (local_receives q i stopped) given
  unfolding local_receives start_local
  local_receives-IsMetered i stopped = elim (Option-cases (get_elem? q.held_local i)) [
    | inl e ↦ rw (local_receives, e) v
    | inr (t, e) ↦
        let n = erase_idx-length q.held_local i t e in
        rw (local_receives, e)
          (if-IsMetered given stopped _ _
            (record {
              queued = omega (arith, v.queued, n);
              running = v.running;
              delegated = v.delegated;
              all = v.all;
            })
            (record {
              queued = omega (arith, v.queued, n);
              running = omega (arith, v.running);
              delegated = v.delegated;
              all = omega (arith, v.all, v.queued, n);
            }))
  ]

  remote_receives-IsMetered :
      (i : ℕ) (stopped : Bool) → IsMetered (remote_receives q i stopped) given
  unfolding remote_receives start_remote
  remote_receives-IsMetered i stopped = elim (Option-cases (get_elem? q.held_remote i)) [
    | inl e ↦ rw (remote_receives, e) v
    | inr (t, e) ↦
        let n = erase_idx-length q.held_remote i t e in
        rw (remote_receives, e)
          (if-IsMetered given stopped _ _
            (record {
              queued = omega (arith, v.queued, n);
              running = v.running;
              delegated = v.delegated;
              all = v.all;
            })
            (record {
              queued = omega (arith, v.queued, n);
              delegated = omega (arith, v.delegated);
              running = v.running;
              all = omega (arith, v.all, v.queued, n);
            }))
  ]

  paused-IsMetered : (p : Bool) → IsMetered (record q { remote_paused = p }) given
  paused-IsMetered p = record {
    queued = v.queued;
    running = v.running;
    delegated = v.delegated;
    all = v.all;
  }

keep : (q : SplitQueue) (given : ℕ) → IsMetered q given → IsMetered q (0 + given)
keep q given v = record {
  queued = v.queued;
  running = v.running;
  delegated = v.delegated;
  all = omega (arith, v.all);
}

-- The tasks that events give to the queue.
abbrev pub given_by : QueueEvent → ℕ
given_by (executes t) = 1
given_by _ = 0

abbrev pub all_given : List QueueEvent → ℕ
all_given [] = 0
all_given (e ∷ es) = given_by e + all_given es

step-IsMetered :
    (q : SplitQueue) (given : ℕ) (e : QueueEvent)
    → IsMetered q given
    → IsMetered (queue_step q e) (given_by e + given)
unfolding queue_step
step-IsMetered q given (executes t) v = more (exec-IsMetered q given v t)
  where
    more : {p : SplitQueue} → IsMetered p (suc given) → IsMetered p (1 + given)
    more {p} w = record {
      queued = w.queued;
      running = w.running;
      delegated = w.delegated;
      all = omega (arith, w.all);
    }
step-IsMetered q given (selects_local true) v = local_selects-shared q _ (keep q given v)
step-IsMetered q given (selects_local false) v = local_selects-own q _ (keep q given v)
step-IsMetered q given (selects_remote true) v = remote_selects-shared q _ (keep q given v)
step-IsMetered q given (selects_remote false) v = remote_selects-own q _ (keep q given v)
step-IsMetered q given (receives_local i stopped) v =
    local_receives-IsMetered q _ (keep q given v) i stopped
step-IsMetered q given (receives_remote i stopped) v =
    remote_receives-IsMetered q _ (keep q given v) i stopped
step-IsMetered q given (ends_local i) v = local_finishes-IsMetered q _ (keep q given v) i
step-IsMetered q given (ends_remote i) v = remote_finishes-IsMetered q _ (keep q given v) i
step-IsMetered q given (availability true) v = paused-IsMetered q _ (keep q given v) false
step-IsMetered q given (availability false) v = paused-IsMetered q _ (keep q given v) true

run-IsMetered :
    (q : SplitQueue) (given : ℕ) (es : List QueueEvent)
    → IsMetered q given
    → IsMetered (queue_run q es) (all_given es + given)
unfolding queue_run
run-IsMetered q given [] v = keep q given v
run-IsMetered q given (e ∷ es) v =
    let w = run-IsMetered (queue_step q e) (given_by e + given) es (step-IsMetered q given e v) in
    record {
      queued = w.queued;
      running = w.running;
      delegated = w.delegated;
      all = omega (arith, w.all);
    }

-- After every history from a new queue: the counter of queued tasks is the number of tasks in the
-- three channels, of those that a pool selected and no worker runs yet, and of those that were lost
-- with a stopped worker; the counters of running and delegated tasks are the numbers of tasks that
-- workers run; and with the completed tasks they add up to the tasks that `Exec` was given.
pub queue_counters :
    (es : List QueueEvent)
    → (queue_run new_split_queue es).num_queued ≡ in_queue (queue_run new_split_queue es)
      × (queue_run new_split_queue es).num_running ≡ length (queue_run new_split_queue es).running
      × (queue_run new_split_queue es).num_delegated
        ≡ length (queue_run new_split_queue es).delegated
      × (queue_run new_split_queue es).num_queued
          + (queue_run new_split_queue es).num_running
          + (queue_run new_split_queue es).num_delegated
          + (queue_run new_split_queue es).num_completed_local
          + (queue_run new_split_queue es).num_completed_remote
        ≡ all_given es
queue_counters es =
    let v = run-IsMetered new_split_queue 0 es (
      unfold new_split_queue in
      record { queued = refl; running = refl; delegated = refl; all = refl }) in
    (v.queued, v.running, v.delegated, omega (arith, v.all))
