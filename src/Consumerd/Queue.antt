-- ===== src/Consumerd/Queue.antt =====
-- `SplitQueue` of pkg/consumerd/queue.go with the counters of its telemetry (telemetry.go). A channel
-- is a list of tasks, in which those of senders that wait for room stand at the end. A task that a
-- pool selected is held for its worker, which runs it or, if it takes a stop, loses it. A run begins
-- and ends with the counters of `localRunner` or `remoteRunner`.
pub mod Counters
use kubecc.Common.{
  ℕ, ◌+◌, ◌-◌, if◌then◌else◌, List, [], ◌∷◌, ◌++◌, Option, none, some, Bool, true, false, get_elem?,
  erase_idx,
}

pub data SplitTaskLocation : Type 0 where
  unknown local remote : SplitTaskLocation

-- A task, with an identity.
pub record SplitTask : Type 0 where
  pub id : ℕ
  pub exclusivity : SplitTaskLocation

pub record SplitQueue : Type 0 where
  pub shared_queue : List SplitTask
  pub local_queue : List SplitTask
  pub remote_queue : List SplitTask
  -- the tasks that the pools selected and no worker runs yet, and those whose worker was stopped
  pub held_local : List SplitTask
  pub held_remote : List SplitTask
  pub lost : List SplitTask
  -- the tasks that workers run
  pub running : List SplitTask
  pub delegated : List SplitTask
  pub remote_paused : Bool
  pub num_queued : ℕ
  pub num_running : ℕ
  pub num_delegated : ℕ
  pub num_completed_local : ℕ
  pub num_completed_remote : ℕ

unfoldable pub new_split_queue : SplitQueue
new_split_queue = record {
  shared_queue = [];
  local_queue = [];
  remote_queue = [];
  held_local = [];
  held_remote = [];
  lost = [];
  running = [];
  delegated = [];
  remote_paused = true;
  num_queued = 0;
  num_running = 0;
  num_delegated = 0;
  num_completed_local = 0;
  num_completed_remote = 0;
}

unfoldable pub enqueue : SplitQueue → SplitTask → SplitTaskLocation → SplitQueue
enqueue q t unknown = record q { shared_queue = q.shared_queue ++ t ∷ [] }
enqueue q t local = record q { local_queue = q.local_queue ++ t ∷ [] }
enqueue q t remote = record q { remote_queue = q.remote_queue ++ t ∷ [] }

unfoldable pub exec : SplitQueue → SplitTask → SplitQueue
exec q t = enqueue (record q { num_queued = q.num_queued + 1 }) t t.exclusivity

-- `localRunner` up to the task's `Run`.
unfoldable pub start_local : SplitQueue → SplitTask → SplitQueue
start_local q t = record q {
  num_queued = q.num_queued - 1;
  num_running = q.num_running + 1;
  running = t ∷ q.running;
}

unfoldable pub start_remote : SplitQueue → SplitTask → SplitQueue
start_remote q t = record q {
  num_queued = q.num_queued - 1;
  num_delegated = q.num_delegated + 1;
  delegated = t ∷ q.delegated;
}

-- A pool's `Select`, from its own queue or the shared one. The manager of a paused pool may have
-- passed the pause already, so either pool may select at any time.
unfoldable pub local_selects : SplitQueue → Bool → SplitQueue
local_selects q true = elim q.shared_queue [
  | [] ↦ q
  | t ∷ rest ↦ record q { shared_queue = rest; held_local = t ∷ q.held_local }
]
local_selects q false = elim q.local_queue [
  | [] ↦ q
  | t ∷ rest ↦ record q { local_queue = rest; held_local = t ∷ q.held_local }
]

unfoldable pub remote_selects : SplitQueue → Bool → SplitQueue
remote_selects q true = elim q.shared_queue [
  | [] ↦ q
  | t ∷ rest ↦ record q { shared_queue = rest; held_remote = t ∷ q.held_remote }
]
remote_selects q false = elim q.remote_queue [
  | [] ↦ q
  | t ∷ rest ↦ record q { remote_queue = rest; held_remote = t ∷ q.held_remote }
]

-- The worker that a task is held for receives it and runs it, or receives a stop.
unfoldable pub local_receives : SplitQueue → ℕ → Bool → SplitQueue
local_receives q i stopped = elim (get_elem? q.held_local i) [
  | none ↦ q
  | some t ↦
      let q' : SplitQueue = record q { held_local = erase_idx q.held_local i } in
      if stopped then record q' { lost = t ∷ q'.lost } else start_local q' t
]

unfoldable pub remote_receives : SplitQueue → ℕ → Bool → SplitQueue
remote_receives q i stopped = elim (get_elem? q.held_remote i) [
  | none ↦ q
  | some t ↦
      let q' : SplitQueue = record q { held_remote = erase_idx q.held_remote i } in
      if stopped then record q' { lost = t ∷ q'.lost } else start_remote q' t
]

-- The end of a run, at a position of those that run.
unfoldable pub local_finishes : SplitQueue → ℕ → SplitQueue
local_finishes q i = elim (get_elem? q.running i) [
  | none ↦ q
  | some t ↦ record q {
    running = erase_idx q.running i;
    num_running = q.num_running - 1;
    num_completed_local = q.num_completed_local + 1;
  }
]

unfoldable pub remote_finishes : SplitQueue → ℕ → SplitQueue
remote_finishes q i = elim (get_elem? q.delegated i) [
  | none ↦ q
  | some t ↦ record q {
    delegated = erase_idx q.delegated i;
    num_delegated = q.num_delegated - 1;
    num_completed_remote = q.num_completed_remote + 1;
  }
]

-- What may happen to the queue; `availability` is that of the scheduler.
pub data QueueEvent : Type 0 where
  executes : SplitTask → QueueEvent
  selects_local selects_remote : Bool → QueueEvent
  receives_local receives_remote : ℕ → Bool → QueueEvent
  ends_local ends_remote : ℕ → QueueEvent
  availability : Bool → QueueEvent

unfoldable pub queue_step : SplitQueue → QueueEvent → SplitQueue
queue_step q (executes t) = exec q t
queue_step q (selects_local shared) = local_selects q shared
queue_step q (selects_remote shared) = remote_selects q shared
queue_step q (receives_local i stopped) = local_receives q i stopped
queue_step q (receives_remote i stopped) = remote_receives q i stopped
queue_step q (ends_local i) = local_finishes q i
queue_step q (ends_remote i) = remote_finishes q i
queue_step q (availability true) = record q { remote_paused = false }
queue_step q (availability false) = record q { remote_paused = true }

unfoldable pub queue_run : SplitQueue → List QueueEvent → SplitQueue
queue_run q [] = q
queue_run q (e ∷ es) = queue_run (queue_step q e) es
