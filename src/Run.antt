-- ===== src/Run.antt =====
-- The size of a `WorkerPool`, pkg/run/workerpool.go, and the pause of its queue, pkg/util/pause.go. The
-- set of workers has those that loop and those that have taken a stop and are not yet removed.
pub mod Resized
pub mod Contexts
pub mod Tasks
pub mod Workers
use kubecc.Common.{
  ℕ, zero, suc, ◌+◌, ◌-◌, ◌==◌, if◌then◌else◌, List, [], ◌∷◌, Bool, true, false, not, ◌&&◌, ltb,
}

pub record WorkerPool : Type 0 where
  pub looping : ℕ
  pub leaving : ℕ
  -- sends on the stop queue that no worker has taken, by a `Resize` that holds the lock
  pub waiting_stops : ℕ
  pub paused : Bool

unfoldable pub new_worker_pool : Bool → WorkerPool
new_worker_pool paused = record { looping = 0; leaving = 0; waiting_stops = 0; paused = paused }

-- `Size`
unfoldable pub pool_size : WorkerPool → ℕ
pool_size p = p.looping + p.leaving

-- A send on the stop queue: a worker takes it, or it waits.
unfoldable pub send_stop : WorkerPool → WorkerPool
send_stop p =
    if p.looping == 0
    then record p { waiting_stops = p.waiting_stops + 1 }
    else record p { looping = p.looping - 1; leaving = p.leaving + 1 }

unfoldable pub send_stops : ℕ → WorkerPool → WorkerPool
send_stops zero p = p
send_stops (suc n) p = send_stops n (send_stop p)

-- The loop that adds workers until the set has as many as asked.
unfoldable pub add_workers : ℕ → WorkerPool → WorkerPool
add_workers zero p = p
add_workers (suc n) p = add_workers n (record p { looping = p.looping + 1 })

-- `Resize` to a count that is not negative; below 0 it does nothing.
unfoldable pub resize : ℕ → WorkerPool → WorkerPool
resize count p =
    if ltb (pool_size p) count
    then add_workers (count - pool_size p) p
    else if ltb count (pool_size p)
    then send_stops (pool_size p - count) p
    else p

-- A worker that has left its loop is removed.
unfoldable pub worker_removed : WorkerPool → WorkerPool
worker_removed p = record p { leaving = p.leaving - 1 }

unfoldable pub pause : WorkerPool → WorkerPool
pause p = record p { paused = true }

unfoldable pub resume : WorkerPool → WorkerPool
resume p = record p { paused = false }

-- Whether `CheckPaused` returns.
unfoldable pub check_paused : WorkerPool → Bool
check_paused p = not p.paused
