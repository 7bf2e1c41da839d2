-- ===== src/Run/Tasks.antt =====
-- Tasks of pkg/run: `NullableError` of pkg/util/errors.go, `RunWait`, `PackagedRequest`, the store of
-- toolchain runners, and the executors of executor.go. A nil error is `none`.
pub mod Executors
use kubecc.Common.{
  ℕ, ◌+◌, ◌-◌, ◌==◌, if◌then◌else◌, List, [], ◌∷◌, Option, none, some, Bool, true, false, not, Str,
  Checked, ok, panic, get_elem?, erase_idx, is_some,
}
use kubecc.Common.Map.{Map, lookup, insert}

pub record NullableError : Type 0 where
  pub is_set : Bool
  pub err : Option Str

unfoldable pub set_err : Option Str → NullableError → NullableError
set_err err e = record { is_set = true; err = err }

-- `Err` panics before the error is set.
unfoldable pub nullable_err : NullableError → Checked (Option Str)
nullable_err e = if not e.is_set then panic else ok e.err

-- A packaged request: what its manager answers, its error, and its channel of one response.
pub record PackagedRequest : Type 0 where
  pub f : Str × Option Str
  pub error : NullableError
  pub c : List Str
  pub closed : Bool

unfoldable pub package_request : Str × Option Str → PackagedRequest
package_request f = record {
  f = f;
  error = record { is_set = false; err = none };
  c = [];
  closed = false;
}

-- `Run`; a second run sends on a closed channel.
unfoldable pub run_packaged : PackagedRequest → Checked PackagedRequest
run_packaged r =
    if r.closed
    then panic
    else ok (record r { error = set_err r.f.1 r.error; c = r.f.0 ∷ r.c; closed = true })

unfoldable pub err_after : Checked PackagedRequest → Checked (Option Str)
err_after panic = panic
err_after (ok r) = nullable_err r.error

-- `RunWait` of a packaged request.
unfoldable pub run_wait : PackagedRequest → Checked (Option Str)
run_wait r = err_after (run_packaged r)

-- The store of the runners of toolchains, by the kind's name; a kind is added once.
module _ {A : Type 0} where
  unfoldable pub add_runner : Str → A → Map A → Checked (Map A)
  add_runner kind runner items =
      if is_some (lookup kind items) then panic else ok (insert kind runner items)

  unfoldable pub get_runner : Str → Map A → Option A
  get_runner kind items = lookup kind items

-- `QueuedExecutor`: its counters, and the calls of `Exec` that wait for the end of the background
-- context.
pub record QueuedExecutor : Type 0 where
  pub num_queued : ℕ
  pub num_running : ℕ
  pub waiting : ℕ

unfoldable pub new_queued_executor : QueuedExecutor
new_queued_executor = record { num_queued = 0; num_running = 0; waiting = 0 }

-- `Exec` up to its send; `ExecAsync` does the same.
unfoldable pub exec_queues : QueuedExecutor → QueuedExecutor
exec_queues x = record x { num_queued = x.num_queued + 1 }

-- A worker has taken the task of a call that was sending.
unfoldable pub exec_sent : QueuedExecutor → QueuedExecutor
exec_sent x = if x.num_queued == 0 then x else record x {
  num_queued = x.num_queued - 1;
  num_running = x.num_running + 1;
  waiting = x.waiting + 1;
}

-- The channel of the background context is nil, and a receive from it never ends.
unfoldable pub background_done : Bool
background_done = false

unfoldable pub exec_returns : QueuedExecutor → QueuedExecutor
exec_returns x =
    if background_done
    then record x { num_running = x.num_running - 1; waiting = x.waiting - 1 }
    else x

-- A call of `Exec` begins, its task is taken, the task has ended and the call may return.
pub data ExecutorEvent : Type 0 where
  called taken ended : ExecutorEvent

unfoldable pub executor_step : ExecutorEvent → QueuedExecutor → QueuedExecutor
executor_step called x = exec_queues x
executor_step taken x = exec_sent x
executor_step ended x = exec_returns x

unfoldable pub executor_run : List ExecutorEvent → QueuedExecutor → QueuedExecutor
executor_run [] x = x
executor_run (e ∷ es) x = executor_run es (executor_step e x)

-- `DelegatingExecutor`: the number of its tasks.
unfoldable pub delegate_begins : ℕ → ℕ
delegate_begins n = n + 1

unfoldable pub delegate_ends : ℕ → ℕ
delegate_ends n = n - 1
