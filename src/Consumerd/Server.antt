-- ===== src/Consumerd/Server.antt =====
-- `consumerdServer` of pkg/consumerd/server.go: a request's toolchain, and the loop of `Run`. The
-- argument parser of a runner is a parameter; what `Wait` answers for each task is given as a list.
pub mod Retries
use kubecc.Common.{
  ℕ, ◌==◌, if◌then◌else◌, List, [], ◌∷◌, ◌++◌, Option, none, some, Bool, true, false, ◌||◌, Str,
  str_eq, Checked, ok, panic, is_some,
}
use kubecc.Common.Map.{Map}
use kubecc.Types.Toolchain.{Toolchain, Kind}
use kubecc.Toolchains.Store.{Querier, ToolchainData, add_toolchain, find_toolchain, items}
use kubecc.Toolchains.Update.{UpdateError, gone, invalid, Updated, update_if_needed}
use kubecc.Consumerd.Queue.{SplitTaskLocation, unknown, local}

pub record ConsumerdServer : Type 0 where
  pub tc_store : Map ToolchainData
  -- the channel `storeUpdateCh`, which has one place
  pub store_update : Bool

pub record RunRequest : Type 0 where
  pub path : Str
  pub args : List Str
  pub uid : ℕ
  pub gid : ℕ

-- The status codes of a failed request.
pub data RunError : Type 0 where
  no_path bad_toolchain bad_user no_runner task_failed : RunError

pub data Applied : Type 0 where
  applied : Toolchain → Applied
  refused : RunError → Applied

unfoldable pub send_update : ConsumerdServer → ConsumerdServer
send_update c = record c { store_update = true }

-- An error of the update goes to `errors.As` with a target that points to a `fs.PathError`; this type
-- is no error, for which `errors.As` panics.
unfoldable pub updated_toolchain :
    ConsumerdServer → Checked Updated → ConsumerdServer × Checked Applied
updated_toolchain c panic = (c, panic)
updated_toolchain c (ok u) =
    let d = record c { tc_store = u.store } in
    let e = if u.updated then send_update d else d in
    (e, if is_some u.error then panic else ok (applied u.toolchain))

unfoldable pub added_toolchain :
    ConsumerdServer → Option (Map ToolchainData × Toolchain) → ConsumerdServer × Checked Applied
added_toolchain c none = (c, ok (refused bad_toolchain))
added_toolchain c (some added) =
    (send_update (record c { tc_store = added.0 }), ok (applied added.1))

module _ (eval_path : Str → Str) (exec_querier : Querier) where
  unfoldable pub apply_found :
      ConsumerdServer → Str → Option Toolchain → ConsumerdServer × Checked Applied
  apply_found c path none = added_toolchain c (add_toolchain eval_path c.tc_store path exec_querier)
  apply_found c path (some tc) = updated_toolchain c (update_if_needed c.tc_store tc)

  -- `applyToolchainToReq`
  unfoldable pub apply_toolchain : ConsumerdServer → Str → ConsumerdServer × Checked Applied
  apply_toolchain c path =
      if str_eq path []
      then (c, ok (refused no_path))
      else apply_found c path (find_toolchain eval_path c.tc_store path)

-- What `Wait` answers for a task.
pub data TaskResult : Type 0 where
  finished : ℕ → TaskResult
  no_agents_retry no_agents_run_local failed : TaskResult

-- What `Run` answers; `pending` is a `Wait` that has not ended.
pub data RunResult : Type 0 where
  response : ℕ → RunResult
  run_error : RunError → RunResult
  pending : RunResult

-- The loop of `Run`, from an exclusivity on: the exclusivity of each task that it executes, and the
-- answer.
unfoldable pub run_loop : SplitTaskLocation → List TaskResult → List SplitTaskLocation × RunResult
run_loop e [] = (e ∷ [], pending)
run_loop e (finished code ∷ rs) = (e ∷ [], response code)
run_loop e (failed ∷ rs) = (e ∷ [], run_error task_failed)
run_loop e (no_agents_retry ∷ rs) = let again = run_loop e rs in (e ∷ again.0, again.1)
run_loop e (no_agents_run_local ∷ rs) = let again = run_loop local rs in (e ∷ again.0, again.1)

module _ (can_run_remote : Kind → List Str → Bool) (has_runner : Kind → Bool) where
  -- `Run` with the toolchain of the request.
  unfoldable pub run_with :
      RunRequest → List TaskResult → Applied → List SplitTaskLocation × RunResult
  run_with req rs (refused e) = ([], run_error e)
  run_with req rs (applied tc) =
      if (req.uid == 0) || (req.gid == 0)
      then ([], run_error bad_user)
      else (if has_runner tc.kind
          then run_loop (if can_run_remote tc.kind req.args then unknown else local) rs
          else ([], run_error no_runner))

  unfoldable pub run_applied :
      RunRequest
      → List TaskResult
      → ConsumerdServer × Checked Applied
      → ConsumerdServer × Checked (List SplitTaskLocation × RunResult)
  run_applied req rs (c, panic) = (c, panic)
  run_applied req rs (c, ok a) = (c, ok (run_with req rs a))

  module _ (eval_path : Str → Str) (exec_querier : Querier) where
    -- `Run`: the server, and the tasks and answer.
    unfoldable pub run_request :
        ConsumerdServer
        → RunRequest
        → List TaskResult
        → ConsumerdServer × Checked (List SplitTaskLocation × RunResult)
    run_request c req rs = run_applied req rs (apply_toolchain eval_path exec_querier c req.path)

unfoldable pub get_toolchains : ConsumerdServer → List Toolchain
get_toolchains c = items c.tc_store
