-- ===== src/Agent.antt =====
-- `AgentServer` of pkg/agent/server.go: the handling of a compile request. What a runner makes of a
-- request is a parameter, with the text of its error.
pub mod Answers
use kubecc.Common.{
  ℕ, ◌+◌, ◌-◌, ◌⊎◌, inl, inr, if◌then◌else◌, List, [], ◌∷◌, Option, none, some, Bool, true, false,
  Str, go, Checked, ok, panic,
}
use kubecc.Common.Map.{Map}
use kubecc.Types.Toolchain.{Toolchain, Kind}
use kubecc.Toolchains.Store.{ToolchainData, try_match}
use kubecc.Scheduler.Messages.{Request, Response, CompileResult, internal_error, Payload, error}

pub record AgentServer : Type 0 where
  pub tc_store : Map ToolchainData
  pub running_tasks : ℕ

unfoldable pub internal_response : Request → Str → Response
internal_response req text = record {
  request_id = req.request_id;
  compile_result = internal_error;
  payload = error text;
}

unfoldable pub answer_of : Request → Checked (Response ⊎ Str) → Checked Response
answer_of req (ok (inl resp)) = ok resp
answer_of req (ok (inr text)) = ok (internal_response req text)
answer_of req panic = panic

-- The runners that the agent has, by kind, and what each makes of a request; it may panic.
pub record Runners : Type 0 where
  pub has_runner : Kind → Bool
  pub process : Kind → Request → Checked (Response ⊎ Str)

module _ (runners : Runners) where
  -- The request's toolchain is replaced by the agent's own.
  unfoldable pub compile_matched : Request → Kind → Option Toolchain → Checked Response
  compile_matched req kind none =
      ok (internal_response req (go "No local toolchain matches remote"))
  compile_matched req kind (some tc) =
      answer_of req (runners.process kind (record req { toolchain = some tc }))

  unfoldable pub compile_with : AgentServer → Request → Toolchain → Checked Response
  compile_with s req tc =
      if runners.has_runner tc.kind
      then compile_matched req tc.kind (try_match s.tc_store tc)
      else ok (internal_response req (go "No toolchain runner available"))

  unfoldable pub compile_toolchain : AgentServer → Request → Option Toolchain → Checked Response
  compile_toolchain s req none = panic
  compile_toolchain s req (some tc) = compile_with s req tc

  -- `compile`; an error of the context's check has a text, and a request without a toolchain is a
  -- nil pointer.
  unfoldable pub agent_compile : AgentServer → Option Str → Request → Checked Response
  agent_compile s (some text) req = ok (internal_response req text)
  agent_compile s none req = compile_toolchain s req req.toolchain

-- The count of running tasks at the start and at the end of `compile`.
unfoldable pub task_starts : AgentServer → AgentServer
task_starts s = record s { running_tasks = s.running_tasks + 1 }

unfoldable pub task_ends : AgentServer → AgentServer
task_ends s = record s { running_tasks = s.running_tasks - 1 }
