-- ===== src/Scheduler/Messages.antt =====
-- The messages of pkg/types that the scheduler handles, and the broker's state
-- (pkg/scheduler/broker.go and pkg/scheduler/types.go).
use kubecc.Common.{ℕ, List, Option, Bool, Str}
use kubecc.Common.Map.{Map}
use kubecc.Types.Toolchain.{Toolchain}
use kubecc.Scheduler.Router.{Router}

-- `CompileRequest`; `managed` is the computed hash of its managed fields.
pub record Request : Type 0 where
  pub request_id : Str
  pub toolchain : Option Toolchain
  pub args : List Str
  pub preprocessed_source : Str
  pub managed : Option Str

pub data RetryAction : Type 0 where
  unknown_action retry do_not_retry : RetryAction

pub data CompileResult : Type 0 where
  success fail internal_error defunct retry : CompileResult

pub data Payload : Type 0 where
  nothing : Payload
  error compiled_source : Str → Payload
  retry_action : RetryAction → Payload

pub record Response : Type 0 where
  pub request_id : Str
  pub compile_result : CompileResult
  pub payload : Payload

pub record PendingRequest : Type 0 where
  pub request : Request
  pub requester : Str

pub record InflightRequest : Type 0 where
  pub pending_request : PendingRequest
  pub agent : Option Str

-- Where the goroutine that sends to an agent stands: before it has a token, with a token and
-- waiting for a request, or returned; `filling` is before it, where the handler waits for good
-- for room in a full channel of tokens, and neither goroutine of the stream is started.
pub data SendState : Type 0 where
  idle holding stopped filling : SendState

-- An agent's token channels are counted.
pub record Agent : Type 0 where
  pub concurrent_process_limit : ℕ
  pub available_tokens : ℕ
  pub locked_tokens : ℕ
  pub completed_tasks : ℕ
  pub sending : SendState

-- What a call of the cache server's `Pull` gives.
pub data Pull : Type 0 where
  found : Str → Pull
  not_found : Pull
  pull_error : Pull

-- What the surroundings choose while a request is routed: the cache's answer, and whether a
-- receiver takes the request before its context is done.
pub record Env : Type 0 where
  pub pull : Pull
  pub taken : Bool

pub record Broker : Type 0 where
  pub completed_tasks : ℕ
  pub failed_tasks : ℕ
  pub request_count : ℕ
  -- sends on `responseQueue`, the next to be received first
  pub response_queue : List Response
  pub agents : Map Agent
  pub router : Router
  pub pending_requests : Map PendingRequest
  pub inflight_requests : Map InflightRequest
  pub cache_configured : Bool
  pub cache_available : Bool
  -- requests that a receiver took from a route, not yet received by an agent's goroutine
  pub in_transit : List Request
  -- started goroutines that route a defunct request again, with the requester
  pub requeued : List PendingRequest
  -- responses sent to consumerds, the last one first
  pub sent : List (Str × Response)
  pub consumerd_completed : List Str
  -- pushes to the cache server: hash and data
  pub pushed : List (Str × Str)
