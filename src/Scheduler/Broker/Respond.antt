-- ===== src/Scheduler/Broker/Respond.antt =====
-- What becomes of a response: `handleResponseQueue`, `cacheTransaction` and `cleanupAgent` of
-- pkg/scheduler/broker.go.
use kubecc.Common.{◌+◌, List, [], ◌∷◌, ◌++◌, Option, none, some, Str, go, str_eq, if◌then◌else◌}
use kubecc.Common.Map.{Map, lookup, delete}
use kubecc.Scheduler.Messages.{
  success, fail, internal_error, defunct, retry, Payload, nothing, compiled_source, error,
  retry_action, Response, PendingRequest, InflightRequest, Broker,
}

-- `GetCompiledSource`.
unfoldable pub source_of : Payload → Str
source_of (compiled_source source) = source
source_of nothing = []
source_of (error e) = []
source_of (retry_action a) = []

-- `cacheTransaction`: an empty hash is not pushed.
unfoldable pub cache_transaction : Broker → Option Str → Payload → Broker
cache_transaction b none payload = b
cache_transaction b (some hash) payload =
    if str_eq hash [] then b else record b { pushed = (hash, source_of payload) ∷ b.pushed }

-- The end of a turn of `handleResponseQueue`: the response goes to its consumerd.
unfoldable pub reply : Broker → Str → Response → Broker
reply b cd resp = record b {
  consumerd_completed = cd ∷ b.consumerd_completed;
  sent = (cd, resp) ∷ b.sent;
}

-- The `switch` on the result of an inflight request's response.
unfoldable pub finish : Broker → PendingRequest → Response → Broker
finish b p resp = elim resp.compile_result [
  | fail ↦ reply (record b { failed_tasks = b.failed_tasks + 1 }) p.requester resp
  | internal_error ↦ reply (record b { failed_tasks = b.failed_tasks + 1 }) p.requester resp
  | success ↦
      reply
        (cache_transaction (record b { completed_tasks = b.completed_tasks + 1 }) p.request.managed
          resp.payload)
        p.requester resp
  | defunct ↦ record b { requeued = p ∷ b.requeued }
  | retry ↦ reply b p.requester resp
]

-- One turn of `handleResponseQueue`, for a response and those behind it.
unfoldable pub take_response : Broker → Response → List Response → Broker
take_response b resp rest = elim (lookup resp.request_id b.inflight_requests) [
  | none ↦ record b { response_queue = rest }
  | some ir ↦
      finish
        (record b {
          response_queue = rest;
          inflight_requests = delete resp.request_id b.inflight_requests;
          request_count = b.request_count + 1;
        })
        ir.pending_request resp
]

unfoldable pub handle_response : Broker → Broker
handle_response b = elim b.response_queue [ [] ↦ b | resp ∷ rest ↦ take_response b resp rest ]

-- The responses that `cleanupAgent` makes for an agent's inflight requests.
unfoldable pub defunct_responses : Str → Map InflightRequest → List Response
defunct_responses uuid [] = []
defunct_responses uuid ((id, ir) ∷ m) = elim ir.agent [
  | none ↦ defunct_responses uuid m
  | some a ↦
      if str_eq a uuid
      then record {
        request_id = id;
        compile_result = defunct;
        payload = error (go "The agent handling this task is no longer available.");
      }
        ∷ defunct_responses uuid m
      else defunct_responses uuid m
]

-- `cleanupAgent` and the removal of the agent.
unfoldable pub agent_gone : Broker → Str → Broker
agent_gone b uuid = record b {
  response_queue = b.response_queue ++ defunct_responses uuid b.inflight_requests;
  agents = delete uuid b.agents;
}
