-- ===== src/Scheduler/Broker/Stream.antt =====
-- The stream of an agent and its tokens: `handleAgentStream` and its goroutines of
-- pkg/scheduler/broker.go.
use kubecc.Common.{
  ℕ, ◌+◌, ◌-◌, [], ◌∷◌, ◌++◌, Option, none, some, Bool, true, false, Str, ◌==◌, if◌then◌else◌, ltb,
  get_elem?, erase_idx,
}
use kubecc.Common.Map.{lookup, insert, delete}
use kubecc.Scheduler.Broker.Respond.{agent_gone}
use kubecc.Scheduler.Messages.{
  Request, Response, SendState, idle, holding, stopped, filling, Agent, Broker,
}

-- `MaxTokens` of types.go.
abbrev pub max_tokens : ℕ
max_tokens = 1000

-- `handleAgentStream` up to its goroutines fills the agent's channel of tokens. A limit above the
-- channel's capacity fills it and blocks the handler for good.
abbrev pub filled_agent : ℕ → Agent
filled_agent limit = record {
  concurrent_process_limit = limit;
  available_tokens = if ltb max_tokens limit then max_tokens else limit;
  locked_tokens = 0;
  completed_tasks = 0;
  sending = if ltb max_tokens limit then filling else idle;
}

-- The agent is stored, and its tokens are filled in.
unfoldable pub agent_connects : Broker → Str → ℕ → Broker
agent_connects b uuid limit = record b { agents = insert uuid (filled_agent limit) b.agents }

unfoldable pub is_filling : SendState → Bool
is_filling filling = true
is_filling idle = false
is_filling holding = false
is_filling stopped = false

-- The sending goroutine takes a token.
unfoldable pub take_token : Agent → Agent
take_token a = elim a.sending [
  | idle ↦ if a.available_tokens == 0 then a else record a {
    available_tokens = a.available_tokens - 1;
    locked_tokens = a.locked_tokens + 1;
    sending = holding;
  }
  | holding ↦ a
  | stopped ↦ a
  | filling ↦ a
]

-- The receiving goroutine gives a token back, unless none is locked.
unfoldable pub return_token : Agent → Agent
return_token a =
    if a.locked_tokens == 0
    then record a { completed_tasks = a.completed_tasks + 1 }
    else record a {
      available_tokens = a.available_tokens + 1;
      locked_tokens = a.locked_tokens - 1;
      completed_tasks = a.completed_tasks + 1;
    }

unfoldable pub lock_token : Broker → Str → Broker
lock_token b uuid = elim (lookup uuid b.agents) [
  | none ↦ b
  | some a ↦ record b { agents = insert uuid (take_token a) b.agents }
]

-- The sending goroutine receives a request: `delivered` says whether the stream takes it.
unfoldable pub start_request : Broker → Str → Agent → Request → Bool → Broker
start_request b uuid a req delivered = elim (lookup req.request_id b.pending_requests) [
  | none ↦ record b { agents = insert uuid (record a { sending = idle }) b.agents }
  | some p ↦ record b {
    pending_requests = delete req.request_id b.pending_requests;
    inflight_requests =
        insert req.request_id (record { pending_request = p; agent = some uuid })
          b.inflight_requests;
    agents = insert uuid (record a { sending = if delivered then idle else stopped }) b.agents;
  }
]

-- The goroutine receives a request only while it holds a token.
unfoldable pub take_waiting : Broker → Str → ℕ → Bool → Agent → SendState → Option Request → Broker
take_waiting b uuid i delivered a idle o = b
take_waiting b uuid i delivered a stopped o = b
take_waiting b uuid i delivered a filling o = b
take_waiting b uuid i delivered a holding none = b
take_waiting b uuid i delivered a holding (some req) =
    start_request (record b { in_transit = erase_idx b.in_transit i }) uuid a req delivered

-- The request at a position of those in transit reaches an agent whose goroutine waits for one.
unfoldable pub take_request : Broker → Str → ℕ → Bool → Broker
take_request b uuid i delivered = elim (lookup uuid b.agents) [
  | none ↦ b
  | some a ↦ take_waiting b uuid i delivered a a.sending (get_elem? b.in_transit i)
]

-- The receiving goroutine of an agent's stream, once it is started.
unfoldable pub agent_responds : Broker → Str → Response → Broker
agent_responds b uuid resp = elim (lookup uuid b.agents) [
  | none ↦ b
  | some a ↦ if is_filling a.sending then b else record b {
    agents = insert uuid (return_token a) b.agents;
    response_queue = b.response_queue ++ resp ∷ [];
  }
]

unfoldable pub is_blocked : Option Agent → Bool
is_blocked none = false
is_blocked (some a) = is_filling a.sending

-- The end of an agent's stream, for which only a handler that has returned waits.
unfoldable pub agent_leaves : Broker → Str → Broker
agent_leaves b uuid = if is_blocked (lookup uuid b.agents) then b else agent_gone b uuid
