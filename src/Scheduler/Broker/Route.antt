-- ===== src/Scheduler/Broker/Route.antt =====
-- How a new request is routed: `routeNewRequest` and `PreReceive` of pkg/scheduler/broker.go, and
-- `Route` of pkg/scheduler/router.go. The hash of a request is code outside the repository: the
-- parameter `request_hash`.
use kubecc.Common.{
  ℕ, ◌+◌, ◌-◌, [], ◌∷◌, ◌++◌, Option, none, some, Bool, not, ◌||◌, Str, ◌==◌, if◌then◌else◌,
}
use kubecc.Common.Map.{lookup, insert, delete}
use kubecc.Types.Toolchain.{Toolchain}
use kubecc.Scheduler.Router.{route_at, route_for_toolchain}
use kubecc.Scheduler.Messages.{
  Request, RetryAction, success, retry, compiled_source, retry_action, Response, PendingRequest,
  Pull, found, not_found, pull_error, Env, Broker,
}

pub data HookAction : Type 0 where
  process_request_normally reject_request request_intercepted : HookAction

pub data RouteError : Type 0 where
  no_agents request_rejected invalid_toolchain context_done : RouteError

-- A request that the cache or the lack of a route answers: it becomes inflight with no agent.
unfoldable pub answer_at_once : Broker → PendingRequest → Response → Broker
answer_at_once b p resp = record b {
  pending_requests = delete resp.request_id b.pending_requests;
  inflight_requests =
      insert resp.request_id (record { pending_request = p; agent = none }) b.inflight_requests;
  response_queue = b.response_queue ++ resp ∷ [];
}

-- The managed fields are set through the pointer that the pending request shares.
unfoldable pub set_managed : Broker → Request → Str → Broker
set_managed b req hash = elim (lookup req.request_id b.pending_requests) [
  | none ↦ b
  | some p ↦ record b {
    pending_requests =
        insert req.request_id (record p { request = record req { managed = some hash } })
          b.pending_requests;
  }
]

-- A cache hit in `PreReceive`: the request is answered at once, if it is pending.
unfoldable pub cache_hit :
    Broker → Request → Str → Option PendingRequest → HookAction × Broker × Request
cache_hit b req source none = (process_request_normally, b, req)
cache_hit b req source (some p) = (
  request_intercepted,
  answer_at_once b p (record {
    request_id = req.request_id;
    compile_result = success;
    payload = compiled_source source;
  }),
  req,
)

-- The `switch` of `PreReceive` on the status of the cache's answer.
unfoldable pub cache_answers : Broker → Request → Str → Pull → HookAction × Broker × Request
cache_answers b req hash (found source) =
    cache_hit b req source (lookup req.request_id b.pending_requests)
cache_answers b req hash not_found =
    (process_request_normally, set_managed b req hash, record req { managed = some hash })
cache_answers b req hash pull_error = (process_request_normally, b, req)

-- The end of `Route`: the request goes to a receiver of the route, or its context ends.
unfoldable pub send_on_route : Broker → Request → ℕ → Bool → Broker × Option RouteError
send_on_route b req rx taken =
    if rx == 0
    then (b, some no_agents)
    else if taken
    then (record b { in_transit = b.in_transit ++ req ∷ [] }, none)
    else (b, some context_done)

-- `Route` after its hook.
unfoldable pub after_hook : Broker → Request → HookAction → ℕ → Bool → Broker × Option RouteError
after_hook b req process_request_normally rx taken = send_on_route b req rx taken
after_hook b req reject_request rx taken = (b, some request_rejected)
after_hook b req request_intercepted rx taken = (b, none)

-- The branch of `routeNewRequest` for an error of the router.
unfoldable pub route_failed : Broker → Str → RetryAction → Broker
route_failed b id action = elim (lookup id b.pending_requests) [
  | none ↦ b
  | some p ↦
      answer_at_once (record b { request_count = b.request_count - 1 }) p
        (record { request_id = id; compile_result = retry; payload = retry_action action })
]

module _ (request_hash : Request → Str) where
  -- `PreReceive`, with the request as it leaves it.
  unfoldable pub pre_receive : Broker → Request → Pull → HookAction × Broker × Request
  pre_receive b req pull =
      if not b.cache_configured || not b.cache_available
      then (process_request_normally, b, req)
      else cache_answers b req (request_hash req) pull

  module _ (tc_hash : Toolchain → Str) where
    -- `Router.Route`. The broker is the one hook, if a cache is configured.
    unfoldable pub route : Broker → Request → Env → Broker × Option RouteError
    route b req env = elim req.toolchain [
      | none ↦ (b, some invalid_toolchain)
      | some tc ↦
          let target = route_for_toolchain tc_hash b.router tc in
          let hooked = pre_receive (record b { router = target.0 }) req env.pull in
          after_hook hooked.1 hooked.2 hooked.0 (route_at hooked.1.router target.1).rx_ref_count
            env.taken
    ]

    unfoldable pub route_new_request : Broker → Str → Request → RetryAction → Env → Broker
    route_new_request b cd req if_route_fails env =
        let b' : Broker = record b {
          request_count = b.request_count + 1;
          pending_requests =
              insert req.request_id (record { request = req; requester = cd }) b.pending_requests;
        } in
        let routed = route b' req env in
        elim routed.1 [
          | none ↦ routed.0
          | some e ↦ route_failed routed.0 req.request_id if_route_fails
        ]
