-- ===== src/Scheduler/Broker/Steps.antt =====
-- The histories of the broker of pkg/scheduler/broker.go: any order of its handlers.
use kubecc.Common.{ℕ, List, [], ◌∷◌, none, some, Bool, false, Str, get_elem?, erase_idx}
use kubecc.Types.Toolchain.{Toolchain}
use kubecc.Scheduler.Router.{Router}
use kubecc.Scheduler.Messages.{Request, RetryAction, do_not_retry, Response, Env, Broker}
use kubecc.Scheduler.Broker.Route.{route_new_request}
use kubecc.Scheduler.Broker.Respond.{handle_response}
use kubecc.Scheduler.Broker.Stream.{
  agent_connects, lock_token, take_request, agent_responds, agent_leaves,
}

-- What may happen to a broker, one handler at a time.
pub data Event : Type 0 where
  arrives : Str → Request → Env → Event
  requeues : ℕ → Env → Event
  connects : Str → ℕ → Event
  locks : Str → Event
  takes : Str → ℕ → Bool → Event
  responds : Str → Response → Event
  handles : Event
  leaves : Str → Event
  cache_changes : Bool → Event
  routes_change : Router → Event

module _ (request_hash : Request → Str) (tc_hash : Toolchain → Str) where
  -- The goroutine of a defunct request, at a position of those that were started.
  unfoldable pub requeue : Broker → ℕ → Env → Broker
  requeue b i env = elim (get_elem? b.requeued i) [
    | none ↦ b
    | some p ↦
        route_new_request request_hash tc_hash (record b { requeued = erase_idx b.requeued i })
          p.requester p.request RetryAction.retry env
  ]

  unfoldable pub step : Broker → Event → Broker
  step b (arrives cd req env) = route_new_request request_hash tc_hash b cd req do_not_retry env
  step b (requeues i env) = requeue b i env
  step b (connects uuid limit) = agent_connects b uuid limit
  step b (locks uuid) = lock_token b uuid
  step b (takes uuid i delivered) = take_request b uuid i delivered
  step b (responds uuid resp) = agent_responds b uuid resp
  step b handles = handle_response b
  step b (leaves uuid) = agent_leaves b uuid
  step b (cache_changes available) = record b { cache_available = available }
  step b (routes_change router) = record b { router = router }

  unfoldable pub run : Broker → List Event → Broker
  run b [] = b
  run b (e ∷ es) = run (step b e) es

unfoldable pub new_broker : Bool → Router → Broker
new_broker cache_configured router = record {
  completed_tasks = 0;
  failed_tasks = 0;
  request_count = 0;
  response_queue = [];
  agents = [];
  router = router;
  pending_requests = [];
  inflight_requests = [];
  cache_configured = cache_configured;
  cache_available = false;
  in_transit = [];
  requeued = [];
  sent = [];
  consumerd_completed = [];
  pushed = [];
}
