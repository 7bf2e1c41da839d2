-- ===== src/Scheduler/Broker/Agents.antt =====
-- The agents' tokens over the histories of the broker of pkg/scheduler/broker.go.
use kubecc.Common.{
  ℕ, ◌+◌, ◌≡◌, refl, ap, sym, ◌∙◌, List, [], ◌∷◌, Option, none, some, Bool, not, ◌||◌, Str, arith,
  inl, inr, Option-cases, Bool-cases, get_elem?,
}
use kubecc.Common.Map.{lookup, insert}
use kubecc.Types.Toolchain.{Toolchain}
use kubecc.Scheduler.Router.{Router}
use kubecc.Scheduler.Messages.{
  Request, RetryAction, CompileResult, success, fail, internal_error, defunct, retry, do_not_retry,
  Response, PendingRequest, Agent, Pull, found, not_found, pull_error, Env, Broker,
}
use kubecc.Scheduler.Broker.Route.{
  HookAction, process_request_normally, reject_request, request_intercepted, answer_at_once,
  set_managed, cache_hit, cache_answers, send_on_route, after_hook, route_failed, pre_receive,
  route, route_new_request,
}
use kubecc.Scheduler.Broker.Respond.{
  cache_transaction, reply, finish, take_response, handle_response, agent_gone,
}
use kubecc.Scheduler.Broker.Stream.{is_blocked, agent_leaves}
use kubecc.Scheduler.Broker.Steps.{
  requeue, Event, arrives, requeues, connects, locks, takes, responds, handles, leaves,
  cache_changes, routes_change, step, run, new_broker,
}
use kubecc.Scheduler.Broker.Tokens.{
  AllBalanced, capacity, if-AllBalanced, agent_connects-AllBalanced, agent_gone-AllBalanced,
  lock_token-AllBalanced, agent_responds-AllBalanced, take_request-AllBalanced,
}

set_managed-agents :
    (b : Broker) (req : Request) (hash : Str) → (set_managed b req hash).agents ≡ b.agents
unfolding set_managed
set_managed-agents b req hash = elim (Option-cases (lookup req.request_id b.pending_requests)) [
  | inl e ↦ rw (set_managed, e) refl
  | inr (p, e) ↦ rw (set_managed, e) refl
]

cache_hit-agents :
    (b : Broker) (req : Request) (source : Str) (o : Option PendingRequest)
    → (cache_hit b req source o).1.agents ≡ b.agents
unfolding cache_hit answer_at_once
cache_hit-agents b req source none = refl
cache_hit-agents b req source (some p) = refl

cache_answers-agents :
    (b : Broker) (req : Request) (hash : Str) (pull : Pull)
    → (cache_answers b req hash pull).1.agents ≡ b.agents
unfolding cache_answers
cache_answers-agents b req hash (found source) =
    cache_hit-agents b req source (lookup req.request_id b.pending_requests)
cache_answers-agents b req hash not_found = set_managed-agents b req hash
cache_answers-agents b req hash pull_error = refl

send_on_route-agents :
    (b : Broker) (req : Request) (rx : ℕ) (taken : Bool)
    → (send_on_route b req rx taken).0.agents ≡ b.agents
unfolding send_on_route
send_on_route-agents b req rx taken = grind arith

after_hook-agents :
    (b : Broker) (req : Request) (h : HookAction) (rx : ℕ) (taken : Bool)
    → (after_hook b req h rx taken).0.agents ≡ b.agents
unfolding after_hook
after_hook-agents b req process_request_normally rx taken = send_on_route-agents b req rx taken
after_hook-agents b req reject_request rx taken = refl
after_hook-agents b req request_intercepted rx taken = refl

route_failed-agents :
    (b : Broker) (id : Str) (action : RetryAction) → (route_failed b id action).agents ≡ b.agents
unfolding route_failed answer_at_once
route_failed-agents b id action = elim (Option-cases (lookup id b.pending_requests)) [
  | inl e ↦ rw (route_failed, e) refl
  | inr (p, e) ↦ rw (route_failed, e) refl
]

cache_transaction-agents :
    (b : Broker) (o : Option Str) (r : Response)
    → (cache_transaction b o r.payload).agents ≡ b.agents
unfolding cache_transaction
cache_transaction-agents b none r = refl
cache_transaction-agents b (some hash) r = grind arith

finish-agents :
    (b : Broker) (p : PendingRequest) (r : Response) (k : CompileResult)
    → r.compile_result ≡ k
    → (finish b p r).agents ≡ b.agents
unfolding finish reply
finish-agents b p r success e = rw (finish, e) (cache_transaction-agents _ p.request.managed r)
finish-agents b p r fail e = rw (finish, e) refl
finish-agents b p r internal_error e = rw (finish, e) refl
finish-agents b p r defunct e = rw (finish, e) refl
finish-agents b p r retry e = rw (finish, e) refl

take_response-agents :
    (b : Broker) (r : Response) (rest : List Response) → (take_response b r rest).agents ≡ b.agents
unfolding take_response
take_response-agents b r rest = elim (Option-cases (lookup r.request_id b.inflight_requests)) [
  | inl e ↦ rw (take_response, e) refl
  | inr (ir, e) ↦ rw (take_response, e) (finish-agents _ ir.pending_request r r.compile_result refl)
]

handle_response-agents : (b : Broker) → (handle_response b).agents ≡ b.agents
unfolding handle_response
handle_response-agents b =
    elim b.response_queue
      as (λ q.
        (elim q as (λ _. Broker) [ [] ↦ b | resp ∷ rest ↦ take_response b resp rest ]).agents
        ≡ b.agents) [ [] ↦ refl | resp ∷ rest ↦ take_response-agents b resp rest ]

module _ (request_hash : Request → Str) (tc_hash : Toolchain → Str) where
  pre_receive-agents :
      (b : Broker) (req : Request) (pull : Pull)
      → (pre_receive request_hash b req pull).1.agents ≡ b.agents
  unfolding pre_receive
  pre_receive-agents b req pull =
      elim (Bool-cases (not b.cache_configured || not b.cache_available)) [
        | inl e ↦ rw (pre_receive, e) refl
        | inr e ↦ rw (pre_receive, e) (cache_answers-agents b req (request_hash req) pull)
      ]

  route-agents :
      (b : Broker) (req : Request) (env : Env)
      → (route request_hash tc_hash b req env).0.agents ≡ b.agents
  unfolding route
  route-agents b req env = elim (Option-cases req.toolchain) [
    | inl e ↦ rw (route, e) refl
    | inr (tc, e) ↦
        rw (route, e) (after_hook-agents _ _ _ _ env.taken ∙ pre_receive-agents _ req env.pull)
  ]

  route_new_request-agents :
      (b : Broker) (cd : Str) (req : Request) (action : RetryAction) (env : Env)
      → (route_new_request request_hash tc_hash b cd req action env).agents ≡ b.agents
  unfolding route_new_request
  route_new_request-agents b cd req action env =
      let b1 : Broker = record b {
        request_count = b.request_count + 1;
        pending_requests =
            insert req.request_id (record { request = req; requester = cd }) b.pending_requests;
      } in
      let routed = route request_hash tc_hash b1 req env in
      elim (Option-cases routed.1) [
        | inl e ↦ rw (route_new_request, e) (route-agents b1 req env)
        | inr (err, e) ↦
            rw (route_new_request, e)
              (route_failed-agents routed.0 req.request_id action ∙ route-agents b1 req env)
      ]

  requeue-agents :
      (b : Broker) (i : ℕ) (env : Env) → (requeue request_hash tc_hash b i env).agents ≡ b.agents
  unfolding requeue
  requeue-agents b i env = elim (Option-cases (get_elem? b.requeued i)) [
    | inl e ↦ rw (requeue, e) refl
    | inr (p, e) ↦ rw (requeue, e) (route_new_request-agents _ p.requester p.request _ env)
  ]

  same_agents : (b c : Broker) → c.agents ≡ b.agents → AllBalanced b → AllBalanced c
  same_agents b c e v = record {
    balanced = λ uuid a h. v.balanced uuid a (ap (lookup uuid) (sym e) ∙ h);
  }

  agent_leaves-AllBalanced :
      (b : Broker) (uuid : Str) → AllBalanced b → AllBalanced (agent_leaves b uuid)
  unfolding agent_leaves
  agent_leaves-AllBalanced b uuid v =
      if-AllBalanced (is_blocked (lookup uuid b.agents)) b (agent_gone b uuid) v
        (agent_gone-AllBalanced b uuid v)

  step-AllBalanced :
      (b : Broker) (e : Event) → AllBalanced b → AllBalanced (step request_hash tc_hash b e)
  unfolding step
  step-AllBalanced b (arrives cd req env) v =
      same_agents b _ (route_new_request-agents b cd req do_not_retry env) v
  step-AllBalanced b (requeues i env) v = same_agents b _ (requeue-agents b i env) v
  step-AllBalanced b (connects uuid limit) v = agent_connects-AllBalanced b uuid v limit
  step-AllBalanced b (locks uuid) v = lock_token-AllBalanced b uuid v
  step-AllBalanced b (takes uuid i delivered) v = take_request-AllBalanced b uuid i delivered v
  step-AllBalanced b (responds uuid resp) v = agent_responds-AllBalanced b uuid v resp
  step-AllBalanced b handles v = same_agents b _ (handle_response-agents b) v
  step-AllBalanced b (leaves uuid) v = agent_leaves-AllBalanced b uuid v
  step-AllBalanced b (cache_changes available) v = same_agents b _ refl v
  step-AllBalanced b (routes_change router) v = same_agents b _ refl v

  run-AllBalanced :
      (b : Broker) (es : List Event) → AllBalanced b → AllBalanced (run request_hash tc_hash b es)
  unfolding run
  run-AllBalanced b [] v = v
  run-AllBalanced b (e ∷ es) v =
      run-AllBalanced (step request_hash tc_hash b e) es (step-AllBalanced b e v)

  -- After every history from a new broker, in whatever order the handlers run and whatever the
  -- agents answer, the available and the locked tokens of each agent add up to its process limit, or
  -- to the 1000 that the channel has room for if the limit is greater.
  pub agents_balanced :
      (cache : Bool) (router : Router) (es : List Event) (uuid : Str) (a : Agent)
      → lookup uuid (run request_hash tc_hash (new_broker cache router) es).agents ≡ some a
      → a.available_tokens + a.locked_tokens ≡ capacity a.concurrent_process_limit
  agents_balanced cache router es =
      (run-AllBalanced (new_broker cache router) es
        (record { balanced = unfold new_broker lookup in λ uuid a e. cc })).balanced
