-- ===== src/Scheduler/Broker/Account.antt =====
-- The account of the requests over the histories of the broker of pkg/scheduler/broker.go.
use kubecc.Common.{
  if◌then◌else◌, true, false, ℕ, ◌+◌, ◌≤◌, ◌≡◌, refl, List, [], ◌∷◌, Bool, Str, str_eq_refl, arith,
  inl, inr, Option-cases, get_elem?, erase_idx,
}
use kubecc.Common.Map.{lookup}
use kubecc.Types.Toolchain.{Toolchain}
use kubecc.Scheduler.Router.{Router}
use kubecc.Scheduler.Messages.{Request, RetryAction, Env, Broker}
use kubecc.Scheduler.Broker.Respond.{agent_gone}
use kubecc.Scheduler.Broker.Stream.{agent_connects, is_blocked, agent_leaves}
use kubecc.Scheduler.Broker.Steps.{
  requeue, Event, arrives, requeues, connects, locks, takes, responds, handles, leaves,
  cache_changes, routes_change, step, run, new_broker,
}
use kubecc.Scheduler.Broker.Tracked.{tracked, answered, total, IsKeyed}
use kubecc.Scheduler.Broker.Routed.{route_new_request-total}
use kubecc.Scheduler.Broker.Handled.{
  arrival, arrivals, IsAccounted, Keeps, same_maps-Keeps, handle_response-Keeps, take_request-Keeps,
  lock_token-Keeps, agent_responds-Keeps, count_requeued-erase_idx,
}

module _ (request_hash : Request → Str) (tc_hash : Toolchain → Str) where
  requeue-Keeps :
      (b : Broker) (i : ℕ) (env : Env)
      → IsKeyed b
      → ((j : Str) → tracked b j ≤ 1)
      → Keeps b (requeue request_hash tc_hash b i env)
  unfolding requeue
  requeue-Keeps b i env v once = elim (Option-cases (get_elem? b.requeued i)) [
    | inl e ↦ rw (e, requeue) (v, λ j. refl)
    | inr (p, e) ↦
        let b1 : Broker = record b { requeued = erase_idx b.requeued i } in
        let id = p.request.request_id in
        let w =
          route_new_request-total request_hash tc_hash b1 p.requester p.request RetryAction.retry
            env (record { pending = v.pending; inflight = v.inflight })
            (ground (arith, once id, count_requeued-erase_idx id i b.requeued e, str_eq_refl id)) in
        rw (e, requeue) (w.0, λ j. omega (arith, w.1 j, count_requeued-erase_idx j i b.requeued e))
  ]

  agent_gone-Keeps : (b : Broker) (uuid : Str) → IsKeyed b → Keeps b (agent_gone b uuid)
  unfolding agent_gone
  agent_gone-Keeps b uuid v = same_maps-Keeps b _ refl refl refl refl v

  if-Keeps : (c : Bool) (b d : Broker) → IsKeyed b → Keeps b d → Keeps b (if c then b else d)
  if-Keeps true b d v k = same_maps-Keeps b b refl refl refl refl v
  if-Keeps false b d v k = k

  agent_leaves-Keeps : (b : Broker) (uuid : Str) → IsKeyed b → Keeps b (agent_leaves b uuid)
  unfolding agent_leaves
  agent_leaves-Keeps b uuid v =
      if-Keeps (is_blocked (lookup uuid b.agents)) b (agent_gone b uuid) v
        (agent_gone-Keeps b uuid v)

  agent_connects-Keeps :
      (b : Broker) (uuid : Str) (limit : ℕ) → IsKeyed b → Keeps b (agent_connects b uuid limit)
  unfolding agent_connects
  agent_connects-Keeps b uuid limit v = same_maps-Keeps b _ refl refl refl refl v

  accounted :
      (b b' : Broker) (came : Str → ℕ)
      → IsAccounted b came
      → Keeps b b'
      → IsAccounted b' (λ j. 0 + came j)
  accounted b b' came v w = record { keyed = w.0; same = λ j. omega (arith, w.1 j, v.same j) }

  -- Each event keeps the account, if it brings no request that came before.
  step-IsAccounted :
      (b : Broker) (e : Event) (came : Str → ℕ)
      → IsAccounted b came
      → ((j : Str) → arrival j e + came j ≤ 1)
      → IsAccounted (step request_hash tc_hash b e) (λ j. arrival j e + came j)
  unfolding step
  step-IsAccounted b (arrives cd req env) came v once =
      let w =
        route_new_request-total request_hash tc_hash b cd req _ env v.keyed (
          ground (arith, once req.request_id, str_eq_refl req.request_id, v.same req.request_id)) in
      record { keyed = w.0; same = λ j. omega (arith, w.1 j, v.same j) }
  step-IsAccounted b (requeues i env) came v once =
      accounted b _ came v (requeue-Keeps b i env v.keyed (λ j. omega (arith, once j, v.same j)))
  step-IsAccounted b (connects uuid limit) came v once =
      accounted b _ came v (agent_connects-Keeps b uuid limit v.keyed)
  step-IsAccounted b (locks uuid) came v once =
      accounted b _ came v (lock_token-Keeps b v.keyed uuid)
  step-IsAccounted b (takes uuid i delivered) came v once =
      accounted b _ came v
        (take_request-Keeps b v.keyed uuid i delivered (λ j. omega (arith, once j, v.same j)))
  step-IsAccounted b (responds uuid resp) came v once =
      accounted b _ came v (agent_responds-Keeps b v.keyed uuid resp)
  step-IsAccounted b handles came v once = accounted b _ came v (handle_response-Keeps b v.keyed)
  step-IsAccounted b (leaves uuid) came v once =
      accounted b _ came v (agent_leaves-Keeps b uuid v.keyed)
  step-IsAccounted b (cache_changes available) came v once =
      accounted b _ came v (same_maps-Keeps b _ refl refl refl refl v.keyed)
  step-IsAccounted b (routes_change router) came v once =
      accounted b _ came v (same_maps-Keeps b _ refl refl refl refl v.keyed)

  run-IsAccounted :
      (b : Broker) (es : List Event) (came : Str → ℕ)
      → IsAccounted b came
      → ((j : Str) → arrivals j es + came j ≤ 1)
      → (j : Str) → total (run request_hash tc_hash b es) j ≡ arrivals j es + came j
  unfolding run
  run-IsAccounted b [] came v once j = omega (arith, v.same j)
  run-IsAccounted b (e ∷ es) came v once j = omega (
    arith,
    run-IsAccounted (step request_hash tc_hash b e) es (λ j. arrival j e + came j)
        (step-IsAccounted b e came v (λ j. omega (arith, once j))) (λ j. omega (arith, once j)) j,
  )

  -- Whatever the caches, the routes and the agents do, in whatever order the handlers run: if no
  -- identity comes twice, then the responses that a consumerd was sent for a request and the places
  -- where it stands (pending, inflight or to be routed again) are as many as its arrivals.
  pub requests_conserved :
      (cache : Bool) (router : Router) (es : List Event)
      → ((j : Str) → arrivals j es ≤ 1)
      → (j : Str)
      → let b = run request_hash tc_hash (new_broker cache router) es in
        answered b j + tracked b j ≡ arrivals j es
  requests_conserved cache router es once j = omega (
    arith,
    run-IsAccounted (new_broker cache router) es (λ j. 0)
        (unfold new_broker lookup in
          record {
            keyed = record { pending = λ id p e. cc; inflight = λ id ir e. cc };
            same = λ j. refl;
          })
        (λ j. omega (arith, once j)) j,
  )
