-- ===== src/Scheduler/Broker/Routed.antt =====
-- The account of a request while `routeNewRequest` of pkg/scheduler/broker.go routes it.
use kubecc.Common.{
  ℕ, ◌+◌, ◌-◌, ◌≡◌, refl, ap, ◌∙◌, [], ◌∷◌, ◌++◌, Option, none, some, Bool, true, false, not, ◌||◌,
  Str, str_eq, str_eq_iff, arith, ◌==◌, Bool-cases, inl, inr, Option-cases,
}
use kubecc.Common.Map.{lookup, insert, lookup-insert}
use kubecc.Types.Toolchain.{Toolchain}
use kubecc.Scheduler.Router.{route_at, route_for_toolchain}
use kubecc.Scheduler.Messages.{
  Request, RetryAction, retry, retry_action, Response, PendingRequest, Env, Pull, found, not_found,
  pull_error, Broker,
}
use kubecc.Scheduler.Broker.Route.{
  HookAction, process_request_normally, reject_request, request_intercepted, RouteError, cache_hit,
  cache_answers, after_hook, pre_receive, send_on_route, route, route_failed, route_new_request,
}
use kubecc.Scheduler.Broker.Tracked.{
  one_if, tracked, total, IsKeyed, answer_at_once-total, answer_at_once-IsKeyed, set_managed-total,
  set_managed-IsKeyed, set_managed_inflight,
}

-- The broker after a step that neither adds nor loses a request; what went on normally has not
-- become inflight.
pub record IsKept (b b' : Broker) (failed : Bool) : Type 0 where
  pub same : (j : Str) → total b' j ≡ total b j
  pub keyed : IsKeyed b'
  pub waiting : failed ≡ true → b'.inflight_requests ≡ b.inflight_requests

-- Whether a hook leaves the request to be routed or refused.
abbrev normally : HookAction → Bool
normally process_request_normally = true
normally reject_request = true
normally request_intercepted = false

abbrev pub is_error : Option RouteError → Bool
is_error none = false
is_error (some e) = true

IsKept-self : (b : Broker) (failed : Bool) → IsKeyed b → IsKept b b failed
IsKept-self b failed v = record { same = λ j. refl; keyed = v; waiting = λ e. refl }

cache_hit-IsKept :
    (b : Broker) (req : Request) (source : Str) (o : Option PendingRequest)
    → IsKeyed b
    → lookup req.request_id b.inflight_requests ≡ none
    → lookup req.request_id b.pending_requests ≡ o
    → IsKept b (cache_hit b req source o).1 (normally (cache_hit b req source o).0)
unfolding cache_hit
cache_hit-IsKept b req source none v fresh e = IsKept-self b true v
cache_hit-IsKept b req source (some p) v fresh e = record {
  same = λ j. answer_at_once-total b p _ j e fresh;
  keyed = answer_at_once-IsKeyed b p _ e v;
  waiting = λ h. cc;
}

cache_answers-IsKept :
    (b : Broker) (req : Request) (hash : Str) (pull : Pull)
    → IsKeyed b
    → lookup req.request_id b.inflight_requests ≡ none
    → IsKept b (cache_answers b req hash pull).1 (normally (cache_answers b req hash pull).0)
unfolding cache_answers
cache_answers-IsKept b req hash (found source) v fresh =
    cache_hit-IsKept b req source (lookup req.request_id b.pending_requests) v fresh refl
cache_answers-IsKept b req hash not_found v fresh = record {
  same = set_managed-total b req hash;
  keyed = set_managed-IsKeyed b req hash v;
  waiting = λ h. set_managed_inflight b req hash;
}
cache_answers-IsKept b req hash pull_error v fresh = IsKept-self b true v

taken-IsKept :
    (b : Broker) (req : Request) (failed : Bool)
    → IsKeyed b
    → IsKept b (record b { in_transit = b.in_transit ++ req ∷ [] }) failed
taken-IsKept b req failed v = record {
  same = λ j. refl;
  keyed = record { pending = v.pending; inflight = v.inflight };
  waiting = λ e. refl;
}

send_on_route-IsKept :
    (b : Broker) (req : Request) (rx : ℕ) (taken : Bool)
    → IsKeyed b
    → IsKept b (send_on_route b req rx taken).0 (is_error (send_on_route b req rx taken).1)
unfolding send_on_route
send_on_route-IsKept b req rx taken v = elim (Bool-cases (rx == 0)) [
  | inl e ↦ rw (e, send_on_route) (IsKept-self b true v)
  | inr e ↦ elim (Bool-cases taken) [
    | inl t ↦ rw (e, t, send_on_route) (taken-IsKept b req false v)
    | inr t ↦ rw (e, t, send_on_route) (IsKept-self b true v)
  ]
]

IsKept-trans :
    (a b c : Broker) (failed : Bool) → IsKept a b true → IsKept b c failed → IsKept a c failed
IsKept-trans a b c failed v w = record {
  same = λ j. w.same j ∙ v.same j;
  keyed = w.keyed;
  waiting = λ e. w.waiting e ∙ v.waiting refl;
}

module _ (request_hash : Request → Str) where
  pre_receive-IsKept :
      (b : Broker) (req : Request) (pull : Pull)
      → IsKeyed b
      → lookup req.request_id b.inflight_requests ≡ none
      → IsKept b
          (pre_receive request_hash b req pull).1
          (normally (pre_receive request_hash b req pull).0)
  unfolding pre_receive
  pre_receive-IsKept b req pull v fresh =
      elim (Bool-cases (not b.cache_configured || not b.cache_available)) [
        | inl off ↦ rw (off, pre_receive) (IsKept-self b true v)
        | inr on ↦ rw (on, pre_receive) (cache_answers-IsKept b req (request_hash req) pull v fresh)
      ]

  hooked-IsKept :
      (b b' : Broker) (req : Request) (action : HookAction) (rx : ℕ) (taken : Bool)
      → IsKept b b' (normally action)
      → let r : Broker × Option RouteError = after_hook b' req action rx taken in
        IsKept b r.0 (is_error r.1)
  unfolding after_hook
  hooked-IsKept b b' req process_request_normally rx taken v =
      IsKept-trans b b' _ _ v (send_on_route-IsKept b' req rx taken v.keyed)
  hooked-IsKept b b' req reject_request rx taken v = v
  hooked-IsKept b b' req request_intercepted rx taken v = record {
    same = v.same;
    keyed = v.keyed;
    waiting = λ e. cc;
  }

  module _ (tc_hash : Toolchain → Str) where
    route-IsKept :
        (b : Broker) (req : Request) (env : Env)
        → IsKeyed b
        → lookup req.request_id b.inflight_requests ≡ none
        → IsKept b
            (route request_hash tc_hash b req env).0
            (is_error (route request_hash tc_hash b req env).1)
    unfolding route
    route-IsKept b req env v fresh = elim (Option-cases req.toolchain) [
      | inl e ↦ rw (e, route) (IsKept-self b true v)
      | inr (tc, e) ↦
          rw (e, route)
            (let target = route_for_toolchain tc_hash b.router tc in
              let b1 : Broker = record b { router = target.0 } in
              let hooked = pre_receive request_hash b1 req env.pull in
              let w =
                hooked-IsKept b1 hooked.1 hooked.2 hooked.0
                  (route_at hooked.1.router target.1).rx_ref_count env.taken
                  (pre_receive-IsKept b1 req env.pull
                    (record { pending = v.pending; inflight = v.inflight }) fresh) in
              record { same = w.same; keyed = w.keyed; waiting = w.waiting })
    ]

    pending-IsKeyed :
        (b : Broker) (cd : Str) (req : Request) (n : ℕ)
        → IsKeyed b
        → IsKeyed (record b {
          request_count = n;
          pending_requests =
              insert req.request_id (record { request = req; requester = cd }) b.pending_requests;
        })
    pending-IsKeyed b cd req n v = record {
      pending = λ j p e. ground (
        arith,
        lookup-insert req.request_id j (record { request = req; requester = cd })
            b.pending_requests,
        str_eq_iff req.request_id j,
        v.pending j p,
      );
      inflight = v.inflight;
    }

    route_failed-IsKept :
        (b : Broker) (id : Str) (action : RetryAction)
        → IsKeyed b
        → lookup id b.inflight_requests ≡ none
        → IsKept b (route_failed b id action) false
    unfolding route_failed
    route_failed-IsKept b id action v fresh = elim (Option-cases (lookup id b.pending_requests)) [
      | inl e ↦ rw (e, route_failed) (IsKept-self b false v)
      | inr (p, e) ↦
          let b1 : Broker = record b { request_count = b.request_count - 1 } in
          let resp : Response = record {
            request_id = id;
            compile_result = retry;
            payload = retry_action action;
          } in
          rw (e, route_failed)
            (record {
              same = λ j. answer_at_once-total b1 p resp j e fresh;
              keyed =
                  answer_at_once-IsKeyed b1 p resp e
                    (record { pending = v.pending; inflight = v.inflight });
              waiting = λ h. cc;
            })
    ]

    -- A request that is not tracked yet is tracked or answered once more, under its own identity.
    pub route_new_request-total :
        (b : Broker) (cd : Str) (req : Request) (action : RetryAction) (env : Env)
        → IsKeyed b
        → tracked b req.request_id ≡ 0
        → let b' = route_new_request request_hash tc_hash b cd req action env in
          IsKeyed b' × ((j : Str) → total b' j ≡ one_if (str_eq req.request_id j) + total b j)
    unfolding route_new_request
    route_new_request-total b cd req action env v new =
        let b1 : Broker = record b {
          request_count = b.request_count + 1;
          pending_requests =
              insert req.request_id (record { request = req; requester = cd }) b.pending_requests;
        } in
        let fresh : lookup req.request_id b.inflight_requests ≡ none = ground arith in
        let added : (j : Str) → total b1 j ≡ one_if (str_eq req.request_id j) + total b j = λ j.
          ground (
            arith,
            lookup-insert req.request_id j (record { request = req; requester = cd })
                b.pending_requests,
            str_eq_iff req.request_id j,
          ) in
        let routed = route request_hash tc_hash b1 req env in
        let w = route-IsKept b1 req env (pending-IsKeyed b cd req (b.request_count + 1) v) fresh in
        elim (Option-cases routed.1) [
          | inl e ↦ rw (e, route_new_request) (w.keyed, λ j. w.same j ∙ added j)
          | inr (err, e) ↦
              let x =
                route_failed-IsKept routed.0 req.request_id action w.keyed
                  (ap (lookup req.request_id) (w.waiting (ap is_error e)) ∙ fresh) in
              rw (e, route_new_request) (x.keyed, λ j. x.same j ∙ w.same j ∙ added j)
        ]
