-- ===== src/Scheduler/Broker/Handled.antt =====
-- What the handlers of responses and agents of pkg/scheduler/broker.go do to the account of requests.
use kubecc.Common.{
  ℕ, zero, suc, ◌+◌, ◌≤◌, ◌≡◌, refl, ap, sym, ◌∙◌, List, [], ◌∷◌, Option, none, some, Bool, Str,
  str_eq, str_eq_iff, arith, inl, inr, Option-cases, get_elem?, erase_idx,
}
use kubecc.Common.Map.{lookup, delete, lookup-insert, lookup-delete}
use kubecc.Scheduler.Messages.{
  Request, Payload, Response, PendingRequest, SendState, idle, holding, stopped, filling, Agent,
  Broker,
}
use kubecc.Scheduler.Broker.Respond.{
  cache_transaction, reply, finish, take_response, handle_response,
}
use kubecc.Scheduler.Broker.Stream.{
  lock_token, start_request, take_waiting, take_request, agent_responds,
}
use kubecc.Scheduler.Broker.Steps.{Event, arrives}
use kubecc.Scheduler.Broker.Tracked.{one_if, count_requeued, count_sent, tracked, total, IsKeyed}

-- How often an event brings a request of an identity.
abbrev pub arrival : Str → Event → ℕ
arrival id (arrives cd req env) = one_if (str_eq req.request_id id)
arrival id _ = 0

abbrev pub arrivals : Str → List Event → ℕ
arrivals id [] = 0
arrivals id (e ∷ es) = arrival id e + arrivals id es

-- A broker in which all requests that came are accounted for.
pub record IsAccounted (b : Broker) (came : Str → ℕ) : Type 0 where
  pub keyed : IsKeyed b
  pub same : (j : Str) → total b j ≡ came j

cache_transaction_same :
    (b : Broker) (h : Option Str) (payload : Payload)
    → ((cache_transaction b h payload).pending_requests ≡ b.pending_requests)
      × ((cache_transaction b h payload).inflight_requests ≡ b.inflight_requests)
      × ((cache_transaction b h payload).requeued ≡ b.requeued)
      × ((cache_transaction b h payload).sent ≡ b.sent)
unfolding cache_transaction
cache_transaction_same b h payload = ground arith

-- The response of an inflight request answers it, or has it requeued.
finish_effect :
    (b : Broker) (p : PendingRequest) (resp : Response) (j : Str)
    → p.request.request_id ≡ resp.request_id
    → ((finish b p resp).pending_requests ≡ b.pending_requests)
      × ((finish b p resp).inflight_requests ≡ b.inflight_requests)
      × (count_requeued j (finish b p resp).requeued + count_sent j (finish b p resp).sent
          ≡ one_if (str_eq resp.request_id j) + count_requeued j b.requeued + count_sent j b.sent)
unfolding finish reply
finish_effect b p resp j own = ground (
  arith,
  cache_transaction_same (record b { completed_tasks = b.completed_tasks + 1 }) p.request.managed
      resp.payload,
  str_eq_iff resp.request_id j,
)

-- A handler that neither adds nor loses a request.
abbrev pub Keeps : Broker → Broker → Type 0
Keeps b b' = IsKeyed b' × ((j : Str) → total b' j ≡ total b j)

pub same_maps-Keeps :
    (b b' : Broker)
    → b'.pending_requests ≡ b.pending_requests
    → b'.inflight_requests ≡ b.inflight_requests
    → b'.requeued ≡ b.requeued
    → b'.sent ≡ b.sent
    → IsKeyed b
    → Keeps b b'
same_maps-Keeps b b' p i r s v = (
  record {
    pending = λ id q e. v.pending id q (ap (lookup id) (sym p) ∙ e);
    inflight = λ id q e. v.inflight id q (ap (lookup id) (sym i) ∙ e);
  },
  λ j. rw (p, i, r, s) refl,
)

deleted-IsKeyed :
    (b : Broker) (id : Str) (queue : List Response) (n : ℕ)
    → IsKeyed b
    → IsKeyed (record b {
      response_queue = queue;
      inflight_requests = delete id b.inflight_requests;
      request_count = n;
    })
deleted-IsKeyed b id queue n v = record {
  pending = v.pending;
  inflight = λ j ir e. ground (arith, lookup-delete id j b.inflight_requests, v.inflight j ir);
}

module _ (b : Broker) (v : IsKeyed b) where
  take_response-Keeps :
      (resp : Response) (rest : List Response) → Keeps b (take_response b resp rest)
  unfolding take_response
  take_response-Keeps resp rest = elim (Option-cases (lookup resp.request_id b.inflight_requests)) [
    | inl e ↦ rw (e, take_response) (same_maps-Keeps b _ refl refl refl refl v)
    | inr (ir, e) ↦
        let b1 : Broker = record b {
          response_queue = rest;
          inflight_requests = delete resp.request_id b.inflight_requests;
          request_count = b.request_count + 1;
        } in
        let own = v.inflight resp.request_id ir e in
        let w = deleted-IsKeyed b resp.request_id rest (b.request_count + 1) v in
        let effect = λ (j : Str). finish_effect b1 ir.pending_request resp j own in
        rw (e, take_response)
          (
            record {
              pending = λ id q h. w.pending id q (ap (lookup id) (sym (effect id).0) ∙ h);
              inflight = λ id q h. w.inflight id q (ap (lookup id) (sym (effect id).1) ∙ h);
            },
            λ j. ground (
              arith,
              effect j,
              lookup-delete resp.request_id j b.inflight_requests,
              str_eq_iff resp.request_id j,
            ),
          )
  ]

  pub handle_response-Keeps : Keeps b (handle_response b)
  unfolding handle_response
  handle_response-Keeps = turn b.response_queue
    where
      turn :
          (queue : List Response)
          → Keeps b (elim queue [ [] ↦ b | resp ∷ rest ↦ take_response b resp rest ])
      turn [] = (v, λ j. refl)
      turn (resp ∷ rest) = take_response-Keeps resp rest

  start_request-Keeps :
      (uuid : Str) (a : Agent) (req : Request) (delivered : Bool)
      → tracked b req.request_id ≤ 1
      → Keeps b (start_request b uuid a req delivered)
  unfolding start_request
  start_request-Keeps uuid a req delivered once =
      elim (Option-cases (lookup req.request_id b.pending_requests)) [
        | inl e ↦ rw (e, start_request) (same_maps-Keeps b _ refl refl refl refl v)
        | inr (p, e) ↦
            rw (e, start_request)
              (
                record {
                  pending = λ j q h.
                      ground
                        (arith, lookup-delete req.request_id j b.pending_requests, v.pending j q);
                  inflight = λ j ir h. ground (
                    arith,
                    lookup-insert req.request_id j
                        (record { pending_request = p; agent = some uuid }) b.inflight_requests,
                    str_eq_iff req.request_id j,
                    v.inflight j ir,
                    v.pending req.request_id p e,
                  );
                },
                λ j. ground (
                  arith,
                  lookup-delete req.request_id j b.pending_requests,
                  lookup-insert req.request_id j (record { pending_request = p; agent = some uuid })
                      b.inflight_requests,
                  str_eq_iff req.request_id j,
                ),
              )
      ]

module _ (b : Broker) (v : IsKeyed b) where
  waiting-Keeps :
      (uuid : Str) (i : ℕ) (delivered : Bool) (a : Agent) (sending : SendState)
      → ((j : Str) → tracked b j ≤ 1)
      → Keeps b (take_waiting b uuid i delivered a sending (get_elem? b.in_transit i))
  unfolding take_waiting
  waiting-Keeps uuid i delivered a idle once = (v, λ j. refl)
  waiting-Keeps uuid i delivered a stopped once = (v, λ j. refl)
  waiting-Keeps uuid i delivered a filling once = (v, λ j. refl)
  waiting-Keeps uuid i delivered a holding once = received (get_elem? b.in_transit i)
    where
      received : (o : Option Request) → Keeps b (take_waiting b uuid i delivered a holding o)
      received none = (v, λ j. refl)
      received (some req) =
          let w =
            start_request-Keeps (record b { in_transit = erase_idx b.in_transit i })
              (record { pending = v.pending; inflight = v.inflight }) uuid a req delivered
              (once req.request_id) in
          (w.0, w.1)

  pub take_request-Keeps :
      (uuid : Str) (i : ℕ) (delivered : Bool)
      → ((j : Str) → tracked b j ≤ 1)
      → Keeps b (take_request b uuid i delivered)
  unfolding take_request
  take_request-Keeps uuid i delivered once = elim (Option-cases (lookup uuid b.agents)) [
    | inl e ↦ rw (e, take_request) (v, λ j. refl)
    | inr (a, e) ↦ rw (e, take_request) (waiting-Keeps uuid i delivered a a.sending once)
  ]

  pub lock_token-Keeps : (uuid : Str) → Keeps b (lock_token b uuid)
  unfolding lock_token
  lock_token-Keeps uuid =
      same_maps-Keeps b _ (ground arith) (ground arith) (ground arith) (ground arith) v

  pub agent_responds-Keeps : (uuid : Str) (resp : Response) → Keeps b (agent_responds b uuid resp)
  unfolding agent_responds
  agent_responds-Keeps uuid resp =
      same_maps-Keeps b _ (ground arith) (ground arith) (ground arith) (ground arith) v

pub count_requeued-erase_idx :
    (id : Str) (i : ℕ) (l : List PendingRequest) {p : PendingRequest}
    → get_elem? l i ≡ some p
    → count_requeued id l
      ≡ one_if (str_eq p.request.request_id id) + count_requeued id (erase_idx l i)
count_requeued-erase_idx id i [] e = cc
count_requeued-erase_idx id zero (p ∷ l) e = ground arith
count_requeued-erase_idx id (suc i) (p ∷ l) e = omega (arith, count_requeued-erase_idx id i l e)
