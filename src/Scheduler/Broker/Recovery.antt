-- ===== src/Scheduler/Broker/Recovery.antt =====
-- The requests of an agent that is gone (`cleanupAgent` and `handleResponseQueue` of
-- pkg/scheduler/broker.go).
pub mod Others
use mathlib.Core.List.{Mem, mem-cons_self, mem-cons_of_mem}
use kubecc.Common.{
  ℕ, zero, suc, ◌+◌, ◌≡◌, refl, sym, ap, ◌∙◌, subst, inl, inr, ◌⊎◌, if◌then◌else◌, List, [], ◌∷◌,
  ◌++◌, Option, none, some, Bool, true, false, Str, go, str_eq, str_eq_iff, str_eq_refl, arith, All,
  length, Bool-cases, Option-cases,
}
use kubecc.Common.Map.{Map, lookup, delete, lookup-delete, lookup-delete_self}
use kubecc.Scheduler.Messages.{
  success, fail, internal_error, defunct, retry, CompileResult, error, Payload, Response,
  PendingRequest, InflightRequest, Broker,
}
use kubecc.Scheduler.Broker.Tracked.{answered}
use kubecc.Scheduler.Broker.Respond.{
  source_of, cache_transaction, reply, finish, take_response, handle_response, defunct_responses,
  agent_gone,
}
use kubecc.Scheduler.Broker.Recovery.Others.{Same, other-Same}

-- The response that stands for a lost agent.
abbrev pub lost : Str → Response
lost id = record {
  request_id = id;
  compile_result = defunct;
  payload = error (go "The agent handling this task is no longer available.");
}

-- The first response to the request is that for a lost agent.
FirstLost : Str → List Response → Type 0
FirstLost id [] = ⊥
FirstLost id (r ∷ q) = (r ≡ lost id) ⊎ ((str_eq r.request_id id ≡ false) × FirstLost id q)

defunct-FirstLost :
    (uuid id : Str) (m : Map InflightRequest) (ir : InflightRequest)
    → lookup id m ≡ some ir
    → ir.agent ≡ some uuid
    → FirstLost id (defunct_responses uuid m)
unfolding lookup defunct_responses FirstLost
defunct-FirstLost uuid id [] ir e a = cc
defunct-FirstLost uuid id ((j, x) ∷ m) ir e a = elim (Bool-cases (str_eq j id)) [
  | inl k ↦
      let h : x.agent ≡ some uuid = grind arith in
      rw (h, str_eq_refl uuid) (inl (ap lost ((str_eq_iff j id).0 k)))
  | inr k ↦ behind x.agent (defunct-FirstLost uuid id m ir (grind arith) a) k
]
  where
    behind :
        (o : Option Str)
        → FirstLost id (defunct_responses uuid m)
        → str_eq j id ≡ false
        → FirstLost id (elim o [
          | none ↦ defunct_responses uuid m
          | some agent ↦
              if str_eq agent uuid
              then lost j ∷ defunct_responses uuid m
              else defunct_responses uuid m
        ])
    behind none f k = f
    behind (some agent) f k = kept (str_eq agent uuid)
      where
        kept :
            (c : Bool)
            → FirstLost id
                (if c then lost j ∷ defunct_responses uuid m else defunct_responses uuid m)
        kept true = inr (k, f)
        kept false = f

append-FirstLost :
    (id : Str) (q l : List Response)
    → All (λ r. str_eq r.request_id id ≡ false) q
    → FirstLost id l
    → FirstLost id (q ++ l)
unfolding FirstLost
append-FirstLost id [] l n f = f
append-FirstLost id (r ∷ q) l (k, n) f = inr (k, append-FirstLost id q l n f)

-- Turns of `handleResponseQueue`.
abbrev pub turns : ℕ → Broker → Broker
turns zero b = b
turns (suc n) b = turns n (handle_response b)

module _ (id : Str) where
  turn_lem :
      (b : Broker) (r : Response) (rest : List Response)
      → b.response_queue ≡ r ∷ rest
      → handle_response b ≡ take_response b r rest
  unfolding handle_response take_response
  turn_lem b r rest e = rw (handle_response, e) refl

  -- The request stands among those to be routed again, and was not answered since.
  record Requeued (p : PendingRequest) (n : ℕ) (c : Broker) : Type 0 where
    again : Mem p c.requeued
    taken : lookup id c.inflight_requests ≡ none
    answers : answered c id ≡ n

  module _ (p : PendingRequest) (n : ℕ) where
    take_response-Requeued :
        (b : Broker) (r : Response) (rest : List Response)
        → Requeued p n b
        → Requeued p n (take_response b r rest)
    unfolding take_response
    take_response-Requeued b r rest q = elim (Bool-cases (str_eq r.request_id id)) [
      | inl k ↦
          let e : lookup r.request_id b.inflight_requests ≡ none =
            ap (λ j. lookup j b.inflight_requests) ((str_eq_iff r.request_id id).0 k) ∙ q.taken in
          rw (take_response, e) (record { again = q.again; taken = q.taken; answers = q.answers })
      | inr k ↦
          let s = other-Same id b r rest k in
          record {
            again = s.requeues p q.again;
            taken = s.inflight ∙ q.taken;
            answers = s.answers ∙ q.answers;
          }
    ]

    handle_response-Requeued : (b : Broker) → Requeued p n b → Requeued p n (handle_response b)
    unfolding handle_response
    handle_response-Requeued b q =
        elim b.response_queue
          as (λ l.
            Requeued p n (elim l as (λ _. Broker) [ [] ↦ b | r ∷ rest ↦ take_response b r rest ])) [
              | [] ↦ q
              | r ∷ rest ↦ take_response-Requeued b r rest q
            ]

    turns-Requeued : (k : ℕ) (b : Broker) → Requeued p n b → Requeued p n (turns k b)
    turns-Requeued zero b q = q
    turns-Requeued (suc k) b q = turns-Requeued k (handle_response b) (handle_response-Requeued b q)

    lost-Requeued :
        (b : Broker) (ir : InflightRequest) (rest : List Response)
        → lookup id b.inflight_requests ≡ some ir
        → ir.pending_request ≡ p
        → answered b id ≡ n
        → Requeued p n (take_response b (lost id) rest)
    unfolding take_response finish
    lost-Requeued b ir rest e h a =
        rw (take_response, e)
          (record {
            again = subst (λ o. Mem o (ir.pending_request ∷ b.requeued)) h mem-cons_self;
            taken = lookup-delete_self id b.inflight_requests;
            answers = a;
          })

    queue-Requeued :
        (q : List Response) (b : Broker) (ir : InflightRequest)
        → b.response_queue ≡ q
        → lookup id b.inflight_requests ≡ some ir
        → ir.pending_request ≡ p
        → answered b id ≡ n
        → FirstLost id q
        → Requeued p n (turns (length q) b)
    unfolding FirstLost
    queue-Requeued [] b ir e i h a f = absurd f
    queue-Requeued (r ∷ rest) b ir e i h a (inl l) =
        turns-Requeued (length rest) (handle_response b) (
          subst (Requeued p n) (sym (turn_lem b r rest e ∙ ap (λ x. take_response b x rest) l))
            (lost-Requeued b ir rest i h a))
    queue-Requeued (r ∷ rest) b ir e i h a (inr (k, f)) =
        let s = other-Same id b r rest k in
        let t = sym (turn_lem b r rest e) in
        subst (λ c. Requeued p n (turns (length rest) c)) t
          (queue-Requeued rest (take_response b r rest) ir s.queue (s.inflight ∙ i) h
            (s.answers ∙ a) f)

-- Of a broker where a request is inflight on an agent, and no response to it is waiting: when the
-- agent is gone, and all waiting responses had their turns, the request stands among those that are
-- routed again and no longer among the inflight ones, and its consumerd was sent no response to it.
pub agent_gone_requeues :
    (b : Broker) (uuid id : Str) (ir : InflightRequest)
    → lookup id b.inflight_requests ≡ some ir
    → ir.agent ≡ some uuid
    → All (λ r. str_eq r.request_id id ≡ false) b.response_queue
    → let c = turns (length (agent_gone b uuid).response_queue) (agent_gone b uuid) in
      Mem ir.pending_request c.requeued
      × (lookup id c.inflight_requests ≡ none)
      × (answered c id ≡ answered b id)
unfolding agent_gone
agent_gone_requeues b uuid id ir e a none_waits =
    let r =
      queue-Requeued id ir.pending_request (answered b id)
        (b.response_queue ++ defunct_responses uuid b.inflight_requests) (agent_gone b uuid) ir refl
        e refl refl
        (append-FirstLost id b.response_queue _ none_waits
          (defunct-FirstLost uuid id b.inflight_requests ir e a)) in
    (r.again, r.taken, r.answers)
