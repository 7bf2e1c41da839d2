-- ===== src/Scheduler/Broker/Recovery/Others.antt =====
-- What a turn of `handleResponseQueue` of pkg/scheduler/broker.go leaves of the other requests.
use mathlib.Core.List.{Mem, mem-cons_of_mem}
use kubecc.Common.{
  ◌+◌, ◌≡◌, refl, ◌∙◌, inl, inr, if◌then◌else◌, List, [], ◌∷◌, Option, none, some, Bool, true,
  false, Str, str_eq, arith, Option-cases,
}
use kubecc.Common.Map.{lookup, delete, lookup-delete}
use kubecc.Scheduler.Messages.{
  success, fail, internal_error, defunct, retry, CompileResult, Payload, Response, PendingRequest,
  Broker,
}
use kubecc.Scheduler.Broker.Tracked.{answered}
use kubecc.Scheduler.Broker.Respond.{source_of, cache_transaction, reply, finish, take_response}

-- What a turn for another request leaves as it was.
pub record Same (id : Str) (b c : Broker) : Type 0 where
  pub inflight : lookup id c.inflight_requests ≡ lookup id b.inflight_requests
  pub queue : c.response_queue ≡ b.response_queue
  pub answers : answered c id ≡ answered b id
  pub requeues : (p : PendingRequest) → Mem p b.requeued → Mem p c.requeued

module _ (id : Str) where
  cache_transaction-Same :
      (b : Broker) (o : Option Str) (payload : Payload) → Same id b (cache_transaction b o payload)
  unfolding cache_transaction
  cache_transaction-Same b none payload = record {
    inflight = refl;
    queue = refl;
    answers = refl;
    requeues = λ p m. m;
  }
  cache_transaction-Same b (some hash) payload = pushed (str_eq hash [])
    where
      pushed :
          (c : Bool)
          → Same id b (if c then b else record b { pushed = (hash, source_of payload) ∷ b.pushed })
      pushed true = record { inflight = refl; queue = refl; answers = refl; requeues = λ p m. m }
      pushed false = record { inflight = refl; queue = refl; answers = refl; requeues = λ p m. m }

  reply-Same :
      (b c : Broker) (cd : Str) (r : Response)
      → str_eq r.request_id id ≡ false
      → Same id b c
      → Same id b (reply c cd r)
  unfolding reply
  reply-Same b c cd r k s = record {
    inflight = s.inflight;
    queue = s.queue;
    answers = ground (arith, s.answers);
    requeues = s.requeues;
  }

  finish-Same :
      (b : Broker) (p : PendingRequest) (r : Response) (k : CompileResult)
      → r.compile_result ≡ k
      → str_eq r.request_id id ≡ false
      → Same id b (finish b p r)
  unfolding finish
  finish-Same b p r success e n =
      rw (finish, e)
        (reply-Same b _ p.requester r n (
          let s =
            cache_transaction-Same (record b { completed_tasks = b.completed_tasks + 1 })
              p.request.managed r.payload in
          record {
            inflight = s.inflight;
            queue = s.queue;
            answers = s.answers;
            requeues = s.requeues;
          }))
  finish-Same b p r fail e n =
      rw (finish, e)
        (reply-Same b _ p.requester r n
          (record { inflight = refl; queue = refl; answers = refl; requeues = λ q m. m }))
  finish-Same b p r internal_error e n =
      rw (finish, e)
        (reply-Same b _ p.requester r n
          (record { inflight = refl; queue = refl; answers = refl; requeues = λ q m. m }))
  finish-Same b p r defunct e n =
      rw (finish, e)
        (record {
          inflight = refl;
          queue = refl;
          answers = refl;
          requeues = λ q m. mem-cons_of_mem p m;
        })
  finish-Same b p r retry e n =
      rw (finish, e)
        (reply-Same b b p.requester r n
          (record { inflight = refl; queue = refl; answers = refl; requeues = λ q m. m }))

  pub other-Same :
      (b : Broker) (r : Response) (rest : List Response)
      → str_eq r.request_id id ≡ false
      → Same id (record b { response_queue = rest }) (take_response b r rest)
  unfolding take_response
  other-Same b r rest n = elim (Option-cases (lookup r.request_id b.inflight_requests)) [
    | inl e ↦
        rw (take_response, e)
          (record { inflight = refl; queue = refl; answers = refl; requeues = λ p m. m })
    | inr (ir, e) ↦
        let s =
          finish-Same
            (record b {
              response_queue = rest;
              inflight_requests = delete r.request_id b.inflight_requests;
              request_count = b.request_count + 1;
            })
            ir.pending_request r r.compile_result refl n in
        rw (take_response, e)
          (record {
            inflight = s.inflight ∙ lookup-delete r.request_id id b.inflight_requests ∙ rw n refl;
            queue = s.queue;
            answers = s.answers;
            requeues = s.requeues;
          })
  ]
