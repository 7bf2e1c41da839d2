-- ===== src/Scheduler/Broker/Tracked.antt =====
-- Where a request of the broker of pkg/scheduler/broker.go stands while it is not answered.
use kubecc.Common.{
  ℕ, ◌+◌, ◌≡◌, refl, List, [], ◌∷◌, Option, none, some, Bool, Str, str_eq, str_eq_iff, arith,
  if◌then◌else◌, inl, inr, Option-cases,
}
use kubecc.Common.Map.{lookup, lookup-insert, lookup-delete}
use kubecc.Scheduler.Messages.{Request, Response, PendingRequest, InflightRequest, Broker}
use kubecc.Scheduler.Broker.Route.{answer_at_once, set_managed}

abbrev pub flag {ℓ} : {A : Type ℓ} → Option A → ℕ
flag none = 0
flag (some a) = 1

abbrev pub one_if : Bool → ℕ
one_if b = if b then 1 else 0

abbrev pub count_requeued : Str → List PendingRequest → ℕ
count_requeued id [] = 0
count_requeued id (p ∷ l) = one_if (str_eq p.request.request_id id) + count_requeued id l

abbrev pub count_sent : Str → List (Str × Response) → ℕ
count_sent id [] = 0
count_sent id ((cd, resp) ∷ l) = one_if (str_eq resp.request_id id) + count_sent id l

-- How often a request stands among the pending, the inflight and the requeued ones.
abbrev pub tracked : Broker → Str → ℕ
tracked b id =
    flag (lookup id b.pending_requests)
    + flag (lookup id b.inflight_requests)
    + count_requeued id b.requeued

-- How many responses consumerds were sent for a request.
abbrev pub answered : Broker → Str → ℕ
answered b id = count_sent id b.sent

abbrev pub total : Broker → Str → ℕ
total b id = tracked b id + answered b id

-- Requests stand under their own identities.
pub record IsKeyed (b : Broker) : Type 0 where
  pub pending :
      (id : Str) (p : PendingRequest)
      → lookup id b.pending_requests ≡ some p
      → p.request.request_id ≡ id
  pub inflight :
      (id : Str) (ir : InflightRequest)
      → lookup id b.inflight_requests ≡ some ir
      → ir.pending_request.request.request_id ≡ id

module _ (b : Broker) (p : PendingRequest) (resp : Response) where
  abbrev id : Str
  id = resp.request_id

  pub answer_at_once-total :
      (j : Str)
      → lookup id b.pending_requests ≡ some p
      → lookup id b.inflight_requests ≡ none
      → total (answer_at_once b p resp) j ≡ total b j
  unfolding answer_at_once
  answer_at_once-total j hp hi = ground (
    arith,
    lookup-delete id j b.pending_requests,
    lookup-insert id j (record { pending_request = p; agent = none }) b.inflight_requests,
    str_eq_iff id j,
  )

  pub answer_at_once-IsKeyed :
      lookup id b.pending_requests ≡ some p → IsKeyed b → IsKeyed (answer_at_once b p resp)
  unfolding answer_at_once
  answer_at_once-IsKeyed hp v = record {
    pending = λ j q e. ground (arith, lookup-delete id j b.pending_requests, v.pending j q);
    inflight = λ j ir e. ground (
      arith,
      lookup-insert id j (record { pending_request = p; agent = none }) b.inflight_requests,
      str_eq_iff id j,
      v.inflight j ir,
      v.pending id p hp,
    );
  }

module _ (b : Broker) (req : Request) (hash : Str) where
  pub set_managed-total : (j : Str) → total (set_managed b req hash) j ≡ total b j
  unfolding set_managed
  set_managed-total j = elim (Option-cases (lookup req.request_id b.pending_requests)) [
    | inl e ↦ rw (e, set_managed) refl
    | inr (p, e) ↦
        rw (e, set_managed)
          (ground (
            arith,
            lookup-insert req.request_id j
                (record p { request = record req { managed = some hash } }) b.pending_requests,
            str_eq_iff req.request_id j,
          ))
  ]

  pub set_managed-IsKeyed : IsKeyed b → IsKeyed (set_managed b req hash)
  unfolding set_managed
  set_managed-IsKeyed v = elim (Option-cases (lookup req.request_id b.pending_requests)) [
    | inl e ↦ rw (e, set_managed) v
    | inr (p, e) ↦
        rw (e, set_managed)
          (record {
            pending = λ j q h. ground (
              arith,
              lookup-insert req.request_id j
                  (record p { request = record req { managed = some hash } }) b.pending_requests,
              str_eq_iff req.request_id j,
              v.pending j q,
            );
            inflight = v.inflight;
          })
  ]

  pub set_managed_inflight : (set_managed b req hash).inflight_requests ≡ b.inflight_requests
  unfolding set_managed
  set_managed_inflight = ground arith
