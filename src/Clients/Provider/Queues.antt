-- ===== src/Clients/Provider/Queues.antt =====
-- What `Post` of pkg/clients/monitor.go does with the queue.
use kubecc.Common.{
  ℕ, zero, suc, ◌/◌, ◌≤◌, ◌≡◌, refl, ap, ◌∙◌, ◌↔◌, if◌then◌else◌, List, [], ◌∷◌, ◌++◌, none, some,
  true, false, length, drop, length-drop, length-append, ltb, arith, Bool-cases, inl, inr, ltb→lt,
}
use kubecc.Clients.Provider.{
  Message, QueueStrategy, MetricsProvider, new_metrics_provider, try_send, drain, send_or,
  provider_post, receive_from, provider_receive, ProviderEvent, posts, receives, posted_or,
  provider_step, provider_run,
}

drain-drop : (n : ℕ) (q : List Message) → drain n q ≡ drop n q
unfolding drain
drain-drop zero q = refl
drain-drop (suc n) [] = refl
drain-drop (suc n) (m ∷ q) = drain-drop n q

-- A post that finds no reader waiting, with a strategy that discards and a buffer of four messages or
-- more: it does not block; the message is last in the queue, behind all that was there, or, if the
-- queue was full, behind all but the oldest quarter; and the queue stays within the capacity.
pub provider_post-discards :
    (m : Message) (p : MetricsProvider)
    → p.queue_strategy ≡ record { buffered = true; discard = true }
    → p.receiving ≡ false
    → 4 ≤ p.capacity
    → length p.post_queue ≤ p.capacity
    → (q : MetricsProvider) × (provider_post m p ≡ some q)
      × (q.post_queue
          ≡ (if ltb (length p.post_queue) p.capacity
              then p.post_queue
              else drop (p.capacity / 4) p.post_queue)
            ++ m ∷ [])
      × (length q.post_queue ≤ p.capacity)
unfolding provider_post try_send send_or
provider_post-discards m p s r c l = elim (Bool-cases (ltb (length p.post_queue) p.capacity)) [
  | inl room ↦
      let fits = ltb→lt (length p.post_queue) p.capacity room in
      (
        record p { post_queue = p.post_queue ++ m ∷ [] },
        ground arith,
        rw room refl,
        omega (arith, fits, length-append {0} p.post_queue (m ∷ [])),
      )
  | inr full ↦
      let kept = drop (p.capacity / 4) p.post_queue in
      let e = drain-drop (p.capacity / 4) p.post_queue in
      let k = length-drop {0} (p.capacity / 4) p.post_queue in
      (
        record p { post_queue = kept ++ m ∷ [] },
        ground (arith, e, k),
        rw full refl,
        omega (arith, k, length-append {0} kept (m ∷ [])),
      )
]

-- What every history keeps of the provider that `NewMetricsProvider` makes.
pub record IsNew (qs : QueueStrategy) (p : MetricsProvider) : Type 0 where
  pub strategy : p.queue_strategy.discard ≡ false
  pub room : p.capacity ≡ (if qs.buffered then 1000000 else 0)

try_send-fields :
    (m : Message) (p : MetricsProvider)
    → ((posted_or p (try_send m p)).queue_strategy ≡ p.queue_strategy)
      × ((posted_or p (try_send m p)).capacity ≡ p.capacity)
unfolding try_send posted_or
try_send-fields m p = ground arith

provider_post-IsNew :
    (qs : QueueStrategy) (m : Message) (p : MetricsProvider)
    → IsNew qs p
    → provider_post m p ≡ try_send m p
unfolding provider_post
provider_post-IsNew qs m p h = simp h.strategy

provider_receive-fields :
    (q : List Message) (p : MetricsProvider)
    → ((receive_from q p).queue_strategy ≡ p.queue_strategy)
      × ((receive_from q p).capacity ≡ p.capacity)
unfolding receive_from
provider_receive-fields [] p = (refl, refl)
provider_receive-fields (m ∷ q) p = (refl, refl)

of_fields :
    (qs : QueueStrategy) (p q : MetricsProvider)
    → IsNew qs p
    → (q.queue_strategy ≡ p.queue_strategy) × (q.capacity ≡ p.capacity)
    → IsNew qs q
of_fields qs p q h (a, b) = record {
  strategy = ap (λ s. s.discard) a ∙ h.strategy;
  room = b ∙ h.room;
}

provider_step-IsNew :
    (qs : QueueStrategy) (e : ProviderEvent) (p : MetricsProvider)
    → IsNew qs p
    → IsNew qs (provider_step e p)
unfolding provider_step provider_receive
provider_step-IsNew qs (posts m) p h =
    rw (provider_post-IsNew qs m p h) (of_fields qs p _ h (try_send-fields m p))
provider_step-IsNew qs receives p h = of_fields qs p _ h (provider_receive-fields p.post_queue p)

provider_run-IsNew :
    (qs : QueueStrategy) (es : List ProviderEvent) (p : MetricsProvider)
    → IsNew qs p
    → IsNew qs (provider_run es p)
unfolding provider_run
provider_run-IsNew qs [] p h = h
provider_run-IsNew qs (e ∷ es) p h =
    provider_run-IsNew qs es (provider_step e p) (provider_step-IsNew qs e p h)

new_metrics_provider-IsNew : (qs : QueueStrategy) → IsNew qs (new_metrics_provider qs)
unfolding new_metrics_provider
new_metrics_provider-IsNew qs = record { strategy = refl; room = refl }

try_send-none :
    (m : Message) (p : MetricsProvider)
    → (try_send m p ≡ none)
      ↔ ((p.receiving ≡ false) × (ltb (length p.post_queue) p.capacity ≡ false))
unfolding try_send
try_send-none m p = ground arith

-- After every history of a provider from `NewMetricsProvider`, whatever strategy it was asked for, so
-- also for one that discards: a post blocks just when no reader waits and the queue has as many
-- messages as its capacity, which is 1000000 for a buffered strategy and 0 for any other.
pub new_metrics_provider-blocks :
    (qs : QueueStrategy) (es : List ProviderEvent) (m : Message)
    → let p = provider_run es (new_metrics_provider qs) in
      (provider_post m p ≡ none) ↔ (
        (p.receiving ≡ false)
        × (ltb (length p.post_queue) (if qs.buffered then 1000000 else 0) ≡ false))
new_metrics_provider-blocks qs es m =
    let p = provider_run es (new_metrics_provider qs) in
    let h = provider_run-IsNew qs es (new_metrics_provider qs) (new_metrics_provider-IsNew qs) in
    rw (provider_post-IsNew qs m p h, ← h.room) (try_send-none m p)
