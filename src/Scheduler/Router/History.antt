-- ===== src/Scheduler/Router/History.antt =====
-- The reference counts over the histories of the router of pkg/scheduler/router.go.
use native.Mathlib.Decide.{ℕ_discrete, dec_lt}
use kubecc.Scheduler.Router.Counts.{
  count_at, IsCounted, new_router-IsCounted, attach_to-IsCounted, route_for_toolchain-IsCounted,
  add_sender-IsCounted, add_receiver-IsCounted, detach_at-IsCounted,
}
use kubecc.Common.{
  All, ℕ, ◌<◌, ◌≡◌, refl, ◌↔◌, ◌⊎◌, ◌∙◌, not, List, [], ◌∷◌, Option, none, some, Bool, true, false,
  ◌&&◌, Str, arith, length, length-modify, get_or, get_or-modify_self, get_or-modify_ne,
  get_or_outside, if◌then◌else◌, modify, Bool-cases, inl, inr, Option-cases,
}
use kubecc.Common.Map.{Map, lookup, lookup-delete}
use kubecc.Types.Toolchain.{Toolchain}
use kubecc.Scheduler.Router.{
  Route, new_route, sender, receiver, Router, new_router, route_at, can_send, has_equivalent,
  cancel_route, cancel_missing, SecondLoop, run_deferred, attach_captured, attach_new,
  update_sender_toolchains, route_for_toolchain, add_sender, add_receiver, detach_at, reap,
}

-- A change of a route that keeps its counts.
same_counts-IsCounted :
    (r : Router) (p : ℕ) (f : Route → Route) (m : Map ℕ)
    → ((rt : Route)
        → ((f rt).rx_ref_count ≡ rt.rx_ref_count) × ((f rt).tx_ref_count ≡ rt.tx_ref_count))
    → ((h : Str) (q : ℕ) → lookup h m ≡ some q → q < length r.heap)
    → IsCounted r
    → IsCounted (record r { heap = modify p f r.heap; routes = m })
same_counts-IsCounted r p f m same mapped v = record {
  inside = rw (length-modify p f r.heap) v.inside;
  mapped = λ h q e. rw (length-modify p f r.heap) (mapped h q e);
  rx = λ q. counts q ∙ v.rx q;
  tx = λ q. counts' q ∙ v.tx q;
}
  where
    at_modify :
        (q : ℕ)
        → (get_or (modify p f r.heap) q (new_route []) ≡ get_or r.heap q (new_route []))
          ⊎ (get_or (modify p f r.heap) q (new_route []) ≡ f (get_or r.heap q (new_route [])))
    at_modify q = elim (ℕ_discrete p q) [
      | no ne ↦ inl (get_or-modify_ne p q f r.heap (new_route []) ne)
      | yes e ↦ elim (dec_lt p (length r.heap)) [
        | yes h ↦ inr (ground (arith, get_or-modify_self p f r.heap (new_route []) h))
        | no out ↦ inl (
            ground (
              arith,
              get_or_outside r.heap q (new_route []),
              get_or_outside (modify p f r.heap) q (new_route []),
              length-modify p f r.heap,
            ))
      ]
    ]

    counts :
        (q : ℕ)
        → (get_or (modify p f r.heap) q (new_route [])).rx_ref_count
          ≡ (get_or r.heap q (new_route [])).rx_ref_count
    counts q = ground (arith, at_modify q, same (get_or r.heap q (new_route [])))

    counts' :
        (q : ℕ)
        → (get_or (modify p f r.heap) q (new_route [])).tx_ref_count
          ≡ (get_or r.heap q (new_route [])).tx_ref_count
    counts' q = ground (arith, at_modify q, same (get_or r.heap q (new_route [])))

reap-IsCounted : (r : Router) (p : ℕ) → IsCounted r → IsCounted (reap r p)
unfolding reap
reap-IsCounted r p v = elim (Bool-cases ((route_at r p).cancelled && not (route_at r p).closed)) [
  | inr stay ↦ rw (stay, reap) v
  | inl go ↦
      rw (go, reap)
        (same_counts-IsCounted r p _ _ (λ rt. (refl, refl))
          (λ h q e. ground (arith, lookup-delete (route_at r p).hash h r.routes, v.mapped h q)) v)
]

module _ (tc_hash : Toolchain → Str) where
  cancel_route-IsCounted :
      (r : Router) (tc : Toolchain) → IsCounted r → IsCounted (cancel_route tc_hash r tc)
  cancel_route-IsCounted r tc v =
      let (w, _) = route_for_toolchain-IsCounted tc_hash r tc v in
      same_counts-IsCounted (route_for_toolchain tc_hash r tc).0
        (route_for_toolchain tc_hash r tc).1 _ _ (λ rt. (refl, refl)) w.mapped w

  cancel_missing-IsCounted :
      (r : Router) (old new : List Toolchain)
      → IsCounted r
      → IsCounted (cancel_missing tc_hash r old new)
  unfolding cancel_missing
  cancel_missing-IsCounted r [] new v = v
  cancel_missing-IsCounted r (tc ∷ old) new v =
      cancel_missing-IsCounted (if has_equivalent tc new then r else cancel_route tc_hash r tc) old
        new (kept (has_equivalent tc new))
    where
      kept : (b : Bool) → IsCounted (if b then r else cancel_route tc_hash r tc)
      kept true = v
      kept false = cancel_route-IsCounted r tc v

  attach_captured-IsCounted :
      (uuid : Str) (o : Option Toolchain) (r : Router)
      → IsCounted r
      → IsCounted (attach_captured tc_hash uuid o r)
  unfolding attach_captured
  attach_captured-IsCounted uuid none r v = v
  attach_captured-IsCounted uuid (some tc) r v =
      let kept = route_for_toolchain-IsCounted tc_hash r tc v in
      attach_to-IsCounted sender uuid _ _ kept.1 kept.0

  -- Functions that keep the counts, whatever the loop's variable is when they run.
  abbrev KeepCounts : List (Option Toolchain → Router → Router) → Type 0
  KeepCounts fs =
      All (λ f. (o : Option Toolchain) (r : Router) → IsCounted r → IsCounted (f o r)) fs

  run_deferred-IsCounted :
      (fs : List (Option Toolchain → Router → Router)) (o : Option Toolchain) (r : Router)
      → KeepCounts fs
      → IsCounted r
      → IsCounted (run_deferred fs o r)
  unfolding run_deferred
  run_deferred-IsCounted [] o r k v = v
  run_deferred-IsCounted (f ∷ fs) o r k v = run_deferred-IsCounted fs o (f o r) k.1 (k.0 o r v)

  attach_new-KeepCounts :
      (uuid : Str) (old new : List Toolchain) (l : SecondLoop)
      → KeepCounts l.deferred
      → KeepCounts (attach_new tc_hash uuid old new l).deferred
  unfolding attach_new
  attach_new-KeepCounts uuid old [] l k = k
  attach_new-KeepCounts uuid old (tc ∷ tcs) l k =
      attach_new-KeepCounts uuid old tcs _ (more (has_equivalent tc old))
    where
      more :
          (b : Bool)
          → KeepCounts (if b then l.deferred else attach_captured tc_hash uuid ∷ l.deferred)
      more true = k
      more false = (attach_captured-IsCounted uuid, k)

  update_sender_toolchains-IsCounted :
      (r : Router) (uuid : Str) (new : List Toolchain)
      → IsCounted r
      → IsCounted (update_sender_toolchains tc_hash r uuid new)
  unfolding update_sender_toolchains
  update_sender_toolchains-IsCounted r uuid new v = elim (Option-cases (lookup uuid r.senders)) [
    | inl absent ↦ rw (absent, update_sender_toolchains) v
    | inr (old, found) ↦
        rw (found, update_sender_toolchains)
          (run_deferred-IsCounted _ _ _
            (attach_new-KeepCounts uuid old new (record { new_tc = none; deferred = [] }) tt)
            (let w = cancel_missing-IsCounted r old new v in
              record { inside = w.inside; mapped = w.mapped; rx = w.rx; tx = w.tx }))
  ]

-- What may happen to a router.
pub data Op : Type 0 where
  add_senders add_receivers update_senders : Str → List Toolchain → Op
  ends reaps : ℕ → Op

module _ (tc_hash : Toolchain → Str) where
  unfoldable pub step : Router → Op → Router
  step r (add_senders uuid tcs) = add_sender tc_hash r uuid tcs
  step r (add_receivers uuid tcs) = add_receiver tc_hash r uuid tcs
  step r (update_senders uuid tcs) = update_sender_toolchains tc_hash r uuid tcs
  step r (ends i) = detach_at r i
  step r (reaps p) = reap r p

  unfoldable pub run : Router → List Op → Router
  run r [] = r
  run r (op ∷ ops) = run (step r op) ops

  step-IsCounted : (r : Router) (op : Op) → IsCounted r → IsCounted (step r op)
  unfolding step
  step-IsCounted r (add_senders uuid tcs) v = add_sender-IsCounted tc_hash r uuid tcs v
  step-IsCounted r (add_receivers uuid tcs) v = add_receiver-IsCounted tc_hash r uuid tcs v
  step-IsCounted r (update_senders uuid tcs) v =
      update_sender_toolchains-IsCounted tc_hash r uuid tcs v
  step-IsCounted r (ends i) v = detach_at-IsCounted r i v
  step-IsCounted r (reaps p) v = reap-IsCounted r p v

  run-IsCounted : (r : Router) (ops : List Op) → IsCounted r → IsCounted (run r ops)
  unfolding run
  run-IsCounted r [] v = v
  run-IsCounted r (op ∷ ops) v = run-IsCounted (step r op) ops (step-IsCounted r op v)

  -- After any history from an empty router, a route can take requests exactly while the goroutine
  -- of some agent is attached to it.
  pub can_send_iff :
      (ops : List Op) (p : ℕ)
      → let r = run new_router ops in
        (can_send (route_at r p) ≡ true) ↔ (0 < count_at receiver p r.attached)
  unfolding can_send
  can_send_iff ops p =
      let v = run-IsCounted new_router ops new_router-IsCounted in
      (λ h. ground (arith, v.rx p), λ h. ground (arith, v.rx p))
