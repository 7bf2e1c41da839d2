-- ===== src/Scheduler/Router/Counts.antt =====
-- The reference counts of a route of pkg/scheduler/router.go and the goroutines attached to it.
use native.Mathlib.Decide.{ℕ_discrete}
use kubecc.Common.{
  ℕ, zero, suc, ◌+◌, ◌≤◌, ◌<◌, ◌≡◌, refl, ◌⊎◌, List, [], ◌∷◌, ◌++◌, some, Bool, true, false, ◌&&◌,
  Str, arith, length, length-append, length-modify, get_or-modify_self, get_or-modify_ne,
  get_or-append_last, get_or-append_ne, get_or_outside, ◌==◌, if◌then◌else◌, All, modify, get_elem?,
  erase_idx, inl, inr, Option-cases,
}
use kubecc.Common.Map.{lookup, insert, lookup-insert}
use kubecc.Types.Toolchain.{Toolchain}
use kubecc.Scheduler.Router.{
  new_route, Side, sender, receiver, Attachment, Router, new_router, route_at, attach, detach,
  attach_to, route_for_toolchain, attach_all, add_sender, add_receiver, detach_at,
}

abbrev same_side : Side → Side → Bool
same_side sender sender = true
same_side receiver receiver = true
same_side sender receiver = false
same_side receiver sender = false

abbrev here : Side → ℕ → Attachment → ℕ
here s p a = if same_side s a.side && a.route == p then 1 else 0

-- How many goroutines are attached to a route on one side.
abbrev pub count_at : Side → ℕ → List Attachment → ℕ
count_at s p [] = 0
count_at s p (a ∷ l) = here s p a + count_at s p l

-- Pointers lead into the heap, and the counts of each route are those of its goroutines.
pub record IsCounted (r : Router) : Type 0 where
  pub inside : All (λ a. a.route < length r.heap) r.attached
  pub mapped : (h : Str) (p : ℕ) → lookup h r.routes ≡ some p → p < length r.heap
  pub rx : (p : ℕ) → (route_at r p).rx_ref_count ≡ count_at receiver p r.attached
  pub tx : (p : ℕ) → (route_at r p).tx_ref_count ≡ count_at sender p r.attached

pub new_router-IsCounted : IsCounted new_router
new_router-IsCounted = record {
  inside = tt;
  mapped = λ h p e. unfold lookup in cc e;
  rx = λ p. refl;
  tx = λ p. refl;
}

All-weaken :
    (m n : ℕ) (l : List Attachment) → m ≤ n → All (λ a. a.route < m) l → All (λ a. a.route < n) l
All-weaken m n [] h v = tt
All-weaken m n (a ∷ l) h v = (omega arith, All-weaken m n l h v.1)

module _ (side : Side) (uuid : Str) (r : Router) (p : ℕ) where
  pub attach_to-IsCounted : p < length r.heap → IsCounted r → IsCounted (attach_to side uuid r p)
  unfolding attach_to attach
  attach_to-IsCounted h v = record {
    inside = (
      omega (arith, length-modify p (attach side uuid) r.heap),
      All-weaken _ _ r.attached (omega (arith, length-modify p (attach side uuid) r.heap)) v.inside,
    );
    mapped = λ k q e. rw (length-modify p (attach side uuid) r.heap) (v.mapped k q e);
    rx = λ q. elim (ℕ_discrete p q) [
      | yes e ↦
          ground (arith, get_or-modify_self p (attach side uuid) r.heap (new_route []) h, v.rx q)
      | no ne ↦
          ground (arith, get_or-modify_ne p q (attach side uuid) r.heap (new_route []) ne, v.rx q)
    ];
    tx = λ q. elim (ℕ_discrete p q) [
      | yes e ↦
          ground (arith, get_or-modify_self p (attach side uuid) r.heap (new_route []) h, v.tx q)
      | no ne ↦
          ground (arith, get_or-modify_ne p q (attach side uuid) r.heap (new_route []) ne, v.tx q)
    ];
  }

grow-IsCounted :
    (r : Router) (hash : Str)
    → IsCounted r
    → IsCounted (record r {
      routes = insert hash (length r.heap) r.routes;
      heap = r.heap ++ new_route hash ∷ [];
    })
grow-IsCounted r hash v = record {
  inside =
      All-weaken _ _ r.attached (omega (arith, length-append r.heap (new_route hash ∷ [])))
        v.inside;
  mapped = λ k q e. ground (
    arith,
    lookup-insert hash k (length r.heap) r.routes,
    length-append r.heap (new_route hash ∷ []),
    v.mapped k q,
  );
  rx = λ q. elim (ℕ_discrete q (length r.heap)) [
    | yes e ↦ ground (
      arith,
      get_or-append_last r.heap (new_route hash) (new_route []),
      get_or_outside r.heap q (new_route []),
      v.rx q,
    )
    | no ne ↦ ground (arith, get_or-append_ne r.heap (new_route hash) (new_route []) q ne, v.rx q)
  ];
  tx = λ q. elim (ℕ_discrete q (length r.heap)) [
    | yes e ↦ ground (
      arith,
      get_or-append_last r.heap (new_route hash) (new_route []),
      get_or_outside r.heap q (new_route []),
      v.tx q,
    )
    | no ne ↦ ground (arith, get_or-append_ne r.heap (new_route hash) (new_route []) q ne, v.tx q)
  ];
}

module _ (tc_hash : Toolchain → Str) where
  pub route_for_toolchain-IsCounted :
      (r : Router) (tc : Toolchain)
      → IsCounted r
      → IsCounted (route_for_toolchain tc_hash r tc).0
        × ((route_for_toolchain tc_hash r tc).1 < length (route_for_toolchain tc_hash r tc).0.heap)
  unfolding route_for_toolchain
  route_for_toolchain-IsCounted r tc v = elim (Option-cases (lookup (tc_hash tc) r.routes)) [
    | inl new ↦
        rw (new, route_for_toolchain)
          (
            grow-IsCounted r (tc_hash tc) v,
            omega (arith, length-append r.heap (new_route (tc_hash tc) ∷ [])),
          )
    | inr (p, old) ↦ rw (old, route_for_toolchain) (v, v.mapped (tc_hash tc) p old)
  ]

  attach_all-IsCounted :
      (side : Side) (uuid : Str) (r : Router) (tcs : List Toolchain)
      → IsCounted r
      → IsCounted (attach_all tc_hash side uuid r tcs)
  unfolding attach_all
  attach_all-IsCounted side uuid r [] v = v
  attach_all-IsCounted side uuid r (tc ∷ tcs) v =
      let found = route_for_toolchain tc_hash r tc in
      let kept = route_for_toolchain-IsCounted r tc v in
      attach_all-IsCounted side uuid (attach_to side uuid found.0 found.1) tcs
        (attach_to-IsCounted side uuid found.0 found.1 kept.1 kept.0)

  pub add_sender-IsCounted :
      (r : Router) (uuid : Str) (tcs : List Toolchain)
      → IsCounted r
      → IsCounted (add_sender tc_hash r uuid tcs)
  unfolding add_sender
  add_sender-IsCounted r uuid tcs v =
      attach_all-IsCounted sender uuid _ tcs
        (record { inside = v.inside; mapped = v.mapped; rx = v.rx; tx = v.tx })

  pub add_receiver-IsCounted :
      (r : Router) (uuid : Str) (tcs : List Toolchain)
      → IsCounted r
      → IsCounted (add_receiver tc_hash r uuid tcs)
  unfolding add_receiver
  add_receiver-IsCounted r uuid tcs v =
      attach_all-IsCounted receiver uuid _ tcs
        (record { inside = v.inside; mapped = v.mapped; rx = v.rx; tx = v.tx })

count_at-erase_idx :
    (s : Side) (p i : ℕ) (l : List Attachment) {a : Attachment}
    → get_elem? l i ≡ some a
    → count_at s p l ≡ here s p a + count_at s p (erase_idx l i)
count_at-erase_idx s p i [] h = cc
count_at-erase_idx s p zero (b ∷ l) h = ground arith
count_at-erase_idx s p (suc i) (b ∷ l) h = omega (arith, count_at-erase_idx s p i l h)

inside-erase_idx :
    (n i : ℕ) (l : List Attachment) {a : Attachment}
    → All (λ b. b.route < n) l
    → get_elem? l i ≡ some a
    → (a.route < n) × All (λ b. b.route < n) (erase_idx l i)
inside-erase_idx n i [] v h = cc
inside-erase_idx n zero (b ∷ l) v h = (ground arith, v.1)
inside-erase_idx n (suc i) (b ∷ l) v h =
    let (first, rest) = inside-erase_idx n i l v.1 h in (first, (v.0, rest))

module _ (r : Router) (i : ℕ) (a : Attachment) where
  abbrev detached : Router
  detached = record r {
    heap = modify a.route (detach a.side a.uuid) r.heap;
    attached = erase_idx r.attached i;
  }

  module _ (found : get_elem? r.attached i ≡ some a) where
    -- What the end of a goroutine does to a route: the counts, and a cancellation only if no
    -- goroutine is left.
    detach_counts :
        (p : ℕ)
        → IsCounted r
        → ((route_at detached p).rx_ref_count ≡ count_at receiver p (erase_idx r.attached i))
          × ((route_at detached p).tx_ref_count ≡ count_at sender p (erase_idx r.attached i))
          × ((route_at detached p).cancelled ≡ true
              → ((route_at r p).cancelled ≡ true)
                ⊎ ((count_at receiver p (erase_idx r.attached i) ≡ 0)
                    × (count_at sender p (erase_idx r.attached i) ≡ 0)))
    unfolding detach
    detach_counts p v = elim (ℕ_discrete a.route p) [
      | yes e ↦ ground (
        arith,
        get_or-modify_self a.route (detach a.side a.uuid) r.heap (new_route [])
            (inside-erase_idx _ i r.attached v.inside found).0,
        v.rx p,
        v.tx p,
        count_at-erase_idx sender p i r.attached found,
        count_at-erase_idx receiver p i r.attached found,
      )
      | no ne ↦ ground (
        arith,
        get_or-modify_ne a.route p (detach a.side a.uuid) r.heap (new_route []) ne,
        v.rx p,
        v.tx p,
        count_at-erase_idx sender p i r.attached found,
        count_at-erase_idx receiver p i r.attached found,
      )
    ]

    detached-IsCounted : IsCounted r → IsCounted detached
    detached-IsCounted v =
        let same = length-modify a.route (detach a.side a.uuid) r.heap in
        record {
          inside = rw same (inside-erase_idx _ i r.attached v.inside found).1;
          mapped = λ k q e. rw same (v.mapped k q e);
          rx = λ p. (detach_counts p v).0;
          tx = λ p. (detach_counts p v).1;
        }

module _ (r : Router) (i : ℕ) where
  pub detach_at-IsCounted : IsCounted r → IsCounted (detach_at r i)
  unfolding detach_at
  detach_at-IsCounted v = elim (Option-cases (get_elem? r.attached i)) [
    | inl gone ↦ rw (gone, detach_at) v
    | inr (a, found) ↦ rw (found, detach_at) (detached-IsCounted r i a found v)
  ]

  -- Of a router whose counts are those of its goroutines: when the end of a goroutine cancels a
  -- route that was not cancelled, no goroutine is left at this route on either side.
  pub detach_at_cancels :
      (p : ℕ)
      → IsCounted r
      → (route_at r p).cancelled ≡ false
      → (route_at (detach_at r i) p).cancelled ≡ true
      → (count_at receiver p (detach_at r i).attached ≡ 0)
        × (count_at sender p (detach_at r i).attached ≡ 0)
  unfolding detach_at
  detach_at_cancels p v = elim (Option-cases (get_elem? r.attached i)) [
    | inl gone ↦ rw (gone, detach_at) (λ live dead. cc)
    | inr (a, found) ↦
        rw (found, detach_at) (λ live dead. ground (arith, detach_counts r i a found p v))
  ]
