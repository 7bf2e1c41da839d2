-- ===== src/Scheduler/Router/Update.antt =====
-- `UpdateSenderToolchains` of pkg/scheduler/router.go: which routes a consumerd's new toolchains attach it to.
use kubecc.Common.{
  ℕ, zero, suc, ◌≡◌, refl, ap, ◌∙◌, List, [], ◌∷◌, ◌++◌, some, Bool, true, false, Str, arith,
  if◌then◌else◌, replicate, Option-cases, inl, inr, length, keep_if, any, not, none, ◌<◌, ◌+◌,
  Bool-cases,
}
use kubecc.Common.Map.{lookup, insert, lookup-insert_self}
use kubecc.Types.Toolchain.{Toolchain, equivalent_to}
use kubecc.Scheduler.Router.{
  sender, Attachment, Router, has_equivalent, attach_to, SecondLoop, run_deferred,
  route_for_toolchain, cancel_route, cancel_missing, attach_captured, attach_new,
  update_sender_toolchains,
}

-- An attachment of a sender.
abbrev pub by_sender : Str → ℕ → Attachment
by_sender uuid p = record { side = sender; route = p; uuid = uuid }

replicate-shift {ℓ} :
    {A : Type ℓ} (n : ℕ) (a : A) (l : List A) → replicate n a ++ (a ∷ l) ≡ a ∷ (replicate n a ++ l)
replicate-shift zero a l = refl
replicate-shift (suc n) a l = ap (◌∷◌ a) (replicate-shift n a l)

-- The toolchains that no old one is equivalent to.
abbrev pub newly : List Toolchain → List Toolchain → List Toolchain
newly old new = keep_if (λ tc. not (any (equivalent_to tc) old)) new

module _ (tc_hash : Toolchain → Str) where
  route_for_attached :
      (r : Router) (tc : Toolchain) → (route_for_toolchain tc_hash r tc).0.attached ≡ r.attached
  unfolding route_for_toolchain
  route_for_attached r tc = ground arith

  route_for_mapped :
      (r : Router) (tc : Toolchain)
      → lookup (tc_hash tc) (route_for_toolchain tc_hash r tc).0.routes
        ≡ some (route_for_toolchain tc_hash r tc).1
  unfolding route_for_toolchain
  route_for_mapped r tc = elim (Option-cases (lookup (tc_hash tc) r.routes)) [
    | inl new ↦
        rw (new, route_for_toolchain) (lookup-insert_self (tc_hash tc) (length r.heap) r.routes)
    | inr (p, old) ↦ rw (old, route_for_toolchain) old
  ]

  cancel_missing_attached :
      (r : Router) (old new : List Toolchain)
      → (cancel_missing tc_hash r old new).attached ≡ r.attached
  unfolding cancel_missing
  cancel_missing_attached r [] new = refl
  cancel_missing_attached r (tc ∷ old) new =
      cancel_missing_attached (if has_equivalent tc new then r else cancel_route tc_hash r tc) old
        new
      ∙ kept (has_equivalent tc new)
    where
      kept : (b : Bool) → (if b then r else cancel_route tc_hash r tc).attached ≡ r.attached
      kept true = refl
      kept false = route_for_attached r tc

  run_deferred_mapped :
      (n : ℕ) (uuid : Str) (r : Router) (tc : Toolchain) (p : ℕ)
      → lookup (tc_hash tc) r.routes ≡ some p
      → let r' = run_deferred (replicate n (attach_captured tc_hash uuid)) (some tc) r in
        (lookup (tc_hash tc) r'.routes ≡ some p)
        × (r'.attached ≡ replicate n (by_sender uuid p) ++ r.attached)
  unfolding run_deferred attach_captured
  run_deferred_mapped zero uuid r tc p h = (h, refl)
  run_deferred_mapped (suc n) uuid r tc p h =
      let e : route_for_toolchain tc_hash r tc ≡ (r, p) =
        unfold route_for_toolchain in rw (h, route_for_toolchain) refl in
      rw (e, run_deferred)
        (let rest =
            run_deferred_mapped n uuid (attach_to sender uuid r p) tc p (unfold attach_to in h) in
          (rest.0, rest.1 ∙ (unfold attach_to in replicate-shift n (by_sender uuid p) r.attached)))

  -- The second loop defers the same function for each toolchain that is new.
  attach_new-deferred :
      (uuid : Str) (old new : List Toolchain) (l : SecondLoop) (k : ℕ)
      → l.deferred ≡ replicate k (attach_captured tc_hash uuid)
      → (attach_new tc_hash uuid old new l).deferred
        ≡ replicate (length (newly old new) + k) (attach_captured tc_hash uuid)
  unfolding attach_new has_equivalent
  attach_new-deferred uuid old [] l k h =
      h ∙ ap (λ m. replicate m (attach_captured tc_hash uuid)) (omega arith)
  attach_new-deferred uuid old (tc ∷ tcs) l k h = elim (Bool-cases (any (equivalent_to tc) old)) [
    | inl e ↦ rw e (
        attach_new-deferred uuid old tcs _ k
          (ap (λ b. if b then l.deferred else attach_captured tc_hash uuid ∷ l.deferred) e ∙ h))
    | inr e ↦ rw e (
        attach_new-deferred uuid old tcs _ (suc k) (
          ap (λ b. if b then l.deferred else attach_captured tc_hash uuid ∷ l.deferred) e
          ∙ ap (◌∷◌ (attach_captured tc_hash uuid)) h)
        ∙ ap (λ m. replicate m (attach_captured tc_hash uuid)) (omega arith))
  ]

  attach_new-new_tc :
      (uuid : Str) (old before : List Toolchain) (last : Toolchain) (l : SecondLoop)
      → (attach_new tc_hash uuid old (before ++ last ∷ []) l).new_tc ≡ some last
  unfolding attach_new
  attach_new-new_tc uuid old [] last l = refl
  attach_new-new_tc uuid old (tc ∷ tcs) last l = attach_new-new_tc uuid old tcs last _

  deferred_at_last :
      (uuid : Str) (r : Router) (last : Toolchain) (n : ℕ)
      → 0 < n
      → let r' = run_deferred (replicate n (attach_captured tc_hash uuid)) (some last) r in
        (p : ℕ) × (lookup (tc_hash last) r'.routes ≡ some p)
        × (r'.attached ≡ replicate n (by_sender uuid p) ++ r.attached)
  unfolding run_deferred attach_captured
  deferred_at_last uuid r last zero h = absurd (omega arith)
  deferred_at_last uuid r last (suc n) h =
      let found = route_for_toolchain tc_hash r last in
      let rest =
        run_deferred_mapped n uuid (attach_to sender uuid found.0 found.1) last found.1
          (unfold attach_to in route_for_mapped r last) in
      (
        found.1,
        rest.0,
        rest.1
            ∙ (unfold attach_to in
                replicate-shift n (by_sender uuid found.1) found.0.attached
                ∙ ap (λ l. by_sender uuid found.1 ∷ (replicate n (by_sender uuid found.1) ++ l))
                    (route_for_attached r last)),
      )

  -- When a known consumerd's toolchains change, and at least one of the new ones is not equivalent
  -- to an old one, the consumerd is attached as often as there are such toolchains, but each time to
  -- the route of the last toolchain of the new list.
  pub update_attaches_last :
      (r : Router) (uuid : Str) (old before : List Toolchain) (last : Toolchain)
      → lookup uuid r.senders ≡ some old
      → 0 < length (newly old (before ++ last ∷ []))
      → let r' = update_sender_toolchains tc_hash r uuid (before ++ last ∷ []) in
        (p : ℕ) × (lookup (tc_hash last) r'.routes ≡ some p)
        × (r'.attached
            ≡ replicate (length (newly old (before ++ last ∷ []))) (by_sender uuid p) ++ r.attached)
  unfolding update_sender_toolchains
  update_attaches_last r uuid old before last known some_new =
      let new = before ++ last ∷ [] in
      let r1 = cancel_missing tc_hash r old new in
      let r2 : Router = record r1 { senders = insert uuid new r1.senders } in
      let l : SecondLoop = record { new_tc = none; deferred = [] } in
      let all : length (newly old new) + 0 ≡ length (newly old new) = omega arith in
      rw (known, update_sender_toolchains)
        (rw
          (
            attach_new-deferred uuid old new l 0 refl
                ∙ ap (λ m. replicate m (attach_captured tc_hash uuid)) all,
            attach_new-new_tc uuid old before last l,
          )
          (let (p, at, e) = deferred_at_last uuid r2 last (length (newly old new)) some_new in
            (
              p,
              at,
              e
                  ∙ ap (λ a. replicate (length (newly old new)) (by_sender uuid p) ++ a)
                      (cancel_missing_attached r old new),
            )))
