-- ===== src/Clients/Listener/Updates.antt =====
-- What an update of the providers, pkg/clients/monitor.go, leaves of the handlers.
use kubecc.Common.{
  ℕ, ◌+◌, ◌≤◌, ◌==◌, subst, ◌≡◌, refl, sym, ap, ◌∙◌, if◌then◌else◌, List, [], ◌∷◌, Option, none,
  some, Bool, true, false, Str, str_eq, str_eq_iff, any, is_some, arith, Bool-cases, inl, inr,
}
use kubecc.Common.Map.{Map, lookup, keys, lookup-insert, lookup-delete}
use kubecc.Clients.Listener.{
  Listener, difference, cancel_provider, remove_provider, remove_providers, provider_added,
  providers_added, do_update,
}

abbrev pub is_in : Str → List Str → Bool
is_in u us = any (str_eq u) us

any-keys : (u : Str) (m : Map ℕ) → is_in u (keys m) ≡ is_some (lookup u m)
unfolding lookup
any-keys u [] = refl
any-keys u ((v, c) ∷ m) = ground (arith, any-keys u m, str_eq_iff u v, str_eq_iff v u)

is_in-difference :
    (u : Str) (l m : List Str) → is_in u (difference l m) ≡ (if is_in u m then false else is_in u l)
unfolding difference
is_in-difference u [] m = ground arith
is_in-difference u (v ∷ l) m = elim (Bool-cases (str_eq u v)) [
  | inl e ↦ let p = (str_eq_iff u v).0 e in ground (arith, is_in-difference u l m)
  | inr e ↦ ground (arith, is_in-difference u l m)
]

remove_providers-lookup :
    (u : Str) (us : List Str) (l : Listener)
    → lookup u (remove_providers us l).known_providers
      ≡ (if is_in u us then none else lookup u l.known_providers)
unfolding remove_providers remove_provider
remove_providers-lookup u [] l = refl
remove_providers-lookup u (v ∷ us) l = ground (
  arith,
  remove_providers-lookup u us (remove_provider v l),
  lookup-delete v u l.known_providers,
  str_eq_iff u v,
  str_eq_iff v u,
)

canceled_at-cons :
    (c : ℕ) (us : List Str) (l : Listener)
    → any (λ d. d == c) l.canceled ≡ true
    → any (λ d. d == c) (remove_providers us l).canceled ≡ true
unfolding remove_providers remove_provider cancel_provider
canceled_at-cons c [] l h = h
canceled_at-cons c (v ∷ us) l h =
    canceled_at-cons c us (remove_provider v l) (ground (arith, lookup v l.known_providers))

-- A context that is canceled; where there is none, nothing has to be.
abbrev pub is_canceled : Option ℕ → List ℕ → Bool
is_canceled none cs = true
is_canceled (some c) cs = any (λ d. d == c) cs

remove_providers-canceled :
    (u : Str) (us : List Str) (l : Listener) (c : ℕ)
    → lookup u l.known_providers ≡ some c
    → is_in u us ≡ true
    → any (λ d. d == c) (remove_providers us l).canceled ≡ true
unfolding remove_providers remove_provider cancel_provider
remove_providers-canceled u [] l c e h = cc
remove_providers-canceled u (v ∷ us) l c e h = elim (Bool-cases (str_eq u v)) [
  | inl p ↦
      let q = (str_eq_iff u v).0 p in canceled_at-cons c us (remove_provider v l) (ground arith)
  | inr p ↦
      remove_providers-canceled u us (remove_provider v l) c
        (ground (arith, lookup-delete v u l.known_providers, str_eq_iff v u, str_eq_iff u v))
        (ground arith)
]

providers_added-other :
    (u : Str) (us : List Str) (l : Listener)
    → is_in u us ≡ false
    → lookup u (providers_added us l).known_providers ≡ lookup u l.known_providers
unfolding providers_added provider_added
providers_added-other u [] l h = refl
providers_added-other u (v ∷ us) l h = ground (
  arith,
  providers_added-other u us (provider_added v l),
  lookup-insert v u l.next_ctx l.known_providers,
  str_eq_iff u v,
  str_eq_iff v u,
)

providers_added-canceled :
    (us : List Str) (l : Listener) → (providers_added us l).canceled ≡ l.canceled
unfolding providers_added provider_added
providers_added-canceled [] l = refl
providers_added-canceled (v ∷ us) l = providers_added-canceled us (provider_added v l)

-- A context with a number from some on.
abbrev pub IsFrom : ℕ → Option ℕ → Type 0
IsFrom n none = ⊥
IsFrom n (some c) = n ≤ c

IsFrom-le : (n m : ℕ) (o : Option ℕ) → n ≤ m → IsFrom m o → IsFrom n o
IsFrom-le n m none l h = h
IsFrom-le n m (some c) l h = omega arith

providers_added-IsFrom :
    (u : Str) (us : List Str) (l : Listener)
    → is_in u us ≡ true
    → IsFrom l.next_ctx (lookup u (providers_added us l).known_providers)
unfolding providers_added provider_added
providers_added-IsFrom u [] l h = absurd (ground arith)
providers_added-IsFrom u (v ∷ us) l h = elim (Bool-cases (is_in u us)) [
  | inl e ↦
      IsFrom-le l.next_ctx (l.next_ctx + 1) _ (omega arith)
        (providers_added-IsFrom u us (provider_added v l) e)
  | inr e ↦
      let t = provider_added v l in
      let first : lookup u t.known_providers ≡ some l.next_ctx =
        ground
          (arith, lookup-insert v u l.next_ctx l.known_providers, str_eq_iff u v, str_eq_iff v u) in
      subst (IsFrom l.next_ctx) (sym (providers_added-other u us t e ∙ first)) (omega arith)
]

-- What an update makes of the context of an identity: whether the update has it, its context before,
-- and the one after. Contexts from a number on are new.
abbrev pub UpdatedTo : ℕ → List ℕ → Bool → Option ℕ → Option ℕ → Type 0
UpdatedTo n canceled true (some c) new = new ≡ some c
UpdatedTo n canceled true none new = IsFrom n new
UpdatedTo n canceled false none new = new ≡ none
UpdatedTo n canceled false (some c) new = (new ≡ none) × (any (λ d. d == c) canceled ≡ true)

module _ (u : Str) (us : List Str) (l : Listener) where
  abbrev old : Option ℕ
  old = lookup u l.known_providers

  abbrev stale : List Str
  stale = difference (keys l.known_providers) us

  abbrev fresh_ones : List Str
  fresh_ones = difference us (keys l.known_providers)

  abbrev left : Listener
  left = remove_providers stale l

  stale_lem : is_in u stale ≡ (if is_in u us then false else is_some old)
  stale_lem =
      ground (arith, is_in-difference u (keys l.known_providers) us, any-keys u l.known_providers)

  fresh_lem : is_in u fresh_ones ≡ (if is_some old then false else is_in u us)
  fresh_lem =
      ground (arith, is_in-difference u us (keys l.known_providers), any-keys u l.known_providers)

  left_lem : lookup u left.known_providers ≡ (if is_in u us then old else none)
  left_lem = ground (arith, remove_providers-lookup u stale l, stale_lem)

  next_lem : (vs : List Str) (k : Listener) → (remove_providers vs k).next_ctx ≡ k.next_ctx
  unfolding remove_providers remove_provider
  next_lem [] k = refl
  next_lem (v ∷ vs) k = next_lem vs (remove_provider v k)

  updated_case :
      (b : Bool) (o : Option ℕ)
      → is_in u us ≡ b
      → old ≡ o
      → UpdatedTo l.next_ctx
          (providers_added fresh_ones left).canceled
          b
          o
          (lookup u (providers_added fresh_ones left).known_providers)
  updated_case true (some c) p q =
      providers_added-other u fresh_ones left (ground (arith, fresh_lem)) ∙ ground (arith, left_lem)
  updated_case true none p q =
      subst (λ n. IsFrom n (lookup u (providers_added fresh_ones left).known_providers))
        (next_lem stale l) (providers_added-IsFrom u fresh_ones left (ground (arith, fresh_lem)))
  updated_case false none p q =
      providers_added-other u fresh_ones left (ground (arith, fresh_lem)) ∙ ground (arith, left_lem)
  updated_case false (some c) p q = (
    providers_added-other u fresh_ones left (ground (arith, fresh_lem)) ∙ ground (arith, left_lem),
    ap (any (λ d. d == c)) (providers_added-canceled fresh_ones left)
        ∙ remove_providers-canceled u stale l c q (ground (arith, stale_lem)),
  )

-- For every listener, update and identity: an identity that the update does not have is not known
-- afterwards, and the context of its handler, if it had one, is canceled; one that was known keeps its
-- context; and one that was not gets a new context.
pub do_update-UpdatedTo :
    (u : Str) (us : List Str) (l : Listener)
    → UpdatedTo l.next_ctx
        (do_update us l).canceled
        (is_in u us)
        (lookup u l.known_providers)
        (lookup u (do_update us l).known_providers)
unfolding do_update
do_update-UpdatedTo u us l = updated_case u us l (is_in u us) (lookup u l.known_providers) refl refl
