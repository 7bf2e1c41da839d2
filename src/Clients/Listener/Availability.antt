-- ===== src/Clients/Listener/Availability.antt =====
-- What the availability checker of pkg/clients/availability.go tells of the components.
use kubecc.Common.{
  ℕ, ◌==◌, ◌≡◌, ◌≢◌, refl, ◌∙◌, List, [], ◌∷◌, Bool, true, false, not, any, keep_if, arith,
}
use kubecc.Clients.Listener.{AvailabilityChecker, component_gone, ensure_available}

-- Whether a context is among those that wait.
abbrev pub waits_for : ℕ → AvailabilityChecker → Bool
waits_for ctx a = any (λ c. c == ctx) a.waiting

keep_other :
    (c d : ℕ) (cs : List ℕ)
    → c ≢ d
    → any (λ x. x == c) (keep_if (λ x. not (x == d)) cs) ≡ any (λ x. x == c) cs
keep_other c d [] h = refl
keep_other c d (x ∷ cs) h = ground (arith, keep_other c d cs h)

-- For every checker for which two components wait: when one of them is gone, the checker tells that
-- there is none, so that what `EnsureAvailable` gave is canceled and a new call of it does not
-- return, though the other component is still there.
pub component_gone-unavailable :
    (a : AvailabilityChecker) (c d : ℕ)
    → waits_for c a ≡ true
    → waits_for d a ≡ true
    → c ≢ d
    → (ensure_available (component_gone d a) ≡ false) × (waits_for c (component_gone d a) ≡ true)
unfolding component_gone ensure_available
component_gone-unavailable a c d h k n = rw k (refl, keep_other c d a.waiting n ∙ h)
