-- ===== src/Clients/Listener.antt =====
-- `OnProviderAdded` of pkg/clients/monitor.go, and the availability checkers of
-- pkg/clients/availability.go that hang on it. A context is a number.
pub mod Updates
pub mod Availability
use kubecc.Common.{
  ℕ, ◌+◌, ◌==◌, if◌then◌else◌, List, [], ◌∷◌, ◌++◌, Option, none, some, Bool, true, false, Str,
  str_eq, any, keep_if, not, is_some,
}
use kubecc.Common.Map.{Map, lookup, insert, delete, keys}

pub record Listener : Type 0 where
  pub known_providers : Map ℕ
  pub next_ctx : ℕ
  pub canceled : List ℕ
  -- the handlers that were started, with their contexts, the last first
  pub handlers : List (ℕ × Str)

-- `l.Difference(m)`
unfoldable pub difference : List Str → List Str → List Str
difference l m = keep_if (λ u. not (any (str_eq u) m)) l

unfoldable pub cancel_provider : Option ℕ → List ℕ → List ℕ
cancel_provider none canceled = canceled
cancel_provider (some c) canceled = c ∷ canceled

unfoldable pub remove_provider : Str → Listener → Listener
remove_provider u l = record l {
  known_providers = delete u l.known_providers;
  canceled = cancel_provider (lookup u l.known_providers) l.canceled;
}

unfoldable pub remove_providers : List Str → Listener → Listener
remove_providers [] l = l
remove_providers (u ∷ us) l = remove_providers us (remove_provider u l)

unfoldable pub provider_added : Str → Listener → Listener
provider_added u l = record l {
  known_providers = insert u l.next_ctx l.known_providers;
  next_ctx = l.next_ctx + 1;
  handlers = (l.next_ctx, u) ∷ l.handlers;
}

unfoldable pub providers_added : List Str → Listener → Listener
providers_added [] l = l
providers_added (u ∷ us) l = providers_added us (provider_added u l)

-- `doUpdate` with the providers of a message.
unfoldable pub do_update : List Str → Listener → Listener
do_update updated l =
    let known = keys l.known_providers in
    providers_added (difference updated known) (remove_providers (difference known updated) l)

-- What the listener's stream brings: a value, or its end, which is an update with none.
unfoldable pub providers_expired : Listener → Listener
providers_expired l = do_update [] l

-- `AvailabilityChecker`: its status, and the contexts of the callbacks that wait.
pub record AvailabilityChecker : Type 0 where
  pub available : Bool
  pub waiting : List ℕ

unfoldable pub new_availability_checker : AvailabilityChecker
new_availability_checker = record { available = false; waiting = [] }

-- `OnComponentAvailable` up to its wait; `matches` is the answer of the filter.
unfoldable pub on_component_available : Bool → ℕ → AvailabilityChecker → AvailabilityChecker
on_component_available matches ctx a =
    if not matches then a else record { available = true; waiting = ctx ∷ a.waiting }

-- A callback's context is done: the rest of `OnComponentAvailable`.
unfoldable pub component_gone : ℕ → AvailabilityChecker → AvailabilityChecker
component_gone ctx a =
    if any (λ c. c == ctx) a.waiting
    then record { available = false; waiting = keep_if (λ c. not (c == ctx)) a.waiting }
    else a

-- Whether `EnsureAvailable` returns; the context that it returned is canceled when this ends.
unfoldable pub ensure_available : AvailabilityChecker → Bool
ensure_available a = a.available

-- A callback begins, or one ends.
pub data CheckerEvent : Type 0 where
  appears : Bool → ℕ → CheckerEvent
  leaves : ℕ → CheckerEvent

unfoldable pub checker_step : CheckerEvent → AvailabilityChecker → AvailabilityChecker
checker_step (appears matches ctx) a = on_component_available matches ctx a
checker_step (leaves ctx) a = component_gone ctx a

unfoldable pub checker_run : List CheckerEvent → AvailabilityChecker → AvailabilityChecker
checker_run [] a = a
checker_run (e ∷ es) a = checker_run es (checker_step e a)
