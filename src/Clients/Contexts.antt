-- ===== src/Clients/Contexts.antt =====
-- `PostContext` of pkg/clients/monitor.go. A context is a number; a goroutine that waits for the end of
-- a metric's context is an element of `waits`. The encoding of a `Deleter` is a parameter.
pub mod Stale
pub mod Deleters
use kubecc.Common.{
  ℕ, ◌+◌, List, [], ◌∷◌, Option, none, some, Bool, true, false, Str, get_elem?, erase_idx,
}
use kubecc.Common.Map.{Map, lookup, insert, delete}
use kubecc.Clients.Provider.{Message}

pub record Waiting : Type 0 where
  pub key : Str
  pub caller_ctx : ℕ
  pub local_ctx : ℕ

pub record MetricContexts : Type 0 where
  -- what was given to `Post`, the last first
  pub posted : List Message
  pub metric_ctx_map : Map ℕ
  pub next_ctx : ℕ
  -- the local contexts that were canceled
  pub canceled : List ℕ
  -- the last first
  pub waits : List Waiting

-- What ends a goroutine's wait: the metric's context, the local one, or the provider's.
pub data Cause : Type 0 where
  caller_done local_done provider_done : Cause

unfoldable pub cancel_found : Option ℕ → List ℕ → List ℕ
cancel_found none canceled = canceled
cancel_found (some c) canceled = c ∷ canceled

unfoldable pub post_context : Message → ℕ → MetricContexts → MetricContexts
post_context m ctx s = record s {
  posted = m ∷ s.posted;
  canceled = cancel_found (lookup m.type_url s.metric_ctx_map) s.canceled;
  metric_ctx_map = insert m.type_url s.next_ctx s.metric_ctx_map;
  next_ctx = s.next_ctx + 1;
  waits = record { key = m.type_url; caller_ctx = ctx; local_ctx = s.next_ctx } ∷ s.waits;
}

module _ (deleter : Str → Message) where
  unfoldable pub post_deleter : Cause → Str → List Message → List Message
  post_deleter caller_done key posted = deleter key ∷ posted
  post_deleter local_done key posted = posted
  post_deleter provider_done key posted = posted

  unfoldable pub wake_waiting : Cause → ℕ → Waiting → MetricContexts → MetricContexts
  wake_waiting cause i w s = record s {
    posted = post_deleter cause w.key s.posted;
    metric_ctx_map = delete w.key s.metric_ctx_map;
    waits = erase_idx s.waits i;
  }

  -- The goroutine at an index ends.
  unfoldable pub wait_ends : Cause → ℕ → MetricContexts → MetricContexts
  wait_ends cause i s = elim (get_elem? s.waits i) [ none ↦ s | some w ↦ wake_waiting cause i w s ]
