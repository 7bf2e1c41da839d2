-- ===== src/Clients/Streams.antt =====
-- `StreamManager` of pkg/clients/stream.go. `Run` stands at a call of its handler, at the backoff, or
-- has returned; what the calls and the timer answer are inputs. A context is a number, and the
-- conditions are those of the status controller.
pub mod Conditions
pub mod Events
use kubecc.Common.{ℕ, ◌+◌, if◌then◌else◌, List, [], ◌∷◌, Option, none, some, Bool, true, false, Str}
use kubecc.Metrics.Health.{
  ActiveCondition, Condition, missing_optional_component, missing_critical_component,
  apply_condition, clear_condition,
}

pub data StatusCtrlKind : Type 0 where
  optional required : StatusCtrlKind

pub data Phase : Type 0 where
  connecting streaming backing_off returned : Phase

-- What a handler is told.
pub data Event : Type 0 where
  on_connected on_lost_connection on_connect_failed : Event

pub record StreamManager : Type 0 where
  pub phase : Phase
  pub cond_ctx : ℕ
  pub cond_done : Bool
  pub next_ctx : ℕ
  pub conditions : List ActiveCondition
  -- how often the backoff manager was made anew
  pub resets : ℕ
  -- the last first
  pub events : List Event

-- An error comes with whether the manager's context was canceled.
pub data Input : Type 0 where
  connect_fails : Bool → Input
  connects : Input
  stream_fails : Bool → Input
  stream_finishes : Input
  timer_completes : Input
  try_immediately : Input

unfoldable pub condition_of : StatusCtrlKind → Condition
condition_of optional = missing_optional_component
condition_of required = missing_critical_component

module _ (kind : Option StatusCtrlKind) (msg : Str) where
  unfoldable pub apply_kind :
      Option StatusCtrlKind → ℕ → List ActiveCondition → List ActiveCondition
  apply_kind none ctx cs = cs
  apply_kind (some k) ctx cs = apply_condition ctx (condition_of k) (msg ∷ []) cs

  -- `applyCondition`
  unfoldable pub apply_cond : StreamManager → StreamManager
  apply_cond m = record m {
    cond_ctx = m.next_ctx;
    cond_done = false;
    next_ctx = m.next_ctx + 1;
    conditions = apply_kind kind m.next_ctx m.conditions;
  }

  -- The condition's context is canceled.
  unfoldable pub cancel_cond : StreamManager → StreamManager
  cancel_cond m = record m {
    cond_done = true;
    conditions = clear_condition m.cond_ctx m.conditions;
  }

  unfoldable pub reapply : StreamManager → StreamManager
  reapply m = if m.cond_done then apply_cond m else m

  unfoldable pub tell : Event → StreamManager → StreamManager
  tell e m = record m { events = e ∷ m.events }

  -- `Run` returns, with its deferred call.
  unfoldable pub return_run : StreamManager → StreamManager
  return_run m = record (cancel_cond m) { phase = returned }

  unfoldable pub back_off : StreamManager → StreamManager
  back_off m = record m { phase = backing_off }

  unfoldable pub connect_failed : Bool → StreamManager → StreamManager
  connect_failed canceled m =
      let told = tell on_connect_failed m in
      if canceled then return_run told else back_off (reapply told)

  unfoldable pub connect_succeeded : StreamManager → StreamManager
  connect_succeeded m = record (tell on_connected (cancel_cond m)) { phase = streaming }

  unfoldable pub stream_ended : StreamManager → StreamManager
  stream_ended m = tell on_lost_connection (reapply m)

  unfoldable pub manager_in : Phase → Input → StreamManager → StreamManager
  manager_in connecting (connect_fails canceled) m = connect_failed canceled m
  manager_in connecting connects m = connect_succeeded m
  manager_in streaming (stream_fails canceled) m =
      if canceled then return_run (stream_ended m) else back_off (stream_ended m)
  manager_in streaming stream_finishes m = return_run (stream_ended m)
  manager_in backing_off timer_completes m = record m { phase = connecting }
  manager_in backing_off try_immediately m = record m { phase = connecting; resets = m.resets + 1 }
  manager_in phase input m = m

  unfoldable pub manager_step : Input → StreamManager → StreamManager
  manager_step input m = manager_in m.phase input m

  unfoldable pub manager_run : List Input → StreamManager → StreamManager
  manager_run [] m = m
  manager_run (i ∷ is) m = manager_run is (manager_step i m)

  -- `Run` up to its loop, where the controller has the conditions of others.
  unfoldable pub start_run : ℕ → List ActiveCondition → StreamManager
  start_run ctx others = apply_cond (record {
    phase = connecting;
    cond_ctx = ctx;
    cond_done = true;
    next_ctx = ctx;
    conditions = others;
    resets = 0;
    events = [];
  })
