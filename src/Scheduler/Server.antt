-- ===== src/Scheduler/Server.antt =====
-- `schedulerServer` of pkg/scheduler/server.go, the statistics of broker.go that it posts and the cache
-- part of optimizer.go. The counts of streams and the conditions are changed in steps of their own. A
-- context is a number; a multiplier is of a type whose operations are parameters.
pub mod Counted
use kubecc.Common.{
  ℕ, ◌+◌, ◌-◌, ◌==◌, if◌then◌else◌, List, [], ◌∷◌, ◌++◌, Option, none, some, Bool, true, false, Str,
  go, map,
}
use kubecc.Common.Map.{Map, lookup, values}
use kubecc.Metrics.Health.{
  ActiveCondition, missing_optional_component, apply_condition, clear_condition,
}
use kubecc.Scheduler.Messages.{Agent, Broker}

-- The streams of one kind: their count, the condition that there are none, and the handlers that stand
-- between the change of the count and what follows from it.
pub record Streams : Type 0 where
  pub count : ℕ
  pub cond_cancel : ℕ
  pub to_cancel : ℕ
  pub to_apply : ℕ

pub record SchedulerServer : Type 0 where
  pub agents : Streams
  pub consumerds : Streams
  pub next_ctx : ℕ
  pub conditions : List ActiveCondition
  -- the counts of consumerds that were posted, the last first
  pub posted : List ℕ

pub data Kind : Type 0 where
  agent consumerd : Kind

unfoldable pub streams_of : Kind → SchedulerServer → Streams
streams_of agent s = s.agents
streams_of consumerd s = s.consumerds

unfoldable pub with_streams : Kind → Streams → SchedulerServer → SchedulerServer
with_streams agent t s = record s { agents = t }
with_streams consumerd t s = record s { consumerds = t }

unfoldable pub no_streams : Kind → Str
no_streams agent = go "No agents connected"
no_streams consumerd = go "No consumerds connected"

-- `applyNoAgentsCond` and `applyNoCdsCond`
unfoldable pub apply_no_streams : Kind → SchedulerServer → SchedulerServer
apply_no_streams k s =
    with_streams k (record (streams_of k s) { cond_cancel = s.next_ctx })
      (record s {
        next_ctx = s.next_ctx + 1;
        conditions =
            apply_condition s.next_ctx missing_optional_component (no_streams k ∷ []) s.conditions;
      })

unfoldable pub cancel_no_streams : Kind → SchedulerServer → SchedulerServer
cancel_no_streams k s = record s {
  conditions = clear_condition (streams_of k s).cond_cancel s.conditions;
}

-- The conditions that `NewSchedulerServer` applies.
unfoldable pub new_scheduler_server : SchedulerServer
new_scheduler_server =
    let none_yet : Streams = record { count = 0; cond_cancel = 0; to_cancel = 0; to_apply = 0 } in
    apply_no_streams consumerd (
      apply_no_streams agent (record {
        agents = none_yet;
        consumerds = none_yet;
        next_ctx = 1;
        conditions = [];
        posted = [];
      }))

-- `agentCount.Inc() == 1` and the same of the consumerds.
unfoldable pub stream_counted : Kind → SchedulerServer → SchedulerServer
stream_counted k s =
    let t = streams_of k s in
    with_streams k
      (record t {
        count = t.count + 1;
        to_cancel = if t.count == 0 then t.to_cancel + 1 else t.to_cancel;
      })
      s

-- The handler of the first stream cancels the condition.
unfoldable pub stream_cancels : Kind → SchedulerServer → SchedulerServer
stream_cancels k s =
    let t = streams_of k s in
    if t.to_cancel == 0
    then s
    else cancel_no_streams k (with_streams k (record t { to_cancel = t.to_cancel - 1 }) s)

-- `agentCount.Dec() == 0`
unfoldable pub stream_discounted : Kind → SchedulerServer → SchedulerServer
stream_discounted k s =
    let t = streams_of k s in
    with_streams k
      (record t {
        count = t.count - 1;
        to_apply = if t.count == 1 then t.to_apply + 1 else t.to_apply;
      })
      s

-- The handler of the last stream applies the condition.
unfoldable pub stream_applies : Kind → SchedulerServer → SchedulerServer
stream_applies k s =
    let t = streams_of k s in
    if t.to_apply == 0
    then s
    else apply_no_streams k (with_streams k (record t { to_apply = t.to_apply - 1 }) s)

unfoldable pub post_count : Kind → SchedulerServer → SchedulerServer
post_count agent s = s
post_count consumerd s = record s { posted = s.consumerds.count ∷ s.posted }

-- `StreamIncomingTasks` and `StreamOutgoingTasks`, in one step up to their wait and in one after it.
unfoldable pub stream_begins : Kind → SchedulerServer → SchedulerServer
stream_begins k s = post_count k (stream_cancels k (stream_counted k s))

unfoldable pub stream_ends : Kind → SchedulerServer → SchedulerServer
stream_ends k s = post_count k (stream_applies k (stream_discounted k s))

-- Streams that begin and end; only one that there is ends.
pub data StreamEvent : Type 0 where
  begins : Kind → StreamEvent
  ends : Kind → StreamEvent

unfoldable pub server_step : StreamEvent → SchedulerServer → SchedulerServer
server_step (begins k) s = stream_begins k s
server_step (ends k) s = if (streams_of k s).count == 0 then s else stream_ends k s

unfoldable pub server_run : List StreamEvent → SchedulerServer → SchedulerServer
server_run [] s = s
server_run (e ∷ es) s = server_run es (server_step e s)

unfoldable pub sum_limits : List Agent → ℕ
sum_limits [] = 0
sum_limits (a ∷ rest) = a.concurrent_process_limit + sum_limits rest

unfoldable pub calc_preferred_usage_limits : Broker → ℕ
calc_preferred_usage_limits b = sum_limits (values b.agents)

unfoldable pub get_agent : Str → Broker → Option Agent
get_agent uuid b = lookup uuid b.agents

-- The identity and the total of each agent.
unfoldable pub calc_agent_stats : Broker → List (Str × ℕ)
calc_agent_stats b = map (λ e. (e.0, (e.1).completed_tasks)) b.agents

pub record TaskStats : Type 0 where
  pub completed_total : ℕ
  pub failed_total : ℕ
  pub requests_total : ℕ

unfoldable pub task_stats : Broker → TaskStats
task_stats b = record {
  completed_total = b.completed_tasks;
  failed_total = b.failed_tasks;
  requests_total = b.request_count;
}

-- The limit that `postPreferredUsageLimits` posts.
module _ {F : Type 0} (round_times : ℕ → F → ℕ) where
  unfoldable pub post_preferred_usage_limits : Broker → F → ℕ
  post_preferred_usage_limits b multiplier = round_times (calc_preferred_usage_limits b) multiplier

-- What comes to the optimizer: the hits of a cache, or the end of a cache.
pub data CacheEvent (F : Type 0) : Type 0 where
  cache_hits : F → CacheEvent F
  cache_gone : CacheEvent F

module _ {F : Type 0} (one : F) (one_plus : F → F) where
  -- The multiplier that `runCacheOptimizer` sends.
  unfoldable pub usage_multiplier : CacheEvent F → F
  usage_multiplier (cache_hits percent) = one_plus percent
  usage_multiplier cache_gone = one
