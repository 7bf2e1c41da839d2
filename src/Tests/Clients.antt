-- ===== src/Tests/Clients.antt =====
-- The theorems on the clients, the metadata and the scheduler's server at concrete inputs.
use kubecc.Common.{
  ◌≡◌, ◌≢◌, refl, List, [], ◌∷◌, ◌++◌, ◌↔◌, none, some, true, false, Str, go, str_eq, arith,
  if◌then◌else◌, ltb, length, ◌==◌, is_some,
}
use kubecc.Common.Map.{Map, insert, lookup}
use kubecc.Metrics.Health.{ActiveCondition, internal_error}
use kubecc.Monitor.Server.{
  MonitorServer, ProviderInfo, new_monitor_server, get_metric, stream_opens, providers_updated,
  post, post_to, post_value, post_contents, notify, put_store, providers_metric,
}
use kubecc.Monitor.Store.{get_key, compare_and_set, holds, new_store}
use kubecc.Types.Key.{canonical}
use kubecc.Monitor.Server.History.{MonitorEvent, opens, handle, with_provider_mutex, monitor_run}
use kubecc.Monitor.Server.Typed.{FromClients, monitor_run-Typed}
use kubecc.Run.Workers.{
  PoolEvent, queues, adds, sends_future, selects, takes, finishes, pool_run, new_task_pool,
}
use kubecc.Run.Workers.Kept.{all_tasks}
use kubecc.Run.Workers.Stops.{pool_run-kept}
use kubecc.Clients.Streams.{
  required, connects, stream_fails, try_immediately, connect_fails, Input, StreamManager,
  manager_run, start_run,
}
use kubecc.Clients.Streams.Conditions.{held, has_stream, manager_run-conditions}
use kubecc.Clients.Streams.Events.{Alternates, is_connected, is_streaming, manager_run-Alternates}
use kubecc.Clients.Provider.{
  Message, metric_of, QueueStrategy, posts, receives, provider_run, new_metrics_provider,
  provider_post, ProviderEvent,
}
use kubecc.Clients.Provider.Queues.{new_metrics_provider-blocks}
use kubecc.Clients.Contexts.{MetricContexts, Waiting, caller_done, wait_ends}
use kubecc.Clients.Contexts.Deleters.{wait_ends-get_metric, told_monitor, own_key}
use kubecc.Clients.Listener.{Listener, do_update}
use kubecc.Clients.Listener.Updates.{UpdatedTo, is_in, do_update-UpdatedTo}
use kubecc.Clients.Requests.{
  CompileRequestClient, compile, store_pending, receive_response, call_canceled, waits, returned,
  value,
}
use kubecc.Clients.Requests.Orders.{compile-orders, call_of}
use kubecc.Clients.KeyedBuffer.{posted_while_lost, sent_again, buffer_connected, disabled}
use kubecc.Clients.KeyedBuffer.Flushed.{of_type, last_or, to_list, lost, sent_again-last}
use kubecc.Run.Contexts.{Context, pair_context, cancel_any}
use kubecc.Run.Contexts.Same.{pair_context-cancel_any}
use kubecc.Meta.{
  Provider, MetaContext, context_value, value_or, export_to_outgoing, import_from_incoming,
}
use kubecc.Meta.Roundtrip.{pairs_of, wanted, import-export}
use kubecc.Scheduler.Server.{
  agent, consumerd, begins, ends, StreamEvent, server_run, new_scheduler_server,
}
use kubecc.Scheduler.Server.Counted.{has_condition, server_run-conditions}

abbrev others : List ActiveCondition
others = record { while = 3; condition = internal_error; msgs = [] } ∷ []

abbrev inputs : List Input
inputs = connect_fails false ∷ try_immediately ∷ connects ∷ stream_fails false ∷ []

abbrev manager : StreamManager
manager =
    manager_run (some required) (go "monitor") inputs
      (start_run (some required) (go "monitor") 4 others)

manager_run-conditions_example :
    manager.conditions
    ≡ held (some required) (go "monitor") (has_stream manager.phase) manager.cond_ctx others
manager_run-conditions_example =
    manager_run-conditions (some required) (go "monitor") 4 others (omega arith, tt) inputs

manager_run-Alternates_example :
    Alternates manager.events × (is_connected manager.events ≡ is_streaming manager.phase)
manager_run-Alternates_example =
    manager_run-Alternates (some required) (go "monitor") 4 others inputs

abbrev message : Str → Message
message v = record { type_url = go "metrics.Health"; value = v }

abbrev unbuffered : QueueStrategy
unbuffered = record { buffered = false; discard = true }

abbrev post_events : List ProviderEvent
post_events = receives ∷ posts (message (go "a")) ∷ []

new_metrics_provider-blocks_example :
    let p = provider_run post_events (new_metrics_provider unbuffered) in
    (provider_post (message (go "b")) p ≡ none)
    ↔ ((p.receiving ≡ false) × (ltb (length p.post_queue) 0 ≡ false))
new_metrics_provider-blocks_example =
    new_metrics_provider-blocks unbuffered post_events (message (go "b"))

abbrev server : MonitorServer
server = new_monitor_server some (go "Providers") (λ ps. go "p") (go "u") (go "monitor")

abbrev deleter : Str → Message
deleter k = record { type_url = go "metrics.Deleter"; value = k }

abbrev metric_contexts : MetricContexts
metric_contexts = record {
  posted = message (go "a") ∷ [];
  metric_ctx_map = (go "metrics.Health", 1) ∷ [];
  next_ctx = 2;
  canceled = [];
  waits = record { key = go "metrics.Health"; caller_ctx = 7; local_ctx = 1 } ∷ [];
}

abbrev health_waits : Waiting
health_waits = record { key = go "metrics.Health"; caller_ctx = 7; local_ctx = 1 }

other_type : go "metrics.Deleter" ≢ go "metrics.Health"
other_type e = absurd (ground arith)

wait_ends-get_metric_example :
    ((wait_ends deleter caller_done 0 metric_contexts).posted
      ≡ deleter (go "metrics.Health") ∷ message (go "a") ∷ [])
    × (get_metric
          (told_monitor some (λ m. m.value) (go "u") server (deleter (go "metrics.Health")))
          (own_key some (λ m. m.value) (go "u") (go "metrics.Health"))
        ≡ get_metric server (own_key some (λ m. m.value) (go "u") (go "metrics.Health")))
wait_ends-get_metric_example =
    wait_ends-get_metric some (λ m. m.value) (go "u") deleter server metric_contexts 0 health_waits
      refl other_type

abbrev listener : Listener
listener = record {
  known_providers = (go "a", 1) ∷ (go "b", 2) ∷ [];
  next_ctx = 3;
  canceled = [];
  handlers = [];
}

do_update-UpdatedTo_example :
    UpdatedTo 3
      (do_update (go "b" ∷ go "c" ∷ []) listener).canceled
      (is_in (go "a") (go "b" ∷ go "c" ∷ []))
      (lookup (go "a") listener.known_providers)
      (lookup (go "a") (do_update (go "b" ∷ go "c" ∷ []) listener).known_providers)
do_update-UpdatedTo_example = do_update-UpdatedTo (go "a") (go "b" ∷ go "c" ∷ []) listener

abbrev client : CompileRequestClient
client = record { has_stream = true; pending = []; calls = []; panicked = false }

nothing_pending : lookup (go "r") client.pending ≡ none
unfolding lookup
nothing_pending = refl

compile-orders_example :
    let asked = compile (go "r") true client in
    (call_of 0 (receive_response (go "r") (go "o") (store_pending 0 asked))
      ≡ some (returned (value (go "o"))))
    × (call_of 0 (store_pending 0 (receive_response (go "r") (go "o") asked))
        ≡ some (waits (go "r")))
    × (lookup (go "r") (store_pending 0 (receive_response (go "r") (go "o") asked)).pending
        ≡ some 0)
    × ((receive_response (go "r") (go "o") (call_canceled 0 (store_pending 0 asked))).panicked
        ≡ true)
compile-orders_example = compile-orders client (go "r") (go "o") refl nothing_pending

sent_again-last_example :
    let b = posted_while_lost (message (go "a") ∷ message (go "b") ∷ []) (lost [] []) in
    let t = sent_again (length b.latest_messages) (buffer_connected b) in
    (of_type (go "metrics.Health") t.sent
      ≡ to_list (last_or (go "metrics.Health") (message (go "a") ∷ message (go "b") ∷ []) none)
        ++ [])
    × (t.receiver ≡ disabled)
sent_again-last_example =
    sent_again-last (message (go "a") ∷ message (go "b") ∷ []) [] (go "metrics.Health")

abbrev context : Context
context = record { deadline = some 4; done = false; err = none; value = λ k. none }

pair_context-cancel_any_example : pair_context context context ≡ cancel_any (context ∷ context ∷ [])
pair_context-cancel_any_example = pair_context-cancel_any context context

abbrev text_provider : Provider Str
text_provider = record {
  key = go "kubecc-uuid";
  marshal = λ o. elim o [ none ↦ [] | some v ↦ v ];
  unmarshal = some;
}

abbrev meta_context : MetaContext Str
meta_context = record {
  providers = (go "kubecc-uuid", text_provider) ∷ [];
  values = (go "kubecc-uuid", some (go "x")) ∷ [];
  parent = λ k. none;
}

abbrev incoming : Str → List Str
incoming k = pairs_of k (export_to_outgoing meta_context)

carried :
    (lookup (go "kubecc-uuid") meta_context.providers ≡ some text_provider)
    × (is_some (context_value meta_context (go "kubecc-uuid")) ≡ true)
    × (some (text_provider.marshal (context_value meta_context (go "kubecc-uuid")))
        ≡ context_value meta_context (go "kubecc-uuid"))
unfolding lookup context_value value_or str_eq
carried = (refl, refl, refl)

import-export_example :
    (d : MetaContext Str) × (import_from_incoming incoming (λ k. none) (text_provider ∷ []) [] none
      ≡ some d)
    × ((k : Str)
        → (if wanted (text_provider ∷ []) k
            then context_value d k
            else context_value meta_context k)
          ≡ context_value meta_context k)
import-export_example =
    import-export meta_context incoming (λ k. none) (text_provider ∷ []) (λ k. refl) (refl, tt)
      (carried, tt)

abbrev stream_events : List StreamEvent
stream_events = begins agent ∷ begins consumerd ∷ ends agent ∷ []

server_run-conditions_example :
    let s = server_run stream_events new_scheduler_server in
    (has_condition agent s ≡ (s.agents.count == 0))
    × (has_condition consumerd s ≡ (s.consumerds.count == 0))
server_run-conditions_example = server_run-conditions stream_events

abbrev pool_events : List PoolEvent
pool_events = queues 5 ∷ adds ∷ sends_future 0 ∷ selects ∷ takes 0 ∷ finishes 0 ∷ []

pool_run-kept_example :
    (all_tasks (pool_run pool_events new_task_pool) ≡ 1)
    × ((pool_run pool_events new_task_pool).lost ≡ [])
pool_run-kept_example = pool_run-kept pool_events

-- A message is encoded by its type alone.
abbrev type_only : Message → Str
type_only m = m.type_url

abbrev no_providers : Map ProviderInfo → Str
no_providers ps = go "metrics.Providers"

packed : (m : Message) (c : Str) → some (type_only m) ≡ some c → c ≡ m.type_url
packed m c e = cc

encoded :
    (ps : Map ProviderInfo) (c : Str) → some (no_providers ps) ≡ some c → c ≡ go "metrics.Providers"
encoded ps c e = cc

abbrev monitor_events : List MonitorEvent
monitor_events =
    opens (go "u") (go "Agent") (go "host")
    ∷ MonitorEvent.posts (metric_of type_only (go "u") (message (go "v")))
    ∷ []

from_clients :
    FromClients (λ c. c) some (go "metrics.Providers") no_providers encoded type_only monitor_events
from_clients = ((go "u", message (go "v"), refl), tt)

posted_lem :
    get_metric
      (monitor_run some
        (go "metrics.Providers")
        no_providers
        (new_monitor_server some (go "metrics.Providers") no_providers (go "m") (go "Monitor"))
        monitor_events)
      (record { bucket = go "u"; name = go "metrics.Health" })
    ≡ some (go "metrics.Health")
unfolding get_metric get_key monitor_run with_provider_mutex handle new_monitor_server stream_opens
    providers_updated post post_to post_value post_contents notify put_store metric_of
    compare_and_set holds lookup insert str_eq canonical providers_metric new_store
posted_lem = refl

monitor_run-Typed_example : go "metrics.Health" ≡ go "metrics.Health"
monitor_run-Typed_example =
    monitor_run-Typed (λ c. c) some (go "metrics.Providers") no_providers encoded type_only packed
      (go "m") (go "Monitor") monitor_events
      (record { bucket = go "u"; name = go "metrics.Health" }) (go "metrics.Health") from_clients
      posted_lem
