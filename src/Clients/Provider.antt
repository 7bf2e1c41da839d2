-- ===== src/Clients/Provider.antt =====
-- `monitorMetricsProvider` of pkg/clients/monitor.go: the queue of posts, and the stream's loop that
-- receives from it. A message is its type's URL and its encoding.
pub mod Queues
use kubecc.Common.{
  ℕ, zero, suc, ◌+◌, ◌/◌, if◌then◌else◌, List, [], ◌∷◌, ◌++◌, Option, none, some, Bool, true, false,
  Str, length, ltb, not, ◌&&◌,
}
use kubecc.Types.Key.{Key}
use kubecc.Monitor.Server.{Metric}

pub record Message : Type 0 where
  pub type_url : Str
  pub value : Str

-- The bits of a `QueueStrategy` that are read.
pub record QueueStrategy : Type 0 where
  pub buffered : Bool
  pub discard : Bool

pub record MetricsProvider : Type 0 where
  pub queue_strategy : QueueStrategy
  pub capacity : ℕ
  pub post_queue : List Message
  -- whether the stream's loop waits at the empty queue
  pub receiving : Bool
  -- what the loop has received, the last first
  pub received : List Message

-- `NewMetricsProvider`: the strategy makes the channel, and no field of the provider is set to it.
unfoldable pub new_metrics_provider : QueueStrategy → MetricsProvider
new_metrics_provider qs = record {
  queue_strategy = record { buffered = false; discard = false };
  capacity = if qs.buffered then 1000000 else 0;
  post_queue = [];
  receiving = false;
  received = [];
}

-- A send on the queue; `none` blocks.
unfoldable pub try_send : Message → MetricsProvider → Option MetricsProvider
try_send m p =
    if p.receiving
    then some (record p { receiving = false; received = m ∷ p.received })
    else if ltb (length p.post_queue) p.capacity
    then some (record p { post_queue = p.post_queue ++ m ∷ [] })
    else none

-- Receives up to a count of messages, and stops at an empty queue.
unfoldable pub drain : ℕ → List Message → List Message
drain zero q = q
drain (suc n) [] = []
drain (suc n) (m ∷ q) = drain n q

unfoldable pub send_or : Option MetricsProvider → Option MetricsProvider → Option MetricsProvider
send_or none other = other
send_or (some p) other = some p

-- `Post`; `none` blocks.
unfoldable pub provider_post : Message → MetricsProvider → Option MetricsProvider
provider_post m p =
    if not p.queue_strategy.discard
    then try_send m p
    else send_or (try_send m p) (
        if not p.queue_strategy.buffered
        then some p
        else send_or (try_send m p)
            (try_send m (record p { post_queue = drain (p.capacity / 4) p.post_queue })))

unfoldable pub receive_from : List Message → MetricsProvider → MetricsProvider
receive_from [] p = record p { receiving = true }
receive_from (m ∷ q) p = record p { post_queue = q; received = m ∷ p.received }

-- A turn of `HandleStream`'s loop at the queue.
unfoldable pub provider_receive : MetricsProvider → MetricsProvider
provider_receive p = receive_from p.post_queue p

-- The metric that `HandleStream` sends for a message, from the client with an identity.
unfoldable pub metric_of : (Message → Str) → Str → Message → Metric
metric_of encode_any uuid m = record {
  key = record { bucket = uuid; name = m.type_url };
  value = some (encode_any m);
}

-- The posts and the turns of the loop, in any order; a post that blocks is not made.
pub data ProviderEvent : Type 0 where
  posts : Message → ProviderEvent
  receives : ProviderEvent

unfoldable pub posted_or : MetricsProvider → Option MetricsProvider → MetricsProvider
posted_or p none = p
posted_or p (some q) = q

unfoldable pub provider_step : ProviderEvent → MetricsProvider → MetricsProvider
provider_step (posts m) p = posted_or p (provider_post m p)
provider_step receives p = provider_receive p

unfoldable pub provider_run : List ProviderEvent → MetricsProvider → MetricsProvider
provider_run [] p = p
provider_run (e ∷ es) p = provider_run es (provider_step e p)
