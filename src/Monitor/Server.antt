-- ===== src/Monitor/Server.antt =====
-- `MonitorServer` of pkg/monitor/server.go. A bucket carries the number of its context; a receiver is
-- a number. The wire format is a parameter: `unmarshal` (an error is `none`), the type's URL and the
-- encoding of the providers, with which `providersUpdated` posts. A call's context passes its checks.
pub mod History
pub mod Posts
pub mod Listens
pub mod Same
pub mod Providers
pub mod Typed
use mathlib.Core.List.{◌++◌}
use kubecc.Common.{
  ℕ, ◌+◌, ◌-◌, ◌==◌, if◌then◌else◌, List, [], ◌∷◌, Option, none, some, Bool, true, false, not, ◌&&◌,
  ◌||◌, Str, go, str_eq, any, map, length, is_some, get_elem?, erase_idx,
}
use kubecc.Common.Map.{Map, lookup, insert, delete, keys, values}
use kubecc.Types.Key.{Key, canonical}
use kubecc.Monitor.Store.{new_store, delete_key, get_key, compare_and_set, store_keys}

-- `clients.MetaBucket`
abbrev pub meta_bucket : Str
meta_bucket = go "meta"

pub record Metric : Type 0 where
  pub key : Key
  pub value : Option Str

pub record Bucket : Type 0 where
  pub store : Map Str
  pub ctx : ℕ

pub record ProviderInfo : Type 0 where
  pub uuid : Str
  pub component : Str
  pub address : Str

-- A call of `Listen` that waits for its context or its bucket's to end.
pub record Listening : Type 0 where
  pub key : Str
  pub listener_id : Str
  pub nonce : Str
  pub bucket_ctx : ℕ

abbrev pub Receivers : Type 0
Receivers = Map ℕ

pub record MonitorServer : Type 0 where
  pub uuid : Str
  pub buckets : Map Bucket
  pub listeners : Map (Map Receivers)
  pub providers : Map ProviderInfo
  pub metrics_total : ℕ
  pub provider_count : ℕ
  pub listener_count : ℕ
  -- the number of the next bucket context, and those that were cancelled
  pub next_ctx : ℕ
  pub cancelled : List ℕ
  -- whether `providerMutex` was left locked
  pub stuck : Bool
  -- whether `providersUpdated` panicked
  pub panicked : Bool
  -- calls of `Stream` and `Listen` that have not returned
  pub streams : List Str
  pub listening : List Listening
  -- what was sent to receivers, the last first
  pub sent : List (ℕ × Str)

pub data PostError : Type 0 where
  bad_value no_such_bucket : PostError

-- All receivers of a key.
unfoldable pub receivers : Map Receivers → List ℕ
receivers [] = []
receivers ((id, rs) ∷ m) = values rs ++ receivers m

unfoldable pub listeners_of : Option (Map Receivers) → Map Receivers
listeners_of none = []
listeners_of (some m) = m

unfoldable pub receivers_at : Option Receivers → Receivers
receivers_at none = []
receivers_at (some m) = m

unfoldable pub send_all : List ℕ → Str → List (ℕ × Str) → List (ℕ × Str)
send_all [] value sent = sent
send_all (r ∷ rs) value sent = send_all rs value ((r, value) ∷ sent)

unfoldable pub notify : MonitorServer → Str → Str → MonitorServer
notify s key value = record s {
  sent = send_all (receivers (listeners_of (lookup key s.listeners))) value s.sent;
}

unfoldable pub put_store : MonitorServer → Str → Bucket → Map Str → MonitorServer
put_store s name b m = record s { buckets = insert name (record b { store = m }) s.buckets }

-- The end of `post`: the store compares and sets, and a change is counted and sent to the receivers.
unfoldable pub post_contents : MonitorServer → Key → Bucket → Str → Str → MonitorServer
post_contents s key b value contents =
    let changed = compare_and_set key.name contents b.store in
    if changed.1
    then notify
        (record (put_store s key.bucket b changed.0) { metrics_total = s.metrics_total + 1 })
        (canonical key) value
    else s

module _ (unmarshal : Str → Option Str) where
  unfoldable pub post_value :
      MonitorServer → Key → Bucket → Str → Option Str → MonitorServer × Option PostError
  post_value s key b value none = (s, some bad_value)
  post_value s key b value (some contents) = (post_contents s key b value contents, none)

  unfoldable pub post_to :
      MonitorServer → Key → Bucket → Option Str → MonitorServer × Option PostError
  post_to s key b none = (put_store s key.bucket b (delete_key key.name b.store), none)
  post_to s key b (some value) = post_value s key b value (unmarshal value)

  unfoldable pub post : MonitorServer → Metric → MonitorServer × Option PostError
  post s metric = elim (lookup metric.key.bucket s.buckets) [
    | none ↦ (s, some no_such_bucket)
    | some b ↦ post_to s metric.key b metric.value
  ]

  module _ (type_url : Str) (encode : Map ProviderInfo → Str) where
    unfoldable pub providers_metric : Map ProviderInfo → Metric
    providers_metric ps = record {
      key = record { bucket = meta_bucket; name = type_url };
      value = some (encode ps);
    }

    -- `providersUpdated`: an error of the post is a panic.
    unfoldable pub providers_updated : MonitorServer → MonitorServer
    providers_updated s =
        let posted = post s (providers_metric s.providers) in
        if is_some posted.1 then record posted.0 { panicked = true } else posted.0

    unfoldable pub new_monitor_server : Str → Str → MonitorServer
    new_monitor_server uuid component = providers_updated (record {
      uuid = uuid;
      buckets =
          insert meta_bucket (record { store = new_store; ctx = 0 })
            ((uuid, record { store = new_store; ctx = 0 }) ∷ []);
      listeners = [];
      providers =
          (uuid, record { uuid = uuid; component = component; address = go "0.0.0.0" }) ∷ [];
      metrics_total = 0;
      provider_count = 1;
      listener_count = 0;
      next_ctx = 1;
      cancelled = [];
      stuck = false;
      panicked = false;
      streams = [];
      listening = [];
      sent = [];
    })

    -- `Stream` up to its loop. A second client of an identity gets an error, and the mutex is not
    -- unlocked.
    unfoldable pub stream_opens : MonitorServer → Str → Str → Str → MonitorServer
    stream_opens s uuid component address =
        if is_some (lookup uuid s.buckets)
        then record s { stuck = true }
        else (let t = providers_updated (record s {
          buckets = insert uuid (record { store = new_store; ctx = s.next_ctx }) s.buckets;
          providers =
              insert uuid (record { uuid = uuid; component = component; address = address })
                s.providers;
          provider_count = s.provider_count + 1;
          next_ctx = s.next_ctx + 1;
        }) in
            record t { streams = uuid ∷ t.streams })

    unfoldable pub ctx_of : Option Bucket → List ℕ
    ctx_of none = []
    ctx_of (some b) = b.ctx ∷ []

    -- `Stream` after its loop.
    unfoldable pub stream_closes : MonitorServer → Str → MonitorServer
    stream_closes s uuid = providers_updated (record s {
      buckets = delete uuid s.buckets;
      providers = delete uuid s.providers;
      provider_count = s.provider_count - 1;
      cancelled = ctx_of (lookup uuid s.buckets) ++ s.cancelled;
    })

-- A receiver that joins late is sent the value that the bucket has.
unfoldable pub late_join : ℕ → Option Str → List (ℕ × Str) → List (ℕ × Str)
late_join r none sent = sent
late_join r (some value) sent = (r, value) ∷ sent

-- `m.listeners[canonical][listenerID][nonce] = srv`
unfoldable pub add_listener : MonitorServer → Str → Str → Str → ℕ → MonitorServer
add_listener s key id nonce r =
    let m = listeners_of (lookup key s.listeners) in
    record s {
      listeners =
          insert key (insert id (insert nonce r (receivers_at (lookup id m))) m) s.listeners;
      listener_count = s.listener_count + 1;
    }

unfoldable pub listen_bucket : MonitorServer → Key → Str → Str → ℕ → Bucket → MonitorServer
listen_bucket s key id nonce r b = record (add_listener s (canonical key) id nonce r) {
  sent = late_join r (get_key key.name b.store) s.sent;
  listening =
      record { key = canonical key; listener_id = id; nonce = nonce; bucket_ctx = b.ctx }
      ∷ s.listening;
}

-- `Listen` up to its wait; a bucket that is not there is an error.
unfoldable pub listen : MonitorServer → Key → Str → Str → ℕ → MonitorServer × Bool
listen s key id nonce r = elim (lookup key.bucket s.buckets) [
  | none ↦ (s, false)
  | some b ↦ (listen_bucket s key id nonce r b, true)
]

unfoldable pub remove_listener : MonitorServer → Listening → MonitorServer
remove_listener s l =
    let m = listeners_of (lookup l.key s.listeners) in
    record s {
      listeners =
          insert l.key
            (insert l.listener_id (delete l.nonce (receivers_at (lookup l.listener_id m))) m)
            s.listeners;
      listener_count = s.listener_count - 1;
    }

-- A waiting call of `Listen` returns: its own context is done, or its bucket's is.
unfoldable pub listen_ends : MonitorServer → ℕ → Bool → MonitorServer
listen_ends s i done = elim (get_elem? s.listening i) [
  | none ↦ s
  | some l ↦
      if done || any (λ c. c == l.bucket_ctx) s.cancelled
      then remove_listener (record s { listening = erase_idx s.listening i }) l
      else s
]

unfoldable pub whois : MonitorServer → Str → Option ProviderInfo
whois s uuid = lookup uuid s.providers

unfoldable pub get_metric : MonitorServer → Key → Option Str
get_metric s key = elim (lookup key.bucket s.buckets) [
  | none ↦ none
  | some b ↦ get_key key.name b.store
]

unfoldable pub get_buckets : MonitorServer → List Str
get_buckets s = keys s.buckets

unfoldable pub get_keys : MonitorServer → Str → Option (List Key)
get_keys s bucket = elim (lookup bucket s.buckets) [
  | none ↦ none
  | some b ↦ some (map (λ k. record { bucket = bucket; name = k }) (store_keys b.store))
]
