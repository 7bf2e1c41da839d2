-- ===== src/Tests/Monitor.antt =====
-- The theorems on the monitor's server at concrete inputs.
use kubecc.Common.{
  ◌≡◌, refl, if◌then◌else◌, List, [], ◌∷◌, Option, none, some, true, false, ◌||◌, Str, go, str_eq,
  is_some,
}
use kubecc.Common.Map.{Map, lookup, insert}
use kubecc.Types.Key.{Key, canonical}
use mathlib.Core.List.{Mem}
use kubecc.Monitor.Store.{holds, get_key, compare_and_set}
use kubecc.Monitor.Server.{
  post, get_metric, listen, Metric, listen_bucket, add_listener, post_to, post_value, post_contents,
  notify, put_store, meta_bucket, Bucket, ProviderInfo, MonitorServer, new_monitor_server,
}
use kubecc.Monitor.Server.History.{MonitorEvent, opens, posts, closes, monitor_run}
use kubecc.Monitor.Server.Posts.{metric, post_each, told, post-get_metric}
use kubecc.Monitor.Server.Listens.{listen-post}
use kubecc.Monitor.Server.Providers.{monitor_run-providers}

abbrev readable : Str → Option Str
readable = some

abbrev type_url : Str
type_url = go "t"

abbrev providers_text : Map ProviderInfo → Str
providers_text ps = go "p"

abbrev a_bucket : Bucket
a_bucket = record { store = []; ctx = 1 }

abbrev a_server : MonitorServer
a_server = record {
  uuid = go "m";
  buckets = (go "a", a_bucket) ∷ [];
  listeners = [];
  providers = [];
  metrics_total = 0;
  provider_count = 1;
  listener_count = 0;
  next_ctx = 2;
  cancelled = [];
  stuck = false;
  panicked = false;
  streams = go "a" ∷ [];
  listening = [];
  sent = [];
}

abbrev a_key : Key
a_key = record { bucket = go "a"; name = go "k" }

bucket_lem : lookup a_key.bucket a_server.buckets ≡ some a_bucket
unfolding lookup str_eq
bucket_lem = refl

-- Two receivers listen to the key.
abbrev heard : MonitorServer
heard = record a_server {
  listeners = (canonical a_key, (go "l", (go "m", 3) ∷ (go "n", 4) ∷ []) ∷ []) ∷ [];
}

post-get_metric_example :
    (post readable heard (metric a_key (go "v"))).1 ≡ none
    × get_metric (post readable heard (metric a_key (go "v"))).0 a_key ≡ some (go "v")
    × (post readable heard (metric a_key (go "v"))).0.sent
      ≡ (if holds (get_metric heard a_key) (go "v") then heard.sent else told heard a_key (go "v"))
post-get_metric_example =
    post-get_metric readable heard a_key a_bucket (go "v") (go "v") bucket_lem refl

-- Two posts after the call, of which the last gives the key other contents.
abbrev between : List Metric
between = metric a_key (go "v") ∷ metric a_key (go "w") ∷ []

not_held_later :
    holds
      (get_metric (post_each readable (listen a_server a_key (go "l") (go "n") 7).0 between) a_key)
      (go "v")
    ≡ false
unfolding holds get_metric lookup insert get_key str_eq listen listen_bucket add_listener post
    post_to post_value post_contents notify put_store compare_and_set
not_held_later = refl

listen-post_example :
    (listen a_server a_key (go "l") (go "n") 7).1 ≡ true
    × (listen a_server a_key (go "l") (go "n") 7).0.sent ≡ elim (get_metric a_server a_key) [
      | none ↦ a_server.sent
      | some had ↦ (7, had) ∷ a_server.sent
    ]
    × Mem
        (7, go "v")
        (post readable
          (post_each readable (listen a_server a_key (go "l") (go "n") 7).0 between)
          (metric a_key (go "v"))).0.sent
listen-post_example =
    listen-post readable a_server a_key (go "l") (go "n") 7 a_bucket between (go "v") (go "v")
      bucket_lem refl not_held_later

abbrev history : List MonitorEvent
history =
    opens (go "a") (go "Agent") (go "1.2.3.4")
    ∷ posts (metric a_key (go "v"))
    ∷ opens (go "b") (go "Cache") (go "1.2.3.5")
    ∷ closes (go "a")
    ∷ []

monitor_run-providers_example :
    ((monitor_run readable type_url providers_text
        (new_monitor_server readable type_url providers_text (go "m") (go "Monitor"))
        history).panicked
      ≡ false)
    × ((u : Str)
        → is_some (
            lookup u
              (monitor_run readable type_url providers_text
                (new_monitor_server readable type_url providers_text (go "m") (go "Monitor"))
                history).buckets)
          ≡ is_some (
              lookup u
                (monitor_run readable type_url providers_text
                  (new_monitor_server readable type_url providers_text (go "m") (go "Monitor"))
                  history).providers)
            || str_eq meta_bucket u)
monitor_run-providers_example =
    monitor_run-providers readable type_url providers_text (λ ps. refl) (go "m") (go "Monitor")
      history
