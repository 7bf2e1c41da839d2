-- ===== src/Clients/Contexts/Deleters.antt =====
-- What the monitor, pkg/monitor/server.go, makes of the deleters of pkg/clients/monitor.go.
use kubecc.Common.{
  ℕ, ◌≡◌, ◌≢◌, refl, sym, ◌∙◌, ◌∷◌, Option, none, some, Str, inl, inr, str_eq_iff, Bool-cases,
  Option-cases, arith, get_elem?,
}
use kubecc.Common.Map.{lookup, lookup-insert, lookup-insert_self}
use kubecc.Types.Key.{Key}
use kubecc.Monitor.Store.{get_key, compare_and_set}
use kubecc.Monitor.Server.{
  Bucket, MonitorServer, notify, put_store, post_contents, post_value, post_to, post, get_metric,
}
use kubecc.Monitor.Server.Posts.{get_metric-at}
use kubecc.Clients.Provider.{Message, metric_of}
use kubecc.Clients.Contexts.{
  Waiting, MetricContexts, caller_done, post_deleter, wake_waiting, wait_ends,
}

module _ (unmarshal : Str → Option Str) (encode_any : Message → Str) (uuid : Str) where
  -- The key of the client's metric of a type.
  abbrev pub own_key : Str → Key
  own_key name = record { bucket = uuid; name = name }

  -- The monitor after it was sent a message.
  abbrev pub told_monitor : MonitorServer → Message → MonitorServer
  told_monitor s m = (post unmarshal s (metric_of encode_any uuid m)).0

  other_key :
      (m : Message) (name contents : Str) (b : Bucket)
      → m.type_url ≢ name
      → get_key name (compare_and_set m.type_url contents b.store).0 ≡ get_key name b.store
  unfolding compare_and_set get_key
  other_key m name contents b h =
      ground (arith, lookup-insert m.type_url name contents b.store, str_eq_iff m.type_url name)

  post_contents-other :
      (s : MonitorServer) (m : Message) (name value contents : Str) (b : Bucket)
      → lookup uuid s.buckets ≡ some b
      → m.type_url ≢ name
      → get_metric (post_contents s (own_key m.type_url) b value contents) (own_key name)
        ≡ get_metric s (own_key name)
  unfolding post_contents notify put_store
  post_contents-other s m name value contents b at h =
      elim (Bool-cases (compare_and_set m.type_url contents b.store).1) [
        | inl e ↦
            rw (post_contents, e)
              (get_metric-at _ (own_key name)
                  (record b { store = (compare_and_set m.type_url contents b.store).0 })
                  (lookup-insert_self uuid _ s.buckets)
                ∙ other_key m name contents b h
                ∙ sym (get_metric-at s (own_key name) b at))
        | inr e ↦ rw (post_contents, e) refl
      ]

  post_value-other :
      (s : MonitorServer) (m : Message) (name : Str) (b : Bucket) (o : Option Str)
      → lookup uuid s.buckets ≡ some b
      → m.type_url ≢ name
      → get_metric (post_value unmarshal s (own_key m.type_url) b (encode_any m) o).0 (own_key name)
        ≡ get_metric s (own_key name)
  unfolding post_value
  post_value-other s m name b none at h = refl
  post_value-other s m name b (some contents) at h =
      post_contents-other s m name (encode_any m) contents b at h

  told_monitor-other :
      (s : MonitorServer) (m : Message) (name : Str)
      → m.type_url ≢ name
      → get_metric (told_monitor s m) (own_key name) ≡ get_metric s (own_key name)
  unfolding post post_to metric_of
  told_monitor-other s m name h = elim (Option-cases (lookup uuid s.buckets)) [
    | inl e ↦ rw (told_monitor, post, e) refl
    | inr (b, e) ↦
        rw (told_monitor, post, e) (post_value-other s m name b (unmarshal (encode_any m)) e h)
  ]

  -- For every monitor, client and metric that was posted with a context: when the context is done, the
  -- goroutine posts a deleter of the metric's type, and the monitor, sent this message as the client's
  -- stream sends it, has the same metric of that type as before, unless the type is the deleter's own.
  pub wait_ends-get_metric :
      (deleter : Str → Message) (s : MonitorServer) (c : MetricContexts) (i : ℕ) (w : Waiting)
      → get_elem? c.waits i ≡ some w
      → (deleter w.key).type_url ≢ w.key
      → ((wait_ends deleter caller_done i c).posted ≡ deleter w.key ∷ c.posted)
        × (get_metric (told_monitor s (deleter w.key)) (own_key w.key)
            ≡ get_metric s (own_key w.key))
  unfolding wait_ends wake_waiting post_deleter
  wait_ends-get_metric deleter s c i w at h =
      (rw (wait_ends, at) refl, told_monitor-other s (deleter w.key) w.key h)
