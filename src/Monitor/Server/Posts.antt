-- ===== src/Monitor/Server/Posts.antt =====
-- Metrics that are posted to pkg/monitor/server.go, and the receivers that listen to them.
use mathlib.Core.List.{reverse, reverse-cons, flat_map, append_assoc}
use kubecc.Common.{
  Bool, str_eq, Option-cases, map, [], ◌∷◌, ◌++◌, sym, ap, ℕ, ◌+◌, ◌≡◌, refl, ◌∙◌, inl, inr,
  if◌then◌else◌, List, Option, none, some, true, false, Str, arith, Bool-cases,
}
use kubecc.Common.Map.{Map, lookup, lookup-insert, lookup-insert_self}
use kubecc.Types.Key.{Key, canonical}
use kubecc.Monitor.Store.{
  get_key, holds, compare_and_set, compare_and_set-changed, compare_and_set-found,
  compare_and_set-kept,
}
use kubecc.Monitor.Server.{
  Metric, Bucket, MonitorServer, Receivers, receivers, listeners_of, send_all, notify, put_store,
  post_contents, post_value, post_to, post, get_metric,
}

-- A metric with a value.
abbrev pub metric : Key → Str → Metric
metric key value = record { key = key; value = some value }

-- The receivers of a key: those of each of its listeners.
abbrev pub receivers_of : MonitorServer → Key → List ℕ
receivers_of s key = elim (lookup (canonical key) s.listeners) [
  | none ↦ []
  | some m ↦ flat_map (λ e. map (λ x. x.1) e.1) m
]

-- What was sent, the last first, once every receiver of a key was sent a value, in their order.
abbrev pub told : MonitorServer → Key → Str → List (ℕ × Str)
told s key value = reverse (map (λ r. (r, value)) (receivers_of s key)) ++ s.sent

send_all_lem :
    (rs : List ℕ) (value : Str) (sent : List (ℕ × Str))
    → send_all rs value sent ≡ reverse (map (λ r. (r, value)) rs) ++ sent
unfolding send_all
send_all_lem [] value sent = refl
send_all_lem (r ∷ rs) value sent =
    send_all_lem rs value ((r, value) ∷ sent)
    ∙ sym (append_assoc (reverse (map (λ q. (q, value)) rs)) ((r, value) ∷ []) sent)
    ∙ ap (λ l. l ++ sent) (sym (reverse-cons (r, value) (map (λ q. (q, value)) rs)))

receivers_lem : (m : Map Receivers) → receivers m ≡ flat_map (λ e. map (λ x. x.1) e.1) m
unfolding receivers flat_map
receivers_lem [] = refl
receivers_lem (e ∷ m) = ap (λ l. map (λ x. x.1) e.1 ++ l) (receivers_lem m)

pub notify_told :
    (s : MonitorServer) (key : Key) (value : Str)
    → send_all (receivers (listeners_of (lookup (canonical key) s.listeners))) value s.sent
      ≡ told s key value
notify_told s key value =
    send_all_lem (receivers (listeners_of (lookup (canonical key) s.listeners))) value s.sent
    ∙ ap (λ rs. reverse (map (λ r. (r, value)) rs) ++ s.sent)
        (at (lookup (canonical key) s.listeners))
  where
    at :
        (o : Option (Map Receivers))
        → receivers (listeners_of o)
          ≡ elim o [ none ↦ [] | some m ↦ flat_map (λ e. map (λ x. x.1) e.1) m ]
    at none = unfold listeners_of receivers in refl
    at (some m) = unfold listeners_of in receivers_lem m

pub get_metric-at :
    (s : MonitorServer) (key : Key) (b : Bucket)
    → lookup key.bucket s.buckets ≡ some b
    → get_metric s key ≡ get_key key.name b.store
unfolding get_metric
get_metric-at s key b e = rw (get_metric, e) refl

module _ (s : MonitorServer) (key : Key) (b : Bucket) (value contents : Str)
    (at : lookup key.bucket s.buckets ≡ some b) where
  -- The server after a change.
  abbrev changed : MonitorServer
  changed =
      notify
        (record (put_store s key.bucket b (compare_and_set key.name contents b.store).0) {
          metrics_total = s.metrics_total + 1;
        })
        (canonical key) value

  changed-get_metric : get_metric changed key ≡ some contents
  unfolding notify put_store
  changed-get_metric =
      get_metric-at changed key (record b { store = (compare_and_set key.name contents b.store).0 })
        (lookup-insert_self key.bucket _ s.buckets)
      ∙ compare_and_set-found key.name contents b.store

  post_contents_lem :
      get_metric (post_contents s key b value contents) key ≡ some contents
      × (post_contents s key b value contents).sent
        ≡ (if holds (get_key key.name b.store) contents then s.sent else told s key value)
  unfolding post_contents notify put_store get_key
  post_contents_lem = elim (Bool-cases (compare_and_set key.name contents b.store).1) [
    | inl e ↦
        let f : holds (lookup key.name b.store) contents ≡ false =
          grind (arith, compare_and_set-changed key.name contents b.store) in
        (
          rw (post_contents, e) changed-get_metric,
          rw (post_contents, e, f) (notify_told s key value),
        )
    | inr e ↦
        let f : holds (lookup key.name b.store) contents ≡ true =
          grind (arith, compare_and_set-changed key.name contents b.store) in
        (
          rw (post_contents, e)
              (get_metric-at s key b at ∙ compare_and_set-kept key.name contents b.store e),
          rw (post_contents, e, f) refl,
        )
  ]

module _ (unmarshal : Str → Option Str) where
  -- A post of a value that unmarshals, to a bucket that there is: it succeeds, `GetMetric` of the key
  -- then gives the contents, and every receiver of the key is sent the value once, or none is where
  -- the key had these contents.
  pub post-get_metric :
      (s : MonitorServer) (key : Key) (b : Bucket) (value contents : Str)
      → lookup key.bucket s.buckets ≡ some b
      → unmarshal value ≡ some contents
      → (post unmarshal s (metric key value)).1 ≡ none
        × get_metric (post unmarshal s (metric key value)).0 key ≡ some contents
        × (post unmarshal s (metric key value)).0.sent
          ≡ (if holds (get_metric s key) contents then s.sent else told s key value)
  unfolding post post_to post_value
  post-get_metric s key b value contents at e =
      let (g, t) = post_contents_lem s key b value contents at in
      (
        rw (post, at, e) refl,
        rw (post, at, e) g,
        rw (get_metric-at s key b at) (rw (post, at, e) t),
      )

-- Posts one after the other, with whatever they return.
abbrev pub post_each : (Str → Option Str) → MonitorServer → List Metric → MonitorServer
post_each unmarshal s [] = s
post_each unmarshal s (m ∷ ms) = post_each unmarshal (post unmarshal s m).0 ms

-- A server that has the listeners of another, and a bucket of the name.
abbrev pub Keeps : Map (Map Receivers) → Str → MonitorServer → Type 0
Keeps listeners name s = (s.listeners ≡ listeners) × ((b : Bucket) × lookup name s.buckets ≡ some b)

module _ (listeners : Map (Map Receivers)) (name : Str) where
  put_store-Keeps :
      (s : MonitorServer) (at : Str) (b : Bucket) (m : Map Str)
      → Keeps listeners name s
      → Keeps listeners name (put_store s at b m)
  unfolding put_store
  put_store-Keeps s at b m (l, (c, e)) = elim (Bool-cases (str_eq at name)) [
    | inl k ↦ (l, (record b { store = m }, lookup-insert at name _ s.buckets ∙ rw k refl))
    | inr k ↦ (l, (c, lookup-insert at name _ s.buckets ∙ rw k e))
  ]

  post_contents-Keeps :
      (s : MonitorServer) (key : Key) (b : Bucket) (value contents : Str)
      → Keeps listeners name s
      → Keeps listeners name (post_contents s key b value contents)
  unfolding post_contents notify
  post_contents-Keeps s key b value contents k =
      either (compare_and_set key.name contents b.store).1
    where
      kept :
          Keeps listeners name
            (put_store s key.bucket b (compare_and_set key.name contents b.store).0)
      kept = put_store-Keeps s key.bucket b (compare_and_set key.name contents b.store).0 k

      either :
          (c : Bool)
          → Keeps listeners name (
              if c
              then notify
                  (record (put_store s key.bucket b (compare_and_set key.name contents b.store).0) {
                    metrics_total = s.metrics_total + 1;
                  })
                  (canonical key)
                  value
              else s)
      either true = kept
      either false = k

  module _ (unmarshal : Str → Option Str) where
    post_value-Keeps :
        (s : MonitorServer) (key : Key) (b : Bucket) (value : Str) (o : Option Str)
        → Keeps listeners name s
        → Keeps listeners name (post_value unmarshal s key b value o).0
    unfolding post_value
    post_value-Keeps s key b value none k = k
    post_value-Keeps s key b value (some c) k = post_contents-Keeps s key b value c k

    post_to-Keeps :
        (s : MonitorServer) (key : Key) (b : Bucket) (o : Option Str)
        → Keeps listeners name s
        → Keeps listeners name (post_to unmarshal s key b o).0
    unfolding post_to
    post_to-Keeps s key b none k = put_store-Keeps s key.bucket b _ k
    post_to-Keeps s key b (some v) k = post_value-Keeps s key b v (unmarshal v) k

    post-Keeps :
        (s : MonitorServer) (m : Metric)
        → Keeps listeners name s
        → Keeps listeners name (post unmarshal s m).0
    unfolding post
    post-Keeps s m k = elim (Option-cases (lookup m.key.bucket s.buckets)) [
      | inl e ↦ rw (post, e) k
      | inr (b, e) ↦ rw (post, e) (post_to-Keeps s m.key b m.value k)
    ]

    pub post_each-Keeps :
        (s : MonitorServer) (ms : List Metric)
        → Keeps listeners name s
        → Keeps listeners name (post_each unmarshal s ms)
    post_each-Keeps s [] k = k
    post_each-Keeps s (m ∷ ms) k = post_each-Keeps (post unmarshal s m).0 ms (post-Keeps s m k)
