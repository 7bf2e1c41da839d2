-- ===== src/Monitor/Server/Same.antt =====
-- What the posts of pkg/monitor/server.go leave as it was.
use kubecc.Common.{
  ◌≡◌, refl, inl, inr, Option, none, some, Str, str_eq_iff, arith, Bool-cases, Option-cases,
  is_some,
}
use kubecc.Common.Map.{Map, lookup, lookup-insert}
use kubecc.Types.Key.{Key}
use kubecc.Monitor.Store.{compare_and_set}
use kubecc.Monitor.Server.{
  Metric, Bucket, MonitorServer, notify, put_store, post_contents, post_value, post_to, post,
}

-- What a post leaves as it was: which buckets there are, the providers, the open streams, and that
-- nothing panicked.
pub record SameClients (s t : MonitorServer) : Type 0 where
  pub buckets : (u : Str) → is_some (lookup u t.buckets) ≡ is_some (lookup u s.buckets)
  pub providers : t.providers ≡ s.providers
  pub streams : t.streams ≡ s.streams
  pub panicked : t.panicked ≡ s.panicked

same_clients : (s : MonitorServer) → SameClients s s
same_clients s = record { buckets = λ u. refl; providers = refl; streams = refl; panicked = refl }

put_store-same :
    (s : MonitorServer) (name : Str) (b : Bucket) (m : Map Str)
    → lookup name s.buckets ≡ some b
    → (u : Str) → is_some (lookup u (put_store s name b m).buckets) ≡ is_some (lookup u s.buckets)
unfolding put_store
put_store-same s name b m e u =
    ground (arith, lookup-insert name u (record b { store = m }) s.buckets, str_eq_iff name u)

post_contents-SameClients :
    (s : MonitorServer) (key : Key) (b : Bucket) (value contents : Str)
    → lookup key.bucket s.buckets ≡ some b
    → SameClients s (post_contents s key b value contents)
unfolding post_contents notify
post_contents-SameClients s key b value contents e =
    elim (Bool-cases (compare_and_set key.name contents b.store).1) [
      | inl f ↦
          rw (post_contents, f)
            (record {
              buckets = unfold put_store in put_store-same s key.bucket b _ e;
              providers = unfold put_store in refl;
              streams = unfold put_store in refl;
              panicked = unfold put_store in refl;
            })
      | inr f ↦ rw (post_contents, f) (same_clients s)
    ]

module _ (unmarshal : Str → Option Str) where
  post_value-SameClients :
      (s : MonitorServer) (key : Key) (b : Bucket) (value : Str) (o : Option Str)
      → lookup key.bucket s.buckets ≡ some b
      → SameClients s (post_value unmarshal s key b value o).0
  unfolding post_value
  post_value-SameClients s key b value none e = same_clients s
  post_value-SameClients s key b value (some contents) e =
      post_contents-SameClients s key b value contents e

  post_to-SameClients :
      (s : MonitorServer) (key : Key) (b : Bucket) (o : Option Str)
      → lookup key.bucket s.buckets ≡ some b
      → SameClients s (post_to unmarshal s key b o).0
  unfolding post_to
  post_to-SameClients s key b none e = record {
    buckets = put_store-same s key.bucket b _ e;
    providers = unfold put_store in refl;
    streams = unfold put_store in refl;
    panicked = unfold put_store in refl;
  }
  post_to-SameClients s key b (some value) e =
      post_value-SameClients s key b value (unmarshal value) e

  pub post-SameClients : (s : MonitorServer) (m : Metric) → SameClients s (post unmarshal s m).0
  unfolding post
  post-SameClients s m = elim (Option-cases (lookup m.key.bucket s.buckets)) [
    | inl e ↦ rw (post, e) (same_clients s)
    | inr (b, e) ↦ rw (post, e) (post_to-SameClients s m.key b m.value e)
  ]

  -- The key's bucket is there and the value can be read.
  pub post-none :
      (s : MonitorServer) (key : Key) (b : Bucket) (value contents : Str)
      → lookup key.bucket s.buckets ≡ some b
      → unmarshal value ≡ some contents
      → (post unmarshal s (record { key = key; value = some value })).1 ≡ none
  unfolding post post_to post_value
  post-none s key b value contents e f = rw (post, e, post_to, post_value, f) refl
