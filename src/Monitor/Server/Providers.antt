-- ===== src/Monitor/Server/Providers.antt =====
-- The clients of pkg/monitor/server.go: their buckets and their entries among the providers.
use kubecc.Common.{
  ℕ, ◌+◌, ◌==◌, ◌≡◌, refl, ◌∙◌, inl, inr, if◌then◌else◌, ◌||◌, List, [], ◌∷◌, Option, none, some,
  Bool, true, false, Str, str_eq, str_eq_iff, str_eq_refl, any, arith, Bool-cases, Option-cases,
  is_some, get_elem?,
}
use kubecc.Common.Map.{Map, lookup, insert, delete, lookup-insert, lookup-delete}
use kubecc.Types.Key.{Key}
use kubecc.Monitor.Store.{new_store}
use kubecc.Monitor.Server.{
  meta_bucket, Bucket, ProviderInfo, MonitorServer, Listening, post, providers_metric,
  providers_updated, new_monitor_server, stream_opens, stream_closes, add_listener, listen_bucket,
  listen, remove_listener, listen_ends,
}
use kubecc.Monitor.Server.History.{
  remove_stream, MonitorEvent, opens, posts, closes, listens, returns, close_open, handle,
  with_provider_mutex, monitor_run,
}
use kubecc.Monitor.Server.Same.{SameClients, post-SameClients, post-none}

-- The clients are those that the providers list, each has a bucket, and the monitor's own bucket for
-- the list is there.
pub record ClientsKnown (s : MonitorServer) : Type 0 where
  pub known :
      (u : Str)
      → is_some (lookup u s.buckets) ≡ is_some (lookup u s.providers) || str_eq meta_bucket u
  pub no_meta : any (str_eq meta_bucket) s.streams ≡ false
  pub no_panic : s.panicked ≡ false

SameClients-known : (s t : MonitorServer) → SameClients s t → ClientsKnown s → ClientsKnown t
SameClients-known s t e i = record {
  known = λ u. e.buckets u ∙ rw e.providers (i.known u);
  no_meta = rw e.streams i.no_meta;
  no_panic = e.panicked ∙ i.no_panic;
}

ClientsKnown-meta :
    (s : MonitorServer) → ClientsKnown s → is_some (lookup meta_bucket s.buckets) ≡ true
ClientsKnown-meta s i = i.known meta_bucket ∙ ground (arith, str_eq_refl meta_bucket)

if-known :
    (b : Bool) (s t : MonitorServer)
    → ClientsKnown s
    → ClientsKnown t
    → ClientsKnown (if b then s else t)
if-known true s t i j = i
if-known false s t i j = j

new_known :
    (v uuid : Str) (b c : Bucket) (p : ProviderInfo)
    → is_some (lookup v (insert meta_bucket b ((uuid, c) ∷ [])))
      ≡ is_some (lookup v ((uuid, p) ∷ [])) || str_eq meta_bucket v
unfolding lookup
new_known v uuid b c p = ground (arith, lookup-insert meta_bucket v b ((uuid, c) ∷ []))

is_some→≡ {ℓ} : {A : Type ℓ} (o : Option A) → is_some o ≡ true → (a : A) × (o ≡ some a)
is_some→≡ none h = absurd (grind arith)
is_some→≡ (some a) h = (a, refl)

module _ (unmarshal : Str → Option Str) (type_url : Str) (encode : Map ProviderInfo → Str)
    (readable : (ps : Map ProviderInfo) → is_some (unmarshal (encode ps)) ≡ true) where
  providers_updated-SameClients :
      (s : MonitorServer)
      → is_some (lookup meta_bucket s.buckets) ≡ true
      → SameClients s (providers_updated unmarshal type_url encode s)
  unfolding providers_updated providers_metric
  providers_updated-SameClients s h =
      let (b, e) = is_some→≡ (lookup meta_bucket s.buckets) h in
      let (v, f) = is_some→≡ (unmarshal (encode s.providers)) (readable s.providers) in
      rw
        (post-none unmarshal s (record { bucket = meta_bucket; name = type_url }) b
          (encode s.providers) v e f)
        (post-SameClients unmarshal s (record {
          key = record { bucket = meta_bucket; name = type_url };
          value = some (encode s.providers);
        }))

  providers_updated-known :
      (s : MonitorServer)
      → ClientsKnown s
      → ClientsKnown (providers_updated unmarshal type_url encode s)
  providers_updated-known s i =
      SameClients-known s (providers_updated unmarshal type_url encode s)
        (providers_updated-SameClients s (ClientsKnown-meta s i)) i

  -- A new client's entries.
  opened-known :
      (s : MonitorServer) (u v : Str) (b : Bucket) (p : ProviderInfo)
      → is_some (lookup v s.buckets) ≡ is_some (lookup v s.providers) || str_eq meta_bucket v
      → is_some (lookup v (insert u b s.buckets))
        ≡ is_some (lookup v (insert u p s.providers)) || str_eq meta_bucket v
  opened-known s u v b p h =
      ground (arith, lookup-insert u v b s.buckets, lookup-insert u v p s.providers)

  not_meta :
      (s : MonitorServer) (u : Str)
      → ClientsKnown s
      → is_some (lookup u s.buckets) ≡ false
      → str_eq meta_bucket u ≡ false
  not_meta s u i e = grind (arith, i.known u)

  stream_opens-known :
      (s : MonitorServer) (u component address : Str)
      → ClientsKnown s
      → ClientsKnown (stream_opens unmarshal type_url encode s u component address)
  unfolding stream_opens
  stream_opens-known s u component address i = elim (Bool-cases (is_some (lookup u s.buckets))) [
    | inl e ↦
        rw (stream_opens, e)
          (record { known = i.known; no_meta = i.no_meta; no_panic = i.no_panic })
    | inr e ↦
        let j =
          providers_updated-known
            (record s {
              buckets = insert u (record { store = new_store; ctx = s.next_ctx }) s.buckets;
              providers =
                  insert u (record { uuid = u; component = component; address = address })
                    s.providers;
              provider_count = s.provider_count + 1;
              next_ctx = s.next_ctx + 1;
            })
            (record {
              known = λ v. opened-known s u v _ _ (i.known v);
              no_meta = i.no_meta;
              no_panic = i.no_panic;
            }) in
        rw (stream_opens, e)
          (record {
            known = j.known;
            no_meta = rw (not_meta s u i e) j.no_meta;
            no_panic = j.no_panic;
          })
  ]

  remove_stream-any :
      (u v : Str) (l : List Str)
      → any (str_eq v) l ≡ false
      → any (str_eq v) (remove_stream u l) ≡ false
  unfolding remove_stream
  remove_stream-any u v [] h = refl
  remove_stream-any u v (w ∷ l) h = ground (arith, remove_stream-any u v l)

  -- A name that is streaming is not the monitor's own.
  streaming_ne :
      (u v : Str) (l : List Str)
      → any (str_eq v) l ≡ false
      → any (str_eq u) l ≡ true
      → str_eq u v ≡ false
  streaming_ne u v [] h g = absurd (grind arith)
  streaming_ne u v (w ∷ l) h g =
      ground (arith, streaming_ne u v l, str_eq_iff u w, str_eq_iff v w, str_eq_iff u v)

  closed-known :
      (s : MonitorServer) (u v : Str)
      → is_some (lookup v s.buckets) ≡ is_some (lookup v s.providers) || str_eq meta_bucket v
      → str_eq u meta_bucket ≡ false
      → is_some (lookup v (delete u s.buckets))
        ≡ is_some (lookup v (delete u s.providers)) || str_eq meta_bucket v
  closed-known s u v h g = ground (
    arith,
    lookup-delete u v s.buckets,
    lookup-delete u v s.providers,
    str_eq_iff u v,
    str_eq_iff meta_bucket v,
    str_eq_iff u meta_bucket,
  )

  close_open-known :
      (s : MonitorServer) (u : Str)
      → ClientsKnown s
      → ClientsKnown (close_open unmarshal type_url encode s u)
  unfolding close_open stream_closes
  close_open-known s u i = elim (Bool-cases (any (str_eq u) s.streams)) [
    | inl e ↦
        rw (close_open, e, stream_closes)
          (providers_updated-known _ (record {
            known = λ v.
                closed-known s u v (i.known v) (streaming_ne u meta_bucket s.streams i.no_meta e);
            no_meta = remove_stream-any u meta_bucket s.streams i.no_meta;
            no_panic = i.no_panic;
          }))
    | inr e ↦ rw (close_open, e) i
  ]

  listen-known :
      (s : MonitorServer) (key : Key) (id nonce : Str) (r : ℕ)
      → ClientsKnown s
      → ClientsKnown (listen s key id nonce r).0
  unfolding listen
  listen-known s key id nonce r i = elim (Option-cases (lookup key.bucket s.buckets)) [
    | inl e ↦ rw (listen, e) i
    | inr (b, e) ↦
        rw (listen, e)
          (unfold listen_bucket add_listener in
            record { known = i.known; no_meta = i.no_meta; no_panic = i.no_panic })
  ]

  remove_listener-known :
      (s : MonitorServer) (l : Listening) → ClientsKnown s → ClientsKnown (remove_listener s l)
  unfolding remove_listener
  remove_listener-known s l i = record {
    known = i.known;
    no_meta = i.no_meta;
    no_panic = i.no_panic;
  }

  listen_ends-known :
      (s : MonitorServer) (n : ℕ) (done : Bool)
      → ClientsKnown s
      → ClientsKnown (listen_ends s n done)
  unfolding listen_ends
  listen_ends-known s n done i = elim (Option-cases (get_elem? s.listening n)) [
    | inl e ↦ rw (listen_ends, e) i
    | inr (l, e) ↦ elim (Bool-cases (done || any (λ c. c == l.bucket_ctx) s.cancelled)) [
      | inl f ↦
          rw (listen_ends, e, f)
            (remove_listener-known _ l
              (record { known = i.known; no_meta = i.no_meta; no_panic = i.no_panic }))
      | inr f ↦ rw (listen_ends, e, f) i
    ]
  ]

  handle-known :
      (s : MonitorServer) (e : MonitorEvent)
      → ClientsKnown s
      → ClientsKnown (handle unmarshal type_url encode s e)
  unfolding handle with_provider_mutex
  handle-known s (opens u component address) i =
      if-known s.stuck s _ i (stream_opens-known s u component address i)
  handle-known s (posts m) i =
      if-known s.stuck s _ i
        (SameClients-known s (post unmarshal s m).0 (post-SameClients unmarshal s m) i)
  handle-known s (closes u) i = if-known s.stuck s _ i (close_open-known s u i)
  handle-known s (listens key id nonce r) i =
      if-known s.stuck s _ i (listen-known s key id nonce r i)
  handle-known s (returns n done) i = if-known s.stuck s _ i (listen_ends-known s n done i)

  monitor_run-known :
      (es : List MonitorEvent) (s : MonitorServer)
      → ClientsKnown s
      → ClientsKnown (monitor_run unmarshal type_url encode s es)
  unfolding monitor_run
  monitor_run-known [] s i = i
  monitor_run-known (e ∷ es) s i = monitor_run-known es _ (handle-known s e i)

  -- For every way of reading messages that can read each encoded list of providers, every new server
  -- and every history of its handlers: `providersUpdated` has not panicked, and a client has a bucket
  -- just when the list of providers has an entry for it or it is the monitor's own bucket for that
  -- list.
  pub monitor_run-providers :
      (uuid component : Str) (es : List MonitorEvent)
      → let s =
          monitor_run unmarshal type_url encode
            (new_monitor_server unmarshal type_url encode uuid component)
            es in
        (s.panicked ≡ false)
        × ((u : Str)
            → is_some (lookup u s.buckets) ≡ is_some (lookup u s.providers) || str_eq meta_bucket u)
  monitor_run-providers uuid component es =
      let i = monitor_run-known es (new_monitor_server unmarshal type_url encode uuid component) (
        unfold new_monitor_server in
        providers_updated-known _
          (record { known = λ u. new_known u uuid _ _ _; no_meta = refl; no_panic = refl })) in
      (i.no_panic, i.known)
