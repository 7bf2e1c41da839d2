-- ===== src/Monitor/Server/Typed.antt =====
-- The types of what pkg/monitor/server.go stores under the names of types.
use kubecc.Common.{
  ℕ, ◌≡◌, refl, sym, ap, ◌∙◌, subst, inl, inr, if◌then◌else◌, List, [], ◌∷◌, Option, none, some,
  Bool, true, false, Str, str_eq, str_eq_iff, arith, Bool-cases, Option-cases, is_some, get_elem?,
  any, not,
}
use kubecc.Common.Map.{Map, lookup, insert, delete, lookup-insert, lookup-delete}
use kubecc.Types.Key.{Key}
use kubecc.Monitor.Store.{new_store, get_key, delete_key, holds, compare_and_set}
use kubecc.Monitor.Server.{
  meta_bucket, Metric, Bucket, ProviderInfo, MonitorServer, notify, put_store, post_contents,
  post_value, post_to, post, get_metric, providers_metric, providers_updated, new_monitor_server,
  stream_opens, stream_closes, add_listener, listen_bucket, listen, remove_listener, listen_ends,
}
use kubecc.Monitor.Server.History.{
  MonitorEvent, opens, posts, closes, listens, returns, close_open, handle, with_provider_mutex,
  monitor_run,
}
use kubecc.Clients.Provider.{Message, metric_of}

module _ (type_of : Str → Str) where
  -- The contents under each name are of the type of that name.
  abbrev pub HasTypes : Map Str → Type 0
  HasTypes m = (name contents : Str) → lookup name m ≡ some contents → type_of contents ≡ name

  abbrev pub AllTyped : Map Bucket → Type 0
  AllTyped buckets = (u : Str) (b : Bucket) → lookup u buckets ≡ some b → HasTypes b.store

  HasTypes-insert : (n c : Str) (m : Map Str) → type_of c ≡ n → HasTypes m → HasTypes (insert n c m)
  HasTypes-insert n c m t h name contents e = elim (Bool-cases (str_eq n name)) [
    | inl b ↦
        let at = (str_eq_iff n name).0 b in
        let same : some c ≡ some contents = ground (arith, lookup-insert n name c m) in
        let one : c ≡ contents = cc in ap type_of (sym one) ∙ t ∙ at
    | inr b ↦ h name contents (ground (arith, lookup-insert n name c m))
  ]

  HasTypes-delete : (n : Str) (m : Map Str) → HasTypes m → HasTypes (delete n m)
  HasTypes-delete n m h name contents e = elim (Bool-cases (str_eq n name)) [
    | inl b ↦ absurd (ground (arith, lookup-delete n name m))
    | inr b ↦ h name contents (ground (arith, lookup-delete n name m))
  ]

  AllTyped-insert :
      (u : Str) (b : Bucket) (m : Map Bucket)
      → HasTypes b.store
      → AllTyped m
      → AllTyped (insert u b m)
  AllTyped-insert u b m t h v c e = elim (Bool-cases (str_eq u v)) [
    | inl q ↦
        let same : some b ≡ some c = ground (arith, lookup-insert u v b m) in
        let one : b ≡ c = cc in subst (λ d. HasTypes d.store) one t
    | inr q ↦ h v c (ground (arith, lookup-insert u v b m))
  ]

  AllTyped-delete : (u : Str) (m : Map Bucket) → AllTyped m → AllTyped (delete u m)
  AllTyped-delete u m h v c e = elim (Bool-cases (str_eq u v)) [
    | inl q ↦ absurd (ground (arith, lookup-delete u v m))
    | inr q ↦ h v c (ground (arith, lookup-delete u v m))
  ]

  compare_and_set-HasTypes :
      (n c : Str) (m : Map Str) → type_of c ≡ n → HasTypes m → HasTypes (compare_and_set n c m).0
  unfolding compare_and_set
  compare_and_set-HasTypes n c m t h = elim (Bool-cases (not (holds (lookup n m) c))) [
    | inl b ↦ rw b (HasTypes-insert n c m t h)
    | inr b ↦ rw b h
  ]

  abbrev Typed : MonitorServer → Type 0
  Typed s = AllTyped s.buckets

  -- A metric whose value, if it is read, is of the type that its key names.
  abbrev pub IsTyped : (Str → Option Str) → Metric → Type 0
  IsTyped unmarshal m =
      (v c : Str) → m.value ≡ some v → unmarshal v ≡ some c → type_of c ≡ (m.key).name

  if-Typed : (b : Bool) (s t : MonitorServer) → Typed s → Typed t → Typed (if b then s else t)
  if-Typed true s t h k = h
  if-Typed false s t h k = k

  post_contents-Typed :
      (s : MonitorServer) (key : Key) (b : Bucket) (v c : Str)
      → type_of c ≡ key.name
      → HasTypes b.store
      → Typed s
      → Typed (post_contents s key b v c)
  unfolding post_contents notify put_store
  post_contents-Typed s key b v c t h k =
      if-Typed (compare_and_set key.name c b.store).1 _ s
        (AllTyped-insert key.bucket (record b { store = (compare_and_set key.name c b.store).0 })
          s.buckets (compare_and_set-HasTypes key.name c b.store t h) k)
        k

  get_metric-Typed :
      (s : MonitorServer) (key : Key) (contents : Str)
      → Typed s
      → get_metric s key ≡ some contents
      → type_of contents ≡ key.name
  unfolding get_metric get_key
  get_metric-Typed s key contents k e = elim (Option-cases (lookup key.bucket s.buckets)) [
    | inl f ↦ let no : none ≡ some contents = rw (get_metric, f) at e in cc
    | inr (b, f) ↦
        let at : lookup key.name b.store ≡ some contents = rw (get_metric, f) at e in
        k key.bucket b f key.name contents at
  ]

  module _ (unmarshal : Str → Option Str) where
    post_value-Typed :
        (s : MonitorServer) (key : Key) (b : Bucket) (v : Str) (o : Option Str)
        → ((c : Str) → o ≡ some c → type_of c ≡ key.name)
        → HasTypes b.store
        → Typed s
        → Typed (post_value unmarshal s key b v o).0
    unfolding post_value
    post_value-Typed s key b v none t h k = k
    post_value-Typed s key b v (some c) t h k = post_contents-Typed s key b v c (t c refl) h k

    post_to-Typed :
        (s : MonitorServer) (key : Key) (b : Bucket) (o : Option Str)
        → ((v c : Str) → o ≡ some v → unmarshal v ≡ some c → type_of c ≡ key.name)
        → HasTypes b.store
        → Typed s
        → Typed (post_to unmarshal s key b o).0
    unfolding post_to put_store delete_key
    post_to-Typed s key b none t h k =
        AllTyped-insert key.bucket (record b { store = delete key.name b.store }) s.buckets
          (HasTypes-delete key.name b.store h) k
    post_to-Typed s key b (some v) t h k =
        post_value-Typed s key b v (unmarshal v) (λ c e. t v c refl e) h k

    post-Typed :
        (s : MonitorServer) (m : Metric)
        → IsTyped unmarshal m
        → Typed s
        → Typed (post unmarshal s m).0
    unfolding post
    post-Typed s m t k = elim (Option-cases (lookup m.key.bucket s.buckets)) [
      | inl e ↦ rw (post, e) k
      | inr (b, e) ↦ rw (post, e) (post_to-Typed s m.key b m.value t (k m.key.bucket b e) k)
    ]

    module _ (type_url : Str) (encode : Map ProviderInfo → Str)
        (encoded : (ps : Map ProviderInfo) (c : Str)
          → unmarshal (encode ps) ≡ some c
          → type_of c ≡ type_url) where
      providers_updated-Typed :
          (s : MonitorServer) → Typed s → Typed (providers_updated unmarshal type_url encode s)
      unfolding providers_updated providers_metric
      providers_updated-Typed s k =
          let m = providers_metric unmarshal type_url encode s.providers in
          let p =
            post-Typed s m
              (λ v c e f.
                encoded s.providers c
                  (let one : encode s.providers ≡ v = cc in ap unmarshal one ∙ f))
              k in
          if-Typed (is_some (post unmarshal s m).1) _ _ p p

      new_store-HasTypes : HasTypes new_store
      unfolding new_store lookup
      new_store-HasTypes name c e = cc

      first_bucket-Typed :
          (uuid : Str) → AllTyped ((uuid, record { store = new_store; ctx = 0 }) ∷ [])
      unfolding insert lookup
      first_bucket-Typed uuid =
          AllTyped-insert uuid (record { store = new_store; ctx = 0 }) [] new_store-HasTypes
            (λ u b e. cc)

      stream_opens-Typed :
          (s : MonitorServer) (u component address : Str)
          → Typed s
          → Typed (stream_opens unmarshal type_url encode s u component address)
      unfolding stream_opens
      stream_opens-Typed s u component address k = if-Typed (is_some (lookup u s.buckets)) _ _ k (
          providers_updated-Typed _ (
            AllTyped-insert u (record { store = new_store; ctx = s.next_ctx }) s.buckets
              new_store-HasTypes k))

      close_open-Typed :
          (s : MonitorServer) (u : Str) → Typed s → Typed (close_open unmarshal type_url encode s u)
      unfolding close_open stream_closes
      close_open-Typed s u k =
          if-Typed (any (str_eq u) s.streams) _ _
            (providers_updated-Typed _ (AllTyped-delete u s.buckets k)) k

      listen-Typed :
          (s : MonitorServer) (key : Key) (id nonce : Str) (r : ℕ)
          → Typed s
          → Typed (listen s key id nonce r).0
      unfolding listen listen_bucket add_listener
      listen-Typed s key id nonce r k = elim (Option-cases (lookup key.bucket s.buckets)) [
        | inl e ↦ rw (listen, e) k
        | inr (b, e) ↦ rw (listen, e) k
      ]

      listen_ends-Typed :
          (s : MonitorServer) (i : ℕ) (done : Bool) → Typed s → Typed (listen_ends s i done)
      unfolding listen_ends remove_listener
      listen_ends-Typed s i done k = elim (Option-cases (get_elem? s.listening i)) [
        | inl e ↦ rw (listen_ends, e) k
        | inr (l, e) ↦ rw (listen_ends, e) (if-Typed _ _ _ k k)
      ]

      -- The metrics that are posted are those that the clients' streams send.
      abbrev pub FromClients : (Message → Str) → List MonitorEvent → Type 0
      FromClients encode_any [] = Unit
      FromClients encode_any (posts m ∷ es) =
          ((uuid : Str) × (d : Message) × (m ≡ metric_of encode_any uuid d))
          × FromClients encode_any es
      FromClients encode_any (e ∷ es) = FromClients encode_any es

      module _ (encode_any : Message → Str)
          (packed : (m : Message) (c : Str)
            → unmarshal (encode_any m) ≡ some c
            → type_of c ≡ m.type_url) where
        metric_of-IsTyped :
            (m : Metric) (uuid : Str) (d : Message)
            → m ≡ metric_of encode_any uuid d
            → IsTyped unmarshal m
        unfolding metric_of
        metric_of-IsTyped m uuid d q v c e f =
            let one : some (encode_any d) ≡ some v = sym (ap (λ x. x.value) q) ∙ e in
            let same : encode_any d ≡ v = cc in
            packed d c (ap unmarshal same ∙ f) ∙ sym (ap (λ x. (x.key).name) q)

        locked-Typed :
            (s : MonitorServer) (f : MonitorServer → MonitorServer)
            → Typed (f s)
            → Typed s
            → Typed (with_provider_mutex s f)
        unfolding with_provider_mutex
        locked-Typed s f h k = if-Typed s.stuck _ _ k h

        run-Typed :
            (es : List MonitorEvent) (s : MonitorServer)
            → FromClients encode_any es
            → Typed s
            → Typed (monitor_run unmarshal type_url encode s es)
        unfolding monitor_run handle
        run-Typed [] s h k = k
        run-Typed (opens u component address ∷ es) s h k =
            run-Typed es _ h (locked-Typed s _ (stream_opens-Typed s u component address k) k)
        run-Typed (posts m ∷ es) s (q, h) k =
            run-Typed es _ h
              (locked-Typed s _ (post-Typed s m (metric_of-IsTyped m q.0 q.1 q.2) k) k)
        run-Typed (closes u ∷ es) s h k =
            run-Typed es _ h (locked-Typed s _ (close_open-Typed s u k) k)
        run-Typed (listens key id nonce r ∷ es) s h k =
            run-Typed es _ h (locked-Typed s _ (listen-Typed s key id nonce r k) k)
        run-Typed (returns i done ∷ es) s h k =
            run-Typed es _ h (locked-Typed s _ (listen_ends-Typed s i done k) k)

        new-Typed :
            (uuid component : Str)
            → Typed (new_monitor_server unmarshal type_url encode uuid component)
        unfolding new_monitor_server
        new-Typed uuid component = providers_updated-Typed _ (
            AllTyped-insert meta_bucket (record { store = new_store; ctx = 0 }) _ new_store-HasTypes
              (first_bucket-Typed uuid))

        -- After every history of a new monitor in which the posted metrics are those that the clients'
        -- streams send, where what is read from an encoded message is of the message's type, and the
        -- encoded providers of theirs: what `GetMetric` gives for a key is of the type that the key
        -- names, so that a listener for the type can read it.
        pub monitor_run-Typed :
            (uuid component : Str) (es : List MonitorEvent) (key : Key) (contents : Str)
            → FromClients encode_any es
            → get_metric
                (monitor_run unmarshal type_url encode
                  (new_monitor_server unmarshal type_url encode uuid component)
                  es)
                key
              ≡ some contents
            → type_of contents ≡ key.name
        monitor_run-Typed uuid component es key contents h e =
            let s =
              monitor_run unmarshal type_url encode
                (new_monitor_server unmarshal type_url encode uuid component) es in
            get_metric-Typed s key contents (run-Typed es _ h (new-Typed uuid component)) e
