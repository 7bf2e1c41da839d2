-- ===== src/Monitor/Server/Listens.antt =====
-- What a call of `Listen` of pkg/monitor/server.go is sent.
use mathlib.Core.List.{
  Mem, Mem-prop, not-mem-nil, mem-cons, mem-cons_self, mem-cons_of_mem, mem-append_left,
  mem-append_right,
}
use mathlib.Core.Logic.Or
use kubecc.Common.{
  ℕ, ◌≡◌, refl, ap, sym, ◌∙◌, subst, inl, inr, if◌then◌else◌, List, [], ◌∷◌, Option, none, some,
  true, false, Str, str_eq, arith, Bool-cases,
}
use kubecc.Common.Map.{Map, lookup, insert, values, lookup-insert_self}
use kubecc.Types.Key.{Key, canonical}
use kubecc.Monitor.Store.{holds, get_key}
use kubecc.Monitor.Server.{
  Metric, Bucket, Receivers, MonitorServer, receivers, listeners_of, receivers_at, send_all, post,
  get_metric, late_join, add_listener, listen_bucket, listen,
}
use kubecc.Monitor.Server.Posts.{
  metric, told, get_metric-at, post-get_metric, post_each, post_each-Keeps, notify_told,
}

send_all-keeps :
    (rs : List ℕ) (v : Str) (sent : List (ℕ × Str)) (x : ℕ × Str)
    → Mem x sent
    → Mem x (send_all rs v sent)
unfolding send_all
send_all-keeps [] v sent x m = m
send_all-keeps (y ∷ rs) v sent x m =
    send_all-keeps rs v ((y, v) ∷ sent) x (mem-cons_of_mem (y, v) m)

send_all-reaches :
    (rs : List ℕ) (v : Str) (sent : List (ℕ × Str)) (r : ℕ)
    → Mem r rs
    → Mem (r, v) (send_all rs v sent)
unfolding send_all
send_all-reaches [] v sent r m = absurd (not-mem-nil m)
send_all-reaches (y ∷ rs) v sent r m =
    Or.elim Mem-prop (mem-cons.0 m)
      (λ e. send_all-keeps rs v ((y, v) ∷ sent) (r, v) (rw e mem-cons_self))
      (send_all-reaches rs v ((y, v) ∷ sent) r)

values-reach : (m : Receivers) (k : Str) (r : ℕ) → lookup k m ≡ some r → Mem r (values m)
unfolding lookup
values-reach [] k r e = cc
values-reach ((j, x) ∷ m) k r e = grind (arith, values-reach m k r, mem-cons_self, mem-cons_of_mem)

receivers-reach :
    (m : Map Receivers) (id nonce : Str) (rs : Receivers) (r : ℕ)
    → lookup id m ≡ some rs
    → lookup nonce rs ≡ some r
    → Mem r (receivers m)
unfolding receivers lookup
receivers-reach [] id nonce rs r e f = cc
receivers-reach ((j, x) ∷ m) id nonce rs r e f = elim (Bool-cases (str_eq j id)) [
  | inl k ↦
      mem-append_left (receivers m) (values-reach x nonce r (ap (lookup nonce) (grind arith) ∙ f))
  | inr k ↦ mem-append_right (values x) (receivers-reach m id nonce rs r (grind arith) f)
]

module _ (s : MonitorServer) (key : Key) (id nonce : Str) (r : ℕ) (b : Bucket) where
  -- The call is among the receivers of its key.
  listen_bucket-receivers : Mem r (
      receivers
        (listeners_of (lookup (canonical key) (listen_bucket s key id nonce r b).listeners)))
  unfolding listen_bucket add_listener listeners_of
  listen_bucket-receivers =
      let m = listeners_of (lookup (canonical key) s.listeners) in
      let rs = insert nonce r (receivers_at (lookup id m)) in
      subst (λ o. Mem r (receivers (listeners_of o)))
        (sym (lookup-insert_self (canonical key) (insert id rs m) s.listeners))
        (receivers-reach (insert id rs m) id nonce rs r (lookup-insert_self id rs m)
          (lookup-insert_self nonce r (receivers_at (lookup id m))))

  listen_lem :
      lookup key.bucket s.buckets ≡ some b
      → listen s key id nonce r ≡ (listen_bucket s key id nonce r b, true)
  unfolding listen
  listen_lem e = rw (listen, e) refl

joins :
    (r : ℕ) (o : Option Str) (sent : List (ℕ × Str))
    → late_join r o sent ≡ elim o [ none ↦ sent | some had ↦ (r, had) ∷ sent ]
unfolding late_join
joins r none sent = refl
joins r (some had) sent = refl

-- In a bucket that there is: `Listen` is accepted; it is sent the contents that the key has then,
-- if it has any, and nothing else is sent; and whatever posts come after it, a later post of a value
-- whose contents the key does not have by then is sent to it.
pub listen-post :
    (unmarshal : Str → Option Str) (s : MonitorServer) (key : Key) (id nonce : Str) (r : ℕ)
    (b : Bucket) (ms : List Metric) (value contents : Str)
    → lookup key.bucket s.buckets ≡ some b
    → unmarshal value ≡ some contents
    → holds (get_metric (post_each unmarshal (listen s key id nonce r).0 ms) key) contents ≡ false
    → (listen s key id nonce r).1 ≡ true
      × (listen s key id nonce r).0.sent
        ≡ elim (get_metric s key) [ none ↦ s.sent | some had ↦ (r, had) ∷ s.sent ]
      × Mem
          (r, value)
          (post unmarshal
            (post_each unmarshal (listen s key id nonce r).0 ms)
            (metric key value)).0.sent
listen-post unmarshal s key id nonce r b ms value contents at u =
    subst
      (λ x.
        holds (get_metric (post_each unmarshal x.0 ms) key) contents ≡ false
        → (x.1 ≡ true)
          × (x.0.sent ≡ elim (get_metric s key) [ none ↦ s.sent | some had ↦ (r, had) ∷ s.sent ])
          × Mem (r, value) (post unmarshal (post_each unmarshal x.0 ms) (metric key value)).0.sent)
      (sym (listen_lem s key id nonce r b at))
      (λ h.
        let t = listen_bucket s key id nonce r b in
        let kept =
          post_each-Keeps t.listeners key.bucket unmarshal t ms
            (refl, (b, (unfold listen_bucket add_listener in at))) in
        let u' = post_each unmarshal t ms in
        let joined : t.sent
            ≡ elim (get_key key.name b.store) [ none ↦ s.sent | some had ↦ (r, had) ∷ s.sent ] =
          unfold listen_bucket in joins r (get_key key.name b.store) s.sent in
        let p =
          post-get_metric unmarshal (post_each unmarshal t ms) key kept.1.0 value contents kept.1.1
            u in
        let sends : (post unmarshal u' (metric key value)).0.sent
            ≡ send_all (receivers (listeners_of (lookup (canonical key) u'.listeners))) value
                u'.sent =
          p.2
          ∙ ap (λ c. if c then u'.sent else told u' key value) h
          ∙ sym (notify_told u' key value) in
        (
          refl,
          joined
              ∙ ap (λ o. elim o [ none ↦ s.sent | some had ↦ (r, had) ∷ s.sent ])
                  (sym (get_metric-at s key b at)),
          subst (Mem (r, value)) (sym sends) (
              send_all-reaches (receivers (listeners_of (lookup (canonical key) u'.listeners)))
                value u'.sent r
                (subst (λ l. Mem r (receivers (listeners_of (lookup (canonical key) l))))
                  (sym kept.0) (listen_bucket-receivers s key id nonce r b))),
        ))
