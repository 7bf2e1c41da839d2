-- ===== src/Storage/Volatile/Serve.antt =====
-- What `Put`, `Get` and `Query` of pkg/storage/volatile.go give.
use kubecc.Common.{
  ℕ, ◌+◌, ◌≡◌, refl, ap, ◌∙◌, if◌then◌else◌, Option, none, some, Bool, true, false, Str, arith,
  Option-cases, Bool-cases, inl, inr,
}
use kubecc.Storage.Volatile.{
  CacheObject, Cache, Volatile, managed_object, volatile_put, is_stale, serve, volatile_get,
}

-- What the provider relies on: the library gives an item that was just set, and gives no expired
-- one where the date given to it lies ahead (`Ahead`).
pub record KeepsItems {C : Type 0} (ops : Cache C) (Ahead : ℕ → Type 0) : Type 0 where
  pub item_set :
      (c : C) (hash : Str) (object : CacheObject) (date : ℕ)
      → ops.item (ops.set_until c hash object date) hash ≡ some object
  pub fresh :
      (c : C) (hash : Str) (object : CacheObject) (date : ℕ)
      → Ahead date
      → ops.expired (ops.set_until c hash object date) hash ≡ false

module _ {C : Type 0} (ops : Cache C) where
  put_new :
      (now : ℕ) (s : Volatile C) (hash : Str) (object : CacheObject)
      → (volatile_put ops now s hash object).1 ≡ true
      → (volatile_put ops now s hash object).0.cache
        ≡ ops.set_until s.cache hash (managed_object ops now object) object.expiration_date
  unfolding volatile_put
  put_new now s hash object h = elim (Option-cases (ops.item s.cache hash)) [
    | inl e ↦ rw (volatile_put, e) refl
    | inr (old, e) ↦ absurd (grind arith)
  ]

  get_item :
      (s : Volatile C) (hash : Str) (object : CacheObject)
      → ops.item s.cache hash ≡ some object
      → ops.expired s.cache hash ≡ false
      → (volatile_get ops s hash).1 ≡ some object
  unfolding volatile_get serve is_stale
  get_item s hash object e f = rw (volatile_get, e, f) refl

  -- With a library that keeps items: after a `Put` that succeeds, of an object whose expiration date
  -- lies ahead, `Get` of the hash gives the object with its size and the time of the `Put`.
  pub volatile_put-get :
      (Ahead : ℕ → Type 0) (k : KeepsItems ops Ahead) (now : ℕ) (s : Volatile C) (hash : Str)
      (object : CacheObject)
      → Ahead object.expiration_date
      → (volatile_put ops now s hash object).1 ≡ true
      → (volatile_get ops (volatile_put ops now s hash object).0 hash).1
        ≡ some (managed_object ops now object)
  volatile_put-get Ahead k now s hash object ahead h =
      let t = (volatile_put ops now s hash object).0 in
      let stored = managed_object ops now object in
      let date = object.expiration_date in
      get_item t hash stored
        (ap (λ c. ops.item c hash) (put_new now s hash object h)
          ∙ k.item_set s.cache hash stored date)
        (ap (λ c. ops.expired c hash) (put_new now s hash object h)
          ∙ k.fresh s.cache hash stored date ahead)

  -- Whether the cache has the hash, but the object is expired.
  abbrev pub finds_stale : Volatile C → Str → Option CacheObject → Bool
  finds_stale s hash none = false
  finds_stale s hash (some object) = is_stale ops s hash object

  -- Every `Get` counts as one hit or one miss, but for an object that the cache has and that is
  -- expired: this `Get` counts as neither.
  volatile_get_counts :
      (s : Volatile C) (hash : Str)
      → (volatile_get ops s hash).0.cache_hits + (volatile_get ops s hash).0.cache_misses
        ≡ (if finds_stale s hash (ops.item s.cache hash) then 0 else 1)
          + (s.cache_hits + s.cache_misses)
  unfolding volatile_get serve
  volatile_get_counts s hash = elim (Option-cases (ops.item s.cache hash)) [
    | inl e ↦ rw (volatile_get, e) (omega arith)
    | inr (object, e) ↦ elim (Bool-cases (is_stale ops s hash object)) [
      | inl f ↦ rw (volatile_get, e, f) (omega arith)
      | inr f ↦ rw (volatile_get, e, f) (omega arith)
    ]
  ]
