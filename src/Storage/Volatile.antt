-- ===== src/Storage/Volatile.antt =====
-- `VolatileStorageProvider` of pkg/storage/volatile.go. The cache library is a parameter: its state
-- and the operations that the provider calls. The library calls `on_delete` when it drops an item.
pub mod Serve
use kubecc.Common.{
  ℕ, ◌+◌, ◌-◌, ◌≡◌, refl, if◌then◌else◌, List, [], ◌∷◌, Option, none, some, Bool, true, false, ◌&&◌,
  Str, length, ltb,
}

pub record CacheObject : Type 0 where
  pub content : Str
  pub size : ℕ
  pub timestamp : ℕ
  pub expiration_date : ℕ

-- The calls of the library: an item's value, whether it is expired now, and the changes; `set_until`
-- and `extend` take the expiration date.
pub record Cache (C : Type 0) : Type 0 where
  pub item : C → Str → Option CacheObject
  pub expired : C → Str → Bool
  pub set_until : C → Str → CacheObject → ℕ → C
  pub extend : C → Str → ℕ → C
  pub remove : C → Str → C

pub record Volatile (C : Type 0) : Type 0 where
  pub cache : C
  pub total_size : ℕ
  pub cache_hits : ℕ
  pub cache_misses : ℕ

module _ {C : Type 0} (ops : Cache C) where
  unfoldable pub on_delete : Volatile C → CacheObject → Volatile C
  on_delete s object = record s { total_size = s.total_size - object.size }

  -- The object as `Put` stores it at a time.
  unfoldable pub managed_object : ℕ → CacheObject → CacheObject
  managed_object now object = record object { size = length object.content; timestamp = now }

  -- `Put`: the provider, and whether it succeeded.
  unfoldable pub volatile_put : ℕ → Volatile C → Str → CacheObject → Volatile C × Bool
  volatile_put now s hash object = elim (ops.item s.cache hash) [
    | some old ↦ (s, false)
    | none ↦ (
      record s {
        total_size = s.total_size + length object.content;
        cache = ops.set_until s.cache hash (managed_object now object) object.expiration_date;
      },
      true,
    )
  ]

  unfoldable pub is_stale : Volatile C → Str → CacheObject → Bool
  is_stale s hash object = ops.expired s.cache hash && ltb 0 object.expiration_date

  -- `Get` of an object that the cache has.
  unfoldable pub serve : Volatile C → Str → CacheObject → Volatile C × Option CacheObject
  serve s hash object =
      if is_stale s hash object then (record s { cache = ops.remove s.cache hash }, none) else (
        record s {
          cache = ops.extend s.cache hash object.expiration_date;
          cache_hits = s.cache_hits + 1;
        },
        some object,
      )

  unfoldable pub volatile_get : Volatile C → Str → Volatile C × Option CacheObject
  volatile_get s hash = elim (ops.item s.cache hash) [
    | none ↦ (record s { cache_misses = s.cache_misses + 1 }, none)
    | some object ↦ serve s hash object
  ]

  -- What `Query` answers for one key.
  unfoldable pub query_key : Volatile C → Str → Volatile C × Option CacheObject
  query_key s hash = elim (ops.item s.cache hash) [
    | none ↦ (s, none)
    | some object ↦
        if is_stale s hash object
        then (record s { cache = ops.remove s.cache hash }, none)
        else (s, some object)
  ]

  unfoldable pub volatile_query : Volatile C → List Str → Volatile C × List (Option CacheObject)
  volatile_query s [] = (s, [])
  volatile_query s (hash ∷ hashes) =
      let rest = volatile_query (query_key s hash).0 hashes in
      (rest.0, (query_key s hash).1 ∷ rest.1)
