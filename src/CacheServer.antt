-- ===== src/CacheServer.antt =====
-- `CacheServer` of pkg/cachesrv/server.go over a storage provider, whose operations are those that the
-- chain of pkg/storage has. A server without a provider has a nil one, whose calls panic.
pub mod Served
use kubecc.Common.{
  ℕ, if◌then◌else◌, List, [], ◌∷◌, Option, none, some, Bool, true, false, Str, Checked, ok, panic,
  go,
}
use kubecc.Storage.Chain.{Provider}
use kubecc.Metrics.Health.{ActiveCondition, invalid_configuration, apply_condition}

module _ {S K V M : Type 0} (ops : Provider S K V M) where
  pub record CacheServer : Type 0 where
    pub storage_provider : Option S
    pub conditions : List ActiveCondition

  -- `NewCacheServer`, with what `Configure` of a provider gives: its state, and the text of an error.
  module _ (configure : S → S × Option Str) where
    unfoldable pub configured : S × Option Str → CacheServer
    configured (s, none) = record { storage_provider = some s; conditions = [] }
    configured (s, some err) = record {
      storage_provider = some s;
      conditions = apply_condition 0 invalid_configuration (err ∷ []) [];
    }

    unfoldable pub new_cache_server : Option S → CacheServer
    new_cache_server none = record {
      storage_provider = none;
      conditions = apply_condition 0 invalid_configuration (go "No storage provider set" ∷ []) [];
    }
    new_cache_server (some s) = configured (configure s)

  unfoldable pub push_to : Option S → CacheServer → K → V → Checked (CacheServer × Bool)
  push_to none c k v = panic
  push_to (some s) c k v =
      let (t, stored) = ops.put s k v in ok (record c { storage_provider = some t }, stored)

  unfoldable pub cache_push : CacheServer → K → V → Checked (CacheServer × Bool)
  cache_push c k v = push_to c.storage_provider c k v

  unfoldable pub pull_from : Option S → CacheServer → K → Checked (CacheServer × Option V)
  pull_from none c k = panic
  pull_from (some s) c k =
      let (t, found) = ops.get s k in ok (record c { storage_provider = some t }, found)

  unfoldable pub cache_pull : CacheServer → K → Checked (CacheServer × Option V)
  cache_pull c k = pull_from c.storage_provider c k

  unfoldable pub query_from : Option S → List K → Checked (List (Option M))
  query_from none ks = panic
  query_from (some s) ks = ok (ops.query s ks)

  unfoldable pub cache_query : CacheServer → List K → Checked (List (Option M))
  cache_query c ks = query_from c.storage_provider ks
