-- ===== src/CacheServer/Served.antt =====
-- What pkg/cachesrv/server.go serves of what it was given.
use kubecc.Common.{◌≡◌, refl, ap, ◌∙◌, List, Option, none, some, true, Str, ok, panic}
use kubecc.Storage.Chain.{Provider}
use kubecc.CacheServer.{
  CacheServer, new_cache_server, push_to, cache_push, pull_from, cache_pull, query_from,
  cache_query,
}

module _ {S K V M : Type 0} (ops : Provider S K V M) where
  -- A server that was made without a provider panics on every request.
  new_cache_server-panics :
      (configure : S → S × Option Str) (k : K) (v : V) (ks : List K)
      → let c = new_cache_server ops configure none in
        (cache_push ops c k v ≡ panic)
        × (cache_pull ops c k ≡ panic)
        × (cache_query ops c ks ≡ panic)
  unfolding new_cache_server cache_push push_to cache_pull pull_from cache_query query_from
  new_cache_server-panics configure k v ks = (refl, refl, refl)

  -- Of a provider that gives an object after a put of it that succeeded: what was pushed is pulled.
  cache_push-cache_pull :
      ((s : S) (k : K) (v : V)
        → (ops.put s k v).1 ≡ true
        → (ops.get (ops.put s k v).0 k).1 ≡ some v)
      → (c : CacheServer ops) (s : S) (k : K) (v : V) → c.storage_provider ≡ some s
      → (ops.put s k v).1 ≡ true
      → (d : CacheServer ops) × (e : CacheServer ops) × (cache_push ops c k v ≡ ok (d, true))
        × (cache_pull ops d k ≡ ok (e, some v))
  unfolding cache_push push_to cache_pull pull_from
  cache_push-cache_pull law c s k v has stored =
      let t = (ops.put s k v).0 in
      (
        record c { storage_provider = some t },
        record c { storage_provider = some (ops.get t k).0 },
        ap (λ o. push_to ops o c k v) has
            ∙ ap (λ b. ok (record c { storage_provider = some t }, b)) stored,
        ap (λ o. ok (record c { storage_provider = some (ops.get t k).0 }, o)) (law s k v stored),
      )
