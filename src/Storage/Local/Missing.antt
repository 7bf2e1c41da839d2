-- ===== src/Storage/Local/Missing.antt =====
-- `Query` of pkg/storage/local.go under that of pkg/storage/chain.go.
use kubecc.Common.{
  ◌≤◌, ◌≡◌, refl, ap, ◌∙◌, List, [], ◌∷◌, none, some, Str, ok, panic, length, take, map,
}
use kubecc.Storage.Chain.{
  Provider, chain_query, query_loop, continue_query, query_provider, first_result,
}
use kubecc.Storage.Local.{
  ObjectMeta, LocalObject, Files, Format, LocalStorage, object_path, file_meta, add_meta, query_dir,
  local_query,
}
use kubecc.Storage.Local.Roundtrip.{prefix-ok}

module _ {F : Type 0} (ops : Files F) (format : Format) where
  local_query-missing :
      (p : LocalStorage F) (hash : Str)
      → 2 ≤ length hash
      → file_meta ops format p (object_path ops format p (take 2 hash) hash) ≡ none
      → local_query ops format p (hash ∷ []) ≡ ok []
  unfolding local_query query_dir
  local_query-missing p hash s e =
      ap (λ c. query_dir ops format p hash c (ok [])) (prefix-ok hash s)
      ∙ ap (λ o. add_meta ops format o (ok [])) e
      ∙ unfold add_meta in refl

  -- For every chain whose providers answer a query with the metadata that `Query` of the local
  -- storage gives, in its order: when the first provider has no readable file for a hash of at least
  -- two bytes, the chain's `Query` for this hash panics, whatever providers come behind.
  pub chain_query-missing :
      (chain : Provider (LocalStorage F) Str LocalObject ObjectMeta)
      → ((p : LocalStorage F) (ks : List Str) (ms : List ObjectMeta)
          → local_query ops format p ks ≡ ok ms
          → chain.query p ks ≡ map some ms)
      → (p : LocalStorage F) (rest : List (LocalStorage F)) (hash : Str) → 2 ≤ length hash
      → file_meta ops format p (object_path ops format p (take 2 hash) hash) ≡ none
      → chain_query chain 0 (p ∷ rest) (hash ∷ []) ≡ panic
  unfolding chain_query query_loop query_provider first_result continue_query
  chain_query-missing chain answers p rest hash s e =
      rw (answers p (hash ∷ []) [] (local_query-missing p hash s e)) refl
