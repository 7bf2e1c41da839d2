-- ===== src/Storage/Chain.antt =====
-- `ChainStorageProvider` of pkg/storage/chain.go. A provider is a state with the operations that
-- the chain calls; the goroutine that writes a found object back is run to its end.
pub mod WriteBack
use kubecc.Common.{
  ℕ, zero, suc, ◌≡◌, refl, ap, sym, ◌∙◌, ◌<◌, ltb, if◌then◌else◌, List, [], ◌∷◌, Option, none, some,
  Bool, true, false, ◌&&◌, length, get_elem?, arith, is_some, Option-cases, Bool-cases, inl, inr,
  Checked, ok, panic,
}

-- What the chain calls of a provider: `Get`, where `none` is an error, `Put`, which says whether it
-- succeeded, and `Query`.
pub record Provider (S K V M : Type 0) : Type 0 where
  pub get : S → K → S × Option V
  pub put : S → K → V → S × Bool
  pub query : S → List K → List (Option M)

module _ {S K V M : Type 0} (ops : Provider S K V M) where
  -- The providers after a call, the object that was found, and whether no write back failed yet.
  abbrev pub Fetched : Type 0
  Fetched = List S × Option V × Bool

  -- A provider that misses the object is written to after all that come behind it.
  unfoldable pub write_back : K → S → Fetched → Fetched
  write_back k s (rest, none, fine) = (s ∷ rest, none, fine)
  write_back k s (rest, some v, false) = (s ∷ rest, some v, false)
  write_back k s (rest, some v, true) =
      let (t, stored) = ops.put s k v in (t ∷ rest, some v, stored)

  unfoldable pub chain_step : K → S × Option V → List S → Fetched → Fetched
  chain_step k (s, some v) rest later = (s ∷ rest, some v, true)
  chain_step k (s, none) rest later = write_back k s later

  -- `Get`: the first provider that has the object, and the writes to those before it.
  -- `none` is the last provider's error; a chain without providers gives no object and no error.
  unfoldable pub chain_get : K → List S → Fetched
  chain_get k [] = ([], none, true)
  chain_get k (s ∷ rest) = chain_step k (ops.get s k) rest (chain_get k rest)

  -- `Put`: every provider, up to the first that fails.
  unfoldable pub chain_put : K → V → List S → List S × Bool
  chain_put k v [] = ([], true)
  chain_put k v (s ∷ rest) =
      let later = chain_put k v rest in
      let (t, stored) = ops.put s k v in
      if stored then (t ∷ later.0, later.1) else (t ∷ rest, false)

  -- `result[0]`
  unfoldable pub first_result : List (Option M) → Checked (Option M)
  first_result [] = panic
  first_result (r ∷ rs) = ok r

  unfoldable pub query_provider : Option S → List K → Checked (Option M)
  query_provider none ks = panic
  query_provider (some s) ks = first_result (ops.query s ks)

  unfoldable pub continue_query : Checked (Option M) → Checked (Option M) → Checked (Option M)
  continue_query panic again = panic
  continue_query (ok (some m)) again = ok (some m)
  continue_query (ok none) again = again

  -- The loop of `Query` for the result at an index, with as many turns as there are providers.
  unfoldable pub query_loop : ℕ → ℕ → List S → List K → Checked (Option M)
  query_loop zero i ps ks = ok none
  query_loop (suc n) i ps ks =
      continue_query (query_provider (get_elem? ps i) ks) (query_loop n i ps ks)

  -- The result of `Query` at an index.
  unfoldable pub chain_query : ℕ → List S → List K → Checked (Option M)
  chain_query i ps ks = query_loop (length ps) i ps ks
