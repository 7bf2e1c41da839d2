-- ===== src/Storage/Chain/WriteBack.antt =====
-- What `Get` of pkg/storage/chain.go writes back.
use kubecc.Common.{
  ◌≡◌, ap, ◌∙◌, List, [], ◌∷◌, ◌++◌, Option, none, some, Bool, true, false, map, All,
}
use kubecc.Storage.Chain.{Provider, Fetched, write_back, chain_step, chain_get}

module _ {S K V M : Type 0} (ops : Provider S K V M) (k : K) (v : V) where
  -- A provider after its `Get`, and after the `Put` that may follow it.
  abbrev pub got : S → S
  got s = (ops.get s k).0

  abbrev pub wrote : S → S
  wrote s = (ops.put (got s) k v).0

  abbrev pub Misses : S → Type 0
  Misses s = (ops.get s k).1 ≡ none

  abbrev pub Stores : Bool → S → Type 0
  Stores b s = Misses s × (ops.put (got s) k v).1 ≡ b

  -- What came before a failure.
  abbrev pub Front : Type 0
  Front = Option (List S × S)

  -- The providers from the first on, where the nearest ones stand before the one that has the object:
  -- those are written to, the last one first; if a write fails, those in front of it are not.
  abbrev pub providers_of : Front → List S → List S
  providers_of none near = near
  providers_of (some (front, bad)) near = front ++ bad ∷ near

  abbrev pub FrontFails : Front → Type 0
  FrontFails none = Unit
  FrontFails (some (front, bad)) = All Misses front × Stores false bad

  abbrev pub written : Front → List S → Fetched ops
  written none rest = (rest, some v, true)
  written (some (front, bad)) rest = (map got front ++ wrote bad ∷ rest, some v, false)

  step_missed :
      (s : S) (rest : List S)
      → Misses s
      → chain_get ops k (s ∷ rest) ≡ write_back ops k (got s) (chain_get ops k rest)
  unfolding chain_get chain_step
  step_missed s rest h = ap (λ o. chain_step ops k (got s, o) rest (chain_get ops k rest)) h

  step_wrote :
      (s : S) (b : Bool) (rest after : List S)
      → Stores b s
      → chain_get ops k rest ≡ (after, some v, true)
      → chain_get ops k (s ∷ rest) ≡ (wrote s ∷ after, some v, b)
  unfolding write_back
  step_wrote s b rest after (h, e) f =
      step_missed s rest h
      ∙ ap (write_back ops k (got s)) f
      ∙ ap (λ c. (wrote s ∷ after, some v, c)) e

  step_stopped :
      (front rest after : List S)
      → All Misses front
      → chain_get ops k rest ≡ (after, some v, false)
      → chain_get ops k (front ++ rest) ≡ (map got front ++ after, some v, false)
  unfolding write_back
  step_stopped [] rest after m f = f
  step_stopped (s ∷ front) rest after (h, m) f =
      step_missed s (front ++ rest) h
      ∙ ap (write_back ops k (got s)) (step_stopped front rest after m f)

  near_wrote :
      (near rest after : List S)
      → All (Stores true) near
      → chain_get ops k rest ≡ (after, some v, true)
      → chain_get ops k (near ++ rest) ≡ (map wrote near ++ after, some v, true)
  near_wrote [] rest after a f = f
  near_wrote (s ∷ near) rest after (h, a) f =
      step_wrote s true (near ++ rest) (map wrote near ++ after) h (near_wrote near rest after a f)

  found_lem :
      (s : S) (after : List S)
      → (ops.get s k).1 ≡ some v
      → chain_get ops k (s ∷ after) ≡ (got s ∷ after, some v, true)
  unfolding chain_get chain_step
  found_lem s after h = ap (λ o. chain_step ops k (got s, o) after (chain_get ops k after)) h

  -- For every chain whose providers miss the object up to one that has it: `Get` gives that one's
  -- object and calls none behind it. The object is put into those before it, from the nearest one on;
  -- a `Put` that fails is the last one, so of the providers in front of it each was only asked.
  pub chain_get-written :
      (o : Front) (near : List S) (s : S) (after : List S)
      → FrontFails o
      → All (Stores true) near
      → (ops.get s k).1 ≡ some v
      → chain_get ops k (providers_of o (near ++ s ∷ after))
        ≡ written o (map wrote near ++ got s ∷ after)
  chain_get-written none near s after f a h =
      near_wrote near (s ∷ after) (got s ∷ after) a (found_lem s after h)
  chain_get-written (some (front, bad)) near s after (m, f) a h =
      step_stopped front (bad ∷ (near ++ s ∷ after)) _ m (
        step_wrote bad false (near ++ s ∷ after) _ f
          (near_wrote near (s ∷ after) (got s ∷ after) a (found_lem s after h)))
