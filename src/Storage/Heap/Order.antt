-- ===== src/Storage/Heap/Order.antt =====
-- The order of the `ExpirationHeap` of pkg/storage/local.go.
use kubecc.Common.{
  ℕ, zero, suc, ◌+◌, ◌-◌, ◌*◌, ◌/◌, ◌≤◌, ◌<◌, ◌≡◌, refl, ◌≢◌, ◌⊎◌, inl, inr, List, arith, length,
  ==_iff,
}
use native.Mathlib.Decide.{dec_lt, ℕ_discrete}
use kubecc.Storage.Heap.{Entry, at, sift_down, heapify_from, heapify}
use kubecc.Storage.Heap.Sift.{IsHeapFrom, earliest_lem, sift_down-IsHeapFrom}

abbrev pub IsHeap : List Entry → Type 0
IsHeap = IsHeapFrom 0

sift_down_outside : (fuel j : ℕ) (h : List Entry) → length h ≤ j → sift_down (suc fuel) h j ≡ h
unfolding sift_down
sift_down_outside fuel j h out = elim (earliest_lem h j) [
  | inl (stay, _) ↦ rw ((==_iff _ _).1 stay, sift_down) refl
  | inr (_, child, below, _, _, _) ↦ absurd (omega arith)
]

-- One step of the loop of `heapify`.
sift_down_next :
    (j : ℕ) (h : List Entry) → IsHeapFrom (suc j) h → IsHeapFrom j (sift_down (suc (length h)) h j)
sift_down_next j h v = elim (dec_lt j (length h)) [
  | yes inside ↦
      sift_down-IsHeapFrom (suc (length h)) j j h (omega arith) (omega arith) inside
        (λ p kp ne. v p (omega arith), λ p kp child. absurd (omega arith))
  | no out ↦ rw (sift_down_outside (length h) j h (omega arith)) (λ p kp. omega arith)
]

heapify_from-IsHeap : (i : ℕ) (h : List Entry) → IsHeapFrom (suc i) h → IsHeap (heapify_from i h)
unfolding heapify_from
heapify_from-IsHeap zero h v = sift_down_next 0 h v
heapify_from-IsHeap (suc i) h v =
    heapify_from-IsHeap i (sift_down (suc (length h)) h (suc i)) (sift_down_next (suc i) h v)

-- For every list of entries, whatever its order: `heapify` leaves a heap, in which no node is later
-- than its children.
pub heapify-IsHeap : (h : List Entry) → IsHeap (heapify h)
unfolding heapify
heapify-IsHeap h = heapify_from-IsHeap (length h / 2) h (λ p kp. omega arith)

root_below : (fuel i : ℕ) (h : List Entry) → IsHeap h → i < fuel → i < length h → at h 0 ≤ at h i
root_below zero i h v enough inside = absurd (omega arith)
root_below (suc fuel) i h v enough inside = elim (ℕ_discrete i 0) [
  | yes e ↦ rw e (omega arith)
  | no ne ↦
      ground (arith, root_below fuel ((i - 1) / 2) h v, v ((i - 1) / 2) (omega arith), parent i ne)
]
  where
    parent : (i : ℕ) → i ≢ 0 → (i ≡ 2 * ((i - 1) / 2) + 1) ⊎ (i ≡ 2 * ((i - 1) / 2) + 2)
    parent i ne = omega arith

-- The first entry of a heap is no later than any other.
pub root_earliest : (h : List Entry) (i : ℕ) → IsHeap h → i < length h → at h 0 ≤ at h i
root_earliest h i v inside = root_below (suc i) i h v (omega arith) inside
