-- ===== src/Storage/Heap/Size.antt =====
-- The lengths that the operations of the heap of pkg/storage/local.go leave.
use kubecc.Common.{
  ℕ, zero, suc, ◌-◌, ◌/◌, ◌≡◌, refl, ◌∙◌, List, [], ◌∷◌, ◌++◌, Bool, true, false, Str, length,
  length-set, length-take, length-append, get_or, set, take, arith, ◌==◌,
}
use kubecc.Storage.Heap.{
  Entry, no_entry, swap, earliest, sift_down, heapify_from, heapify, push, pop,
}

length-swap : (h : List Entry) (m n : ℕ) → length (swap h m n) ≡ length h
unfolding swap
length-swap h m n =
    length-set (set h m (get_or h n no_entry)) n _ ∙ length-set h m (get_or h n no_entry)

length-branch :
    (b : Bool) (h k : List Entry)
    → length k ≡ length h
    → length (elim b [ true ↦ h | false ↦ k ]) ≡ length h
length-branch true h k e = refl
length-branch false h k e = e

length-sift_down : (fuel i : ℕ) (h : List Entry) → length (sift_down fuel h i) ≡ length h
unfolding sift_down
length-sift_down zero i h = refl
length-sift_down (suc fuel) i h =
    length-branch (earliest h i == i) h (sift_down fuel (swap h (earliest h i) i) (earliest h i)) (
      length-sift_down fuel (earliest h i) (swap h (earliest h i) i)
      ∙ length-swap h (earliest h i) i)

length-heapify_from : (i : ℕ) (h : List Entry) → length (heapify_from i h) ≡ length h
unfolding heapify_from
length-heapify_from zero h = length-sift_down (suc (length h)) 0 h
length-heapify_from (suc i) h =
    length-heapify_from i (sift_down (suc (length h)) h (suc i))
    ∙ length-sift_down (suc (length h)) (suc i) h

length-heapify : (h : List Entry) → length (heapify h) ≡ length h
unfolding heapify
length-heapify h = length-heapify_from (length h / 2) h

pub length-push :
    (hash : Str) (date : ℕ) (h : List Entry) → length (push hash date h) ≡ suc (length h)
unfolding push
length-push hash date h =
    let h' = h ++ record { hash = hash; date = date } ∷ [] in
    length-heapify (swap h' (length h' - 1) 0)
    ∙ length-swap h' (length h' - 1) 0
    ∙ omega (arith, length-append h (record { hash = hash; date = date } ∷ []))

pub length-pop : (h : List Entry) → length (pop h).1 ≡ length h - 1
unfolding pop
length-pop [] = omega arith
length-pop (e ∷ h) =
    let last = get_or (e ∷ h) (length h) no_entry in
    length-heapify (take (length h) (set (e ∷ h) 0 last))
    ∙ length-take (length h) (set (e ∷ h) 0 last)
    ∙ omega (arith, length-set (e ∷ h) 0 last)
