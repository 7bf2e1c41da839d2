-- ===== src/Storage/Heap/Items.antt =====
-- The operations of the `ExpirationHeap` of pkg/storage/local.go on its multiset of entries.
use mathlib.Core.List.{Perm, perm_middle, append-nil}
use mathlib.Core.List.Perm
use kubecc.Common.{
  ℕ, zero, suc, ◌/◌, ◌≤◌, ◌<◌, ◌≡◌, refl, inl, inr, List, [], ◌∷◌, ◌++◌, arith, length, All, ==_iff,
  ≢→==-false, Str, some, get_or, set, take, length-append,
}
use kubecc.Storage.Heap.{
  Entry, no_entry, at, swap, earliest, sift_down, heapify_from, heapify, push, pop,
}
use kubecc.Storage.Heap.Sift.{earliest_lem}
use kubecc.Storage.Heap.Order.{IsHeap, heapify-IsHeap, root_earliest}

exchange-Perm :
    (h : List Entry) (j : ℕ) (x : Entry)
    → j < length h
    → Perm (get_or h j no_entry ∷ set h j x) (x ∷ h)
exchange-Perm [] j x inside = absurd (omega arith)
exchange-Perm (y ∷ h) zero x inside = Perm.swap x y h
exchange-Perm (y ∷ h) (suc j) x inside =
    Perm.trans (Perm.swap y (get_or h j no_entry) (set h j x))
      (Perm.trans (Perm.cons y (exchange-Perm h j x (omega arith))) (Perm.swap x y h))

swap-Perm : (h : List Entry) (m n : ℕ) → m < length h → n < length h → Perm (swap h m n) h
unfolding swap
swap-Perm [] m n hm hn = absurd (omega arith)
swap-Perm (x ∷ h) zero zero hm hn = Perm.refl (x ∷ h)
swap-Perm (x ∷ h) zero (suc n) hm hn = exchange-Perm h n x (omega arith)
swap-Perm (x ∷ h) (suc m) zero hm hn = exchange-Perm h m x (omega arith)
swap-Perm (x ∷ h) (suc m) (suc n) hm hn = Perm.cons x (swap-Perm h m n (omega arith) (omega arith))

sift_down-Perm : (fuel j : ℕ) (h : List Entry) → Perm (sift_down fuel h j) h
unfolding sift_down
sift_down-Perm zero j h = Perm.refl h
sift_down-Perm (suc fuel) j h = elim (earliest_lem h j) [
  | inl (stay, _) ↦ rw ((==_iff _ _).1 stay, sift_down) (Perm.refl h)
  | inr (ne, child, below, _, _, _) ↦
      rw (≢→==-false _ _ ne, sift_down)
        (Perm.trans (sift_down-Perm fuel (earliest h j) (swap h (earliest h j) j))
          (swap-Perm h (earliest h j) j below (omega arith)))
]

heapify_from-Perm : (i : ℕ) (h : List Entry) → Perm (heapify_from i h) h
unfolding heapify_from
heapify_from-Perm zero h = sift_down-Perm (suc (length h)) 0 h
heapify_from-Perm (suc i) h =
    Perm.trans (heapify_from-Perm i (sift_down (suc (length h)) h (suc i)))
      (sift_down-Perm (suc (length h)) (suc i) h)

heapify-Perm : (h : List Entry) → Perm (heapify h) h
unfolding heapify
heapify-Perm h = heapify_from-Perm (length h / 2) h

-- For every list of entries, `Push` leaves a heap, whose entries are those of the list and the new
-- one, in some order.
pub push_refines :
    (hash : Str) (date : ℕ) (h : List Entry)
    → IsHeap (push hash date h) × Perm (push hash date h) (record { hash = hash; date = date } ∷ h)
unfolding push
push_refines hash date h =
    let e : Entry = record { hash = hash; date = date } in
    (
      heapify-IsHeap _,
      Perm.trans (heapify-Perm _) (
          Perm.trans
            (swap-Perm (h ++ e ∷ []) _ 0 (omega (arith, length-append h (e ∷ [])))
              (omega (arith, length-append h (e ∷ []))))
            (rw (append-nil h) at (perm_middle {a = e} h []))),
    )

take_last-Perm :
    (f : Entry) (h : List Entry)
    → Perm (get_or (f ∷ h) (length h) no_entry ∷ take (length h) (f ∷ h)) (f ∷ h)
take_last-Perm f [] = Perm.refl (f ∷ [])
take_last-Perm f (g ∷ h) =
    Perm.trans (Perm.swap f (get_or (g ∷ h) (length h) no_entry) (take (length h) (g ∷ h)))
      (Perm.cons f (take_last-Perm g h))

rest-Perm :
    (e : Entry) (h : List Entry)
    → Perm (take (length h) (set (e ∷ h) 0 (get_or (e ∷ h) (length h) no_entry))) h
rest-Perm e [] = Perm.refl []
rest-Perm e (f ∷ h) = take_last-Perm f h

earliest-All :
    (d : ℕ) (h : List Entry) → ((i : ℕ) → i < length h → d ≤ at h i) → All (λ x. d ≤ x.date) h
earliest-All d [] all = tt
earliest-All d (e ∷ h) all =
    (all 0 (omega arith), earliest-All d h (λ i inside. all (suc i) (omega arith)))

-- Of a heap that is not empty: `Pop` returns its first entry, which is no later than any entry, and
-- leaves a heap of the other entries, in some order.
pub pop_refines :
    (e : Entry) (h : List Entry)
    → IsHeap (e ∷ h)
    → (h' : List Entry) × (pop (e ∷ h) ≡ (some e, h'))
      × IsHeap h'
      × Perm h' h
      × All (λ x. e.date ≤ x.date) (e ∷ h)
unfolding pop
pop_refines e h v = (
  _,
  refl,
  heapify-IsHeap _,
  Perm.trans (heapify-Perm _) (rest-Perm e h),
  earliest-All e.date (e ∷ h) (λ i inside. root_earliest (e ∷ h) i v inside),
)
