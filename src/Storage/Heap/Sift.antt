-- ===== src/Storage/Heap/Sift.antt =====
-- `siftDown` of pkg/storage/local.go and the order below one node.
use kubecc.Common.{
  ℕ, zero, suc, ◌+◌, ◌-◌, ◌*◌, ◌≤◌, ◌<◌, ◌≡◌, ap, ◌∙◌, ◌≢◌, ◌⊎◌, inl, inr, List, arith, length,
  length-set, get_or, get_or-set_self, get_or-set_ne, set, ◌==◌, ==_iff, ≢→==-false, if◌then◌else◌,
}
use native.Mathlib.Decide.{ℕ_discrete}
use kubecc.Storage.Heap.{Entry, no_entry, at, swap, earliest, sift_down}

-- The node `p` is no later than its children.
abbrev pub IsOrderedAt : List Entry → ℕ → Type 0
IsOrderedAt h p =
    (2 * p + 1 < length h → at h p ≤ at h (2 * p + 1))
    × (2 * p + 2 < length h → at h p ≤ at h (2 * p + 2))

-- Every node from `k` on is in order.
abbrev pub IsHeapFrom : ℕ → List Entry → Type 0
IsHeapFrom k h = (p : ℕ) → k ≤ p → IsOrderedAt h p

-- In order from `k` on but at `j`, whose children are no earlier than its parent.
abbrev pub IsHeapBut : ℕ → ℕ → List Entry → Type 0
IsHeapBut k j h =
    ((p : ℕ) → k ≤ p → p ≢ j → IsOrderedAt h p)
    × ((p : ℕ)
        → k ≤ p
        → (j ≡ 2 * p + 1) ⊎ (j ≡ 2 * p + 2)
        → (2 * j + 1 < length h → at h p ≤ at h (2 * j + 1))
          × (2 * j + 2 < length h → at h p ≤ at h (2 * j + 2)))

pub length-swap : (h : List Entry) (m n : ℕ) → length (swap h m n) ≡ length h
unfolding swap
length-swap h m n = length-set (set h m _) n _ ∙ length-set h m _

at-swap :
    (h : List Entry) (m n x : ℕ)
    → m < length h
    → n < length h
    → at (swap h m n) x ≡ (if x == n then at h m else if x == m then at h n else at h x)
unfolding swap
at-swap h m n x hm hn = ground (
  arith,
  ap (λ (e : Entry). e.date)
      (get_or-set_self (set h m (get_or h n no_entry)) n (get_or h m no_entry) no_entry
        (omega (arith, length-set h m (get_or h n no_entry)))),
  get_or-set_ne (set h m (get_or h n no_entry)) n x (get_or h m no_entry) no_entry,
  get_or-set_ne h m x (get_or h n no_entry) no_entry,
  get_or-set_self h m (get_or h n no_entry) no_entry hm,
)

-- The node that the loop goes on with is the earliest of the three.
pub earliest_lem :
    (h : List Entry) (i : ℕ)
    → ((earliest h i ≡ i) × IsOrderedAt h i)
      ⊎ ((earliest h i ≢ i)
          × ((earliest h i ≡ 2 * i + 1) ⊎ (earliest h i ≡ 2 * i + 2))
          × (earliest h i < length h)
          × (at h (earliest h i) < at h i)
          × (2 * i + 1 < length h → at h (earliest h i) ≤ at h (2 * i + 1))
          × (2 * i + 2 < length h → at h (earliest h i) ≤ at h (2 * i + 2)))
unfolding earliest
earliest_lem h i = ground arith

module _ (k j : ℕ) (h : List Entry) (k-le : k ≤ j) (inside : j < length h) where
  abbrev m : ℕ
  m = earliest h j

  swap-ordered :
      (p : ℕ)
      → IsHeapBut k j h
      → m ≢ j
      → (m ≡ 2 * j + 1) ⊎ (m ≡ 2 * j + 2)
      → m < length h
      → at h m < at h j
      → (2 * j + 1 < length h → at h m ≤ at h (2 * j + 1))
      → (2 * j + 2 < length h → at h m ≤ at h (2 * j + 2))
      → k ≤ p
      → p ≢ m
      → IsOrderedAt (swap h m j) p
  swap-ordered p v ne child below lower left right kp pm = ground (
    arith,
    length-swap h m j,
    at-swap h m j p below inside,
    at-swap h m j (2 * p + 1) below inside,
    at-swap h m j (2 * p + 2) below inside,
    v.0 p kp,
    v.1 p kp,
  )

  swap-grandchildren :
      (p : ℕ)
      → IsHeapBut k j h
      → m ≢ j
      → (m ≡ 2 * j + 1) ⊎ (m ≡ 2 * j + 2)
      → m < length h
      → k ≤ p
      → (m ≡ 2 * p + 1) ⊎ (m ≡ 2 * p + 2)
      → (2 * m + 1 < length (swap h m j) → at (swap h m j) p ≤ at (swap h m j) (2 * m + 1))
        × (2 * m + 2 < length (swap h m j) → at (swap h m j) p ≤ at (swap h m j) (2 * m + 2))
  swap-grandchildren p v ne child below kp pm = ground (
    arith,
    length-swap h m j,
    at-swap h m j p below inside,
    at-swap h m j (2 * m + 1) below inside,
    at-swap h m j (2 * m + 2) below inside,
    v.0 m,
  )

-- With a fuel above the distance to the end, the loop restores the order.
pub sift_down-IsHeapFrom :
    (fuel k j : ℕ) (h : List Entry)
    → length h - j < fuel
    → k ≤ j
    → j < length h
    → IsHeapBut k j h
    → IsHeapFrom k (sift_down fuel h j)
unfolding sift_down
sift_down-IsHeapFrom zero k j h enough kj inside v = absurd (omega arith)
sift_down-IsHeapFrom (suc fuel) k j h enough kj inside v = elim (earliest_lem h j) [
  | inl (stay, ordered) ↦
      rw ((==_iff _ _).1 stay, sift_down)
        (λ p kp. elim (ℕ_discrete p j) [ yes e ↦ rw e ordered | no ne ↦ v.0 p kp ne ])
  | inr (ne, child, below, lower, left, right) ↦
      rw (≢→==-false _ _ ne, sift_down)
        (sift_down-IsHeapFrom fuel k (earliest h j) (swap h (earliest h j) j)
          (omega (arith, length-swap h (earliest h j) j)) (omega arith)
          (omega (arith, length-swap h (earliest h j) j))
          (
            λ p kp pm. swap-ordered k j h kj inside p v ne child below lower left right kp pm,
            λ p kp pm. swap-grandchildren k j h kj inside p v ne child below kp pm,
          ))
]
