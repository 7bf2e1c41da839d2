-- ===== src/Storage/Heap.antt =====
-- `ExpirationHeap` of pkg/storage/local.go: a binary heap of expiration dates in a slice. A date is
-- a number of nanoseconds. An index that is out of range does not occur: every read is behind a
-- test against the length.
pub mod Sift
pub mod Order
pub mod Items
pub mod Size
use kubecc.Common.{
  ℕ, zero, suc, ◌+◌, ◌-◌, ◌*◌, ◌/◌, List, [], ◌∷◌, ◌++◌, Option, none, some, Bool, true, false,
  ◌&&◌, Str, length, get_or, set, take, ltb, ◌==◌, if◌then◌else◌,
}

pub record Entry : Type 0 where
  pub hash : Str
  pub date : ℕ

-- The zero `time.Time` and the empty hash.
abbrev pub no_entry : Entry
no_entry = record { hash = []; date = 0 }

abbrev pub at : List Entry → ℕ → ℕ
at h i = (get_or h i no_entry).date

unfoldable pub swap : List Entry → ℕ → ℕ → List Entry
swap h m n = set (set h m (get_or h n no_entry)) n (get_or h m no_entry)

-- `m` of the loop body: the earliest of the node and its children.
unfoldable pub earliest : List Entry → ℕ → ℕ
earliest h i =
    let l = 2 * i + 1 in
    let r = 2 * i + 2 in
    let m = if ltb l (length h) && ltb (at h l) (at h i) then l else i in
    if ltb r (length h) && ltb (at h r) (at h m) then r else m

-- The loop of `siftDown`. The index grows, so a fuel of the length is enough.
unfoldable pub sift_down : ℕ → List Entry → ℕ → List Entry
sift_down zero h i = h
sift_down (suc fuel) h i =
    let m = earliest h i in elim (m == i) [ true ↦ h | false ↦ sift_down fuel (swap h m i) m ]

-- The loop of `heapify`, from an index down to 0.
unfoldable pub heapify_from : ℕ → List Entry → List Entry
heapify_from zero h = sift_down (suc (length h)) h 0
heapify_from (suc i) h = heapify_from i (sift_down (suc (length h)) h (suc i))

unfoldable pub heapify : List Entry → List Entry
unfolding heapify_from
heapify h = heapify_from (length h / 2) h

unfoldable pub push : Str → ℕ → List Entry → List Entry
push hash date h =
    let h' = h ++ record { hash = hash; date = date } ∷ [] in heapify (swap h' (length h' - 1) 0)

unfoldable pub peek : List Entry → Str × ℕ
peek [] = ([], 0)
peek (e ∷ h) = (e.hash, e.date)

unfoldable pub pop : List Entry → Option Entry × List Entry
pop [] = (none, [])
pop (e ∷ h) =
    let last = get_or (e ∷ h) (length h) no_entry in
    (some e, heapify (take (length h) (set (e ∷ h) 0 last)))
