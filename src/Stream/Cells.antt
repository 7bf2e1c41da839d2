-- ===== src/Stream/Cells.antt =====
-- The cells of the ring of pkg/stream/ringlinebuffer.go that are read from a pointer on.
use kubecc.Common.{
  ℕ, zero, suc, ◌+◌, ◌-◌, ◌≤◌, ◌<◌, ◌≡◌, ◌≢◌, refl, ap, ◌∙◌, if◌then◌else◌, List, [], ◌∷◌, ◌++◌,
  Str, length, get_or, set, get_or-set_self, get_or-set_ne, leb, ltb, arith, drop,
}
use kubecc.Stream.{next, read_cells}

-- The cell that is some steps after a cell.
unfoldable pub slot : ℕ → ℕ → ℕ → ℕ
slot n i k = if ltb (i + k) n then i + k else i + k - n

-- How many steps one cell is after another.
unfoldable pub steps : ℕ → ℕ → ℕ → ℕ
steps n i j = if leb i j then j - i else j + n - i

pub next-lt : (n i : ℕ) → i < n → next n i < n
unfolding next
next-lt n i h = ground arith

slot-next : (n i k : ℕ) → i < n → k < n → slot n (next n i) k ≡ slot n i (suc k)
unfolding next slot
slot-next n i k h g = ground arith

pub next-slot : (n i k : ℕ) → i < n → k < n → next n (slot n i k) ≡ slot n i (suc k)
unfolding next slot
next-slot n i k h g = ground arith

slot-lt : (n i k : ℕ) → i < n → k ≤ n → slot n i k < n
unfolding slot
slot-lt n i k h g = ground arith

pub slot_zero : (n i : ℕ) → i < n → slot n i 0 ≡ i
unfolding slot
slot_zero n i h = ground arith

pub slot_full : (n i : ℕ) → i < n → slot n i n ≡ i
unfolding slot
slot_full n i h = ground arith

steps-slot : (n i k : ℕ) → i < n → k < n → steps n i (slot n i k) ≡ k
unfolding slot steps
steps-slot n i k h g = ground arith

steps-next : (n i j k : ℕ) → i < n → j < n → suc k ≤ steps n i j → k ≤ steps n (next n i) j
unfolding next steps
steps-next n i j k h g e = ground arith

steps_ne : (n i j k : ℕ) → i < n → suc k ≤ steps n i j → j ≢ i
unfolding steps
steps_ne n i j k h e = ground arith

-- All the way round from the next cell.
steps_around : (m i : ℕ) → i < suc m → m ≤ steps (suc m) (next (suc m) i) i
unfolding next steps
steps_around m i h = ground arith

pub length-read_cells : (n : ℕ) (cells : List Str) (k i : ℕ) → length (read_cells n cells k i) ≡ k
unfolding read_cells
length-read_cells n cells zero i = refl
length-read_cells n cells (suc k) i = ap suc (length-read_cells n cells k (next n i))

-- A write outside of the cells that are read is not read.
read_cells-set :
    (n : ℕ) (cells : List Str) (line : Str) (k i j : ℕ)
    → i < n
    → j < n
    → k ≤ steps n i j
    → read_cells n (set cells j line) k i ≡ read_cells n cells k i
unfolding read_cells
read_cells-set n cells line zero i j h g e = refl
read_cells-set n cells line (suc k) i j h g e =
    rw (get_or-set_ne cells j i line [] (steps_ne n i j k h e)) (
      ap (◌∷◌ (get_or cells i []))
        (read_cells-set n cells line k (next n i) j (next-lt n i h) g (steps-next n i j k h g e)))

-- The cell that is read last.
read_cells_snoc :
    (n : ℕ) (cells : List Str) (k i : ℕ)
    → i < n
    → k < n
    → read_cells n cells (suc k) i ≡ read_cells n cells k i ++ get_or cells (slot n i k) [] ∷ []
unfolding read_cells
read_cells_snoc n cells zero i h g = rw (slot_zero n i h) refl
read_cells_snoc n cells (suc k) i h g = ap (◌∷◌ (get_or cells i [])) (
    read_cells_snoc n cells k (next n i) (next-lt n i h) (omega arith)
    ∙ rw (slot-next n i k h (omega arith)) refl)

-- A buffer that is not full: the line is read after the others.
pub read_cells_added :
    (n : ℕ) (cells : List Str) (line : Str) (k i : ℕ)
    → i < n
    → k < n
    → length cells ≡ n
    → read_cells n (set cells (slot n i k) line) (suc k) i ≡ read_cells n cells k i ++ line ∷ []
read_cells_added n cells line k i h g e =
    read_cells_snoc n (set cells (slot n i k) line) k i h g
    ∙ rw
        (
          read_cells-set n cells line k i (slot n i k) h (slot-lt n i k h (omega arith))
              (omega (arith, steps-slot n i k h g)),
          get_or-set_self cells (slot n i k) line [] (omega (arith, slot-lt n i k h (omega arith))),
        )
        refl

-- A full buffer: the line takes the place of the first, and reading starts after it.
pub read_cells_replaced :
    (n : ℕ) (cells : List Str) (line : Str) (i : ℕ)
    → i < n
    → length cells ≡ n
    → read_cells n (set cells i line) n (next n i) ≡ drop 1 (read_cells n cells n i) ++ line ∷ []
unfolding read_cells
read_cells_replaced zero cells line i h e = absurd (omega arith)
read_cells_replaced (suc m) cells line i h e =
    let g : m < suc m = omega arith in
    let p = slot-next (suc m) i m h g ∙ slot_full (suc m) i h in
    read_cells_snoc (suc m) (set cells i line) m (next (suc m) i) (next-lt (suc m) i h) g
    ∙ rw
        (
          p,
          read_cells-set (suc m) cells line m (next (suc m) i) i (next-lt (suc m) i h) h
              (steps_around m i h),
          get_or-set_self cells i line [] (omega arith),
        )
        refl
