-- ===== src/Stream.antt =====
-- `RingLineBuffer` of pkg/stream/ringlinebuffer.go. The ring of `container/ring` is a list of cells and
-- its pointers are indexes; an empty ring is a nil pointer. The lines are slices of the scanner's buffer.
-- Data of at most 2048 bytes the scanner neither refuses nor moves inside its buffer, so their lines stay
-- as they were read; what the slices of longer data hold when `Write` returns is a parameter.
pub mod Cells
pub mod Bounded
pub mod Count
use kubecc.Common.{
  ℕ, zero, suc, ◌+◌, ◌==◌, if◌then◌else◌, List, [], ◌∷◌, ◌++◌, Bool, true, false, Str, Checked, ok,
  panic, length, get_or, set, replicate, ltb, leb,
}

pub record RingLineBuffer : Type 0 where
  pub max_lines : ℕ
  pub cur_lines : ℕ
  pub first : ℕ
  pub last : ℕ
  pub cells : List Str

unfoldable pub new_ring_line_buffer : ℕ → RingLineBuffer
new_ring_line_buffer max = record {
  max_lines = max;
  cur_lines = 0;
  first = 0;
  last = 0;
  cells = replicate max [];
}

-- `Next` in a ring of a size.
unfoldable pub next : ℕ → ℕ → ℕ
next n i = if suc i == n then 0 else suc i

-- `writeLine` through a pointer that is not nil.
unfoldable pub write_cell : RingLineBuffer → Str → RingLineBuffer
write_cell b line =
    let last = next b.max_lines b.last in
    let c = record b { cells = set b.cells b.last line; last = last } in
    if ltb b.cur_lines b.max_lines
    then record c { cur_lines = b.cur_lines + 1 }
    else record c { first = last }

unfoldable pub write_line : RingLineBuffer → Str → Checked RingLineBuffer
write_line b line = if b.max_lines == 0 then panic else ok (write_cell b line)

-- A line without the carriage return at its end.
unfoldable pub drop_cr : Str → Str
drop_cr [] = []
drop_cr (c ∷ []) = if c == 13 then [] else c ∷ []
drop_cr (c ∷ d ∷ s) = c ∷ drop_cr (d ∷ s)

-- `bufio.ScanLines`: the lines of the data, from those bytes of the first line that were read.
unfoldable pub scan_from : Str → Str → List Str
scan_from [] [] = []
scan_from (c ∷ line) [] = drop_cr (c ∷ line) ∷ []
scan_from line (c ∷ bytes) =
    let rest = scan_from [] bytes in
    let more = scan_from (line ++ c ∷ []) bytes in if c == 10 then drop_cr line ∷ rest else more

unfoldable pub scan_lines : Str → List Str
unfolding scan_from
scan_lines bytes = scan_from [] bytes

unfoldable pub write_lines : RingLineBuffer → List Str → ℕ → Checked (RingLineBuffer × ℕ)
write_lines b [] total = ok (b, total)
write_lines b (line ∷ lines) total = elim (write_line b line) [
  | ok c ↦ write_lines c lines (total + length line)
  | panic ↦ panic
]

-- The data that the scanner splits as they are.
abbrev pub scanned_at_once : ℕ
scanned_at_once = 2048

module _ (left : Str → List Str) where
  -- The lines of a write, as they are when it returns.
  unfoldable pub lines_left : Str → List Str
  lines_left bytes = if leb (length bytes) scanned_at_once then scan_lines bytes else left bytes

  -- `Write`: the buffer and the count that it returns.
  unfoldable pub write : RingLineBuffer → Str → Checked (RingLineBuffer × ℕ)
  write b bytes = write_lines b (lines_left bytes) 0

unfoldable pub line_count : RingLineBuffer → ℕ
line_count b = b.cur_lines

unfoldable pub max_lines_of : RingLineBuffer → ℕ
max_lines_of b = b.max_lines

-- The lines from a cell on.
unfoldable pub read_cells : ℕ → List Str → ℕ → ℕ → List Str
read_cells n cells zero cur = []
read_cells n cells (suc k) cur = get_or cells cur [] ∷ read_cells n cells k (next n cur)

-- What `Foreach` calls its function with, in order.
unfoldable pub foreach : RingLineBuffer → List Str
foreach b = read_cells b.max_lines b.cells b.cur_lines b.first

-- Writes one after the other.
unfoldable pub write_all : (Str → List Str) → RingLineBuffer → List Str → Checked RingLineBuffer
write_all left b [] = ok b
write_all left b (bytes ∷ rest) = elim (write left b bytes) [
  | ok c ↦ write_all left c.0 rest
  | panic ↦ panic
]
