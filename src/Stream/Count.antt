-- ===== src/Stream/Count.antt =====
-- The count that `Write` of pkg/stream/ringlinebuffer.go returns, and the number of its lines.
use kubecc.Common.{
  map, take, leb, zero, ap, ℕ, suc, ◌+◌, ◌≤◌, ◌<◌, ◌≡◌, refl, inl, inr, if◌then◌else◌, List, [],
  ◌∷◌, ◌++◌, Str, Checked, ok, panic, Returns, length, length-append, ◌==◌, arith, Bool-cases,
  ≢→==-false,
}
use kubecc.Stream.{
  RingLineBuffer, write_cell, write_line, drop_cr, scan_from, scan_lines, write_lines,
  scanned_at_once, lines_left, write, line_count, max_lines_of,
}

-- The bytes of some lines.
unfoldable pub total_of : List Str → ℕ
total_of [] = 0
total_of (l ∷ ls) = length l + total_of ls

unfoldable pub newlines : Str → ℕ
newlines [] = 0
newlines (c ∷ bytes) = if c == 10 then suc (newlines bytes) else newlines bytes

length-drop_cr : (l : Str) → length (drop_cr l) ≤ length l
unfolding drop_cr
length-drop_cr [] = omega arith
length-drop_cr (c ∷ []) = ground arith
length-drop_cr (c ∷ d ∷ s) = omega (arith, length-drop_cr (d ∷ s))

total_of-scan_from :
    (bytes line : Str)
    → total_of (scan_from line bytes) + newlines bytes ≤ length line + length bytes
unfolding scan_from total_of newlines
total_of-scan_from [] [] = omega arith
total_of-scan_from [] (c ∷ line) = omega (arith, length-drop_cr (c ∷ line))
total_of-scan_from (c ∷ bytes) [] = elim (Bool-cases (c == 10)) [
  | inl e ↦ rw e (omega (arith, length-drop_cr [], total_of-scan_from bytes []))
  | inr e ↦ rw e (omega (arith, total_of-scan_from bytes (c ∷ [])))
]
total_of-scan_from (c ∷ bytes) (d ∷ line) = elim (Bool-cases (c == 10)) [
  | inl e ↦ rw e (omega (arith, length-drop_cr (d ∷ line), total_of-scan_from bytes []))
  | inr e ↦
      rw e
        (omega (arith, total_of-scan_from bytes (d ∷ line ++ c ∷ []), length-append line (c ∷ [])))
]

-- The lines of a buffer fit.
abbrev pub Fits : RingLineBuffer → Type 0
Fits b = line_count b ≤ max_lines_of b

write_cell-Fits : (b : RingLineBuffer) (l : Str) → Fits b → Fits (write_cell b l)
unfolding write_cell line_count max_lines_of
write_cell-Fits b l h = ground arith

write_line_ok :
    (b : RingLineBuffer) (l : Str) → 0 < max_lines_of b → write_line b l ≡ ok (write_cell b l)
unfolding write_line max_lines_of
write_line_ok b l h = rw (≢→==-false b.max_lines 0 (λ e. ground arith)) refl

max_lines_of-write_cell :
    (b : RingLineBuffer) (l : Str) → max_lines_of (write_cell b l) ≡ max_lines_of b
unfolding write_cell max_lines_of
max_lines_of-write_cell b l = ground arith

-- A result of a call, weakened.
weaken :
    (P Q : RingLineBuffer × ℕ → Type 0) (c : Checked (RingLineBuffer × ℕ))
    → ((r : RingLineBuffer × ℕ) → P r → Q r)
    → Returns P c
    → Returns Q c
weaken P Q (ok r) f h = f r h
weaken P Q panic f h = h

write_lines-total :
    (ls : List Str) (b : RingLineBuffer) (total : ℕ)
    → 0 < max_lines_of b
    → Fits b
    → Returns (λ r. (r.1 ≡ total + total_of ls) × Fits r.0) (write_lines b ls total)
unfolding write_lines total_of
write_lines-total [] b total h f = (omega arith, f)
write_lines-total (l ∷ ls) b total h f =
    rw (Returns, write_line_ok b l h)
      (weaken (λ r. (r.1 ≡ total + length l + total_of ls) × Fits r.0) _ _
        (λ r p. (omega (arith, p.0), p.1))
        (write_lines-total ls (write_cell b l) (total + length l)
          (omega (arith, max_lines_of-write_cell b l)) (write_cell-Fits b l f)))

scan_lines-total : (bytes : Str) → total_of (scan_lines bytes) + newlines bytes ≤ length bytes
unfolding scan_lines
scan_lines-total bytes = omega (arith, total_of-scan_from bytes [])

-- What the slices of the scanner's buffer keep, however it is overwritten: they are those of the first
-- lines, up to one that the scanner refuses, with their lengths.
abbrev pub KeepsLengths : (Str → List Str) → Type 0
KeepsLengths left =
    (bytes : Str) → (n : ℕ) × (map length (left bytes) ≡ take n (map length (scan_lines bytes)))

abbrev sum : List ℕ → ℕ
sum [] = 0
sum (n ∷ ns) = n + sum ns

total_of-sum : (ls : List Str) → total_of ls ≡ sum (map length ls)
unfolding total_of
total_of-sum [] = refl
total_of-sum (l ∷ ls) = ap (λ n. length l + n) (total_of-sum ls)

sum-take : (n : ℕ) (ns : List ℕ) → sum (take n ns) ≤ sum ns
sum-take zero ns = omega arith
sum-take (suc n) [] = omega arith
sum-take (suc n) (m ∷ ns) = omega (arith, sum-take n ns)

lines_left-total :
    (left : Str → List Str) (bytes : Str)
    → KeepsLengths left
    → total_of (lines_left left bytes) ≤ total_of (scan_lines bytes)
unfolding lines_left
lines_left-total left bytes k = elim (Bool-cases (leb (length bytes) scanned_at_once)) [
  | inl e ↦ rw e (omega arith)
  | inr e ↦
      let (n, same) = k bytes in
      rw e (
        omega (
          arith,
          total_of-sum (left bytes),
          total_of-sum (scan_lines bytes),
          ap sum same,
          sum-take n (map length (scan_lines bytes)),
        ))
]

-- For every write, short or long, to a buffer whose size is not 0 and whose lines fit: it does not
-- panic, the lines fit afterwards, and the count that it returns and the newlines among the bytes are
-- together no more than the bytes. Of the slices of a long write it is used that they keep their
-- lengths and are those of its first lines.
pub write_bounds :
    (left : Str → List Str) (b : RingLineBuffer) (bytes : Str)
    → KeepsLengths left
    → 0 < max_lines_of b
    → line_count b ≤ max_lines_of b
    → Returns
        (λ r. (line_count r.0 ≤ max_lines_of r.0) × (r.1 + newlines bytes ≤ length bytes))
        (write left b bytes)
unfolding write
write_bounds left b bytes k h f =
    weaken (λ r. (r.1 ≡ 0 + total_of (lines_left left bytes)) × Fits r.0) _ _
      (λ r p. (p.1, omega (arith, p.0, lines_left-total left bytes k, scan_lines-total bytes)))
      (write_lines-total (lines_left left bytes) b 0 h f)
