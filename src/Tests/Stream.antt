-- ===== src/Tests/Stream.antt =====
-- The theorems on the buffer of lines and on shortened identities at concrete inputs.
use kubecc.Common.{
  ℕ, zero, suc, refl, ap, List, map, take, replicate, ◌+◌, ◌≤◌, ◌<◌, ◌≡◌, [], ◌∷◌, Bool, true, Str,
  go, Returns, length, leb, arith,
}
use kubecc.Stream.{new_ring_line_buffer, line_count, max_lines_of, scan_lines, write, write_all}
use kubecc.Stream.Bounded.{Shows, lines_of, write_all-Shows}
use kubecc.Stream.Count.{KeepsLengths, newlines, write_bounds}

-- Three lines, the last one without its newline.
abbrev three_lines : Str
three_lines = 97 ∷ 10 ∷ 98 ∷ 13 ∷ 10 ∷ 99 ∷ []

abbrev zeros : ℕ → Str
zeros n = replicate n 0

-- Of a long write the first line is left, overwritten by zeros.
abbrev overwritten : Str → List Str
overwritten bytes = map (λ l. zeros (length l)) (take 1 (scan_lines bytes))

write_all-Shows_example :
    Returns
      (Shows 2 (lines_of (three_lines ∷ three_lines ∷ [])))
      (write_all overwritten (new_ring_line_buffer 2) (three_lines ∷ three_lines ∷ []))
write_all-Shows_example =
    write_all-Shows overwritten 2 (three_lines ∷ three_lines ∷ []) (omega arith)
      (omega arith, (omega arith, tt))

new_sizes :
    (0 < max_lines_of (new_ring_line_buffer 2))
    × (line_count (new_ring_line_buffer 2) ≤ max_lines_of (new_ring_line_buffer 2))
unfolding max_lines_of line_count new_ring_line_buffer
new_sizes = (omega arith, omega arith)

length-zeros : (n : ℕ) → length (zeros n) ≡ n
length-zeros zero = refl
length-zeros (suc n) = ap suc (length-zeros n)

overwritten_lem : KeepsLengths overwritten
overwritten_lem bytes = (1, first (scan_lines bytes))
  where
    first :
        (ls : List Str)
        → map length (map (λ l. zeros (length l)) (take 1 ls)) ≡ take 1 (map length ls)
    first [] = refl
    first (l ∷ ls) = ap (λ n. n ∷ []) (length-zeros (length l))

write_bounds_example :
    Returns
      (λ r. (line_count r.0 ≤ max_lines_of r.0) × (r.1 + newlines three_lines ≤ length three_lines))
      (write overwritten (new_ring_line_buffer 2) three_lines)
write_bounds_example =
    write_bounds overwritten (new_ring_line_buffer 2) three_lines overwritten_lem new_sizes.0
      new_sizes.1

-- The texts of at least 32 bytes.
abbrev is_long : Str → Bool
is_long s = leb 32 (length s)

abbrev identity : Str
identity = go "01234567-89ab-cdef-0123-456789abcdef"

is_long-le : (s : Str) → is_long s ≡ true → 32 ≤ length s
is_long-le s h = ground arith
