-- ===== src/Stream/Bounded.antt =====
-- The buffer of pkg/stream/ringlinebuffer.go against the list of all lines that were written.
use kubecc.Common.{
  All, leb, true, ℕ, zero, suc, ◌+◌, ◌-◌, ◌≤◌, ◌<◌, ◌≡◌, refl, ap, sym, ◌∙◌, subst, inl, inr, List,
  [], ◌∷◌, ◌++◌, Str, Checked, ok, panic, Returns, length, set, length-set, length-append,
  length-drop, replicate, drop, ltb, arith, Bool-cases, ltb→lt, ltb-false→le, ≢→==-false,
}
use kubecc.Stream.{
  RingLineBuffer, new_ring_line_buffer, next, write_cell, write_line, scan_lines, write_lines,
  scanned_at_once, lines_left, write, line_count, max_lines_of, read_cells, foreach, write_all,
}
use kubecc.Stream.Cells.{
  slot, slot_zero, slot_full, next-lt, next-slot, length-read_cells, read_cells_added,
  read_cells_replaced,
}

-- The last elements of a list, at most a number of them.
abbrev pub last_n : ℕ → List Str → List Str
last_n n xs = drop (length xs - n) xs

-- The lines of a sequence of writes.
unfoldable pub lines_of : List Str → List Str
lines_of [] = []
lines_of (bytes ∷ rest) = scan_lines bytes ++ lines_of rest

abbrev no_lines : List Str
no_lines = []

drop_nil : (k : ℕ) → no_lines ≡ drop k no_lines
drop_nil zero = refl
drop_nil (suc k) = refl

drop_more : (k : ℕ) (xs : List Str) → drop 1 (drop k xs) ≡ drop (suc k) xs
drop_more zero xs = refl
drop_more (suc k) [] = refl
drop_more (suc k) (x ∷ xs) = drop_more k xs

drop-append : (k : ℕ) (xs ys : List Str) → k ≤ length xs → drop k (xs ++ ys) ≡ drop k xs ++ ys
drop-append zero xs ys h = refl
drop-append (suc k) [] ys h = absurd (omega arith)
drop-append (suc k) (x ∷ xs) ys h = drop-append k xs ys (omega arith)

append_one_more : (xs ys : List Str) (l : Str) → (xs ++ l ∷ []) ++ ys ≡ xs ++ l ∷ ys
append_one_more [] ys l = refl
append_one_more (x ∷ xs) ys l = ap (◌∷◌ x) (append_one_more xs ys l)

append_nil : (xs : List Str) → xs ++ [] ≡ xs
append_nil [] = refl
append_nil (x ∷ xs) = ap (◌∷◌ x) (append_nil xs)

append_assoc : (xs ys zs : List Str) → (xs ++ ys) ++ zs ≡ xs ++ (ys ++ zs)
append_assoc [] ys zs = refl
append_assoc (x ∷ xs) ys zs = ap (◌∷◌ x) (append_assoc xs ys zs)

length-last_n : (n : ℕ) (xs : List Str) → n ≤ length xs → length (last_n n xs) ≡ n
length-last_n n xs h = length-drop (length xs - n) xs ∙ omega arith

last_n_short :
    (n : ℕ) (xs : List Str) (l : Str)
    → length xs < n
    → last_n n (xs ++ l ∷ []) ≡ last_n n xs ++ l ∷ []
last_n_short n xs l h =
    let e : length (xs ++ l ∷ []) - n ≡ 0 = omega (arith, length-append xs (l ∷ [])) in
    let f : length xs - n ≡ 0 = omega arith in rw (e, f) refl

last_n_full :
    (n : ℕ) (xs : List Str) (l : Str)
    → 0 < n
    → n ≤ length xs
    → last_n n (xs ++ l ∷ []) ≡ drop 1 (last_n n xs) ++ l ∷ []
last_n_full n xs l h g =
    let e : length (xs ++ l ∷ []) - n ≡ suc (length xs - n) =
      omega (arith, length-append xs (l ∷ [])) in
    rw (e, drop_more (length xs - n) xs)
      (drop-append (suc (length xs - n)) xs (l ∷ []) (omega arith))

-- The buffer holds the last of the lines.
pub record Represents (b : RingLineBuffer) (xs : List Str) : Type 0 where
  pub cells : length b.cells ≡ b.max_lines
  pub first : b.first < b.max_lines
  pub last : b.last ≡ slot b.max_lines b.first b.cur_lines
  pub count : b.cur_lines ≡ length (last_n b.max_lines xs)
  pub lines : read_cells b.max_lines b.cells b.cur_lines b.first ≡ last_n b.max_lines xs

-- A line is added to a buffer that is not full.
added :
    (b : RingLineBuffer) (xs : List Str) (l : Str)
    → b.cur_lines < b.max_lines
    → Represents b xs
    → Represents
        (record b {
          cells = set b.cells b.last l;
          last = next b.max_lines b.last;
          cur_lines = b.cur_lines + 1;
        })
        (xs ++ l ∷ [])
added b xs l g r =
    let n = b.max_lines in
    let p : b.cur_lines + 1 ≡ suc b.cur_lines = omega arith in
    let q : length xs < n = omega (arith, r.count, length-drop (length xs - n) xs) in
    record {
      cells = length-set b.cells b.last l ∙ r.cells;
      first = r.first;
      last =
          ap (next n) r.last
          ∙ next-slot n b.first b.cur_lines r.first g
          ∙ ap (slot n b.first) (sym p);
      count = omega (
        arith,
        r.count,
        length-drop (length xs - n) xs,
        length-append xs (l ∷ []),
        length-drop (length (xs ++ l ∷ []) - n) (xs ++ l ∷ []),
      );
      lines =
          ap (λ j. read_cells n (set b.cells j l) (b.cur_lines + 1) b.first) r.last
          ∙ ap (λ k. read_cells n (set b.cells (slot n b.first b.cur_lines) l) k b.first) p
          ∙ read_cells_added n b.cells l b.cur_lines b.first r.first g r.cells
          ∙ ap (λ ys. ys ++ l ∷ []) r.lines
          ∙ sym (last_n_short n xs l q);
    }

-- A line takes the place of the first one of a full buffer.
replaced :
    (b : RingLineBuffer) (xs : List Str) (l : Str)
    → b.max_lines ≤ b.cur_lines
    → Represents b xs
    → Represents
        (record b {
          cells = set b.cells b.last l;
          last = next b.max_lines b.last;
          first = next b.max_lines b.last;
        })
        (xs ++ l ∷ [])
replaced b xs l g r =
    let n = b.max_lines in
    let d = length-drop (length xs - n) xs in
    let p : b.cur_lines ≡ n = omega (arith, r.count, d) in
    let q : n ≤ length xs = omega (arith, r.count, d) in
    let e : b.last ≡ b.first = r.last ∙ ap (slot n b.first) p ∙ slot_full n b.first r.first in
    let f : next n b.last < n = next-lt n b.last (omega (arith, e, r.first)) in
    record {
      cells = length-set b.cells b.last l ∙ r.cells;
      first = f;
      last = sym (ap (slot n (next n b.last)) p ∙ slot_full n (next n b.last) f);
      count = omega (
        arith,
        p,
        q,
        length-append xs (l ∷ []),
        length-drop (length (xs ++ l ∷ []) - n) (xs ++ l ∷ []),
      );
      lines =
          ap (λ k. read_cells n (set b.cells b.last l) k (next n b.last)) p
          ∙ ap (λ j. read_cells n (set b.cells j l) n (next n j)) e
          ∙ read_cells_replaced n b.cells l b.first r.first r.cells
          ∙ ap (λ k. drop 1 (read_cells n b.cells k b.first) ++ l ∷ []) (sym p)
          ∙ ap (λ ys. drop 1 ys ++ l ∷ []) r.lines
          ∙ sym (last_n_full n xs l (omega (arith, r.first)) q);
    }

write_cell-Represents :
    (b : RingLineBuffer) (xs : List Str) (l : Str)
    → Represents b xs
    → Represents (write_cell b l) (xs ++ l ∷ [])
unfolding write_cell
write_cell-Represents b xs l r = elim (Bool-cases (ltb b.cur_lines b.max_lines)) [
  | inl e ↦ rw e (added b xs l (ltb→lt b.cur_lines b.max_lines e) r)
  | inr e ↦ rw e (replaced b xs l (ltb-false→le b.cur_lines b.max_lines e) r)
]

nil_count : (n : ℕ) → 0 ≡ length (last_n n [])
nil_count n = omega (arith, length-drop (0 - n) no_lines)

nil_lines : (n : ℕ) → no_lines ≡ last_n n []
nil_lines n = drop_nil (0 - n)

write_cell-max_lines : (b : RingLineBuffer) (l : Str) → (write_cell b l).max_lines ≡ b.max_lines
unfolding write_cell
write_cell-max_lines b l = ground arith

-- A buffer of this size that holds the last of the lines.
abbrev pub Holds : ℕ → List Str → RingLineBuffer → Type 0
Holds n xs b = Represents b xs × (b.max_lines ≡ n)

write_line_ok :
    (b : RingLineBuffer) (l : Str) → 0 < b.max_lines → write_line b l ≡ ok (write_cell b l)
unfolding write_line
write_line_ok b l h = rw (≢→==-false b.max_lines 0 (λ e. ground arith)) refl

write_lines-Holds :
    (n : ℕ) (ls xs : List Str) (b : RingLineBuffer) (total : ℕ)
    → 0 < n
    → Holds n xs b
    → Returns (λ r. Holds n (xs ++ ls) r.0) (write_lines b ls total)
unfolding write_lines
write_lines-Holds n [] xs b total h (r, e) = (subst (Represents b) (sym (append_nil xs)) r, e)
write_lines-Holds n (l ∷ ls) xs b total h (r, e) =
    rw (Returns, write_line_ok b l (omega arith))
      (subst
        (λ ys. Returns (λ r. Holds n ys r.0) (write_lines (write_cell b l) ls (total + length l)))
        (append_one_more xs ls l)
        (write_lines-Holds n ls (xs ++ l ∷ []) (write_cell b l) (total + length l) h
          (write_cell-Represents b xs l r, write_cell-max_lines b l ∙ e)))

lines_of_nil : (xs : List Str) → xs ≡ xs ++ lines_of []
unfolding lines_of
lines_of_nil xs = sym (append_nil xs)

lines_of_cons :
    (xs : List Str) (w : Str) (rest : List Str)
    → (xs ++ scan_lines w) ++ lines_of rest ≡ xs ++ lines_of (w ∷ rest)
unfolding lines_of
lines_of_cons xs w rest = append_assoc xs (scan_lines w) (lines_of rest)

-- What a write returns, followed by further writes.
-- Writes that the scanner splits as they are.
abbrev pub AreShort : List Str → Type 0
AreShort writes = All (λ w. length w ≤ scanned_at_once) writes

module _ (left : Str → List Str) where
  write_all_then :
      (n : ℕ) (rest : List Str) (xs ls : List Str) (c : Checked (RingLineBuffer × ℕ))
      → ((b : RingLineBuffer)
          → Holds n (xs ++ ls) b
          → Returns (Holds n ((xs ++ ls) ++ lines_of rest)) (write_all left b rest))
      → Returns (λ r. Holds n (xs ++ ls) r.0) c
      → Returns
          (Holds n ((xs ++ ls) ++ lines_of rest))
          (elim c [ ok r ↦ write_all left r.0 rest | panic ↦ panic ])
  write_all_then n rest xs ls (ok r) f h = f r.0 h
  write_all_then n rest xs ls panic f h = absurd h

  short_lines : (w : Str) → length w ≤ scanned_at_once → lines_left left w ≡ scan_lines w
  unfolding lines_left
  short_lines w h = let e : leb (length w) scanned_at_once ≡ true = ground arith in rw e refl

  write_all-Holds :
      (n : ℕ) (writes xs : List Str) (b : RingLineBuffer)
      → 0 < n
      → AreShort writes
      → Holds n xs b
      → Returns (Holds n (xs ++ lines_of writes)) (write_all left b writes)
  unfolding write_all write
  write_all-Holds n [] xs b h q (r, e) = (subst (Represents b) (lines_of_nil xs) r, e)
  write_all-Holds n (w ∷ rest) xs b h (short, q) r =
      subst (λ ys. Returns (Holds n ys) (write_all left b (w ∷ rest))) (lines_of_cons xs w rest)
        (write_all_then n rest xs (scan_lines w) (write_lines b (lines_left left w) 0)
          (λ c s. write_all-Holds n rest (xs ++ scan_lines w) c h q s)
          (subst (λ ls. Returns (λ p. Holds n (xs ++ scan_lines w) p.0) (write_lines b ls 0))
            (sym (short_lines w short)) (write_lines-Holds n (scan_lines w) xs b 0 h r)))

length-replicate : (n : ℕ) (l : Str) → length (replicate n l) ≡ n
length-replicate zero l = refl
length-replicate (suc n) l = ap suc (length-replicate n l)

new-Holds : (n : ℕ) → 0 < n → Holds n [] (new_ring_line_buffer n)
unfolding new_ring_line_buffer read_cells
new-Holds n h = (
  record {
    cells = length-replicate n [];
    first = h;
    last = sym (slot_zero n 0 h);
    count = nil_count n;
    lines = nil_lines n;
  },
  refl,
)

-- What a reader of the buffer sees.
abbrev pub Shows : ℕ → List Str → RingLineBuffer → Type 0
Shows n xs b =
    (foreach b ≡ last_n n xs) × (line_count b ≡ length (foreach b)) × (max_lines_of b ≡ n)

Holds-Shows : (n : ℕ) (xs : List Str) (b : RingLineBuffer) → Holds n xs b → Shows n xs b
unfolding foreach line_count max_lines_of
Holds-Shows n xs b (r, e) = (
  r.lines ∙ ap (λ m. last_n m xs) e,
  sym (length-read_cells b.max_lines b.cells b.cur_lines b.first),
  e,
)

Returns-map {ℓ} :
    {A : Type ℓ} (P Q : A → Type 0) (c : Checked A)
    → ((a : A) → P a → Q a)
    → Returns P c
    → Returns Q c
Returns-map P Q (ok a) f h = f a h
Returns-map P Q panic f h = h

-- For every size but 0 and every sequence of writes of at most 2048 bytes each to a new buffer: none
-- of them panics, and then `Foreach` goes through the last lines of all that were written, in order
-- and at most as many as the size; `LineCount` is their number, and `MaxLines` is the size.
pub write_all-Shows :
    (left : Str → List Str) (n : ℕ) (writes : List Str)
    → 0 < n
    → AreShort writes
    → Returns (Shows n (lines_of writes)) (write_all left (new_ring_line_buffer n) writes)
write_all-Shows left n writes h q =
    Returns-map (Holds n (lines_of writes)) (Shows n (lines_of writes))
      (write_all left (new_ring_line_buffer n) writes) (Holds-Shows n (lines_of writes))
      (write_all-Holds left n writes [] (new_ring_line_buffer n) h q (new-Holds n h))
