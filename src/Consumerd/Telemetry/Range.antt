-- ===== src/Consumerd/Telemetry/Range.antt =====
-- The ranges of the history of pkg/consumerd/telemetry.go.
use kubecc.Common.{
  ℕ, ◌≤◌, ◌<◌, ◌≡◌, refl, ap, ◌∙◌, inl, inr, List, [], ◌∷◌, Bool, true, false, ◌&&◌, ok, length,
  take, drop, keep_if, ltb, leb, ◌==◌, All, arith, Bool-cases,
}
use kubecc.Consumerd.Telemetry.{
  Entry, filter_entries, search_from, slice_entries, start_index, time_range,
}

-- The entries are in the order of their times.
abbrev pub IsOrdered : List Entry → Type 0
IsOrdered [] = Unit
IsOrdered (e ∷ entries) = All (λ f. e.x ≤ f.x) entries × IsOrdered entries

-- The entries of a half-open range.
abbrev pub in_range : ℕ → ℕ → Entry → Bool
in_range begin end e = leb begin e.x && ltb e.x end

search_from_le : (time : ℕ) (entries : List Entry) → search_from time entries ≤ length entries
unfolding search_from
search_from_le time [] = omega arith
search_from_le time (e ∷ entries) = ground (arith, search_from_le time entries)

search_from_mono :
    (a b : ℕ) (entries : List Entry) → a ≤ b → search_from a entries ≤ search_from b entries
unfolding search_from
search_from_mono a b [] h = omega arith
search_from_mono a b (e ∷ entries) h = ground (arith, search_from_mono a b entries h)

-- No entry at or after the end is in the range.
none_after :
    (begin end time : ℕ) (entries : List Entry)
    → end ≤ time
    → All (λ f. time ≤ f.x) entries
    → keep_if (in_range begin end) entries ≡ []
none_after begin end time [] h a = refl
none_after begin end time (e ∷ entries) h (p, a) =
    ground (arith, none_after begin end time entries h a)

-- From an entry on that is not before the start, all up to the end are in the range.
all_until :
    (begin end : ℕ) (entries : List Entry)
    → All (λ f. begin ≤ f.x) entries
    → IsOrdered entries
    → take (search_from end entries) entries ≡ keep_if (in_range begin end) entries
unfolding search_from
all_until begin end [] a o = refl
all_until begin end (e ∷ entries) (p, a) (q, o) = elim (Bool-cases (leb end e.x)) [
  | inl h ↦ rw h (ground (arith, none_after begin end e.x entries (ground arith) q))
  | inr h ↦ rw h (ground (arith, all_until begin end entries a o))
]

found_first :
    (time : ℕ) (e : Entry) (entries : List Entry)
    → leb time e.x ≡ true
    → search_from time (e ∷ entries) ≡ 0
unfolding search_from
found_first time e entries h = rw h refl

later :
    (begin time : ℕ) (entries : List Entry)
    → begin ≤ time
    → All (λ f. time ≤ f.x) entries
    → All (λ f. begin ≤ f.x) entries
later begin time [] h a = tt
later begin time (e ∷ entries) h (p, a) = (omega arith, later begin time entries h a)

cut :
    (begin end : ℕ) (entries : List Entry)
    → begin ≤ end
    → IsOrdered entries
    → drop (search_from begin entries) (take (search_from end entries) entries)
      ≡ keep_if (in_range begin end) entries
unfolding search_from
cut begin end [] h o = refl
cut begin end (e ∷ entries) h (q, o) = elim (Bool-cases (leb begin e.x)) [
  | inl g ↦
      ap (λ k. drop k (take (search_from end (e ∷ entries)) (e ∷ entries)))
        (found_first begin e entries g)
      ∙ all_until begin end (e ∷ entries) (ground arith, later begin e.x entries (ground arith) q)
          (q, o)
  | inr g ↦ let f : leb end e.x ≡ false = ground arith in rw (g, f) (cut begin end entries h o)
]

leb-true : (a b : ℕ) → a ≤ b → leb a b ≡ true
leb-true a b h = ground arith

-- For every history in the order of its times and every start and end that are given, the end not
-- before the start: `TimeRange` gives the entries from the start on that are before the end, in order.
pub time_range-filter :
    (entries : List Entry) (begin end : ℕ)
    → IsOrdered entries
    → 0 < begin
    → begin ≤ end
    → time_range entries begin end ≡ ok (filter_entries (in_range begin end) entries)
unfolding time_range slice_entries start_index filter_entries
time_range-filter entries begin end o p h =
    let a : ltb end begin ≡ false = ground arith in
    let b : (end == 0) ≡ false = ground arith in
    let c : (begin == 0) ≡ false = ground arith in
    let d = leb-true _ _ (search_from_mono begin end entries h) in
    let f = leb-true _ _ (search_from_le end entries) in
    rw (a, b, c, d, f) (ap ok (cut begin end entries h o))
