-- ===== src/Types/ShortId.antt =====
-- `FormatShortID` of pkg/types/loghelpers.go. The parser of identities is a parameter; a slice out of
-- range is a panic.
use kubecc.Common.{
  ℕ, ◌+◌, ◌-◌, ◌*◌, ◌/◌, ◌≤◌, ◌≡◌, refl, if◌then◌else◌, ◌++◌, Bool, true, false, Str, go, Checked,
  ok, panic, Returns, length, length-append, length-take, length-drop, take, drop, leb, arith, ◌&&◌,
}

pub data ElideLocation : Type 0 where
  elide_center elide_left elide_right : ElideLocation

-- `id[:n]`
unfoldable pub slice_to : Str → ℕ → Checked Str
slice_to id n = if leb n (length id) then ok (take n id) else panic

-- `id[len(id)-n:]`
unfoldable pub slice_last : Str → ℕ → Checked Str
slice_last id n = if leb n (length id) then ok (drop (length id - n) id) else panic

-- `id[len(id)-n+1:]`
unfoldable pub slice_last_but : Str → ℕ → Checked Str
slice_last_but id n =
    if leb n (length id + 1) && leb 1 n then ok (drop (length id + 1 - n) id) else panic

unfoldable pub concat : Checked Str → Checked Str → Checked Str
concat (ok a) (ok b) = ok (a ++ b)
concat (ok a) panic = panic
concat panic b = panic

unfoldable pub elide : Str → ℕ → ElideLocation → Checked Str
elide id n elide_center =
    concat (slice_to id (n / 2)) (concat (ok (go "..")) (slice_last id (n / 2)))
elide id n elide_left = concat (ok (go "..")) (slice_last_but id n)
elide id n elide_right = concat (slice_to id n) (ok (go ".."))

unfoldable pub format_short_id : (Str → Bool) → Str → ℕ → ElideLocation → Checked Str
format_short_id is_uuid id n location = if is_uuid id then elide id n location else ok id

-- The length that the code gives a shortened identity.
unfoldable pub short_length : ℕ → ElideLocation → ℕ
short_length n elide_center = 2 * (n / 2) + 2
short_length n elide_left = n + 1
short_length n elide_right = n + 2

leb-true : (a b : ℕ) → a ≤ b → leb a b ≡ true
leb-true a b h = ground arith

elide-length :
    (id : Str) (n : ℕ) (location : ElideLocation)
    → 1 ≤ n
    → n ≤ length id
    → Returns (λ s. length s ≡ short_length n location) (elide id n location)
unfolding elide short_length slice_to slice_last slice_last_but concat
elide-length id n elide_center h g =
    rw (Returns, leb-true (n / 2) (length id) (omega arith))
      (omega (
        arith,
        length-append (take (n / 2) id) (go ".." ++ drop (length id - n / 2) id),
        length-take (n / 2) id,
        length-append (go "..") (drop (length id - n / 2) id),
        length-drop (length id - n / 2) id,
      ))
elide-length id n elide_left h g =
    rw (Returns, leb-true n (length id + 1) (omega arith), leb-true 1 n h)
      (omega (
        arith,
        length-append (go "..") (drop (length id + 1 - n) id),
        length-drop (length id + 1 - n) id,
      ))
elide-length id n elide_right h g =
    rw (Returns, leb-true n (length id) g)
      (omega (arith, length-append (take n id) (go ".."), length-take n id))

format_case :
    (b : Bool) (id : Str) (n : ℕ) (location : ElideLocation)
    → (b ≡ true → 32 ≤ length id)
    → 1 ≤ n
    → n ≤ 32
    → Returns
        (λ s. length s ≡ (if b then short_length n location else length id))
        (if b then elide id n location else ok id)
format_case true id n location long h g = elide-length id n location h (omega (arith, long refl))
format_case false id n location long h g = refl

-- For every test for identities that only those of at least 32 bytes pass, and every length from 1 to
-- 32: `FormatShortID` does not panic; an identity comes out with the length rounded down to an even
-- number and two more when its centre is elided, with one more than the length when its left is, and
-- with two more when its right is; any other text comes out as it is.
pub format_short_id-length :
    (is_uuid : Str → Bool)
    → ((s : Str) → is_uuid s ≡ true → 32 ≤ length s)
    → (id : Str) (n : ℕ) (location : ElideLocation) → 1 ≤ n
    → n ≤ 32
    → Returns
        (λ s. length s ≡ (if is_uuid id then short_length n location else length id))
        (format_short_id is_uuid id n location)
unfolding format_short_id
format_short_id-length is_uuid long id n location h g =
    format_case (is_uuid id) id n location (long id) h g
