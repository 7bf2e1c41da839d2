-- ===== src/Types/Key.antt =====
-- `Key` of pkg/types/functions.go: a bucket and a name, written `bucket.name`.
use kubecc.Common.{
  ℕ, ◌≡◌, refl, ap, [], ◌∷◌, ◌++◌, Option, none, some, arith, Str, go, ◌==◌, if◌then◌else◌, All,
  ◌≢◌, sym, subst, inl, inr, Bool-cases, ==_iff,
}
use mathlib.Core.Option.{some-injective}

pub record Key : Type 0 where
  pub bucket : Str
  pub name : Str

unfoldable pub canonical : Key → Str
canonical k = k.bucket ++ (go "." ++ k.name)

-- `strings.SplitN(s, sep, 2)` at a separator of one byte: `none` where there is one part only.
unfoldable pub split_two : ℕ → Str → Option (Str × Str)
split_two sep [] = none
split_two sep (c ∷ s) =
    if c == sep
    then some ([], s)
    else elim (split_two sep s) [ none ↦ none | some (a, b) ↦ some (c ∷ a, b) ]

-- `none` is `ErrInvalidFormat`.
unfoldable pub parse_key : Str → Option Key
parse_key s = elim (split_two b'.' s) [
  | none ↦ none
  | some (bucket, name) ↦ some (record { bucket = bucket; name = name })
]

split_two-append :
    (sep : ℕ) (a b : Str) → All (λ c. c ≢ sep) a → split_two sep (a ++ sep ∷ b) ≡ some (a, b)
unfolding split_two
split_two-append sep [] b h = ground arith
split_two-append sep (c ∷ a) b h = ground (arith, split_two-append sep a b h.1)

split_two-canonical :
    (k : Key)
    → All (λ c. c ≢ b'.') k.bucket
    → split_two b'.' (canonical k) ≡ some (k.bucket, k.name)
unfolding canonical
split_two-canonical k h = split_two-append b'.' k.bucket k.name h

-- Every key whose bucket has no dot is read back from its canonical form, whatever its name holds.
pub parse_key-canonical :
    (k : Key) → All (λ c. c ≢ b'.') k.bucket → parse_key (canonical k) ≡ some k
unfolding parse_key
parse_key-canonical k h = rw (split_two-canonical k h, parse_key) refl

-- What the two outcomes of the split say of the text.
abbrev IsSplit : ℕ → Str → Option (Str × Str) → Type 0
IsSplit sep s none = All (λ c. c ≢ sep) s
IsSplit sep s (some (a, b)) = (s ≡ a ++ sep ∷ b) × All (λ c. c ≢ sep) a

IsSplit-cons :
    (sep c : ℕ) (s : Str) (o : Option (Str × Str))
    → c ≢ sep
    → IsSplit sep s o
    → IsSplit sep (c ∷ s) (elim o [ none ↦ none | some (a, b) ↦ some (c ∷ a, b) ])
IsSplit-cons sep c s none ne h = (ne, h)
IsSplit-cons sep c s (some (a, b)) ne h = (ap (◌∷◌ c) h.0, (ne, h.1))

split_two-IsSplit : (sep : ℕ) (s : Str) → IsSplit sep s (split_two sep s)
unfolding split_two
split_two-IsSplit sep [] = tt
split_two-IsSplit sep (c ∷ s) = elim (Bool-cases (c == sep)) [
  | inl e ↦ rw e (rw ((==_iff c sep).0 e) refl, tt)
  | inr ne ↦ rw ne (
      IsSplit-cons sep c s (split_two sep s) (λ p. cc (ne, (==_iff c sep).1 p))
        (split_two-IsSplit sep s))
]

parsed :
    (s : Str) (o : Option (Str × Str)) (k : Key)
    → IsSplit b'.' s o
    → elim o [ none ↦ none | some (a, b) ↦ some (record { bucket = a; name = b }) ] ≡ some k
    → (canonical k ≡ s) × All (λ c. c ≢ b'.') k.bucket
unfolding canonical
parsed s none k v h = cc
parsed s (some (a, b)) k v h =
    let e : record { bucket = a; name = b } ≡ k = some-injective _ _ h in
    subst (λ (q : Key). (canonical q ≡ s) × All (λ c. c ≢ b'.') q.bucket) e (sym v.0, v.1)

-- Whenever `ParseKey` accepts a text, the text is the canonical form of the key that it returns, and
-- the bucket of this key has no dot.
pub canonical-parse_key :
    (s : Str) {k : Key} → parse_key s ≡ some k → (canonical k ≡ s) × All (λ c. c ≢ b'.') k.bucket
unfolding parse_key
canonical-parse_key s {k} h = parsed s (split_two b'.' s) k (split_two-IsSplit b'.' s) h
