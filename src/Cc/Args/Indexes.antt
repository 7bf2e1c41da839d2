-- ===== src/Cc/Args/Indexes.antt =====
-- The indexes that `Parse` of pkg/cc/args.go records.
use kubecc.Common.{
  ℕ, zero, suc, ◌+◌, ◌<◌, ◌≡◌, refl, ap, sym, ◌∙◌, subst, ◌⊎◌, inl, inr, ◌||◌, if◌then◌else◌, List,
  [], ◌∷◌, Option, some, Bool, true, false, Str, go, str_eq, str_eq→≡, length, take, get_elem?, ok,
  not, ◌&&◌, arith, Bool-cases,
}
use kubecc.Common.Map.{Map, lookup, insert, lookup-insert}
use kubecc.Cc.Filename.{is_source_file}
use kubecc.Cc.Args.Tables.{
  OptionKind, preprocess, dep_flag, dep_value, dep_other, pic, assembler_options, local_only,
  gen_assembly, language, with_value, compile, output, other, classify,
}
use kubecc.Cc.Args.Parse.{Scan, option_arg, other_arg, scan_arg, scan, is_option}

-- The input index is that of a source file or of `-`.
abbrev pub InputAt : List Str → Option ℕ → Type 0
InputAt args o =
    (j : ℕ)
    → o ≡ some j
    → (f : Str) × get_elem? args j ≡ some f × (is_source_file f || str_eq f (go "-")) ≡ true

-- The output index follows that of a `-o`, and is inside the arguments.
abbrev pub OutputAt : List Str → Option ℕ → Type 0
OutputAt args o =
    (j : ℕ)
    → o ≡ some j
    → (k : ℕ) × j ≡ suc k
      × get_elem? args k ≡ some (go "-o")
      × ((out : Str) × get_elem? args j ≡ some out)

abbrev pub FlagsIn : List Str → Map ℕ → Type 0
FlagsIn args m = (f : Str) (j : ℕ) → lookup f m ≡ some j → j < length args

abbrev pub IsIndexed : List Str → Option ℕ → Option ℕ → Map ℕ → Type 0
IsIndexed args i o m = InputAt args i × OutputAt args o × FlagsIn args m

classify-output : (a : Str) → classify a ≡ output → a ≡ go "-o"
unfolding classify
classify-output a h = str_eq→≡ a (go "-o") (ground arith)

pub ok-injective : {A : Type 0} {x y : A} → ok x ≡ ok y → x ≡ y
ok-injective e = grind arith

option_arg-input :
    (k : OptionKind) (i : ℕ) (a : Str) (rest : List Str) (s : Scan)
    → (option_arg k i a rest s).input_arg_index ≡ s.input_arg_index
unfolding option_arg
option_arg-input preprocess i a rest s = refl
option_arg-input dep_flag i a rest s = refl
option_arg-input dep_value i a rest s = refl
option_arg-input dep_other i a rest s = refl
option_arg-input pic i a rest s = refl
option_arg-input assembler_options i a rest s = refl
option_arg-input local_only i a rest s = refl
option_arg-input gen_assembly i a rest s = refl
option_arg-input language i a [] s = refl
option_arg-input language i a (next ∷ rest) s = refl
option_arg-input with_value i a rest s = refl
option_arg-input compile i a rest s = refl
option_arg-input output i a [] s = refl
option_arg-input output i a (next ∷ rest) s = refl
option_arg-input other i a rest s = refl

inserted :
    (f g : Str) (i j : ℕ) (m : Map ℕ)
    → lookup f (insert g i m) ≡ some j
    → (j ≡ i) ⊎ (lookup f m ≡ some j)
inserted f g i j m h = elim (Bool-cases (str_eq g f)) [
  | inl e ↦ inl (grind (arith, lookup-insert g f i m))
  | inr e ↦ inr (grind (arith, lookup-insert g f i m))
]

option_arg-flags :
    (k : OptionKind) (i : ℕ) (a : Str) (rest : List Str) (s : Scan) (f : Str) (j : ℕ)
    → lookup f (option_arg k i a rest s).flag_index_map ≡ some j
    → (j ≡ i) ⊎ (lookup f s.flag_index_map ≡ some j)
unfolding option_arg
option_arg-flags preprocess i a rest s f j h = inserted f a i j s.flag_index_map h
option_arg-flags dep_flag i a rest s f j h = inserted f a i j s.flag_index_map h
option_arg-flags dep_value i a rest s f j h = inserted f (take 3 a) i j s.flag_index_map h
option_arg-flags dep_other i a rest s f j h = inserted f a i j s.flag_index_map h
option_arg-flags pic i a rest s f j h = inserted f a i j s.flag_index_map h
option_arg-flags assembler_options i a rest s f j h = inserted f (go "-Wa") i j s.flag_index_map h
option_arg-flags local_only i a rest s f j h = inr h
option_arg-flags gen_assembly i a rest s f j h = inserted f a i j s.flag_index_map h
option_arg-flags language i a [] s f j h = inr h
option_arg-flags language i a (next ∷ rest) s f j h = inr h
option_arg-flags with_value i a rest s f j h = inr h
option_arg-flags compile i a rest s f j h = inserted f a i j s.flag_index_map h
option_arg-flags output i a [] s f j h = inserted f a i j s.flag_index_map h
option_arg-flags output i a (next ∷ rest) s f j h = inserted f a i j s.flag_index_map h
option_arg-flags other i a rest s f j h = inr h

-- The arguments from an index on.
abbrev pub StandsAt : List Str → ℕ → List Str → Type 0
StandsAt todo i args = (k : ℕ) → get_elem? args (i + k) ≡ get_elem? todo k

option_arg-output :
    (args : List Str) (k : OptionKind) (i : ℕ) (a : Str) (rest : List Str) (s : Scan)
    → (k ≡ output → a ≡ go "-o")
    → StandsAt (a ∷ rest) i args
    → OutputAt args s.output_arg_index
    → OutputAt args (option_arg k i a rest s).output_arg_index
unfolding option_arg
option_arg-output args preprocess i a rest s e at h = h
option_arg-output args dep_flag i a rest s e at h = h
option_arg-output args dep_value i a rest s e at h = h
option_arg-output args dep_other i a rest s e at h = h
option_arg-output args pic i a rest s e at h = h
option_arg-output args assembler_options i a rest s e at h = h
option_arg-output args local_only i a rest s e at h = h
option_arg-output args gen_assembly i a rest s e at h = h
option_arg-output args language i a [] s e at h = h
option_arg-output args language i a (next ∷ rest) s e at h = h
option_arg-output args with_value i a rest s e at h = h
option_arg-output args compile i a rest s e at h = h
option_arg-output args output i a [] s e at h = h
option_arg-output args output i a (next ∷ rest) s e at h = λ j o. (
  i,
  grind arith,
  ap (get_elem? args) (omega arith) ∙ at 0 ∙ ap some (e refl),
  (next, ap (get_elem? args) (grind arith) ∙ at 1),
)
option_arg-output args other i a rest s e at h = h

inside : (i : ℕ) (args : List Str) (a : Str) → get_elem? args i ≡ some a → i < length args
inside i [] a h = absurd (grind arith)
inside zero (x ∷ args) a h = omega arith
inside (suc i) (x ∷ args) a h = omega (arith, inside i args a h)

abbrev pub ScanIndexed : List Str → Scan → Type 0
ScanIndexed args s = IsIndexed args s.input_arg_index s.output_arg_index s.flag_index_map

other_arg-indexed :
    (args : List Str) (i : ℕ) (a : Str) (rest : List Str) (s : Scan)
    → StandsAt (a ∷ rest) i args
    → ScanIndexed args s
    → ScanIndexed args (other_arg i a s)
unfolding other_arg
other_arg-indexed args i a rest s at (inp, out, flags) =
    elim (Bool-cases (is_source_file a || str_eq a (go "-"))) [
      | inl e ↦ rw e ((λ j h. (a, ap (get_elem? args) (grind arith) ∙ at 0, e)), out, flags)
      | inr e ↦ rw e (inp, out, flags)
    ]

option_arg-indexed :
    (args : List Str) (i : ℕ) (a : Str) (rest : List Str) (s : Scan)
    → StandsAt (a ∷ rest) i args
    → ScanIndexed args s
    → ScanIndexed args (option_arg (classify a) i a rest s)
option_arg-indexed args i a rest s at (inp, out, flags) = (
  (λ j h. inp j (sym (option_arg-input (classify a) i a rest s) ∙ h)),
  option_arg-output args (classify a) i a rest s (classify-output a) at out,
  (λ f j h. elim (option_arg-flags (classify a) i a rest s f j h) [
    | inl q ↦
        subst (λ n. n < length args) (sym q)
          (inside i args a (ap (get_elem? args) (omega arith) ∙ at 0))
    | inr q ↦ flags f j q
  ]),
)

if-indexed :
    (args : List Str) (b : Bool) (s t : Scan)
    → ScanIndexed args s
    → ScanIndexed args t
    → ScanIndexed args (if b then s else t)
if-indexed args true s t h k = h
if-indexed args false s t h k = k

scan_arg-indexed :
    (args : List Str) (i : ℕ) (a : Str) (rest : List Str) (s : Scan)
    → StandsAt (a ∷ rest) i args
    → ScanIndexed args s
    → ScanIndexed args (scan_arg i a rest s)
unfolding scan_arg
scan_arg-indexed args i a rest s at h =
    if-indexed args s.skip (record s { skip = false })
      (if is_option a then option_arg (classify a) i a rest s else other_arg i a s) h
      (if-indexed args (is_option a) (option_arg (classify a) i a rest s) (other_arg i a s)
        (option_arg-indexed args i a rest s at h) (other_arg-indexed args i a rest s at h))

pub scan-indexed :
    (args : List Str) (i : ℕ) (todo : List Str) (s t : Scan)
    → StandsAt todo i args
    → ScanIndexed args s
    → scan i todo s ≡ ok t
    → ScanIndexed args t
unfolding scan
scan-indexed args i [] s t at h e = subst (ScanIndexed args) (ok-injective e) h
scan-indexed args i (a ∷ rest) s t at h e = elim (Bool-cases (not s.skip && str_eq a [])) [
  | inl q ↦ absurd (grind arith)
  | inr q ↦
      scan-indexed args (suc i) rest (scan_arg i a rest s) t
        (λ k. ap (get_elem? args) (omega arith) ∙ at (suc k))
        (scan_arg-indexed args i a rest s at h) (grind arith)
]
