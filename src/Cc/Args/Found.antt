-- ===== src/Cc/Args/Found.antt =====
-- What `Parse` of pkg/cc/args.go records, at its end.
use kubecc.Common.{
  ℕ, zero, suc, ◌+◌, ◌<◌, ◌≡◌, refl, ap, ◌∙◌, subst, inl, inr, ◌||◌, List, [], ◌∷◌, ◌++◌, Option,
  none, some, true, Str, go, str_eq, length, length-append, Checked, get_elem?, ok, panic, not,
  ◌&&◌, arith, Bool-cases,
}
use kubecc.Common.Map.{lookup}
use kubecc.Cc.Filename.{is_source_file}
use kubecc.Cc.Args.Parse.{
  RunMode, ArgParser, Scan, scan, parse, finish_parse, default_output, run_local, add_output,
  with_output, parsed, start_scan, prepare, input_mode,
}
use kubecc.Cc.Args.Indexes.{InputAt, OutputAt, IsIndexed, ScanIndexed, scan-indexed, ok-injective}

get_elem?-append :
    (xs ys : List Str) (j : ℕ) (a : Str) → get_elem? xs j ≡ some a → get_elem? (xs ++ ys) j ≡ some a
get_elem?-append [] ys j a h = absurd (grind arith)
get_elem?-append (x ∷ xs) ys zero a h = h
get_elem?-append (x ∷ xs) ys (suc j) a h = get_elem?-append xs ys j a h

suc_add : (n j : ℕ) → suc n + j ≡ suc (n + j)
suc_add n j = omega arith

get_elem?-beyond :
    (xs ys : List Str) (j : ℕ) → get_elem? (xs ++ ys) (length xs + j) ≡ get_elem? ys j
get_elem?-beyond [] ys j = ap (get_elem? ys) (omega arith)
get_elem?-beyond (x ∷ xs) ys j =
    ap (get_elem? (x ∷ (xs ++ ys))) (suc_add (length xs) j) ∙ get_elem?-beyond xs ys j

abbrev ParserIndexed : ArgParser → Type 0
ParserIndexed p = IsIndexed p.args p.input_arg_index p.output_arg_index p.flag_index_map

with_output-indexed :
    (args : List Str) (out : Str) (s : Scan) (m : RunMode)
    → ScanIndexed args s
    → ParserIndexed (with_output args s out m)
unfolding with_output parsed
with_output-indexed args out s m (inp, o, flags) = (
  (λ j e.
      let (f, at, source) = inp j e in
      (f, get_elem?-append args (go "-o" ∷ out ∷ []) j f at, source)),
  (λ j e. (
    length args,
    grind arith,
    ap (get_elem? (args ++ go "-o" ∷ out ∷ [])) (omega arith)
        ∙ get_elem?-beyond args (go "-o" ∷ out ∷ []) 0,
    (
      out,
      ap (get_elem? (args ++ go "-o" ∷ out ∷ [])) (grind arith)
          ∙ get_elem?-beyond args (go "-o" ∷ out ∷ []) 1,
    ),
  )),
  (λ f j e. omega (arith, flags f j e, length-append args (go "-o" ∷ out ∷ []))),
)

add_output-indexed :
    (args : List Str) (s : Scan) (m : RunMode)
    → ScanIndexed args s
    → ParserIndexed (add_output args s m)
unfolding add_output parsed
add_output-indexed args s m h = elim (Bool-cases (not (str_eq s.output_arg []))) [
  | inl e ↦ rw e h
  | inr e ↦ elim (Bool-cases (s.seen_opt_c || s.seen_opt_s)) [
    | inl f ↦ elim (Bool-cases (str_eq (default_output s) [])) [
      | inl g ↦ rw (e, f, g) h
      | inr g ↦ rw (e, f, g) (with_output-indexed args (default_output s) s m h)
    ]
    | inr f ↦ elim (Bool-cases (not (str_eq s.input_arg []) && not s.seen_opt_e)) [
      | inl g ↦ rw (e, f, g) (with_output-indexed args (go "a.out") s run_local h)
      | inr g ↦ rw (e, f, g) h
    ]
  ]
]

start-indexed : (args : List Str) (m : RunMode) → ScanIndexed args (start_scan m)
unfolding start_scan lookup
start-indexed args m = ((λ j h. grind arith), (λ j h. grind arith), λ f j h. grind arith)

finish_parse-indexed :
    (args : List Str) (c : Checked Scan) (q : ArgParser)
    → ((s : Scan) → c ≡ ok s → ScanIndexed args s)
    → finish_parse args c ≡ ok q
    → ParserIndexed q
unfolding finish_parse
finish_parse-indexed args panic q h e = absurd (grind arith)
finish_parse-indexed args (ok s) q h e =
    subst ParserIndexed (ok-injective e) (add_output-indexed args s (input_mode s) (h s refl))

-- Where there is an input index, it is that of a source file or of `-`.
abbrev pub InputFound : List Str → Option ℕ → Type 0
InputFound args none = Unit
InputFound args (some j) =
    (f : Str) × get_elem? args j ≡ some f × (is_source_file f || str_eq f (go "-")) ≡ true

-- Where there is an output index, it follows that of a `-o`, and is inside the arguments.
abbrev pub OutputFound : List Str → Option ℕ → Type 0
OutputFound args none = Unit
OutputFound args (some j) =
    (k : ℕ) × j ≡ suc k
    × get_elem? args k ≡ some (go "-o")
    × ((out : Str) × get_elem? args j ≡ some out)

-- Where there is an index, it is inside the arguments.
abbrev pub InRange : List Str → Option ℕ → Type 0
InRange args none = Unit
InRange args (some j) = j < length args

input_found : (args : List Str) (o : Option ℕ) → InputAt args o → InputFound args o
input_found args none h = tt
input_found args (some j) h = h j refl

output_found : (args : List Str) (o : Option ℕ) → OutputAt args o → OutputFound args o
output_found args none h = tt
output_found args (some j) h = h j refl

in_range :
    (args : List Str) (o : Option ℕ) → ((j : ℕ) → o ≡ some j → j < length args) → InRange args o
in_range args none h = tt
in_range args (some j) h = h j refl

-- Whenever `Parse` returns, for any parser: an input index is that of a source file or of `-`; an
-- output index directly follows the index of a `-o` and is inside the arguments; and every index
-- in the flag map is inside the arguments.
pub parse_indexes :
    (p q : ArgParser)
    → parse p ≡ ok q
    → InputFound q.args q.input_arg_index
      × OutputFound q.args q.output_arg_index
      × ((flag : Str) → InRange q.args (lookup flag q.flag_index_map))
unfolding parse
parse_indexes p q e =
    let (i, o, f) =
      finish_parse-indexed (prepare p.args) (scan 0 (prepare p.args) (start_scan p.mode)) q
        (λ s g.
          scan-indexed (prepare p.args) 0 (prepare p.args) (start_scan p.mode) s
            (λ k. ap (get_elem? (prepare p.args)) (omega arith))
            (start-indexed (prepare p.args) p.mode) g)
        e in
    (
      input_found q.args q.input_arg_index i,
      output_found q.args q.output_arg_index o,
      (λ flag. in_range q.args (lookup flag q.flag_index_map) (f flag)),
    )
