-- ===== src/Cc/Args/Mode.antt =====
-- When `Parse` of pkg/cc/args.go returns, and when it lets a compilation be remote.
use kubecc.Common.{
  ℕ, suc, ◌≡◌, ◌≢◌, refl, ap, sym, ◌∙◌, subst, inl, inr, not, ◌&&◌, List, [], ◌∷◌, Bool, true,
  false, Str, go, str_eq, has_prefix, drop, All, keep_if, ok, panic, Checked, arith, Bool-cases,
  is_some,
}
use kubecc.Cc.Args.Tables.{
  OptionKind, preprocess, dep_flag, dep_value, dep_other, pic, assembler_options, local_only,
  gen_assembly, language, with_value, compile, output, other, classify,
}
use kubecc.Cc.Args.Parse.{
  RunMode, run_local, run_remote, ArgParser, Scan, option_arg, other_arg, scan_arg, scan, local_if,
  settle_mode, parse, finish_parse, add_output, with_output, parsed, standardize, is_unsupported,
  start_scan, prepare, input_mode,
}
use kubecc.Cc.Args.Strip.{strip_unsupported_args_filters}
use kubecc.Cc.Args.Indexes.{ok-injective}

local_if-keeps : (b : Bool) (m : RunMode) → m ≡ run_local → local_if b m ≡ run_local
unfolding local_if
local_if-keeps true m h = refl
local_if-keeps false m h = h

option_arg-keeps :
    (k : OptionKind) (i : ℕ) (a : Str) (rest : List Str) (s : Scan)
    → s.mode ≡ run_local
    → (option_arg k i a rest s).mode ≡ run_local
unfolding option_arg
option_arg-keeps preprocess i a rest s h = refl
option_arg-keeps dep_flag i a rest s h = h
option_arg-keeps dep_value i a rest s h = h
option_arg-keeps dep_other i a rest s h = refl
option_arg-keeps pic i a rest s h = h
option_arg-keeps assembler_options i a rest s h = local_if-keeps _ s.mode h
option_arg-keeps local_only i a rest s h = refl
option_arg-keeps gen_assembly i a rest s h = h
option_arg-keeps language i a [] s h = h
option_arg-keeps language i a (next ∷ rest) s h = local_if-keeps _ s.mode h
option_arg-keeps with_value i a rest s h = h
option_arg-keeps compile i a rest s h = h
option_arg-keeps output i a [] s h = refl
option_arg-keeps output i a (next ∷ rest) s h = local_if-keeps _ s.mode h
option_arg-keeps other i a rest s h = h

scan_arg-keeps :
    (i : ℕ) (a : Str) (rest : List Str) (s : Scan)
    → s.mode ≡ run_local
    → (scan_arg i a rest s).mode ≡ run_local
unfolding scan_arg other_arg local_if
scan_arg-keeps i a rest s h = ground (arith, option_arg-keeps (classify a) i a rest s)

scan-keeps :
    (i : ℕ) (todo : List Str) (s t : Scan)
    → scan i todo s ≡ ok t
    → s.mode ≡ run_local
    → t.mode ≡ run_local
unfolding scan
scan-keeps i [] s t e h = subst (λ r. r.mode ≡ run_local) (ok-injective e) h
scan-keeps i (a ∷ rest) s t e h = elim (Bool-cases (not s.skip && str_eq a [])) [
  | inl q ↦ absurd (grind arith)
  | inr q ↦
      scan-keeps (suc i) rest (scan_arg i a rest s) t (grind arith) (scan_arg-keeps i a rest s h)
]

-- The mode that the end of `Parse` lets stand only where nothing makes it local.
add_output-mode :
    (args : List Str) (s : Scan) (m : RunMode)
    → (add_output args s m).mode ≡ run_remote
    → m ≢ run_local × (add_output args s m).input_arg_index ≡ s.input_arg_index
unfolding add_output with_output parsed settle_mode
add_output-mode args s m h = (grind arith, grind arith)

input_mode-remote :
    (s : Scan) → input_mode s ≢ run_local → s.mode ≢ run_local × is_some s.input_arg_index ≡ true
unfolding input_mode local_if
input_mode-remote s h = (grind arith, grind arith)

finish_parse-mode :
    (args : List Str) (c : Checked Scan) (q : ArgParser)
    → finish_parse args c ≡ ok q
    → q.mode ≡ run_remote
    → (s : Scan) × c ≡ ok s × s.mode ≢ run_local × is_some q.input_arg_index ≡ true
unfolding finish_parse
finish_parse-mode args panic q e h = absurd (grind arith)
finish_parse-mode args (ok s) q e h =
    let (m, i) = add_output-mode args s (input_mode s) (ap (λ r. r.mode) (ok-injective e) ∙ h) in
    let (n, present) = input_mode-remote s m in
    (
      s,
      refl,
      n,
      ap (λ r. is_some r.input_arg_index) (sym (ok-injective e)) ∙ ap is_some i ∙ present,
    )

-- Whenever `Parse` returns a parser that may run remotely, an input file was found, and the mode
-- was not local before: nothing that `Parse` meets takes a local mode back.
pub parse_remote :
    (p q : ArgParser)
    → parse p ≡ ok q
    → q.mode ≡ run_remote
    → p.mode ≢ run_local × is_some q.input_arg_index ≡ true
unfolding parse start_scan
parse_remote p q e h =
    let (s, f, m, i) =
      finish_parse-mode (prepare p.args) (scan 0 (prepare p.args) (start_scan p.mode)) q e h in
    ((λ l. m (scan-keeps 0 (prepare p.args) (start_scan p.mode) s f l)), i)

-- A list of arguments none of which is the empty string.
abbrev pub NonEmpty : Str → Type 0
NonEmpty a = str_eq a [] ≡ false

scan_total :
    (i : ℕ) (todo : List Str) (s : Scan) → All NonEmpty todo → (t : Scan) × scan i todo s ≡ ok t
unfolding scan
scan_total i [] s h = (s, refl)
scan_total i (a ∷ rest) s (h, hs) =
    let (t, e) = scan_total (suc i) rest (scan_arg i a rest s) hs in (t, grind arith)

keep_if-All :
    {A : Type 0} (P : A → Type 0) (t : A → Bool) (xs : List A) → All P xs → All P (keep_if t xs)
keep_if-All P t [] h = h
keep_if-All P t (x ∷ xs) (h, hs) = elim (Bool-cases (t x)) [
  | inl e ↦ rw e (h, keep_if-All P t xs hs)
  | inr e ↦ rw e (keep_if-All P t xs hs)
]

-- `-o/` is longer than `-o`.
drop-NonEmpty : (a : Str) → has_prefix a (go "-o/") ≡ true → NonEmpty (drop 2 a)
unfolding has_prefix str_eq
drop-NonEmpty [] h = absurd (grind arith)
drop-NonEmpty (a ∷ []) h = absurd (grind arith)
drop-NonEmpty (a ∷ b ∷ []) h = absurd (grind arith)
drop-NonEmpty (a ∷ b ∷ c ∷ s) h = refl

standardize-NonEmpty : (args : List Str) → All NonEmpty args → All NonEmpty (standardize args)
unfolding standardize str_eq
standardize-NonEmpty [] h = h
standardize-NonEmpty (a ∷ rest) (h, hs) = elim (Bool-cases (has_prefix a (go "-o/"))) [
  | inl e ↦ rw e (refl, (drop-NonEmpty a e, hs))
  | inr e ↦ rw e (h, standardize-NonEmpty rest hs)
]

-- `Parse` returns, for every parser none of whose arguments is empty.
pub parse_total : (p : ArgParser) → All NonEmpty p.args → (q : ArgParser) × parse p ≡ ok q
unfolding parse prepare finish_parse
parse_total p h =
    let fine = subst (All NonEmpty) (sym (strip_unsupported_args_filters (standardize p.args))) (
      keep_if-All NonEmpty (λ a. not (is_unsupported a)) (standardize p.args)
        (standardize-NonEmpty p.args h)) in
    let (s, e) = scan_total 0 (prepare p.args) (start_scan p.mode) fine in
    (add_output (prepare p.args) s (input_mode s), rw e refl)
