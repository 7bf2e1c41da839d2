-- ===== src/Cc/Args/Parse.antt =====
-- `Parse` of pkg/cc/args.go. An index of -1 is `none`; Go's panic on the first byte of an empty
-- argument is the outcome `panic`.
use kubecc.Common.{
  ℕ, zero, suc, ◌==◌, ltb, if◌then◌else◌, List, [], ◌∷◌, ◌++◌, Bool, true, false, not, ◌&&◌, ◌||◌,
  Option, none, some, Str, go, str_eq, has_prefix, contains, take, drop, length, get_elem?,
  erase_idx, Checked, ok, panic, is_some,
}
use kubecc.Common.Map.{Map, insert}
use kubecc.Cc.Args.Tables.{
  OptionKind, preprocess, dep_flag, dep_value, dep_other, pic, assembler_options, local_only,
  gen_assembly, language, with_value, compile, output, other, classify,
}
use kubecc.Cc.Filename.{ext, is_source_file, should_run_local, replace_extension}

pub data RunMode : Type 0 where
  unset run_local run_remote : RunMode

pub record ArgParser : Type 0 where
  pub args : List Str
  pub mode : RunMode
  pub input_arg_index : Option ℕ
  pub output_arg_index : Option ℕ
  pub flag_index_map : Map ℕ

unfoldable pub new_arg_parser : List Str → ArgParser
new_arg_parser args = record {
  args = args;
  mode = unset;
  input_arg_index = some 0;
  output_arg_index = some 0;
  flag_index_map = [];
}

unfoldable pub can_run_remote : ArgParser → Bool
can_run_remote p = elim p.mode [ unset ↦ false | run_local ↦ false | run_remote ↦ true ]

-- `standardize`: the first argument "-o/path" becomes two.
unfoldable pub standardize : List Str → List Str
standardize [] = []
standardize (a ∷ rest) =
    let tail = standardize rest in
    if has_prefix a (go "-o/") then go "-o" ∷ drop 2 a ∷ rest else a ∷ tail

unfoldable pub is_unsupported : Str → Bool
is_unsupported a =
    str_eq a (go "-Wpedantic")
    || str_eq a (go "-pedantic-errors")
    || str_eq a (go "-pedantic")
    || has_prefix a (go "-flto")

-- The loop of `stripUnsupportedArgs` from an index: a removal leaves the index where it is. The
-- fuel bounds the turns.
unfoldable pub strip_from : ℕ → ℕ → List Str → List Str
strip_from zero i args = args
strip_from (suc fuel) i args = elim (get_elem? args i) [
  | none ↦ args
  | some a ↦
      if is_unsupported a
      then strip_from fuel i (erase_idx args i)
      else strip_from fuel (suc i) args
]

unfoldable pub strip_unsupported_args : List Str → List Str
strip_unsupported_args args = strip_from (length args) 0 args

-- The parser's fields with the local variables of `Parse`.
pub record Scan : Type 0 where
  pub mode : RunMode
  pub input_arg_index : Option ℕ
  pub output_arg_index : Option ℕ
  pub flag_index_map : Map ℕ
  pub skip : Bool
  pub seen_opt_c : Bool
  pub seen_opt_s : Bool
  pub seen_opt_e : Bool
  pub input_arg : Str
  pub output_arg : Str

-- `-x`: the next argument decides, whatever it is.
unfoldable pub simple_language : Str → Bool
simple_language next =
    has_prefix next (go "c")
    || has_prefix next (go "c++")
    || has_prefix next (go "objective-c")
    || has_prefix next (go "objective-c++")
    || has_prefix next (go "go")

unfoldable pub local_if : Bool → RunMode → RunMode
local_if local m = if local then run_local else m

-- Whether the argument after `-o` makes the compilation local.
unfoldable pub output_is_local : Scan → Str → Bool
output_is_local s next =
    if str_eq (ext next) (go ".o") then not (str_eq s.output_arg []) else str_eq (ext next) []

-- An option argument `a` at index `i`, before the arguments `rest`.
unfoldable pub option_arg : OptionKind → ℕ → Str → List Str → Scan → Scan
option_arg preprocess i a rest s = record s {
  flag_index_map = insert a i s.flag_index_map;
  mode = run_local;
  seen_opt_e = true;
}
option_arg dep_flag i a rest s = record s { flag_index_map = insert a i s.flag_index_map }
option_arg dep_value i a rest s = record s {
  skip = length a == 3;
  flag_index_map = insert (take 3 a) i s.flag_index_map;
}
option_arg dep_other i a rest s = record s {
  flag_index_map = insert a i s.flag_index_map;
  mode = run_local;
}
option_arg pic i a rest s = record s { flag_index_map = insert a i s.flag_index_map }
option_arg assembler_options i a rest s = record s {
  flag_index_map = insert (go "-Wa") i s.flag_index_map;
  mode = local_if (contains a (go ",-a") || contains a (go "--MD")) s.mode;
}
option_arg local_only i a rest s = record s { mode = run_local }
option_arg gen_assembly i a rest s = record s {
  flag_index_map = insert a i s.flag_index_map;
  seen_opt_s = true;
}
option_arg language i a [] s = record s { skip = str_eq a (go "-x") }
option_arg language i a (next ∷ rest) s = record s {
  mode = local_if (not (simple_language next)) s.mode;
  skip = str_eq a (go "-x");
}
option_arg with_value i a rest s = record s { skip = true }
option_arg compile i a rest s = record s {
  flag_index_map = insert a i s.flag_index_map;
  seen_opt_c = true;
}
option_arg output i a [] s = record s {
  flag_index_map = insert a i s.flag_index_map;
  mode = run_local;
}
option_arg output i a (next ∷ rest) s = record s {
  flag_index_map = insert a i s.flag_index_map;
  mode = local_if (output_is_local s next) s.mode;
  output_arg = next;
  output_arg_index = some (suc i);
  skip = true;
}
option_arg other i a rest s = s

-- Any other argument: an input file, or nothing that counts.
unfoldable pub other_arg : ℕ → Str → Scan → Scan
other_arg i a s =
    if is_source_file a || str_eq a (go "-")
    then record s {
      mode = local_if (not (str_eq s.input_arg [])) s.mode;
      input_arg = a;
      input_arg_index = some i;
    }
    else s

unfoldable pub is_option : Str → Bool
is_option a = has_prefix a (go "-") && ltb 1 (length a)

-- One turn of the loop, for an argument that is not empty.
unfoldable pub scan_arg : ℕ → Str → List Str → Scan → Scan
scan_arg i a rest s =
    if s.skip
    then record s { skip = false }
    else if is_option a
    then option_arg (classify a) i a rest s
    else other_arg i a s

-- The loop of `Parse` over the arguments from index `i`.
unfoldable pub scan : ℕ → List Str → Scan → Checked Scan
scan i [] s = ok s
scan i (a ∷ rest) s =
    if not s.skip && str_eq a [] then panic else scan (suc i) rest (scan_arg i a rest s)

-- The output file, where `-o` gave none.
unfoldable pub default_output : Scan → Str
default_output s =
    if s.seen_opt_s
    then replace_extension s.input_arg (go ".s")
    else if s.seen_opt_c
    then replace_extension s.input_arg (go ".o")
    else s.output_arg

unfoldable pub settle_mode : RunMode → RunMode
settle_mode unset = run_remote
settle_mode run_local = run_local
settle_mode run_remote = run_remote

-- The parser that `Parse` leaves: its arguments, its output index, its mode.
unfoldable pub parsed : List Str → Scan → RunMode → ArgParser
parsed args s m = record {
  args = args;
  mode = settle_mode m;
  input_arg_index = s.input_arg_index;
  output_arg_index = s.output_arg_index;
  flag_index_map = s.flag_index_map;
}

unfoldable pub with_output : List Str → Scan → Str → RunMode → ArgParser
with_output args s out m =
    parsed (args ++ go "-o" ∷ out ∷ []) (record s { output_arg_index = some (suc (length args)) }) m

-- `Parse` after its loop, once the mode is settled by the input.
unfoldable pub add_output : List Str → Scan → RunMode → ArgParser
add_output args s m =
    if not (str_eq s.output_arg [])
    then parsed args s m
    else if s.seen_opt_c || s.seen_opt_s
    then if str_eq (default_output s) []
      then parsed args s m
      else with_output args s (default_output s) m
    else if not (str_eq s.input_arg []) && not s.seen_opt_e
    then with_output args s (go "a.out") run_local
    else parsed args s m

unfoldable pub input_mode : Scan → RunMode
input_mode s =
    local_if
      (not (s.seen_opt_c || s.seen_opt_s || is_some s.input_arg_index)
        || not (is_some s.input_arg_index)
        || should_run_local s.input_arg)
      s.mode

unfoldable pub finish_parse : List Str → Checked Scan → Checked ArgParser
finish_parse args panic = panic
finish_parse args (ok s) = ok (add_output args s (input_mode s))

unfoldable pub start_scan : RunMode → Scan
start_scan m = record {
  mode = m;
  input_arg_index = none;
  output_arg_index = none;
  flag_index_map = [];
  skip = false;
  seen_opt_c = false;
  seen_opt_s = false;
  seen_opt_e = false;
  input_arg = [];
  output_arg = [];
}

unfoldable pub prepare : List Str → List Str
prepare args = strip_unsupported_args (standardize args)

unfoldable pub parse : ArgParser → Checked ArgParser
parse p = finish_parse (prepare p.args) (scan 0 (prepare p.args) (start_scan p.mode))
