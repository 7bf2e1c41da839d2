-- ===== src/Cc/Args/Edit.antt =====
-- The operations of pkg/cc/args.go that change the arguments of a parser.
use kubecc.Common.{
  ℕ, ◌==◌, if◌then◌else◌, List, [], ◌∷◌, ◌++◌, Bool, true, false, not, ◌&&◌, ◌||◌, Option, none,
  some, Str, go, str_eq, has_prefix, any, get_or, set, Checked, ok, panic, is_some,
}
use kubecc.Common.Map.{Map, lookup, insert, delete}
use kubecc.Types.Toolchain.{Toolchain}
use kubecc.Cc.Filename.{source_file_language}
use kubecc.Cc.Args.Tables.{local_args_with_values, local_args_no_values, local_prefix_args}
use kubecc.Cc.Args.Parse.{ArgParser, parse}

pub data ActionOpt : Type 0 where
  compile preprocess gen_assembly : ActionOpt

-- `ActionOpt.String`
unfoldable pub opt_string : ActionOpt → Str
opt_string compile = go "-c"
opt_string preprocess = go "-E"
opt_string gen_assembly = go "-S"

unfoldable pub is_action_opt : Str → Bool
is_action_opt s =
    str_eq s (opt_string compile)
    || str_eq s (opt_string preprocess)
    || str_eq s (opt_string gen_assembly)

-- The local function `replace`.
unfoldable pub replace_opt : ArgParser → ActionOpt → ℕ → ActionOpt → ArgParser
replace_opt p opt i old = record p {
  args = set p.args i (opt_string opt);
  flag_index_map = insert (opt_string opt) i (delete (opt_string old) p.flag_index_map);
}

-- `SetActionOpt`, where `none` is the error.
unfoldable pub set_action_opt : ActionOpt → ArgParser → Option ArgParser
set_action_opt opt p = elim (lookup (go "-c") p.flag_index_map) [
  | some i ↦ some (replace_opt p opt i compile)
  | none ↦ elim (lookup (go "-S") p.flag_index_map) [
    | some i ↦ some (replace_opt p opt i gen_assembly)
    | none ↦ elim (lookup (go "-E") p.flag_index_map) [
      | some i ↦ some (replace_opt p opt i preprocess)
      | none ↦ none
    ]
  ]
]

-- `ActionOpt`, where `none` is the option `None`.
unfoldable pub action_opt : ArgParser → Option ActionOpt
action_opt p =
    if is_some (lookup (go "-c") p.flag_index_map)
    then some compile
    else if is_some (lookup (go "-S") p.flag_index_map)
    then some gen_assembly
    else if is_some (lookup (go "-E") p.flag_index_map)
    then some preprocess
    else none

unfoldable pub replace_output_path : Str → ArgParser → Option ArgParser
replace_output_path path p = elim p.output_arg_index [
  | none ↦ none
  | some i ↦ some (record p { args = set p.args i path })
]

-- The outcome of `ReplaceInputPath`.
pub data Replaced : Type 0 where
  replaced : ArgParser → Replaced
  no_input no_longer_supported : Replaced

module _ (path_dir : Str → Str) where
  unfoldable pub prefix_map : Str → Str → Str
  prefix_map new old = go "-ffile-prefix-map=" ++ path_dir new ++ go "=" ++ path_dir old

  unfoldable pub replace_input_path : Str → ArgParser → Replaced
  replace_input_path path p = elim p.input_arg_index [
    | none ↦ no_input
    | some i ↦
        let old = get_or p.args i [] in
        if str_eq old path
        then replaced p
        else if str_eq path (go "-")
        then no_longer_supported
        else replaced (record p { args = set p.args i path ++ prefix_map path old ∷ [] })
  ]

-- `strings.Split(s, ",")`
unfoldable pub split_commas : Str → List Str
split_commas [] = [] ∷ []
split_commas (c ∷ s) =
    let rest = split_commas s in
    if c == 44 then [] ∷ rest else elim rest [ [] ↦ (c ∷ []) ∷ [] | w ∷ ws ↦ (c ∷ w) ∷ ws ]

unfoldable pub wants_path : Str → Bool
wants_path a = str_eq a (go "-MD") || str_eq a (go "-MMD")

unfoldable pub cons_checked : Str → Checked (List Str) → Checked (List Str)
cons_checked a panic = panic
cons_checked a (ok l) = ok (a ∷ l)

-- The loop over the options that follow `-Wp,`: where a path comes after -MD or -MMD, -MF is put
-- in between. An empty option in its place panics.
unfoldable pub insert_mf : List Str → Checked (List Str)
insert_mf [] = ok []
insert_mf (a ∷ []) = ok (a ∷ [])
insert_mf (a ∷ next ∷ rest) =
    let later = insert_mf (next ∷ rest) in
    if wants_path a
    then if str_eq next []
      then panic
      else if has_prefix next (go "-")
      then cons_checked a later
      else cons_checked a (cons_checked (go "-MF") later)
    else cons_checked a later

unfoldable pub append_checked : Checked (List Str) → Checked (List Str) → Checked (List Str)
append_checked panic r = panic
append_checked (ok l) panic = panic
append_checked (ok l) (ok r) = ok (l ++ r)

unfoldable pub drop_first : List Str → List Str
drop_first [] = []
drop_first (a ∷ l) = l

-- The loop of `ConfigurePreprocessorOptions`: what an argument is expanded to is not expanded again.
unfoldable pub expand : List Str → Checked (List Str)
expand [] = ok []
expand (a ∷ rest) =
    let later = expand rest in
    if has_prefix a (go "-Wp")
    then append_checked (insert_mf (drop_first (split_commas a))) later
    else cons_checked a later

-- `ap.Args = args`, and a call of `Parse`.
unfoldable pub reparse : ArgParser → List Str → Checked ArgParser
reparse p args = parse (record p { args = args })

unfoldable pub reparse_checked : ArgParser → Checked (List Str) → Checked ArgParser
reparse_checked p panic = panic
reparse_checked p (ok args) = reparse p args

unfoldable pub configure_preprocessor_options : ArgParser → Checked ArgParser
configure_preprocessor_options p = reparse_checked p (expand p.args)

unfoldable pub takes_value : Str → Bool
takes_value a = any (str_eq a) local_args_with_values

unfoldable pub is_local : Str → Bool
is_local a = any (has_prefix a) local_prefix_args || any (str_eq a) local_args_no_values

-- The loop of `RemoveLocalArgs`; `skip` says that the argument before took this one as its value.
unfoldable pub keep_remote : Bool → List Str → List Str
keep_remote skip [] = []
keep_remote true (a ∷ rest) = keep_remote false rest
keep_remote false (a ∷ rest) =
    let later = keep_remote (takes_value a) rest in
    if takes_value a then later else if is_local a then later else a ∷ later

unfoldable pub remove_local_args : ArgParser → Checked ArgParser
remove_local_args p = reparse p (keep_remote false p.args)

unfoldable pub has_any : List Str → Map ℕ → Bool
has_any flags m = any (λ f. is_some (lookup f m)) flags

unfoldable pub with_pic : Toolchain → ArgParser → List Str → List Str
with_pic tc p args =
    if tc.pic_default
      && not
          (has_any (go "-fno-pic" ∷ go "-fno-PIC" ∷ go "-fPIC" ∷ go "-fpic" ∷ []) p.flag_index_map)
    then go "-fPIC" ∷ args
    else args

unfoldable pub with_pie : Toolchain → ArgParser → List Str → List Str
with_pie tc p args =
    if tc.pie_default
      && not
          (has_any (go "-fno-pie" ∷ go "-fno-PIE" ∷ go "-fPIE" ∷ go "-fpie" ∷ []) p.flag_index_map)
    then go "-fPIE" ∷ args
    else args

unfoldable pub prepend_explicit_pic_args : Toolchain → ArgParser → Checked ArgParser
prepend_explicit_pic_args tc p = reparse p (with_pie tc p (with_pic tc p p.args))

-- `none` is the error of an unknown extension.
unfoldable pub prepend_language_flag : Str → ArgParser → Option (Checked ArgParser)
prepend_language_flag input p = elim (source_file_language input) [
  | none ↦ none
  | some lang ↦ some (reparse p (go "-x" ∷ lang ∷ p.args))
]
