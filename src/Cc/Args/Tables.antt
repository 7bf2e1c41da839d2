-- ===== src/Cc/Args/Tables.antt =====
-- The tables of pkg/cc/args.go, and the conditions of its switch on an option argument.
use kubecc.Common.{if◌then◌else◌, List, [], ◌∷◌, ◌||◌, Str, go, str_eq, has_prefix, any}

unfoldable pub profile_args : List Str
profile_args =
    go "-fprofile-arcs" ∷ go "-ftest-coverage" ∷ go "--coverage" ∷ go "-fprofile-correction" ∷ []

unfoldable pub profile_prefix_args : List Str
profile_prefix_args = go "-fprofile-generate" ∷ go "-fprofile-use" ∷ go "-fauto-profile" ∷ []

unfoldable pub local_args_with_values : List Str
local_args_with_values =
    go "-D"
    ∷ go "-I"
    ∷ go "-U"
    ∷ go "-L"
    ∷ go "-l"
    ∷ go "-MF"
    ∷ go "-MT"
    ∷ go "-MQ"
    ∷ go "-include"
    ∷ go "-imacros"
    ∷ go "-iprefix"
    ∷ go "-iwithprefix"
    ∷ go "-isystem"
    ∷ go "-imultilib"
    ∷ go "-iplugindir"
    ∷ go "-iquote"
    ∷ go "-isysroot"
    ∷ go "-iwithprefixbefore"
    ∷ go "-idirafter"
    ∷ []

unfoldable pub pic_args : List Str
pic_args =
    go "-fPIC"
    ∷ go "-fPIE"
    ∷ go "-fpic"
    ∷ go "-fpie"
    ∷ go "-fno-pic"
    ∷ go "-fno-pie"
    ∷ go "-fno-PIC"
    ∷ go "-fno-PIE"
    ∷ []

unfoldable pub local_args_no_values : List Str
local_args_no_values =
    go "-undef"
    ∷ go "-nostdinc"
    ∷ go "-nostdinc++"
    ∷ go "-MD"
    ∷ go "-MMD"
    ∷ go "-MG"
    ∷ go "-MP"
    ∷ []

unfoldable pub local_prefix_args : List Str
local_prefix_args =
    go "-Wp,"
    ∷ go "-Wl,"
    ∷ go "-D"
    ∷ go "-U"
    ∷ go "-I"
    ∷ go "-l"
    ∷ go "-L"
    ∷ go "-MF"
    ∷ go "-MT"
    ∷ go "-MQ"
    ∷ go "-isystem"
    ∷ go "-stdlib"
    ∷ []

-- The cases of the switch on an option argument. Those that only set the mode are one.
pub data OptionKind : Type 0 where
  preprocess dep_flag dep_value dep_other pic assembler_options local_only gen_assembly : OptionKind
  language with_value compile output other : OptionKind

-- Which case of the switch an option argument falls in: the first whose condition holds.
unfoldable pub classify : Str → OptionKind
classify a =
    if str_eq a (go "-E")
    then preprocess
    else if str_eq a (go "-MD") || str_eq a (go "-MMD")
    then dep_flag
    else if str_eq a (go "-MG") || str_eq a (go "-MP")
    then dep_flag
    else if has_prefix a (go "-MF") || has_prefix a (go "-MT") || has_prefix a (go "-MQ")
    then dep_value
    else if has_prefix a (go "-M")
    then dep_other
    else if str_eq a (go "-march=native")
    then local_only
    else if str_eq a (go "-mtune=native")
    then local_only
    else if any (str_eq a) pic_args
    then pic
    else if has_prefix a (go "-Wa,")
    then assembler_options
    else if has_prefix a (go "-specs=")
    then local_only
    else if str_eq a (go "-S")
    then gen_assembly
    else if any (str_eq a) profile_args
    then local_only
    else if any (has_prefix a) profile_prefix_args
    then local_only
    else if str_eq a (go "-frepo")
    then local_only
    else if has_prefix a (go "-x")
    then language
    else if has_prefix a (go "-dr")
    then local_only
    else if any (str_eq a) local_args_with_values
    then with_value
    else if str_eq a (go "-c")
    then compile
    else if str_eq a (go "-o")
    then output
    else other
