-- ===== src/Tests/Cc.antt =====
-- The theorems on compiler arguments at concrete inputs.
use kubecc.Common.{
  ◌≡◌, ◌≢◌, refl, List, [], ◌∷◌, some, true, Str, go, str_eq, All, ok, is_some, has_prefix,
  contains,
}
use kubecc.Common.Map.{lookup, insert, delete}
use kubecc.Cc.Args.Parse.{
  ArgParser, run_local, run_remote, new_arg_parser, parse, is_unsupported, strip_unsupported_args,
}
use kubecc.Cc.Filename.{
  should_run_local, base, after_slash, trim_slashes, known_cmake_test_files, is_source_file,
  source_extensions, ext,
}
use kubecc.Cc.Args.Tables.{
  classify, pic_args, profile_args, profile_prefix_args, local_args_with_values,
}
use kubecc.Cc.Args.Parse.{
  finish_parse, prepare, scan, start_scan, standardize, strip_from, scan_arg, is_option, option_arg,
  other_arg, output_is_local, local_if, add_output, input_mode, parsed, settle_mode, default_output,
  with_output,
}
use kubecc.Cc.Args.Edit.{preprocess, opt_string, set_action_opt, replace_opt}
use kubecc.Cc.Args.Found.{InputFound, OutputFound, InRange, parse_indexes}
use kubecc.Cc.Args.Mode.{NonEmpty, parse_remote, parse_total}
use kubecc.Cc.Args.Action.{HasOneAction, HasValidIndexes}
use kubecc.Cc.Tasks.{Exit, failed}

abbrev command : List Str
command = go "-c" ∷ go "-flto" ∷ go "a.c" ∷ go "-o" ∷ go "a.o" ∷ []

-- What parsing it gives.
abbrev parsed_command : ArgParser
parsed_command = record {
  args = go "-c" ∷ go "a.c" ∷ go "-o" ∷ go "a.o" ∷ [];
  mode = run_remote;
  input_arg_index = some 1;
  output_arg_index = some 3;
  flag_index_map = (go "-c", 0) ∷ (go "-o", 2) ∷ [];
}

parsed_lem : parse (new_arg_parser command) ≡ ok parsed_command
unfolding parse finish_parse prepare scan start_scan standardize strip_unsupported_args strip_from
    is_unsupported scan_arg is_option option_arg other_arg classify output_is_local local_if
    add_output input_mode parsed settle_mode default_output should_run_local base after_slash
    trim_slashes known_cmake_test_files is_source_file source_extensions ext has_prefix contains
    str_eq lookup insert new_arg_parser pic_args profile_args profile_prefix_args
    local_args_with_values with_output
parsed_lem = refl

parse_indexes_example :
    InputFound parsed_command.args parsed_command.input_arg_index
    × OutputFound parsed_command.args parsed_command.output_arg_index
    × ((flag : Str) → InRange parsed_command.args (lookup flag parsed_command.flag_index_map))
parse_indexes_example = parse_indexes (new_arg_parser command) parsed_command parsed_lem

parse_remote_example :
    (new_arg_parser command).mode ≢ run_local × is_some parsed_command.input_arg_index ≡ true
parse_remote_example = parse_remote (new_arg_parser command) parsed_command parsed_lem refl

command_lem : All NonEmpty (new_arg_parser command).args
unfolding str_eq new_arg_parser
command_lem = (refl, (refl, (refl, (refl, (refl, tt)))))

parse_total_example : (q : ArgParser) × parse (new_arg_parser command) ≡ ok q
parse_total_example = parse_total (new_arg_parser command) command_lem

one_lem : HasOneAction parsed_command
unfolding lookup str_eq
one_lem = refl

valid_lem : HasValidIndexes parsed_command
valid_lem = (parse_indexes (new_arg_parser command) parsed_command parsed_lem).2

-- With the action -E in place of -c.
abbrev preprocess_command : ArgParser
preprocess_command = record parsed_command {
  args = go "-E" ∷ go "a.c" ∷ go "-o" ∷ go "a.o" ∷ [];
  flag_index_map = (go "-o", 2) ∷ (go "-E", 0) ∷ [];
}

set_lem : set_action_opt preprocess parsed_command ≡ some preprocess_command
unfolding set_action_opt replace_opt lookup insert delete str_eq opt_string
set_lem = refl

-- A preprocessor that fails.
abbrev failing : List Str → Exit
failing args = failed (go "error")
