-- ===== src/Cc/Tasks.antt =====
-- The tasks of pkg/cc/compile.go and preprocess.go, over the parser of the arguments. The temporary files
-- and the runs of the compiler are parameters: whether a run starts, and what it writes to the standard
-- error if it fails.
pub mod Ends
use kubecc.Common.{
  ℕ, ◌≡◌, refl, if◌then◌else◌, List, [], ◌∷◌, Option, none, some, Bool, true, false, not, ◌&&◌, Str,
  go, str_eq, get_or, ◌⊎◌, inl, inr,
}
use kubecc.Cc.Filename.{ext}
use kubecc.Cc.Args.Parse.{ArgParser}
use kubecc.Cc.Args.Edit.{replace_output_path}
use kubecc.Run.Tasks.{NullableError, set_err}

-- How the run of a command ends.
pub data Exit : Type 0 where
  not_started : Str → Exit
  failed : Str → Exit
  succeeded : Exit

pub record CompileOps : Type 0 where
  -- the directory for temporary files, or the text of an error
  pub top_level_dir : Str ⊎ Str
  -- a new file with an extension in a directory
  pub create_temp : Str → Str → Str ⊎ Str
  pub exec : List Str → Exit
  -- the error of a write to the output writer
  pub write : Str → Option Str

-- A task that has run: its parser, its error, the arguments of the command if there was one, and what
-- was written to the output writer.
pub record Ran : Type 0 where
  pub ap : ArgParser
  pub error : NullableError
  pub executed : Option (List Str)
  pub written : Option Str

unfoldable pub new_error : NullableError
new_error = record { is_set = false; err = none }

-- An early return.
unfoldable pub fails : ArgParser → Str → Ran
fails ap text = record {
  ap = ap;
  error = set_err (some text) new_error;
  executed = none;
  written = none;
}

module _ (ops : CompileOps) (no_temp_file has_writer : Bool) where
  unfoldable pub compile_exit : ArgParser → Str → Exit → Ran
  compile_exit ap tmp (not_started text) = record (fails ap text) { executed = some ap.args }
  compile_exit ap tmp (failed stderr) = record (fails ap stderr) { executed = some ap.args }
  compile_exit ap tmp succeeded =
      if has_writer && not no_temp_file
      then record {
        ap = ap;
        error = set_err (ops.write tmp) new_error;
        executed = some ap.args;
        written = some tmp;
      }
      else record {
        ap = ap;
        error = set_err none new_error;
        executed = some ap.args;
        written = none;
      }

  unfoldable pub compile_exec : ArgParser → Str → Ran
  compile_exec ap tmp = compile_exit ap tmp (ops.exec ap.args)

  unfoldable pub temp_ext : Str → Str
  temp_ext path = if str_eq (ext path) [] && str_eq path (go "-") then go ".o" else ext path

  unfoldable pub compile_to : ArgParser → Str → Option ArgParser → Ran
  compile_to ap tmp none = fails ap (go "no output path")
  compile_to ap tmp (some replaced) = compile_exec replaced tmp

  unfoldable pub compile_temp : ArgParser → Str ⊎ Str → Ran
  compile_temp ap (inr text) = fails ap text
  compile_temp ap (inl tmp) = compile_to ap tmp (replace_output_path tmp ap)

  unfoldable pub compile_in : ArgParser → ℕ → Str ⊎ Str → Ran
  compile_in ap i (inr text) = fails ap text
  compile_in ap i (inl dir) = compile_temp ap (ops.create_temp dir (temp_ext (get_or ap.args i [])))

  unfoldable pub compile_at : Option ℕ → ArgParser → Ran
  compile_at none ap = compile_exec ap []
  compile_at (some i) ap =
      if not no_temp_file then compile_in ap i ops.top_level_dir else compile_exec ap []

  -- `Run` of a compile task.
  unfoldable pub run_compile_task : ArgParser → Ran
  run_compile_task ap = compile_at ap.output_arg_index ap

unfoldable pub parser_or : Option ArgParser → ArgParser → ArgParser
parser_or none ap = ap
parser_or (some replaced) ap = replaced

-- A replacement whose error is dropped.
unfoldable pub replaced_by : Str → ArgParser → ArgParser
replaced_by path ap = parser_or (replace_output_path path ap) ap

module _ (exec : List Str → Exit) where
  unfoldable pub preprocess_exit : ArgParser → List Str → Exit → Ran
  preprocess_exit ap args (not_started text) = record (fails ap text) { executed = some args }
  preprocess_exit ap args (failed stderr) = record (fails ap stderr) { executed = some args }
  preprocess_exit ap args succeeded = record {
    ap = ap;
    error = set_err none new_error;
    executed = some args;
    written = none;
  }

  unfoldable pub preprocess_at : Option ℕ → ArgParser → Ran
  preprocess_at none ap = preprocess_exit ap ap.args (exec ap.args)
  preprocess_at (some i) ap =
      let to_stdout = replaced_by (go "-") ap in
      preprocess_exit (replaced_by (get_or ap.args i []) to_stdout) to_stdout.args
        (exec to_stdout.args)

  -- `Run` of a preprocess task, with its deferred call.
  unfoldable pub run_preprocess_task : ArgParser → Ran
  run_preprocess_task ap = preprocess_at ap.output_arg_index ap
