-- ===== src/Cc/Tasks/Ends.antt =====
-- How the tasks of pkg/cc/compile.go and preprocess.go end.
use kubecc.Common.{
  ℕ, ◌≡◌, refl, if◌then◌else◌, List, [], Option, none, some, Bool, true, false, not, ◌&&◌, Str, go,
  ◌⊎◌, inl, inr, get_or, set, Bool-cases,
}
use kubecc.Cc.Args.Parse.{ArgParser}
use kubecc.Cc.Args.Edit.{replace_output_path}
use kubecc.Run.Tasks.{set_err}
use kubecc.Cc.Tasks.{
  Exit, not_started, failed, succeeded, CompileOps, Ran, fails, compile_exit, compile_exec,
  compile_to, compile_temp, compile_in, compile_at, run_compile_task, temp_ext,
}

-- The arguments with which a preprocessor runs.
abbrev pub args_at : Option ℕ → List Str → List Str
args_at none args = args
args_at (some i) args = set args i (go "-")

-- What a task can end with: the error can be read, and a result goes to the writer only if there is one
-- and a file may be written.
abbrev Settled : Bool → Bool → Ran → Type 0
Settled no_temp_file has_writer r =
    (r.error.is_set ≡ true) × ((r.written ≡ none) ⊎ ((has_writer && not no_temp_file) ≡ true))

module _ (ops : CompileOps) (no_temp_file has_writer : Bool) where
  compile_exit-Settled :
      (p : ArgParser) (tmp : Str) (e : Exit)
      → Settled no_temp_file has_writer (compile_exit ops no_temp_file has_writer p tmp e)
  unfolding compile_exit fails set_err
  compile_exit-Settled p tmp (not_started t) = (refl, inl refl)
  compile_exit-Settled p tmp (failed t) = (refl, inl refl)
  compile_exit-Settled p tmp succeeded = elim (Bool-cases (has_writer && not no_temp_file)) [
    | inl e ↦ rw e (refl, inr refl)
    | inr e ↦ rw e (refl, inl refl)
  ]

  compile_to-Settled :
      (p : ArgParser) (tmp : Str) (o : Option ArgParser)
      → Settled no_temp_file has_writer (compile_to ops no_temp_file has_writer p tmp o)
  unfolding compile_to compile_exec fails set_err
  compile_to-Settled p tmp none = (refl, inl refl)
  compile_to-Settled p tmp (some q) = compile_exit-Settled q tmp (ops.exec q.args)

  compile_temp-Settled :
      (p : ArgParser) (t : Str ⊎ Str)
      → Settled no_temp_file has_writer (compile_temp ops no_temp_file has_writer p t)
  unfolding compile_temp fails set_err
  compile_temp-Settled p (inr text) = (refl, inl refl)
  compile_temp-Settled p (inl tmp) = compile_to-Settled p tmp (replace_output_path tmp p)

  compile_in-Settled :
      (p : ArgParser) (i : ℕ) (d : Str ⊎ Str)
      → Settled no_temp_file has_writer (compile_in ops no_temp_file has_writer p i d)
  unfolding compile_in fails set_err
  compile_in-Settled p i (inr text) = (refl, inl refl)
  compile_in-Settled p i (inl dir) =
      compile_temp-Settled p
        (ops.create_temp dir (temp_ext ops no_temp_file has_writer (get_or p.args i [])))

  if-Settled :
      (b : Bool) (r q : Ran)
      → Settled no_temp_file has_writer r
      → Settled no_temp_file has_writer q
      → Settled no_temp_file has_writer (if b then r else q)
  if-Settled true r q h k = h
  if-Settled false r q h k = k

  compile_at-Settled :
      (o : Option ℕ) (p : ArgParser)
      → Settled no_temp_file has_writer (compile_at ops no_temp_file has_writer o p)
  unfolding compile_at compile_exec
  compile_at-Settled none p = compile_exit-Settled p [] (ops.exec p.args)
  compile_at-Settled (some i) p =
      if-Settled (not no_temp_file) (compile_in ops no_temp_file has_writer p i ops.top_level_dir)
        (compile_exec ops no_temp_file has_writer p []) (compile_in-Settled p i ops.top_level_dir)
        (compile_exit-Settled p [] (ops.exec p.args))

  -- For every parser and every answer of the system: a compile task that has run has its error set, and it writes a result only
  -- if there is an output writer and a temporary file is allowed.
  run_compile_task-Settled :
      (p : ArgParser)
      → Settled no_temp_file has_writer (run_compile_task ops no_temp_file has_writer p)
  unfolding run_compile_task
  run_compile_task-Settled p = compile_at-Settled p.output_arg_index p
