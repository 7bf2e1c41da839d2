-- ===== src/Cc/Controller.antt =====
-- `sendRemoteRunnerManager.Process` and `recvRemoteRunnerManager.Process` of pkg/cc/controller/send.go
-- and recv.go. The compiler's runs, the files and the answer of the scheduler are parameters; a
-- `RunResponse` stands without its standard output.

use kubecc.Common.{
  ℕ, ◌⊎◌, inl, inr, if◌then◌else◌, List, [], ◌∷◌, Option, none, some, Bool, true, false, ◌||◌, Str,
  go, contains, Checked, ok, panic, get_elem?,
}
use kubecc.Types.Toolchain.{Toolchain}
use kubecc.Cc.Filename.{base}
use kubecc.Cc.Args.Parse.{ArgParser, new_arg_parser, parse}
use kubecc.Cc.Args.Edit.{
  ActionOpt, preprocess, set_action_opt, action_opt, configure_preprocessor_options,
  remove_local_args, prepend_explicit_pic_args, Replaced, replaced, no_input, no_longer_supported,
  replace_input_path,
}
use kubecc.Scheduler.Messages.{
  Request, Response, CompileResult, success, fail, internal_error, defunct, Payload, nothing, error,
  compiled_source, retry_action, RetryAction, unknown_action, do_not_retry,
}

-- The errors of a request that is sent.
pub data SendError : Type 0 where
  no_output_path write_failed remote_failed linker_invoked bad_response no_agents_retry
        no_agents_run_local :
      SendError

pub record RunResponse : Type 0 where
  pub return_code : ℕ
  pub stderr : Str

-- `resp.GetError()`, `resp.GetCompiledSource()` and `resp.GetRetryAction()`
unfoldable pub get_error : Payload → Str
get_error nothing = []
get_error (error text) = text
get_error (compiled_source bytes) = []
get_error (retry_action action) = []

unfoldable pub get_compiled_source : Payload → Str
get_compiled_source nothing = []
get_compiled_source (error text) = []
get_compiled_source (compiled_source bytes) = bytes
get_compiled_source (retry_action action) = []

unfoldable pub get_retry_action : Payload → RetryAction
get_retry_action nothing = unknown_action
get_retry_action (error text) = unknown_action
get_retry_action (compiled_source bytes) = unknown_action
get_retry_action (retry_action action) = action

-- `util.AnalyzeErrors`
unfoldable pub analyze_errors : Str → Bool
analyze_errors msg = contains msg (go "collect2") || contains msg (go "undefined reference")

unfoldable pub retry_error : RetryAction → SendError
retry_error unknown_action = bad_response
retry_error RetryAction.retry = no_agents_retry
retry_error do_not_retry = no_agents_run_local

-- An error of `SetActionOpt` is dropped; without an action option it is always an error.
unfoldable pub set_opt : ActionOpt → ArgParser → ArgParser
set_opt opt p = elim (set_action_opt opt p) [ none ↦ p | some q ↦ q ]

unfoldable pub restore_opt : Option ActionOpt → ArgParser → ArgParser
restore_opt none p = p
restore_opt (some opt) p = set_opt opt p

unfoldable pub output_path : ArgParser → Option Str
output_path p = elim p.output_arg_index [ none ↦ none | some i ↦ get_elem? p.args i ]

unfoldable pub and_then : Checked ArgParser → (ArgParser → Checked ArgParser) → Checked ArgParser
and_then (ok p) f = f p
and_then panic f = panic

-- The preprocessor's output or its errors, the answer to a request, a write of the output file.
pub record SendOps (F : Type 0) : Type 0 where
  pub run_preprocessor : List Str → Str ⊎ Str
  pub compile : Toolchain → List Str → Str → Option Response
  pub absolute : Str → Str
  pub write_output : F → Str → Str → F × Bool

abbrev pub Sent : Type 0 → Type 0
Sent F = F × (RunResponse ⊎ SendError)

module _ {F : Type 0} (ops : SendOps F) where
  unfoldable pub written_output : Response → F × Bool → Sent F
  written_output resp (files, true) =
      (files, inl (record { return_code = 0; stderr = get_error resp.payload }))
  written_output resp (files, false) = (files, inr write_failed)

  unfoldable pub compile_failed : Response → RunResponse ⊎ SendError
  compile_failed resp =
      if analyze_errors (get_error resp.payload)
      then inr linker_invoked
      else inl (record { return_code = 1; stderr = get_error resp.payload })

  unfoldable pub handle_result : F → Str → Response → CompileResult → Sent F
  handle_result files path resp success =
      written_output resp (ops.write_output files path (get_compiled_source resp.payload))
  handle_result files path resp fail = (files, compile_failed resp)
  handle_result files path resp CompileResult.retry =
      (files, inr (retry_error (get_retry_action resp.payload)))
  handle_result files path resp internal_error = (files, inr bad_response)
  handle_result files path resp defunct = (files, inr bad_response)

  unfoldable pub handle_answer : F → Str → Option Response → Sent F
  handle_answer files path none = (files, inr remote_failed)
  handle_answer files path (some resp) = handle_result files path resp resp.compile_result

  -- The remote compile, with the arguments that a remote agent may use.
  unfoldable pub compile_remote : F → Toolchain → Str → Str → Checked ArgParser → Checked (Sent F)
  compile_remote files tc source path panic = panic
  compile_remote files tc source path (ok p) =
      ok (handle_answer files path (ops.compile tc p.args source))

  unfoldable pub send_output : F → Toolchain → Str → ArgParser → Option Str → Checked (Sent F)
  send_output files tc source p none = ok (files, inr no_output_path)
  send_output files tc source p (some path) =
      compile_remote files tc source (ops.absolute path)
        (and_then (remove_local_args p) (prepend_explicit_pic_args tc))

  unfoldable pub send_preprocessed :
      F → Toolchain → Option ActionOpt → ArgParser → Str ⊎ Str → Checked (Sent F)
  send_preprocessed files tc opt p (inr stderr) =
      ok (files, inl (record { return_code = 1; stderr = stderr }))
  send_preprocessed files tc opt p (inl source) =
      let q = restore_opt opt p in send_output files tc source q (output_path q)

  unfoldable pub send_configured : F → Toolchain → Checked ArgParser → Checked (Sent F)
  send_configured files tc panic = panic
  send_configured files tc (ok p) =
      let q = set_opt preprocess p in
      send_preprocessed files tc (action_opt p) q (ops.run_preprocessor q.args)

  -- `Process` of a request that is sent.
  unfoldable pub send_remote : F → Toolchain → ArgParser → Checked (Sent F)
  send_remote files tc p = send_configured files tc (configure_preprocessor_options p)

-- What a compiler's run gives: the object, its errors, or an error of another kind.
pub data CompilerRun : Type 0 where
  object : Str → CompilerRun
  compiler_error : Str → CompilerRun
  not_run no_object : CompilerRun

pub data RecvError : Type 0 where
  temp_failed replace_failed run_failed read_failed empty_object : RecvError

-- A temporary file with a name and a content, and a run of the compiler.
pub record RecvOps : Type 0 where
  pub make_temp : Str → Str → Option Str
  pub run_compiler : Option Toolchain → List Str → CompilerRun
  pub path_dir : Str → Str

module _ (ops : RecvOps) where
  unfoldable pub respond_success : Request → Str → Response ⊎ RecvError
  respond_success req [] = inr empty_object
  respond_success req (b ∷ bytes) = inl (record {
    request_id = req.request_id;
    compile_result = success;
    payload = compiled_source (b ∷ bytes);
  })

  unfoldable pub respond : Request → CompilerRun → Response ⊎ RecvError
  respond req (object bytes) = respond_success req bytes
  respond req (compiler_error text) =
      inl (record { request_id = req.request_id; compile_result = fail; payload = error text })
  respond req not_run = inr run_failed
  respond req no_object = inr read_failed

  unfoldable pub recv_replaced : Request → Replaced → Response ⊎ RecvError
  recv_replaced req (replaced p) = respond req (ops.run_compiler req.toolchain p.args)
  recv_replaced req no_input = inr replace_failed
  recv_replaced req no_longer_supported = inr replace_failed

  unfoldable pub recv_temp : Request → ArgParser → Option Str → Response ⊎ RecvError
  recv_temp req p none = inr temp_failed
  recv_temp req p (some path) = recv_replaced req (replace_input_path ops.path_dir path p)

  -- `ap.Args[ap.InputArgIndex]`, with no test of the index.
  unfoldable pub recv_input : Request → ArgParser → Option Str → Checked (Response ⊎ RecvError)
  recv_input req p none = panic
  recv_input req p (some input) =
      ok (recv_temp req p (ops.make_temp (base input) req.preprocessed_source))

  unfoldable pub recv_parsed : Request → Checked ArgParser → Checked (Response ⊎ RecvError)
  recv_parsed req panic = panic
  recv_parsed req (ok p) =
      recv_input req p (elim p.input_arg_index [ none ↦ none | some i ↦ get_elem? p.args i ])

  -- `Process` of a request that is received.
  unfoldable pub recv_remote : Request → Checked (Response ⊎ RecvError)
  recv_remote req = recv_parsed req (parse (new_arg_parser req.args))
