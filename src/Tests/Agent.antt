-- ===== src/Tests/Agent.antt =====
-- The theorems on the agent and on the search for the compiler at concrete inputs.
use kubecc.Common.{
  ◌==◌, ◌≡◌, refl, if◌then◌else◌, ◌++◌, inl, [], ◌∷◌, none, some, true, false, Str, go, any, ok,
  str_eq,
}
use kubecc.Types.Toolchain.{Toolchain, gnu, c}
use kubecc.Toolchains.Store.{Querier, modified}
use kubecc.Scheduler.Messages.{Request, success, compiled_source}
use kubecc.Agent.{AgentServer, Runners, agent_compile}
use kubecc.Agent.Answers.{IsAnswer, agent_compile-IsAnswer}
use kubecc.Consumer.{PathOps, look_path}
use kubecc.Consumer.Found.{IsSearched, look_path-IsSearched}

abbrev gcc : Toolchain
gcc = record {
  kind = gnu;
  lang = c;
  executable = go "/usr/bin/gcc";
  target_arch = go "amd64";
  version = go "10";
  pic_default = true;
  pie_default = false;
}

abbrev asked : Toolchain
asked = record gcc { executable = go "/opt/gcc" }

abbrev queries : Querier
queries = record {
  target_arch = λ e. none;
  version = λ e. none;
  is_pic_default = λ e. none;
  kind = λ e. none;
  lang = λ e. none;
  mod_time = λ e. modified 4;
}

abbrev agent : AgentServer
agent = record {
  tc_store =
      (go "/usr/bin/gcc", record { toolchain = gcc; mod_time = modified 4; querier = queries })
      ∷ [];
  running_tasks = 0;
}

abbrev request : Request
request = record {
  request_id = go "r";
  toolchain = some asked;
  args = go "-c" ∷ [];
  preprocessed_source = go "int x;";
  managed = none;
}

abbrev runners : Runners
runners = record {
  has_runner = λ k. true;
  process = λ k req. ok (
      inl (record {
        request_id = req.request_id;
        compile_result = success;
        payload = compiled_source (go "o");
      }));
}

agent_compile-IsAnswer_example :
    IsAnswer runners agent request asked (agent_compile runners agent none request)
agent_compile-IsAnswer_example = agent_compile-IsAnswer runners agent request asked refl

abbrev slash_between : Str → Str → Str
slash_between dir file = dir ++ go "/" ++ file

-- Every file is executable, and /kubecc/gcc is a link to the program.
abbrev paths : PathOps
paths = record {
  eval_symlinks = λ p. some (if str_eq p (go "/kubecc/gcc") then go "/bin/kubecc" else p);
  is_executable = λ p. true;
  join = slash_between;
}

no_slash : any (λ x. x == 47) (go "gcc") ≡ false
no_slash = refl

look_path-IsSearched_example :
    IsSearched paths
      (go "/kubecc" ∷ go "/usr/bin" ∷ [])
      (go "gcc")
      (go "/bin/kubecc")
      (look_path paths (go "/kubecc" ∷ go "/usr/bin" ∷ []) (go "gcc") (go "/bin/kubecc"))
look_path-IsSearched_example =
    look_path-IsSearched paths (go "/kubecc" ∷ go "/usr/bin" ∷ []) (go "gcc") (go "/bin/kubecc")
      no_slash
