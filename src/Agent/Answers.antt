-- ===== src/Agent/Answers.antt =====
-- The answers of the agent (pkg/agent/server.go).
use mathlib.Core.List.{Mem}
use kubecc.Common.{
  ◌≡◌, refl, sym, ◌⊎◌, inl, inr, if◌then◌else◌, Option, none, some, Bool, true, false, Str, Returns,
  subst, Checked, ok, panic,
}
use kubecc.Types.Toolchain.{Toolchain, equivalent_to}
use kubecc.Toolchains.Store.{items, try_match}
use kubecc.Toolchains.Find.{Matches, try_match-Matches}
use kubecc.Scheduler.Messages.{Request, Response, internal_error}
use kubecc.Agent.{
  AgentServer, Runners, internal_response, answer_of, compile_matched, compile_with,
  compile_toolchain, agent_compile,
}

-- What a runner made of the request, compiled with a toolchain: a response, or a panic.
abbrev pub IsMadeWith : Runners → Request → Toolchain → Toolchain → Checked Response → Type 0
IsMadeWith runners req asked tc (ok resp) =
    (equivalent_to tc asked ≡ true)
    × (runners.process asked.kind (record req { toolchain = some tc }) ≡ ok (inl resp))
IsMadeWith runners req asked tc panic =
    (equivalent_to tc asked ≡ true)
    × (runners.process asked.kind (record req { toolchain = some tc }) ≡ panic)

abbrev pub IsInternalError : Checked Response → Type 0
IsInternalError c = Returns (λ resp. resp.compile_result ≡ internal_error) c

-- An internal error, or the work of a runner with an equivalent toolchain of the store.
abbrev pub IsAnswer : Runners → AgentServer → Request → Toolchain → Checked Response → Type 0
IsAnswer runners s req asked c =
    IsInternalError c
    ⊎ ((tc : Toolchain) × Mem tc (items s.tc_store) × IsMadeWith runners req asked tc c)

module _ (runners : Runners) where
  answer_of-IsAnswer :
      (s : AgentServer) (req : Request) (asked tc : Toolchain) (c : Checked (Response ⊎ Str))
      → Mem tc (items s.tc_store)
      → equivalent_to tc asked ≡ true
      → runners.process asked.kind (record req { toolchain = some tc }) ≡ c
      → IsAnswer runners s req asked (answer_of req c)
  unfolding answer_of internal_response
  answer_of-IsAnswer s req asked tc (ok (inl resp)) m e p = inr (tc, m, (e, p))
  answer_of-IsAnswer s req asked tc (ok (inr text)) m e p = inl refl
  answer_of-IsAnswer s req asked tc panic m e p = inr (tc, m, (e, p))

  compile_matched-IsAnswer :
      (s : AgentServer) (req : Request) (asked : Toolchain) (o : Option Toolchain)
      → Matches asked (items s.tc_store) o
      → IsAnswer runners s req asked (compile_matched runners req asked.kind o)
  unfolding compile_matched internal_response
  compile_matched-IsAnswer s req asked none m = inl refl
  compile_matched-IsAnswer s req asked (some tc) (m, e) =
      answer_of-IsAnswer s req asked tc
        (runners.process asked.kind (record req { toolchain = some tc })) m e refl

  compile_with-IsAnswer :
      (b : Bool) (s : AgentServer) (req : Request) (asked : Toolchain) (text : Str)
      → IsAnswer runners s req asked (
          if b
          then compile_matched runners req asked.kind (try_match s.tc_store asked)
          else ok (internal_response req text))
  unfolding internal_response
  compile_with-IsAnswer true s req asked text =
      compile_matched-IsAnswer s req asked (try_match s.tc_store asked)
        (try_match-Matches s.tc_store asked)
  compile_with-IsAnswer false s req asked text = inl refl

  -- For every agent and request with a toolchain, in a context that passes its check: `compile`
  -- returns an internal error, or what the runner of the toolchain's kind made of the request with an
  -- equivalent toolchain of the agent's store in the place of the request's; it panics only if that
  -- runner does.
  pub agent_compile-IsAnswer :
      (s : AgentServer) (req : Request) (asked : Toolchain)
      → req.toolchain ≡ some asked
      → IsAnswer runners s req asked (agent_compile runners s none req)
  unfolding agent_compile compile_toolchain compile_with
  agent_compile-IsAnswer s req asked h =
      subst (λ o. IsAnswer runners s req asked (compile_toolchain runners s req o)) (sym h)
        (compile_with-IsAnswer (runners.has_runner asked.kind) s req asked _)
