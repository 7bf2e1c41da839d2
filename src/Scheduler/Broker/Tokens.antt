-- ===== src/Scheduler/Broker/Tokens.antt =====
-- The tokens of an agent of pkg/scheduler/broker.go, handler by handler.
use kubecc.Common.{
  if◌then◌else◌, true, false, ℕ, ◌+◌, ◌≡◌, Option, none, some, Bool, Str, arith, inl, inr, ltb,
  Option-cases,
}
use kubecc.Common.Map.{lookup, insert, lookup-insert, lookup-delete}
use kubecc.Scheduler.Messages.{
  Request, Response, SendState, idle, holding, stopped, filling, Agent, Broker,
}
use kubecc.Scheduler.Broker.Respond.{agent_gone}
use kubecc.Scheduler.Broker.Stream.{
  max_tokens, agent_connects, is_filling, take_token, return_token, lock_token, start_request,
  take_waiting, take_request, agent_responds,
}

-- As many tokens as the limit asks for and the channel has room for.
abbrev pub capacity : ℕ → ℕ
capacity limit = if ltb max_tokens limit then max_tokens else limit

-- An agent's tokens are as many as its limit and the channel allow, and its sending goroutine holds a locked one at most
-- until the agent answers.
abbrev pub IsBalanced : Agent → Type 0
IsBalanced a = a.available_tokens + a.locked_tokens ≡ capacity a.concurrent_process_limit

pub record AllBalanced (b : Broker) : Type 0 where
  pub balanced : (uuid : Str) (a : Agent) → lookup uuid b.agents ≡ some a → IsBalanced a

inserted :
    (b : Broker) (uuid : Str) (a : Agent)
    → IsBalanced a
    → AllBalanced b
    → (j : Str) (c : Agent) → lookup j (insert uuid a b.agents) ≡ some c
    → IsBalanced c
inserted b uuid a h v j c e = ground (arith, lookup-insert uuid j a b.agents, v.balanced j c)

pub if-AllBalanced :
    (c : Bool) (b d : Broker) → AllBalanced b → AllBalanced d → AllBalanced (if c then b else d)
if-AllBalanced true b d v w = v
if-AllBalanced false b d v w = w

module _ (b : Broker) (uuid : Str) (v : AllBalanced b) where
  pub agent_connects-AllBalanced : (limit : ℕ) → AllBalanced (agent_connects b uuid limit)
  unfolding agent_connects
  agent_connects-AllBalanced limit = record { balanced = inserted b uuid _ (omega arith) v }

  pub agent_gone-AllBalanced : AllBalanced (agent_gone b uuid)
  unfolding agent_gone
  agent_gone-AllBalanced = record {
    balanced = λ j a e. ground (arith, lookup-delete uuid j b.agents, v.balanced j a);
  }

  pub lock_token-AllBalanced : AllBalanced (lock_token b uuid)
  unfolding lock_token take_token
  lock_token-AllBalanced = elim (Option-cases (lookup uuid b.agents)) [
    | inl e ↦ rw (e, lock_token) v
    | inr (a, e) ↦
        rw (e, lock_token)
          (record { balanced = inserted b uuid _ (ground (arith, v.balanced uuid a e)) v })
  ]

  pub agent_responds-AllBalanced : (resp : Response) → AllBalanced (agent_responds b uuid resp)
  unfolding agent_responds return_token
  agent_responds-AllBalanced resp = elim (Option-cases (lookup uuid b.agents)) [
    | inl e ↦ rw (e, agent_responds) v
    | inr (a, e) ↦
        rw (e, agent_responds)
          (if-AllBalanced (is_filling a.sending) b _ v
            (record { balanced = inserted b uuid _ (ground (arith, v.balanced uuid a e)) v }))
  ]

  start_request-AllBalanced :
      (a : Agent) (req : Request) (delivered : Bool)
      → IsBalanced a
      → AllBalanced (start_request b uuid a req delivered)
  unfolding start_request
  start_request-AllBalanced a req delivered h =
      elim (Option-cases (lookup req.request_id b.pending_requests)) [
        | inl e ↦ rw (e, start_request) (record { balanced = inserted b uuid _ h v })
        | inr (p, e) ↦ rw (e, start_request) (record { balanced = inserted b uuid _ h v })
      ]

take_waiting-AllBalanced :
    (b : Broker) (uuid : Str) (i : ℕ) (delivered : Bool) (a : Agent) (sending : SendState)
    (o : Option Request)
    → AllBalanced b
    → IsBalanced a
    → AllBalanced (take_waiting b uuid i delivered a sending o)
unfolding take_waiting
take_waiting-AllBalanced b uuid i delivered a idle o v h = v
take_waiting-AllBalanced b uuid i delivered a stopped o v h = v
take_waiting-AllBalanced b uuid i delivered a filling o v h = v
take_waiting-AllBalanced b uuid i delivered a holding none v h = v
take_waiting-AllBalanced b uuid i delivered a holding (some req) v h =
    start_request-AllBalanced _ uuid (record { balanced = v.balanced }) a req delivered h

pub take_request-AllBalanced :
    (b : Broker) (uuid : Str) (i : ℕ) (delivered : Bool)
    → AllBalanced b
    → AllBalanced (take_request b uuid i delivered)
unfolding take_request
take_request-AllBalanced b uuid i delivered v = elim (Option-cases (lookup uuid b.agents)) [
  | inl e ↦ rw (e, take_request) v
  | inr (a, e) ↦
      rw (e, take_request)
        (take_waiting-AllBalanced b uuid i delivered a a.sending _ v (v.balanced uuid a e))
]
