-- ===== src/Scheduler/Server/Counted.antt =====
-- The conditions of pkg/scheduler/server.go that there are no agents or no consumerds.
use kubecc.Common.{
  ℕ, ◌<◌, ◌==◌, ◌≡◌, ◌≢◌, sym, subst, if◌then◌else◌, List, [], ◌∷◌, Bool, true, false, Str, any,
  arith, Bool-cases, inl, inr,
}
use kubecc.Metrics.Health.{
  ActiveCondition, Condition, missing_optional_component, apply_condition, clear_condition,
}
use kubecc.Scheduler.Server.{
  SchedulerServer, Kind, agent, consumerd, streams_of, with_streams, no_streams, apply_no_streams,
  cancel_no_streams, new_scheduler_server, stream_counted, stream_cancels, stream_discounted,
  stream_applies, post_count, stream_begins, stream_ends, StreamEvent, begins, ends, server_step,
  server_run,
}

-- Whether a condition with a context is there.
abbrev pub has_ctx : ℕ → List ActiveCondition → Bool
has_ctx ctx cs = any (λ c. c.while == ctx) cs

-- Whether the condition that there is no stream of a kind holds.
abbrev pub has_condition : Kind → SchedulerServer → Bool
has_condition k s = has_ctx (streams_of k s).cond_cancel s.conditions

has_ctx-clear :
    (j k : ℕ) (cs : List ActiveCondition)
    → has_ctx k (clear_condition j cs) ≡ (if j == k then false else has_ctx k cs)
unfolding clear_condition
has_ctx-clear j k [] = ground arith
has_ctx-clear j k (c ∷ cs) = ground (arith, has_ctx-clear j k cs)

has_ctx-apply :
    (j k : ℕ) (kind : Condition) (msgs : List Str) (cs : List ActiveCondition)
    → has_ctx k (apply_condition j kind msgs cs) ≡ (if j == k then true else has_ctx k cs)
unfolding apply_condition
has_ctx-apply j k kind msgs cs = ground (arith, has_ctx-clear j k cs)

-- Between two handlers.
pub record Settled (s : SchedulerServer) : Type 0 where
  pub agents_before : s.agents.cond_cancel < s.next_ctx
  pub consumerds_before : s.consumerds.cond_cancel < s.next_ctx
  pub apart : s.agents.cond_cancel ≢ s.consumerds.cond_cancel
  pub agents_idle : (s.agents.to_cancel ≡ 0) × (s.agents.to_apply ≡ 0)
  pub consumerds_idle : (s.consumerds.to_cancel ≡ 0) × (s.consumerds.to_apply ≡ 0)
  pub no_agents : has_ctx s.agents.cond_cancel s.conditions ≡ (s.agents.count == 0)
  pub no_consumerds : has_ctx s.consumerds.cond_cancel s.conditions ≡ (s.consumerds.count == 0)

begins-Settled : (k : Kind) (s : SchedulerServer) → Settled s → Settled (stream_begins k s)
unfolding stream_begins post_count stream_cancels stream_counted cancel_no_streams with_streams
    streams_of
begins-Settled agent s h = ground (
  arith,
  has_ctx-clear s.agents.cond_cancel s.agents.cond_cancel s.conditions,
  has_ctx-clear s.agents.cond_cancel s.consumerds.cond_cancel s.conditions,
)
begins-Settled consumerd s h = ground (
  arith,
  has_ctx-clear s.consumerds.cond_cancel s.consumerds.cond_cancel s.conditions,
  has_ctx-clear s.consumerds.cond_cancel s.agents.cond_cancel s.conditions,
)

ends-Settled :
    (k : Kind) (s : SchedulerServer)
    → ((streams_of k s).count == 0) ≡ false
    → Settled s
    → Settled (stream_ends k s)
unfolding stream_ends post_count stream_applies stream_discounted apply_no_streams with_streams
    streams_of
ends-Settled agent s e h =
    let msgs = no_streams agent ∷ [] in
    ground (
      arith,
      has_ctx-apply s.next_ctx s.next_ctx missing_optional_component msgs s.conditions,
      has_ctx-apply s.next_ctx s.consumerds.cond_cancel missing_optional_component msgs
          s.conditions,
    )
ends-Settled consumerd s e h =
    let msgs = no_streams consumerd ∷ [] in
    ground (
      arith,
      has_ctx-apply s.next_ctx s.next_ctx missing_optional_component msgs s.conditions,
      has_ctx-apply s.next_ctx s.agents.cond_cancel missing_optional_component msgs s.conditions,
    )

server_step-Settled :
    (e : StreamEvent) (s : SchedulerServer) → Settled s → Settled (server_step e s)
unfolding server_step
server_step-Settled (begins k) s h = begins-Settled k s h
server_step-Settled (ends k) s h = elim (Bool-cases ((streams_of k s).count == 0)) [
  | inl e ↦ subst (λ b. Settled (if b then s else stream_ends k s)) (sym e) h
  | inr e ↦ subst (λ b. Settled (if b then s else stream_ends k s)) (sym e) (ends-Settled k s e h)
]

server_run-Settled :
    (es : List StreamEvent) (s : SchedulerServer) → Settled s → Settled (server_run es s)
unfolding server_run
server_run-Settled [] s h = h
server_run-Settled (e ∷ es) s h =
    server_run-Settled es (server_step e s) (server_step-Settled e s h)

new-Settled : Settled new_scheduler_server
unfolding new_scheduler_server apply_no_streams with_streams streams_of apply_condition
    clear_condition
new-Settled = ground arith

-- After every history in which the handlers of streams run one after another up to their wait and after
-- it: the condition that there are no agents holds just while the count of agents is 0, and that
-- there are no consumerds just while theirs is.
pub server_run-conditions :
    (es : List StreamEvent)
    → let s = server_run es new_scheduler_server in
      (has_condition agent s ≡ (s.agents.count == 0))
      × (has_condition consumerd s ≡ (s.consumerds.count == 0))
unfolding streams_of
server_run-conditions es =
    let h = server_run-Settled es new_scheduler_server new-Settled in (h.no_agents, h.no_consumerds)

-- Of a server between two handlers that has one agent: when the handler of its stream has set the count
-- to 0 and another agent's stream begins before the handler applies the condition, then the
-- condition that there are no agents holds though there is one.
pub stream_applies-late :
    (s : SchedulerServer)
    → Settled s
    → s.agents.count ≡ 1
    → let t = stream_applies agent (stream_begins agent (stream_discounted agent s)) in
      (t.agents.count ≡ 1) × (has_condition agent t ≡ true)
unfolding stream_applies stream_begins post_count stream_cancels stream_counted stream_discounted
    cancel_no_streams apply_no_streams with_streams streams_of
stream_applies-late s h one =
    let msgs = no_streams agent ∷ [] in
    ground (
      arith,
      has_ctx-apply s.next_ctx s.next_ctx missing_optional_component msgs
          (clear_condition s.agents.cond_cancel s.conditions),
    )
