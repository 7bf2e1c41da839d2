-- ===== src/Tests/Scheduler.antt =====
-- The scheduler's theorems at concrete inputs.
use kubecc.Common.{
  ℕ, ◌≡◌, ◌↔◌, ◌≤◌, ◌<◌, refl, List, [], ◌∷◌, ◌++◌, ◌+◌, none, some, true, false, Str, go, str_eq,
  arith, replicate, length, All,
}
use kubecc.Common.Map.{lookup, insert, delete}
use mathlib.Core.List.{Mem}
use kubecc.Types.Toolchain.{Toolchain, gnu, clang, c, cxx}
use kubecc.Scheduler.Router.{
  Router, new_router, route_at, can_send, receiver, detach_at, update_sender_toolchains,
  add_receiver,
}
use kubecc.Scheduler.Router.{attach_all, attach_to, attach, route_for_toolchain, set_add, detach}
use kubecc.Scheduler.Router.Counts.{
  count_at, IsCounted, new_router-IsCounted, add_receiver-IsCounted,
}
use kubecc.Scheduler.Router.History
use kubecc.Scheduler.Router.History.{Op, add_senders, add_receivers, ends, can_send_iff}
use kubecc.Scheduler.Router.Update.{newly, by_sender, update_attaches_last}
use kubecc.Scheduler.Messages.{
  Request, success, compiled_source, not_found, Env, Broker, InflightRequest, Agent, idle,
}
use kubecc.Scheduler.Broker.Route.{route_new_request, route, pre_receive, after_hook, send_on_route}
use kubecc.Scheduler.Broker.Stream.{
  agent_connects, lock_token, take_token, take_request, take_waiting, start_request, is_filling,
  agent_responds, return_token,
}
use kubecc.Scheduler.Broker.Respond.{
  agent_gone, take_response, handle_response, finish, reply, cache_transaction,
}
use kubecc.Scheduler.Broker.Steps
use kubecc.Scheduler.Broker.Steps.{
  Event, step, arrives, connects, locks, takes, responds, handles, routes_change, new_broker,
}
use kubecc.Scheduler.Broker.Tracked.{tracked, answered}
use kubecc.Scheduler.Broker.Account.{requests_conserved}
use kubecc.Scheduler.Broker.Handled.{arrivals}
use kubecc.Scheduler.Broker.Agents.{agents_balanced}
use kubecc.Scheduler.Broker.Tokens.{capacity}
use kubecc.Scheduler.Broker.Recovery.{turns, agent_gone_requeues}

abbrev gcc : Toolchain
gcc = record {
  kind = gnu;
  lang = c;
  executable = go "/usr/bin/gcc";
  target_arch = go "amd64";
  version = go "10";
  pic_default = true;
  pie_default = true;
}

abbrev clangxx : Toolchain
clangxx = record gcc { kind = clang; lang = cxx; executable = go "/usr/bin/clang++" }

abbrev hash_toolchain : Toolchain → Str
hash_toolchain tc = tc.executable

abbrev hash_request : Request → Str
hash_request r = r.request_id

abbrev request : Str → Request
request id = record {
  request_id = id;
  toolchain = some gcc;
  args = go "-c" ∷ [];
  preprocessed_source = go "int main;";
  managed = none;
}

abbrev env : Env
env = record { pull = not_found; taken = true }

abbrev agent_router : Router
agent_router = add_receiver hash_toolchain new_router (go "agent") (gcc ∷ [])

-- An agent connects, takes a token, receives a request and answers it.
abbrev day : List Event
day =
    connects (go "agent") 2
    ∷ locks (go "agent")
    ∷ arrives (go "cd") (request (go "r")) env
    ∷ takes (go "agent") 0 true
    ∷ responds (go "agent") (record {
      request_id = go "r";
      compile_result = success;
      payload = compiled_source (go "o");
    })
    ∷ handles
    ∷ []

day_once : (j : Str) → arrivals j day ≤ 1
day_once j = ground arith

requests_conserved_example :
    answered (Steps.run hash_request hash_toolchain (new_broker false agent_router) day) (go "r")
      + tracked (Steps.run hash_request hash_toolchain (new_broker false agent_router) day) (go "r")
    ≡ arrivals (go "r") day
requests_conserved_example =
    requests_conserved hash_request hash_toolchain false agent_router day day_once (go "r")

-- The agent after that day.
abbrev rested : Agent
rested = record {
  concurrent_process_limit = 2;
  available_tokens = 2;
  locked_tokens = 0;
  completed_tasks = 1;
  sending = idle;
}

abbrev evening : Broker
evening = Steps.run hash_request hash_toolchain (new_broker false agent_router) day

rested_lem : lookup (go "agent") evening.agents ≡ some rested
unfolding Steps.run step lookup insert delete new_broker agent_connects lock_token take_token
    take_request take_waiting start_request agent_responds is_filling return_token handle_response
    take_response finish reply cache_transaction route_new_request route pre_receive after_hook
    send_on_route str_eq add_receiver attach_all attach_to attach route_for_toolchain set_add
rested_lem = refl

agents_balanced_example :
    rested.available_tokens + rested.locked_tokens ≡ capacity rested.concurrent_process_limit
agents_balanced_example =
    agents_balanced hash_request hash_toolchain false agent_router day (go "agent") rested
      rested_lem

-- The agent leaves while the request is inflight on it.
abbrev noon : Broker
noon = Steps.run hash_request hash_toolchain (new_broker false agent_router) (
    connects (go "agent") 2
    ∷ locks (go "agent")
    ∷ arrives (go "cd") (request (go "r")) env
    ∷ takes (go "agent") 0 true
    ∷ [])

abbrev carried : InflightRequest
carried = record {
  pending_request = record { request = request (go "r"); requester = go "cd" };
  agent = some (go "agent");
}

noon_lem : lookup (go "r") noon.inflight_requests ≡ some carried
unfolding Steps.run step lookup insert delete new_broker agent_connects lock_token take_token
    take_request take_waiting start_request agent_responds is_filling return_token handle_response
    take_response finish reply cache_transaction route_new_request route pre_receive after_hook
    send_on_route str_eq add_receiver attach_all attach_to attach route_for_toolchain set_add
noon_lem = refl

none_waits : All (λ r. str_eq r.request_id (go "r") ≡ false) noon.response_queue
unfolding Steps.run step lookup insert delete new_broker agent_connects lock_token take_token
    take_request take_waiting start_request agent_responds is_filling return_token handle_response
    take_response finish reply cache_transaction route_new_request route pre_receive after_hook
    send_on_route str_eq add_receiver attach_all attach_to attach route_for_toolchain set_add
none_waits = tt

agent_gone_requeues_example :
    let c =
      turns (length (agent_gone noon (go "agent")).response_queue) (agent_gone noon (go "agent")) in
    Mem carried.pending_request c.requeued
    × (lookup (go "r") c.inflight_requests ≡ none)
    × (answered c (go "r") ≡ answered noon (go "r"))
agent_gone_requeues_example =
    agent_gone_requeues noon (go "agent") (go "r") carried noon_lem refl none_waits

can_send_iff_example :
    (can_send (
        route_at
          (History.run hash_toolchain new_router
            (add_senders (go "cd") (gcc ∷ []) ∷ add_receivers (go "agent") (gcc ∷ []) ∷ []))
          0)
      ≡ true)
    ↔ (0
        < count_at receiver 0
            (History.run hash_toolchain new_router (
              add_senders (go "cd") (gcc ∷ [])
              ∷ add_receivers (go "agent") (gcc ∷ [])
              ∷ [])).attached)
can_send_iff_example =
    can_send_iff hash_toolchain
      (add_senders (go "cd") (gcc ∷ []) ∷ add_receivers (go "agent") (gcc ∷ []) ∷ []) 0

agent_router-IsCounted : IsCounted agent_router
agent_router-IsCounted =
    add_receiver-IsCounted hash_toolchain new_router (go "agent") (gcc ∷ []) new_router-IsCounted

live : (route_at agent_router 0).cancelled ≡ false
unfolding add_receiver attach_all attach_to attach route_for_toolchain set_add lookup insert
live = refl

dead : (route_at (detach_at agent_router 0) 0).cancelled ≡ true
unfolding add_receiver attach_all attach_to attach route_for_toolchain set_add lookup insert
    detach_at detach
dead = refl

-- A consumerd gets two new toolchains.
abbrev known_router : Router
known_router = record new_router { senders = (go "cd", []) ∷ [] }

known_lem : lookup (go "cd") known_router.senders ≡ some []
unfolding lookup str_eq
known_lem = refl

newly_lem : 0 < length (newly [] (gcc ∷ clangxx ∷ []))
newly_lem = omega arith

update_attaches_last_example :
    (p : ℕ) × (lookup
        (hash_toolchain clangxx)
        (update_sender_toolchains hash_toolchain known_router (go "cd") (gcc ∷ clangxx ∷ [])).routes
      ≡ some p)
    × ((update_sender_toolchains hash_toolchain known_router
          (go "cd")
          (gcc ∷ clangxx ∷ [])).attached
        ≡ replicate 2 (by_sender (go "cd") p) ++ known_router.attached)
update_attaches_last_example =
    update_attaches_last hash_toolchain known_router (go "cd") [] (gcc ∷ []) clangxx known_lem
      newly_lem
