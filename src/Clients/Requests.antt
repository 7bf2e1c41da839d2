-- ===== src/Clients/Requests.antt =====
-- `CompileRequestClient` of pkg/clients/scheduler.go. A call of `Compile` is a number, and stands where
-- it is; its channel is closed when it returns. The steps of the calls and of the worker that receives
-- come in any order.
pub mod Orders
use kubecc.Common.{
  ℕ, if◌then◌else◌, List, [], ◌∷◌, ◌++◌, Option, none, some, Bool, true, false, Str, length,
  get_elem?, set,
}
use kubecc.Common.Map.{Map, lookup, insert, delete}

-- What a call of `Compile` returns.
pub data Reply : Type 0 where
  value : Str → Reply
  send_error stream_error stream_not_ready canceled : Reply

-- A call has sent its request, or waits for the reply, or has returned.
pub data Call : Type 0 where
  sent : Str → Call
  waits : Str → Call
  returned : Reply → Call

pub record CompileRequestClient : Type 0 where
  pub has_stream : Bool
  pub pending : Map ℕ
  pub calls : List Call
  -- whether the worker sent on a closed channel
  pub panicked : Bool

unfoldable pub add_call : Call → CompileRequestClient → CompileRequestClient
add_call call c = record c { calls = c.calls ++ call ∷ [] }

unfoldable pub set_call : ℕ → Call → CompileRequestClient → CompileRequestClient
set_call n call c = record c { calls = set c.calls n call }

-- `Compile` up to the send.
unfoldable pub compile : Str → Bool → CompileRequestClient → CompileRequestClient
compile id send_succeeds c =
    if c.has_stream
    then add_call (if send_succeeds then sent id else returned send_error) c
    else add_call (returned stream_not_ready) c

unfoldable pub store_call : ℕ → Option Call → CompileRequestClient → CompileRequestClient
store_call n (some (sent id)) c = record (set_call n (waits id) c) {
  pending = insert id n c.pending;
}
store_call n call c = c

-- A call that has sent its request is stored among those that are pending.
unfoldable pub store_pending : ℕ → CompileRequestClient → CompileRequestClient
store_pending n c = store_call n (get_elem? c.calls n) c

unfoldable pub send_to : ℕ → Reply → Option Call → CompileRequestClient → CompileRequestClient
send_to n reply (some (waits id)) c = set_call n (returned reply) c
send_to n reply (some (returned r)) c = record c { panicked = true }
send_to n reply call c = c

-- A send on the channel of a call, which is closed once the call has returned.
unfoldable pub send_reply : ℕ → Reply → CompileRequestClient → CompileRequestClient
send_reply n reply c = send_to n reply (get_elem? c.calls n) c

unfoldable pub reply_found : Str → Reply → Option ℕ → CompileRequestClient → CompileRequestClient
reply_found id reply none c = c
reply_found id reply (some n) c = send_reply n reply (record c { pending = delete id c.pending })

-- The worker receives a response.
unfoldable pub receive_response : Str → Str → CompileRequestClient → CompileRequestClient
receive_response id v c = reply_found id (value v) (lookup id c.pending) c

unfoldable pub fail_all : Map ℕ → CompileRequestClient → CompileRequestClient
fail_all [] c = c
fail_all ((id, n) ∷ m) c = fail_all m (send_reply n stream_error c)

-- The worker receives an error: every pending call gets it, and the stream is gone.
unfoldable pub receive_error : CompileRequestClient → CompileRequestClient
receive_error c = record (fail_all c.pending c) { pending = []; has_stream = false }

unfoldable pub cancel_call : ℕ → Option Call → CompileRequestClient → CompileRequestClient
cancel_call n (some (waits id)) c = set_call n (returned canceled) c
cancel_call n call c = c

-- The client's context is done: a call that waits returns.
unfoldable pub call_canceled : ℕ → CompileRequestClient → CompileRequestClient
call_canceled n c = cancel_call n (get_elem? c.calls n) c

unfoldable pub load_new_stream : CompileRequestClient → CompileRequestClient
load_new_stream c = record c { has_stream = true }
