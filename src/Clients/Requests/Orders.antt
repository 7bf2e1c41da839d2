-- ===== src/Clients/Requests/Orders.antt =====
-- The orders in which a call of `Compile`, pkg/clients/scheduler.go, and its response can come.
use kubecc.Common.{
  ℕ, ◌≡◌, refl, ap, ◌∙◌, if◌then◌else◌, List, [], ◌∷◌, ◌++◌, Option, none, some, true, Str, length,
  get_elem?, set,
}
use kubecc.Common.Map.{lookup, insert, lookup-insert_self}
use kubecc.Clients.Requests.{
  value, canceled, stream_not_ready, Call, sent, waits, returned, CompileRequestClient, add_call,
  set_call, compile, store_call, store_pending, send_to, send_reply, reply_found, receive_response,
  cancel_call, call_canceled,
}

get_elem?-append_last {ℓ} :
    {A : Type ℓ} (xs : List A) (y : A) → get_elem? (xs ++ y ∷ []) (length xs) ≡ some y
get_elem?-append_last [] y = refl
get_elem?-append_last (x ∷ xs) y = get_elem?-append_last xs y

get_elem?-set_last {ℓ} :
    {A : Type ℓ} (xs : List A) (y z : A)
    → get_elem? (set (xs ++ y ∷ []) (length xs) z) (length xs) ≡ some z
get_elem?-set_last [] y z = refl
get_elem?-set_last (x ∷ xs) y z = get_elem?-set_last xs y z

set-set_last {ℓ} :
    {A : Type ℓ} (xs : List A) (y z w : A)
    → set (set (xs ++ y ∷ []) (length xs) z) (length xs) w ≡ set (xs ++ y ∷ []) (length xs) w
set-set_last [] y z w = refl
set-set_last (x ∷ xs) y z w = ap (λ l. x ∷ l) (set-set_last xs y z w)

-- The call of a number.
abbrev pub call_of : ℕ → CompileRequestClient → Option Call
call_of n d = get_elem? d.calls n

compile_lem :
    (c : CompileRequestClient) (id : Str)
    → c.has_stream ≡ true
    → compile id true c ≡ add_call (sent id) c
unfolding compile
compile_lem c id up =
    ap (λ b. if b then add_call (sent id) c else add_call (returned stream_not_ready) c) up

module _ (c : CompileRequestClient) (id v : Str) where
  abbrev call : ℕ
  call = length c.calls

  abbrev made : CompileRequestClient
  made = add_call (sent id) c

  abbrev stored : CompileRequestClient
  stored = record c {
    calls = set (c.calls ++ sent id ∷ []) call (waits id);
    pending = insert id call c.pending;
  }

  store_made : store_pending call made ≡ stored
  unfolding store_pending store_call set_call add_call
  store_made = rw (get_elem?-append_last c.calls (sent id)) refl

  receive_stored : call_of call (receive_response id v stored) ≡ some (returned (value v))
  unfolding receive_response reply_found send_reply send_to set_call
  receive_stored = rw (lookup-insert_self id call c.pending) (
      rw (get_elem?-set_last c.calls (sent id) (waits id)) (
        ap (λ l. get_elem? l call) (set-set_last c.calls (sent id) (waits id) (returned (value v)))
        ∙ get_elem?-set_last c.calls (sent id) (returned (value v))))

  receive_made : lookup id c.pending ≡ none → receive_response id v made ≡ made
  unfolding receive_response reply_found add_call
  receive_made h = rw h refl

  receive_canceled : (receive_response id v (call_canceled call stored)).panicked ≡ true
  unfolding call_canceled cancel_call receive_response reply_found send_reply send_to set_call
  receive_canceled = rw (get_elem?-set_last c.calls (sent id) (waits id)) (
      rw (lookup-insert_self id call c.pending) (
        rw
          (
            set-set_last c.calls (sent id) (waits id) (returned canceled),
            get_elem?-set_last c.calls (sent id) (returned canceled),
          )
          refl))

  -- For every client with a stream and every new request whose identity is not pending: if the call is
  -- stored as pending before the response comes, it returns the response; if the response comes
  -- first, between the call's send and its store, the call waits, with the response gone and the
  -- identity pending; and if the call's context is done before the response comes, the worker
  -- panics.
  pub compile-orders :
      c.has_stream ≡ true
      → lookup id c.pending ≡ none
      → let n = length c.calls in
        let asked = compile id true c in
        (call_of n (receive_response id v (store_pending n asked)) ≡ some (returned (value v)))
        × (call_of n (store_pending n (receive_response id v asked)) ≡ some (waits id))
        × (lookup id (store_pending n (receive_response id v asked)).pending ≡ some n)
        × ((receive_response id v (call_canceled n (store_pending n asked))).panicked ≡ true)
  compile-orders up fresh = rw (compile_lem c id up) (
      rw (receive_made fresh) (
        rw store_made (
          receive_stored,
          get_elem?-set_last c.calls (sent id) (waits id),
          lookup-insert_self id call c.pending,
          receive_canceled,
        )))
