-- ===== src/Clients/KeyedBuffer/Flushed.antt =====
-- What the keyed buffer of pkg/clients/keyedbuffer.go sends after a connection was lost.
use kubecc.Common.{
  length, ◌≡◌, refl, ap, ◌∙◌, if◌then◌else◌, List, [], ◌∷◌, ◌++◌, Option, none, some, Bool, true,
  false, Str, str_eq, str_eq_iff, keep_if, arith, Bool-cases, inl, inr,
}
use kubecc.Common.Map.{Map, lookup, insert, values, lookup-insert}
use kubecc.Clients.Provider.{Message}
use kubecc.Clients.KeyedBuffer.{
  disabled, enabled, sending, KeyedBuffer, buffer_post, buffer_connected, disable, receiver_takes,
  take_posted, receiver_sends, send_latest, stream_sends, send_posted, posted_while_lost,
  sent_again,
}

-- The messages of a type, in order, and the last of them.
abbrev pub of_type : Str → List Message → List Message
of_type k = keep_if (λ m. str_eq m.type_url k)

abbrev pub last_or : Str → List Message → Option Message → Option Message
last_or k [] o = o
last_or k (m ∷ ms) o = last_or k ms (if str_eq m.type_url k then some m else o)

abbrev pub to_list : Option Message → List Message
to_list none = []
to_list (some m) = m ∷ []

-- Each message stands once, under its type.
abbrev Keyed : Map Message → Type 0
Keyed [] = Unit
Keyed ((k, m) ∷ l) = (m.type_url ≡ k) × (lookup k l ≡ none) × Keyed l

Keyed-insert : (m : Message) (l : Map Message) → Keyed l → Keyed (insert m.type_url m l)
unfolding insert lookup
Keyed-insert m [] h = (refl, refl, tt)
Keyed-insert m ((k, n) ∷ l) h = elim (Bool-cases (str_eq k m.type_url)) [
  | inl e ↦ let p = (str_eq_iff k m.type_url).0 e in rw e (refl, ground arith, h.2)
  | inr e ↦ rw e (
    h.0,
    ground
        (arith, lookup-insert m.type_url k m l, str_eq_iff m.type_url k, str_eq_iff k m.type_url),
    Keyed-insert m l h.2,
  )
]

of_type-values : (k : Str) (l : Map Message) → Keyed l → of_type k (values l) ≡ to_list (lookup k l)
unfolding lookup
of_type-values k [] h = refl
of_type-values k ((j, m) ∷ l) h = ground (arith, of_type-values k l h.2, str_eq_iff j k)

-- A buffer that has lost its connection, and one that sends what it has over a new one.
abbrev pub lost : Map Message → List Message → KeyedBuffer
lost l s = record {
  post_queue = [];
  latest_messages = l;
  receiver = enabled;
  connected = false;
  sent = s;
}

abbrev flushing : List Message → List Message → KeyedBuffer
flushing ms s = record {
  post_queue = [];
  latest_messages = [];
  receiver = sending ms;
  connected = true;
  sent = s;
}

abbrev kept : List Message → Map Message → Map Message
kept [] l = l
kept (m ∷ ms) l = kept ms (insert m.type_url m l)

abbrev onto : List Message → List Message → List Message
onto [] s = s
onto (m ∷ ms) s = onto ms (m ∷ s)

posted_while_lost-kept :
    (ms : List Message) (l : Map Message) (s : List Message)
    → posted_while_lost ms (lost l s) ≡ lost (kept ms l) s
unfolding posted_while_lost receiver_takes buffer_post take_posted
posted_while_lost-kept [] l s = refl
posted_while_lost-kept (m ∷ ms) l s = posted_while_lost-kept ms (insert m.type_url m l) s

sent_again-onto :
    (l : Map Message) (s : List Message)
    → ((sent_again (length l) (flushing (values l) s)).sent ≡ onto (values l) s)
      × ((sent_again (length l) (flushing (values l) s)).receiver ≡ disabled)
unfolding sent_again receiver_sends send_latest stream_sends send_posted
sent_again-onto [] s = (refl, refl)
sent_again-onto ((k, m) ∷ l) s = sent_again-onto l (m ∷ s)

onto-to_list : (o : Option Message) (s : List Message) → onto (to_list o) s ≡ to_list o ++ s
onto-to_list none s = refl
onto-to_list (some m) s = refl

Keyed-kept : (ms : List Message) (l : Map Message) → Keyed l → Keyed (kept ms l)
Keyed-kept [] l h = h
Keyed-kept (m ∷ ms) l h = Keyed-kept ms (insert m.type_url m l) (Keyed-insert m l h)

lookup-kept :
    (k : Str) (ms : List Message) (l : Map Message)
    → lookup k (kept ms l) ≡ last_or k ms (lookup k l)
lookup-kept k [] l = refl
lookup-kept k (m ∷ ms) l =
    lookup-kept k ms (insert m.type_url m l) ∙ ap (last_or k ms) (lookup-insert m.type_url k m l)

onto_if :
    (b : Bool) (m : Message) (xs s : List Message)
    → onto xs (if b then m ∷ s else s) ≡ onto (if b then m ∷ xs else xs) s
onto_if true m xs s = refl
onto_if false m xs s = refl

of_type-onto :
    (k : Str) (ms s : List Message) → of_type k (onto ms s) ≡ onto (of_type k ms) (of_type k s)
of_type-onto k [] s = refl
of_type-onto k (m ∷ ms) s =
    of_type-onto k ms (m ∷ s) ∙ onto_if (str_eq m.type_url k) m (of_type k ms) (of_type k s)

-- Whatever was posted while the connection was lost, if the receiver took each message, and whatever
-- was sent before: once there is a connection again and the receiver and the stream have sent what
-- was kept, of each type the last message that was posted was sent, once, after what was sent
-- before, and nothing else; and the receiver is disabled.
pub sent_again-last :
    (ms s : List Message) (k : Str)
    → let b = posted_while_lost ms (lost [] s) in
      let t = sent_again (length b.latest_messages) (buffer_connected b) in
      (of_type k t.sent ≡ to_list (last_or k ms none) ++ of_type k s) × (t.receiver ≡ disabled)
unfolding buffer_connected disable lookup
sent_again-last ms s k =
    let l = kept ms [] in
    let (a, d) = sent_again-onto l s in
    let one = of_type-values k l (Keyed-kept ms [] tt) ∙ ap to_list (lookup-kept k ms []) in
    rw (posted_while_lost-kept ms [] s) (
      ap (of_type k) a
          ∙ of_type-onto k (values l) s
          ∙ ap (λ xs. onto xs (of_type k s)) one
          ∙ onto-to_list (last_or k ms none) (of_type k s),
      d,
    )

-- A message that is posted while the receiver still has an older one of its type to send: the stream
-- sends the older one after it.
pub buffer_post-stale :
    (m n : Message) (ms s : List Message)
    → (stream_sends (stream_sends (receiver_sends (buffer_post n (flushing (m ∷ ms) s))))).sent
      ≡ m ∷ n ∷ s
unfolding stream_sends send_posted receiver_sends send_latest buffer_post
buffer_post-stale m n ms s = refl
