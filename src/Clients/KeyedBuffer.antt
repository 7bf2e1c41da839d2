-- ===== src/Clients/KeyedBuffer.antt =====
-- The keyed buffer of pkg/clients/keyedbuffer.go: its queue, what `runWaitReceiver` keeps of the
-- messages while there is no connection, and the stream that receives from the queue.
pub mod Flushed
use kubecc.Common.{
  ℕ, zero, suc, if◌then◌else◌, List, [], ◌∷◌, ◌++◌, Bool, true, false, Str, length, ltb,
}
use kubecc.Common.Map.{Map, insert, values}
use kubecc.Clients.Provider.{Message}

-- Where the receiver stands: it waits to be enabled, or takes what is posted, or sends what it has.
pub data Receiver : Type 0 where
  disabled enabled : Receiver
  sending : List Message → Receiver

pub record KeyedBuffer : Type 0 where
  pub post_queue : List Message
  pub latest_messages : Map Message
  pub receiver : Receiver
  pub connected : Bool
  -- what the stream has sent, the last first
  pub sent : List Message

unfoldable pub new_keyed_buffer : KeyedBuffer
new_keyed_buffer = record {
  post_queue = [];
  latest_messages = [];
  receiver = disabled;
  connected = false;
  sent = [];
}

-- A send on the queue of ten; one that blocks is not made.
unfoldable pub buffer_post : Message → KeyedBuffer → KeyedBuffer
buffer_post m b =
    if ltb (length b.post_queue) 10 then record b { post_queue = b.post_queue ++ m ∷ [] } else b

unfoldable pub disable : Receiver → KeyedBuffer → KeyedBuffer
disable disabled b = record b { connected = true }
disable enabled b = record b {
  connected = true;
  receiver = sending (values b.latest_messages);
  latest_messages = [];
}
disable (sending ms) b = b

unfoldable pub enable : Receiver → KeyedBuffer → KeyedBuffer
enable disabled b = record b { connected = false; receiver = enabled }
enable enabled b = record b { connected = false }
enable (sending ms) b = record b { connected = false }

-- `OnConnected` and `OnLostConnection`; while the receiver sends, they wait.
unfoldable pub buffer_connected : KeyedBuffer → KeyedBuffer
buffer_connected b = disable b.receiver b

unfoldable pub buffer_lost : KeyedBuffer → KeyedBuffer
buffer_lost b = enable b.receiver b

unfoldable pub take_posted : Receiver → List Message → KeyedBuffer → KeyedBuffer
take_posted enabled (m ∷ q) b = record b {
  post_queue = q;
  latest_messages = insert m.type_url m b.latest_messages;
}
take_posted r q b = b

-- The enabled receiver takes a message from the queue.
unfoldable pub receiver_takes : KeyedBuffer → KeyedBuffer
receiver_takes b = take_posted b.receiver b.post_queue b

unfoldable pub send_latest : Receiver → KeyedBuffer → KeyedBuffer
send_latest (sending []) b = record b { receiver = disabled }
send_latest (sending (m ∷ ms)) b =
    if ltb (length b.post_queue) 10
    then record b { post_queue = b.post_queue ++ m ∷ []; receiver = sending ms }
    else b
send_latest r b = b

-- The receiver sends one of the latest messages, or is done.
unfoldable pub receiver_sends : KeyedBuffer → KeyedBuffer
receiver_sends b = send_latest b.receiver b

unfoldable pub send_posted : List Message → KeyedBuffer → KeyedBuffer
send_posted [] b = b
send_posted (m ∷ q) b = if b.connected then record b { post_queue = q; sent = m ∷ b.sent } else b

-- The stream sends a message of the queue.
unfoldable pub stream_sends : KeyedBuffer → KeyedBuffer
stream_sends b = send_posted b.post_queue b

-- Messages that are posted while the receiver takes each at once.
unfoldable pub posted_while_lost : List Message → KeyedBuffer → KeyedBuffer
posted_while_lost [] b = b
posted_while_lost (m ∷ ms) b = posted_while_lost ms (receiver_takes (buffer_post m b))

-- The receiver sends a number of messages, and the stream sends each at once.
unfoldable pub sent_again : ℕ → KeyedBuffer → KeyedBuffer
sent_again zero b = receiver_sends b
sent_again (suc n) b = sent_again n (stream_sends (receiver_sends b))
