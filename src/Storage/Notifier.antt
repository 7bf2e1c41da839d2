-- ===== src/Storage/Notifier.antt =====
-- `ExpirationNotifier` of pkg/storage/local.go and its goroutine `Monitor`. A channel of one place is
-- a flag; the channel of expired hashes is a list, the first one first. The context does not end.
pub mod Awake
pub mod Lost
use kubecc.Common.{
  ℕ, ◌+◌, ◌==◌, if◌then◌else◌, List, [], ◌∷◌, ◌++◌, Option, none, some, Bool, true, false, ◌||◌,
  Str, str_eq, length, leb,
}
use kubecc.Storage.Heap.{Entry, push, peek, pop}

-- Where the goroutine stands: in the select of `WaitOne`, with the entry that it took from the heap,
-- or in that of `Monitor`, until an object is added.
pub data MonitorState : Type 0 where
  waiting : Str → ℕ → MonitorState
  asleep : MonitorState

pub record ExpirationNotifier : Type 0 where
  pub heap : List Entry
  pub expired : List Str
  pub rescan : Bool
  pub added : Bool
  pub state : MonitorState

unfoldable pub new_expiration_notifier : ExpirationNotifier
new_expiration_notifier = record {
  heap = [];
  expired = [];
  rescan = false;
  added = false;
  state = asleep;
}

-- `Add`: first the push, then what it tells the goroutine, by what the heap is by then.
unfoldable pub push_entry : ExpirationNotifier → Str → ℕ → ExpirationNotifier
push_entry e hash date = record e { heap = push hash date e.heap }

unfoldable pub signal : ExpirationNotifier → Str → ExpirationNotifier
signal e hash = record e {
  rescan = e.rescan || str_eq (peek e.heap).0 hash;
  added = e.added || (length e.heap == 1);
}

unfoldable pub notifier_add : ExpirationNotifier → Str → ℕ → ExpirationNotifier
notifier_add e hash date = signal (push_entry e hash date) hash

unfoldable pub next_expiration : ExpirationNotifier → Str × ℕ
next_expiration e = peek e.heap

-- The goroutine goes on: `WaitAll` ends when the heap is empty, and `WaitOne` takes the next entry.
unfoldable pub wait_next : ExpirationNotifier → ExpirationNotifier
wait_next e =
    if length e.heap == 0
    then record e { state = asleep }
    else record e { state = waiting (next_expiration e).0 (next_expiration e).1 }

-- The waited-for entry expires: the heap's first entry is popped, and the hash is sent.
unfoldable pub expire_waited : ExpirationNotifier → Str → ExpirationNotifier
expire_waited e hash =
    wait_next (record e { heap = (pop e.heap).1; expired = e.expired ++ hash ∷ [] })

-- The cases of the two selects, each with what makes it ready.
unfoldable pub tick : ExpirationNotifier → ℕ → MonitorState → ExpirationNotifier
tick e now (waiting hash date) = if leb date now then expire_waited e hash else e
tick e now asleep = e

unfoldable pub force : ExpirationNotifier → MonitorState → ExpirationNotifier × Bool
force e (waiting hash date) = (expire_waited e hash, true)
force e asleep = (e, false)

unfoldable pub rescan_heap : ExpirationNotifier → MonitorState → ExpirationNotifier
rescan_heap e (waiting hash date) = if e.rescan then wait_next (record e { rescan = false }) else e
rescan_heap e asleep = e

unfoldable pub wake : ExpirationNotifier → MonitorState → ExpirationNotifier
wake e (waiting hash date) = e
wake e asleep = if e.added then wait_next (record e { added = false }) else e

-- `ForceExpiration`: an error when the goroutine does not wait for an object.
unfoldable pub force_expiration : ExpirationNotifier → ExpirationNotifier × Bool
force_expiration e = force e e.state

-- What may happen: a whole `Add`, its two parts on their own, and the cases of the selects.
pub data NotifierEvent : Type 0 where
  adds : Str → ℕ → NotifierEvent
  pushes : Str → ℕ → NotifierEvent
  signals : Str → NotifierEvent
  ticks : ℕ → NotifierEvent
  forces rescans wakes : NotifierEvent

unfoldable pub notifier_step : ExpirationNotifier → NotifierEvent → ExpirationNotifier
notifier_step e (adds hash date) = notifier_add e hash date
notifier_step e (pushes hash date) = push_entry e hash date
notifier_step e (signals hash) = signal e hash
notifier_step e (ticks now) = tick e now e.state
notifier_step e forces = (force_expiration e).0
notifier_step e rescans = rescan_heap e e.state
notifier_step e wakes = wake e e.state

unfoldable pub notifier_run : ExpirationNotifier → List NotifierEvent → ExpirationNotifier
notifier_run e [] = e
notifier_run e (x ∷ xs) = notifier_run (notifier_step e x) xs
