-- ===== src/Storage/Notifier/Lost.antt =====
-- Two `Add`s at the same time, of `ExpirationNotifier` (pkg/storage/local.go).
use kubecc.Common.{
  ℕ, ◌≤◌, ◌≡◌, ◌≢◌, if◌then◌else◌, ap, List, [], ◌∷◌, Bool, true, false, Str, length, arith,
}
use kubecc.Storage.Heap.{push}
use kubecc.Storage.Heap.Size.{length-push}
use kubecc.Storage.Notifier.{
  MonitorState, waiting, asleep, ExpirationNotifier, push_entry, signal, notifier_add, tick, force,
  rescan_heap, wake, force_expiration, NotifierEvent, adds, pushes, signals, ticks, forces, rescans,
  wakes, notifier_step, notifier_run,
}

-- The goroutine sleeps, nothing wakes it, and there are entries to expire.
pub record Lost (e : ExpirationNotifier) : Type 0 where
  pub state : e.state ≡ asleep
  pub added : e.added ≡ false
  pub heap : 2 ≤ length e.heap

awake : (hash : Str) (date : ℕ) → waiting hash date ≢ asleep
awake hash date p = cc

if-Lost : (b : Bool) (e f : ExpirationNotifier) → b ≡ false → Lost f → Lost (if b then e else f)
if-Lost true e f p l = absurd (grind arith)
if-Lost false e f p l = l

push_entry-Lost :
    (e : ExpirationNotifier) (hash : Str) (date : ℕ) → Lost e → Lost (push_entry e hash date)
unfolding push_entry
push_entry-Lost e hash date l = record {
  state = l.state;
  added = l.added;
  heap = omega (arith, length-push hash date e.heap, l.heap);
}

signal-Lost : (e : ExpirationNotifier) (hash : Str) → Lost e → Lost (signal e hash)
unfolding signal
signal-Lost e hash l = record {
  state = l.state;
  added = ground (arith, l.added, l.heap);
  heap = l.heap;
}

tick-Lost :
    (e : ExpirationNotifier) (now : ℕ) (s : MonitorState)
    → s ≡ asleep
    → Lost e
    → Lost (tick e now s)
unfolding tick
tick-Lost e now (waiting hash date) p l = absurd (awake hash date p)
tick-Lost e now asleep p l = l

force-Lost : (e : ExpirationNotifier) (s : MonitorState) → s ≡ asleep → Lost e → Lost (force e s).0
unfolding force
force-Lost e (waiting hash date) p l = absurd (awake hash date p)
force-Lost e asleep p l = l

rescan_heap-Lost :
    (e : ExpirationNotifier) (s : MonitorState) → s ≡ asleep → Lost e → Lost (rescan_heap e s)
unfolding rescan_heap
rescan_heap-Lost e (waiting hash date) p l = absurd (awake hash date p)
rescan_heap-Lost e asleep p l = l

wake-Lost : (e : ExpirationNotifier) (s : MonitorState) → s ≡ asleep → Lost e → Lost (wake e s)
unfolding wake
wake-Lost e (waiting hash date) p l = absurd (awake hash date p)
wake-Lost e asleep p l = if-Lost e.added _ e l.added l

notifier_step-Lost :
    (e : ExpirationNotifier) (x : NotifierEvent) → Lost e → Lost (notifier_step e x)
unfolding notifier_step notifier_add force_expiration
notifier_step-Lost e (adds hash date) l =
    signal-Lost (push_entry e hash date) hash (push_entry-Lost e hash date l)
notifier_step-Lost e (pushes hash date) l = push_entry-Lost e hash date l
notifier_step-Lost e (signals hash) l = signal-Lost e hash l
notifier_step-Lost e (ticks now) l = tick-Lost e now e.state l.state l
notifier_step-Lost e forces l = force-Lost e e.state l.state l
notifier_step-Lost e rescans l = rescan_heap-Lost e e.state l.state l
notifier_step-Lost e wakes l = wake-Lost e e.state l.state l

notifier_run-Lost :
    (xs : List NotifierEvent) (e : ExpirationNotifier) → Lost e → Lost (notifier_run e xs)
unfolding notifier_run
notifier_run-Lost [] e l = l
notifier_run-Lost (x ∷ xs) e l = notifier_run-Lost xs (notifier_step e x) (notifier_step-Lost e x l)

-- For every notifier whose heap is empty, and whose goroutine sleeps with no wake-up in the channel:
-- when two `Add`s both push before either goes on, then after any later history the goroutine still
-- sleeps, and at least two entries are left to expire.
pub pushes-lost :
    (e : ExpirationNotifier) (g h : Str) (c d : ℕ) (xs : List NotifierEvent)
    → e.heap ≡ []
    → e.state ≡ asleep
    → e.added ≡ false
    → let f = notifier_run e (pushes g c ∷ pushes h d ∷ signals g ∷ signals h ∷ xs) in
      (f.state ≡ asleep) × (2 ≤ length f.heap)
unfolding notifier_run notifier_step signal push_entry
pushes-lost e g h c d xs p q r =
    let n = length-push h d (push g c e.heap) in
    let m = length-push g c e.heap in
    let k : length e.heap ≡ 0 = ap length p in
    let l =
      notifier_run-Lost xs _
        (record { state = q; added = ground (arith, n, m, k, r); heap = omega (arith, n, m) }) in
    (l.state, l.heap)
