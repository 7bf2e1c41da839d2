-- ===== src/Storage/Notifier/Awake.antt =====
-- When the goroutine of `ExpirationNotifier` (pkg/storage/local.go) wakes up.
use kubecc.Common.{List, [], ◌∷◌, Bool, true, false, not, ◌&&◌, ◌||◌, length, ◌==◌}
use kubecc.Storage.Notifier.{
  MonitorState, waiting, asleep, ExpirationNotifier, NotifierEvent, adds, pushes, signals, ticks,
  forces, rescans, wakes,
}

abbrev pub is_asleep : MonitorState → Bool
is_asleep (waiting hash date) = false
is_asleep asleep = true

-- Nothing is left to expire, or the goroutine waits for an entry.
unfoldable pub is_ready : ExpirationNotifier → Bool
is_ready e = (length e.heap == 0) || not (is_asleep e.state)

-- It is ready, or a wake-up is in the channel.
unfoldable pub will_wake : ExpirationNotifier → Bool
unfolding is_ready
will_wake e = is_ready e || e.added

-- No `Add` of the history is split.
abbrev pub is_whole : NotifierEvent → Bool
is_whole (pushes hash date) = false
is_whole (signals hash) = false
is_whole (adds hash date) = true
is_whole (ticks now) = true
is_whole forces = true
is_whole rescans = true
is_whole wakes = true

unfoldable pub all_whole : List NotifierEvent → Bool
all_whole [] = true
all_whole (x ∷ xs) = is_whole x && all_whole xs
