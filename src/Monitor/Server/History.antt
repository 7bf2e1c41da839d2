-- ===== src/Monitor/Server/History.antt =====
-- Histories of the handlers of pkg/monitor/server.go.
use kubecc.Common.{ℕ, if◌then◌else◌, List, [], ◌∷◌, Option, Bool, Str, str_eq, any}
use kubecc.Common.Map.{Map}
use kubecc.Types.Key.{Key}
use kubecc.Monitor.Server.{
  Metric, MonitorServer, ProviderInfo, listen, listen_ends, post, stream_closes, stream_opens,
}

unfoldable pub remove_stream : Str → List Str → List Str
remove_stream u [] = []
remove_stream u (v ∷ l) = if str_eq u v then remove_stream u l else v ∷ remove_stream u l

-- `providerMutex.Lock()`, or `RLock()`, and what follows it; the lock is free between the handlers,
-- except where one returned without unlocking it.
unfoldable pub with_provider_mutex : MonitorServer → (MonitorServer → MonitorServer) → MonitorServer
with_provider_mutex s f = if s.stuck then s else f s

-- What may happen to the server.
pub data MonitorEvent : Type 0 where
  opens : Str → Str → Str → MonitorEvent
  posts : Metric → MonitorEvent
  closes : Str → MonitorEvent
  listens : Key → Str → Str → ℕ → MonitorEvent
  returns : ℕ → Bool → MonitorEvent

module _ (unmarshal : Str → Option Str) (type_url : Str) (encode : Map ProviderInfo → Str) where
  unfoldable pub close_open : MonitorServer → Str → MonitorServer
  close_open s u =
      if any (str_eq u) s.streams
      then stream_closes unmarshal type_url encode
          (record s { streams = remove_stream u s.streams }) u
      else s

  -- Every handler takes `providerMutex` and so waits where it was left locked.
  unfoldable pub handle : MonitorServer → MonitorEvent → MonitorServer
  handle s (opens u component address) =
      with_provider_mutex s (λ t. stream_opens unmarshal type_url encode t u component address)
  handle s (posts m) = with_provider_mutex s (λ t. (post unmarshal t m).0)
  handle s (closes u) = with_provider_mutex s (λ t. close_open t u)
  handle s (listens key id nonce r) = with_provider_mutex s (λ t. (listen t key id nonce r).0)
  handle s (returns i done) = with_provider_mutex s (λ t. listen_ends t i done)

  unfoldable pub monitor_run : MonitorServer → List MonitorEvent → MonitorServer
  monitor_run s [] = s
  monitor_run s (e ∷ es) = monitor_run (handle s e) es
