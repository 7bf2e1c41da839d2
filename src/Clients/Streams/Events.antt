-- ===== src/Clients/Streams/Events.antt =====
-- What `Run` of pkg/clients/stream.go tells its handler, and when it returns.
use kubecc.Common.{
  ℕ, ◌≡◌, refl, sym, subst, List, [], ◌∷◌, Option, Bool, true, false, Str, arith, ◌⊎◌, inl, inr,
}
use kubecc.Metrics.Health.{ActiveCondition}
use kubecc.Clients.Streams.{
  StatusCtrlKind, Phase, Event, on_connected, on_lost_connection, on_connect_failed, connecting,
  streaming, backing_off, returned, StreamManager, Input, connect_fails, connects, stream_fails,
  stream_finishes, timer_completes, try_immediately, apply_cond, cancel_cond, reapply, tell,
  return_run, back_off, connect_failed, connect_succeeded, stream_ended, manager_in, manager_step,
  manager_run, start_run,
}

-- What a handler that follows the events, the last first, believes of its stream.
abbrev pub is_connected : List Event → Bool
is_connected [] = false
is_connected (on_connected ∷ es) = true
is_connected (on_lost_connection ∷ es) = false
is_connected (on_connect_failed ∷ es) = is_connected es

-- A connection is made and missed only where there is none, and lost only where there is one.
abbrev pub Alternates : List Event → Type 0
Alternates [] = Unit
Alternates (on_connected ∷ es) = (is_connected es ≡ false) × Alternates es
Alternates (on_lost_connection ∷ es) = (is_connected es ≡ true) × Alternates es
Alternates (on_connect_failed ∷ es) = (is_connected es ≡ false) × Alternates es

abbrev pub is_streaming : Phase → Bool
is_streaming streaming = true
is_streaming p = false

abbrev Told : StreamManager → Type 0
Told m = (is_connected m.events ≡ is_streaming m.phase) × Alternates m.events

module _ (kind : Option StatusCtrlKind) (msg : Str) where
  reapply-events : (m : StreamManager) → (reapply kind msg m).events ≡ m.events
  unfolding reapply apply_cond
  reapply-events m = ground arith

  connect_failed-Told :
      (c : Bool) (m : StreamManager)
      → (is_connected m.events ≡ false)
      → Alternates m.events
      → Told (connect_failed kind msg c m)
  unfolding connect_failed tell return_run back_off cancel_cond
  connect_failed-Told true m h a = (h, (h, a))
  connect_failed-Told false m h a =
      rw (reapply-events (record m { events = on_connect_failed ∷ m.events })) (h, (h, a))

  stream_ended-events :
      (m : StreamManager) → (stream_ended kind msg m).events ≡ on_lost_connection ∷ m.events
  unfolding stream_ended tell
  stream_ended-events m = rw (reapply-events m)

  manager_in-Told :
      (p : Phase) (i : Input) (m : StreamManager)
      → m.phase ≡ p
      → (is_connected m.events ≡ is_streaming p)
      → Alternates m.events
      → Told (manager_in kind msg p i m)
  unfolding manager_in return_run back_off cancel_cond
  manager_in-Told connecting (connect_fails c) m e h a = connect_failed-Told c m h a
  manager_in-Told connecting connects m e h a = unfold connect_succeeded tell in (refl, (h, a))
  manager_in-Told streaming (stream_fails true) m e h a = rw (stream_ended-events m) (refl, (h, a))
  manager_in-Told streaming (stream_fails false) m e h a = rw (stream_ended-events m) (refl, (h, a))
  manager_in-Told streaming stream_finishes m e h a = rw (stream_ended-events m) (refl, (h, a))
  manager_in-Told backing_off timer_completes m e h a = (h, a)
  manager_in-Told backing_off try_immediately m e h a = (h, a)
  manager_in-Told p i m e h a = (subst (λ q. is_connected m.events ≡ is_streaming q) (sym e) h, a)

  manager_run-Told :
      (is : List Input) (m : StreamManager) → Told m → Told (manager_run kind msg is m)
  unfolding manager_run manager_step
  manager_run-Told [] m h = h
  manager_run-Told (i ∷ is) m h =
      manager_run-Told is (manager_step kind msg i m) (manager_in-Told m.phase i m refl h.0 h.1)

  -- Whatever the calls of the handler and the timers answer: the handler is told of a connection and of
  -- a failed attempt only when it has no stream, and of a loss only when it has one, so that
  -- connections and losses alternate from a connection on; and what it was told last is whether the
  -- manager has a stream.
  pub manager_run-Alternates :
      (n : ℕ) (others : List ActiveCondition) (is : List Input)
      → let m = manager_run kind msg is (start_run kind msg n others) in
        Alternates m.events × (is_connected m.events ≡ is_streaming m.phase)
  manager_run-Alternates n others is =
      let r =
        manager_run-Told is (start_run kind msg n others)
          (unfold start_run apply_cond in (refl, tt)) in
      (r.1, r.0)

-- What can come once the manager's context is canceled: a call of the handler does not connect, and an
-- error of a call finds the context canceled. After the return an input means nothing.
abbrev pub ends_soon : Phase → Input → Bool
ends_soon connecting (connect_fails true) = true
ends_soon streaming (stream_fails true) = true
ends_soon streaming stream_finishes = true
ends_soon backing_off timer_completes = true
ends_soon backing_off try_immediately = true
ends_soon returned i = true
ends_soon p i = false

module _ (kind : Option StatusCtrlKind) (msg : Str) where
  ends_in :
      (p : Phase) (i : Input) (m : StreamManager)
      → m.phase ≡ p
      → ends_soon p i ≡ true
      → ((manager_in kind msg p i m).phase ≡ returned)
        ⊎ ((p ≡ backing_off) × ((manager_in kind msg p i m).phase ≡ connecting))
  unfolding manager_in connect_failed return_run
  ends_in connecting (connect_fails true) m e h = inl refl
  ends_in streaming (stream_fails true) m e h = inl refl
  ends_in streaming stream_finishes m e h = inl refl
  ends_in backing_off timer_completes m e h = inr (refl, refl)
  ends_in backing_off try_immediately m e h = inr (refl, refl)
  ends_in returned i m e h = inl e
  ends_in p i m e h = absurd (ground arith)

  -- Once the context is canceled, wherever the manager is: `Run` has returned after two inputs that can
  -- come then.
  pub manager_step-returned :
      (m : StreamManager) (i j : Input)
      → ends_soon m.phase i ≡ true
      → ends_soon (manager_step kind msg i m).phase j ≡ true
      → (manager_step kind msg j (manager_step kind msg i m)).phase ≡ returned
  unfolding manager_step
  manager_step-returned m i j h k =
      let t = manager_in kind msg m.phase i m in
      elim (ends_in t.phase j t refl k) [
        | inl r ↦ r
        | inr (d, c) ↦ elim (ends_in m.phase i m refl h) [
          | inl r ↦ absurd (ground arith)
          | inr (b, d') ↦ absurd (ground arith)
        ]
      ]
