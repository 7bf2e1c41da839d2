-- ===== src/Clients/Streams/Conditions.antt =====
-- The condition that `Run` of pkg/clients/stream.go holds while it has no stream.
use kubecc.Common.{
  ℕ, ◌+◌, ◌<◌, ◌≡◌, refl, sym, ap, subst, ◌∙◌, if◌then◌else◌, List, [], ◌∷◌, Option, none, some,
  Bool, true, false, Str, All, arith,
}
use kubecc.Metrics.Health.{ActiveCondition, apply_condition, clear_condition}
use kubecc.Clients.Streams.{
  StatusCtrlKind, Phase, Event, on_connected, on_lost_connection, on_connect_failed, connecting,
  streaming, backing_off, returned, StreamManager, Input, connect_fails, connects, stream_fails,
  stream_finishes, timer_completes, try_immediately, condition_of, apply_kind, apply_cond,
  cancel_cond, reapply, tell, return_run, back_off, connect_failed, connect_succeeded, stream_ended,
  manager_in, manager_step, manager_run, start_run,
}

abbrev pub has_stream : Phase → Bool
has_stream connecting = false
has_stream backing_off = false
has_stream streaming = true
has_stream returned = true

abbrev pub Older : ℕ → List ActiveCondition → Type 0
Older n cs = All (λ c. c.while < n) cs

clear_condition-Older :
    (n k : ℕ) (cs : List ActiveCondition) → Older n cs → (n < k + 1) → clear_condition k cs ≡ cs
unfolding clear_condition
clear_condition-Older n k [] h l = refl
clear_condition-Older n k (c ∷ cs) h l = ground (arith, clear_condition-Older n k cs h.1 l)

Older-suc : (n : ℕ) (cs : List ActiveCondition) → Older n cs → Older (n + 1) cs
Older-suc n [] h = tt
Older-suc n (c ∷ cs) h = (omega arith, Older-suc n cs h.1)

-- What the controller has: the conditions of others, and that of a manager without a stream.
abbrev pub held :
    Option StatusCtrlKind → Str → Bool → ℕ → List ActiveCondition → List ActiveCondition
held kind msg true ctx others = others
held none msg false ctx others = others
held (some k) msg false ctx others =
    record { while = ctx; condition = condition_of k; msgs = msg ∷ [] } ∷ others

module _ (kind : Option StatusCtrlKind) (msg : Str) (n : ℕ) (others : List ActiveCondition) where
  -- The condition's context is done or not, and the conditions are those of that case.
  pub record Holds (d : Bool) (m : StreamManager) : Type 0 where
    pub from_start : n < m.cond_ctx + 1
    pub fresh : m.cond_ctx < m.next_ctx
    pub is_done : m.cond_done ≡ d
    pub conds : m.conditions ≡ held kind msg d m.cond_ctx others

module _ (kind : Option StatusCtrlKind) (msg : Str) (n : ℕ) (others : List ActiveCondition)
    (older : Older n others) where
  apply_kind-held :
      (k : ℕ) → n < k + 1 → apply_kind kind msg kind k others ≡ held kind msg false k others
  apply_kind-held k l =
      elim kind as (λ o. apply_kind kind msg o k others ≡ held o msg false k others) [
        | none ↦ unfold apply_kind in refl
        | some c ↦
            unfold apply_kind apply_condition in
            ap (λ cs. record { while = k; condition = condition_of c; msgs = msg ∷ [] } ∷ cs)
              (clear_condition-Older n k others older l)
      ]

  clear_condition-held :
      (o : Option StatusCtrlKind) (k : ℕ)
      → n < k + 1
      → clear_condition k (held o msg false k others) ≡ others
  clear_condition-held none k l = clear_condition-Older n k others older l
  clear_condition-held (some c) k l =
      let e = clear_condition-Older n k others older l in
      unfold clear_condition in ground (arith, e)

  apply_cond-Holds :
      (m : StreamManager)
      → Holds kind msg n others true m
      → Holds kind msg n others false (apply_cond kind msg m)
  unfolding apply_cond
  apply_cond-Holds m h = record {
    from_start = omega (arith, h.from_start, h.fresh);
    fresh = omega arith;
    is_done = refl;
    conds =
        ap (apply_kind kind msg kind m.next_ctx) h.conds
        ∙ apply_kind-held m.next_ctx (omega (arith, h.from_start, h.fresh));
  }

  cancel_cond-Holds :
      (m : StreamManager)
      → Holds kind msg n others false m
      → Holds kind msg n others true (cancel_cond kind msg m)
  unfolding cancel_cond
  cancel_cond-Holds m h = record {
    from_start = h.from_start;
    fresh = h.fresh;
    is_done = refl;
    conds =
        ap (clear_condition m.cond_ctx) h.conds ∙ clear_condition-held kind m.cond_ctx h.from_start;
  }

  reapply-Holds :
      (d : Bool) (m : StreamManager)
      → Holds kind msg n others d m
      → Holds kind msg n others false (reapply kind msg m)
  unfolding reapply
  reapply-Holds true m h =
      subst (λ b. Holds kind msg n others false (if b then apply_cond kind msg m else m))
        (sym h.is_done) (apply_cond-Holds m h)
  reapply-Holds false m h =
      subst (λ b. Holds kind msg n others false (if b then apply_cond kind msg m else m))
        (sym h.is_done) h

  tell-Holds :
      (d : Bool) (e : Event) (m : StreamManager)
      → Holds kind msg n others d m
      → Holds kind msg n others d (tell kind msg e m)
  unfolding tell
  tell-Holds d e m h = record {
    from_start = h.from_start;
    fresh = h.fresh;
    is_done = h.is_done;
    conds = h.conds;
  }

  -- The phase of a manager does not matter to its condition.
  in_phase :
      (d : Bool) (p : Phase) (m : StreamManager)
      → Holds kind msg n others d m
      → Holds kind msg n others d (record m { phase = p })
  in_phase d p m h = record {
    from_start = h.from_start;
    fresh = h.fresh;
    is_done = h.is_done;
    conds = h.conds;
  }

  abbrev Right : StreamManager → Type 0
  Right m = Holds kind msg n others (has_stream m.phase) m

  return_run-Right :
      (m : StreamManager) → Holds kind msg n others false m → Right (return_run kind msg m)
  unfolding return_run
  return_run-Right m h = in_phase true returned _ (cancel_cond-Holds m h)

  back_off-Right :
      (m : StreamManager) → Holds kind msg n others false m → Right (back_off kind msg m)
  unfolding back_off
  back_off-Right m h = in_phase false backing_off m h

  connect_failed-Right :
      (canceled : Bool) (m : StreamManager)
      → Holds kind msg n others false m
      → Right (connect_failed kind msg canceled m)
  unfolding connect_failed
  connect_failed-Right true m h = return_run-Right _ (tell-Holds false on_connect_failed m h)
  connect_failed-Right false m h =
      back_off-Right _ (reapply-Holds false _ (tell-Holds false on_connect_failed m h))

  connect_succeeded-Right :
      (m : StreamManager) → Holds kind msg n others false m → Right (connect_succeeded kind msg m)
  unfolding connect_succeeded
  connect_succeeded-Right m h =
      in_phase true streaming _ (tell-Holds true on_connected _ (cancel_cond-Holds m h))

  stream_ended-Holds :
      (m : StreamManager)
      → Holds kind msg n others true m
      → Holds kind msg n others false (stream_ended kind msg m)
  unfolding stream_ended
  stream_ended-Holds m h = tell-Holds false on_lost_connection _ (reapply-Holds true m h)

  manager_in-Right :
      (p : Phase) (i : Input) (m : StreamManager)
      → m.phase ≡ p
      → Holds kind msg n others (has_stream p) m
      → Right (manager_in kind msg p i m)
  unfolding manager_in
  manager_in-Right connecting (connect_fails c) m e h = connect_failed-Right c m h
  manager_in-Right connecting connects m e h = connect_succeeded-Right m h
  manager_in-Right streaming (stream_fails true) m e h = return_run-Right _ (stream_ended-Holds m h)
  manager_in-Right streaming (stream_fails false) m e h = back_off-Right _ (stream_ended-Holds m h)
  manager_in-Right streaming stream_finishes m e h = return_run-Right _ (stream_ended-Holds m h)
  manager_in-Right backing_off timer_completes m e h = in_phase false connecting m h
  manager_in-Right backing_off try_immediately m e h = record {
    from_start = h.from_start;
    fresh = h.fresh;
    is_done = h.is_done;
    conds = h.conds;
  }
  manager_in-Right p i m e h = subst (λ q. Holds kind msg n others (has_stream q) m) (sym e) h

  manager_run-Right :
      (is : List Input) (m : StreamManager) → Right m → Right (manager_run kind msg is m)
  unfolding manager_run manager_step
  manager_run-Right [] m h = h
  manager_run-Right (i ∷ is) m h =
      manager_run-Right is (manager_step kind msg i m) (manager_in-Right m.phase i m refl h)

  start_run-Right : Right (start_run kind msg n others)
  unfolding start_run apply_cond
  start_run-Right = record {
    from_start = omega arith;
    fresh = omega arith;
    is_done = refl;
    conds = apply_kind-held n (omega arith);
  }

  -- For every status controller whose other conditions have older contexts, and whatever the calls of
  -- the handler and the timers answer: the controller has those other conditions, and besides them
  -- that of the manager, once, while it connects or backs off (if it was given the controller), and
  -- none while it has a stream or after it has returned.
  pub manager_run-conditions :
      (is : List Input)
      → let m = manager_run kind msg is (start_run kind msg n others) in
        m.conditions ≡ held kind msg (has_stream m.phase) m.cond_ctx others
  manager_run-conditions is = (manager_run-Right is _ start_run-Right).conds
