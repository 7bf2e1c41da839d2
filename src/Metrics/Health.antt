-- ===== src/Metrics/Health.antt =====
-- `StatusController` of pkg/metrics/status.go: the conditions that hold, and the health they make.
use kubecc.Common.{
  ℕ, ◌≡◌, refl, ap, sym, ◌∙◌, if◌then◌else◌, List, [], ◌∷◌, ◌++◌, Bool, true, false, not, ◌||◌, Str,
  any, ltb, keep_if, arith, ◌==◌,
}

pub data Condition : Type 0 where
  no_condition pending missing_optional_component missing_critical_component : Condition
  invalid_configuration internal_error : Condition

-- The overall status, in the order of its numbers.
pub data Status : Type 0 where
  unknown ready initializing degraded unavailable : Status

-- A condition, and the context that it holds for.
pub record ActiveCondition : Type 0 where
  pub while : ℕ
  pub condition : Condition
  pub msgs : List Str

pub record Health : Type 0 where
  pub status : Status
  pub messages : List Str

-- The number of a status.
unfoldable pub rank : Status → ℕ
rank unknown = 0
rank ready = 1
rank initializing = 2
rank degraded = 3
rank unavailable = 4

unfoldable pub raise : Status → Status → Status
raise overall to = if ltb (rank overall) (rank to) then to else overall

-- `ApplyCondition`, and the end of its context.
unfoldable pub clear_condition : ℕ → List ActiveCondition → List ActiveCondition
clear_condition while conditions = keep_if (λ c. not (c.while == while)) conditions

unfoldable pub apply_condition :
    ℕ → Condition → List Str → List ActiveCondition → List ActiveCondition
apply_condition while cond msgs conditions =
    record { while = while; condition = cond; msgs = msgs } ∷ clear_condition while conditions

module _ (format_all : Condition → List Str → List Str) where
  -- The loop of `health` over the conditions in the order that the map gives them.
  unfoldable pub overall_from : Status → List Str → List ActiveCondition → Health
  overall_from overall msgs [] = record { status = overall; messages = msgs }
  overall_from overall msgs (c ∷ cs) =
      let said = msgs ++ format_all c.condition c.msgs in
      elim c.condition [
        | no_condition ↦ overall_from overall said cs
        | pending ↦ record { status = initializing; messages = c.msgs }
        | missing_optional_component ↦ overall_from (raise overall degraded) said cs
        | missing_critical_component ↦ overall_from (raise overall unavailable) said cs
        | invalid_configuration ↦ overall_from (raise overall unavailable) said cs
        | internal_error ↦ overall_from (raise overall unavailable) said cs
      ]

  unfoldable pub health : Bool → List ActiveCondition → Health
  health server_done conditions =
      overall_from (if server_done then unavailable else ready) [] conditions

abbrev pub is_pending : Condition → Bool
is_pending pending = true
is_pending c = false

abbrev pub is_optional : Condition → Bool
is_optional missing_optional_component = true
is_optional c = false

abbrev pub is_critical : Condition → Bool
is_critical missing_critical_component = true
is_critical invalid_configuration = true
is_critical internal_error = true
is_critical c = false

-- Whether some condition is of a class.
abbrev pub has : (Condition → Bool) → List ActiveCondition → Bool
has p cs = any (λ c. p c.condition) cs

-- The status that a component should have, from what conditions there are.
abbrev worst : Status → Bool → Bool → Status
worst overall optional critical =
    raise (if optional then raise overall degraded else overall)
      (if critical then unavailable else unknown)

worst-optional : (o : Status) (b c : Bool) → worst (raise o degraded) b c ≡ worst o true c
unfolding raise rank
worst-optional unknown b c = ground arith
worst-optional ready b c = ground arith
worst-optional initializing b c = ground arith
worst-optional degraded b c = ground arith
worst-optional unavailable b c = ground arith

worst-critical : (o : Status) (b c : Bool) → worst (raise o unavailable) b c ≡ worst o b true
unfolding raise rank
worst-critical unknown b c = ground arith
worst-critical ready b c = ground arith
worst-critical initializing b c = ground arith
worst-critical degraded b c = ground arith
worst-critical unavailable b c = ground arith

worst-none : (o : Status) → worst o false false ≡ o
unfolding raise rank
worst-none o = ground arith

-- What `overall_from` makes of a list of conditions.
abbrev OverallOf : (Condition → List Str → List Str) → List ActiveCondition → Type 0
OverallOf f cs =
    (o : Status) (msgs : List Str)
    → (overall_from f o msgs cs).status ≡ (
        if has is_pending cs
        then initializing
        else worst o (has is_optional cs) (has is_critical cs))

overall_step :
    (f : Condition → List Str → List Str) (o : Status) (msgs : List Str) (c : ActiveCondition)
    (cs : List ActiveCondition) (k : Condition)
    → c.condition ≡ k
    → OverallOf f cs
    → (overall_from f o msgs (c ∷ cs)).status ≡ (
        if has is_pending (c ∷ cs)
        then initializing
        else worst o (has is_optional (c ∷ cs)) (has is_critical (c ∷ cs)))
unfolding overall_from
overall_step f o msgs c cs no_condition e ih = rw (overall_from, e) (ih o _)
overall_step f o msgs c cs pending e ih = rw (overall_from, e) refl
overall_step f o msgs c cs missing_optional_component e ih =
    rw (overall_from, e)
      (ih (raise o degraded) _
        ∙ ap (λ s. if has is_pending cs then initializing else s)
            (worst-optional o (has is_optional cs) (has is_critical cs)))
overall_step f o msgs c cs missing_critical_component e ih =
    rw (overall_from, e)
      (ih (raise o unavailable) _
        ∙ ap (λ s. if has is_pending cs then initializing else s)
            (worst-critical o (has is_optional cs) (has is_critical cs)))
overall_step f o msgs c cs invalid_configuration e ih =
    rw (overall_from, e)
      (ih (raise o unavailable) _
        ∙ ap (λ s. if has is_pending cs then initializing else s)
            (worst-critical o (has is_optional cs) (has is_critical cs)))
overall_step f o msgs c cs internal_error e ih =
    rw (overall_from, e)
      (ih (raise o unavailable) _
        ∙ ap (λ s. if has is_pending cs then initializing else s)
            (worst-critical o (has is_optional cs) (has is_critical cs)))

overall_from-status :
    (f : Condition → List Str → List Str) (cs : List ActiveCondition) → OverallOf f cs
unfolding overall_from
overall_from-status f [] = λ o msgs. sym (worst-none o)
overall_from-status f (c ∷ cs) =
    λ o msgs. overall_step f o msgs c cs c.condition refl (overall_from-status f cs)

-- For every list of conditions: the status is Initializing if a condition is pending; otherwise
-- it is Unavailable if the server is done or a condition is critical, Degraded if a condition is
-- of a missing optional component, and else Ready.
pub health-status :
    (format_all : Condition → List Str → List Str) (server_done : Bool) (cs : List ActiveCondition)
    → (health format_all server_done cs).status ≡ (
        if has is_pending cs
        then initializing
        else if server_done || has is_critical cs
        then unavailable
        else if has is_optional cs
        then degraded
        else ready)
unfolding health raise rank
health-status f true cs = overall_from-status f cs unavailable [] ∙ ground (arith)
health-status f false cs = overall_from-status f cs ready [] ∙ ground (arith)
