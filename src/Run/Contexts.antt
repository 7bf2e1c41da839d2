-- ===== src/Run/Contexts.antt =====
-- `PairContext` of pkg/run/task.go and `CancelAny` of pkg/util/context.go: contexts made of contexts.
-- A time is a number, `time.Time{}` with `false` is `none`; a nil error or value is `none`.
pub mod Same
use kubecc.Common.{
  ℕ, if◌then◌else◌, List, [], ◌∷◌, ◌++◌, Option, none, some, Bool, true, false, Str, go, ltb, any,
  ◌||◌,
}

pub record Context : Type 0 where
  pub deadline : Option ℕ
  pub done : Bool
  pub err : Option Str
  pub value : Str → Option Str

unfoldable pub first_some {ℓ} : {A : Type ℓ} → Option A → Option A → Option A
first_some none b = b
first_some (some a) b = some a

-- `Deadline` of a pair, from the client's and the server's.
unfoldable pub pair_deadline : Option ℕ → Option ℕ → Option ℕ
pair_deadline (some a) (some b) = if ltb a b then some a else some b
pair_deadline (some a) none = some a
pair_deadline none (some b) = some b
pair_deadline none none = none

unfoldable pub pair_context : Context → Context → Context
pair_context server client = record {
  deadline = pair_deadline client.deadline server.deadline;
  done = client.done || server.done;
  err = first_some server.err client.err;
  value = λ key. first_some (server.value key) (client.value key);
}

unfoldable pub collect : Option ℕ → List ℕ → List ℕ
collect none times = times
collect (some t) times = t ∷ times

unfoldable pub deadlines : List Context → List ℕ
deadlines [] = []
deadlines (c ∷ cs) = collect c.deadline (deadlines cs)

-- `sort.Slice` by `Before`: times that are not before one another are the same.
unfoldable pub sort_in : ℕ → List ℕ → List ℕ
sort_in t [] = t ∷ []
sort_in t (u ∷ us) = if ltb u t then u ∷ sort_in t us else t ∷ u ∷ us

unfoldable pub sort_times : List ℕ → List ℕ
sort_times [] = []
sort_times (t ∷ ts) = sort_in t (sort_times ts)

unfoldable pub first_time : List ℕ → Option ℕ
first_time [] = none
first_time (t ∷ ts) = some t

unfoldable pub first_err : List Context → Option Str
first_err [] = none
first_err (c ∷ cs) = first_some c.err (first_err cs)

unfoldable pub first_value : List Context → Str → Option Str
first_value [] key = none
first_value (c ∷ cs) key = first_some (c.value key) (first_value cs key)

unfoldable pub any_done : List Context → Bool
any_done [] = false
any_done (c ∷ cs) = c.done || any_done cs

-- `CancelAny`: of no contexts, one that is canceled.
unfoldable pub cancel_any : List Context → Context
cancel_any [] = record {
  deadline = none;
  done = true;
  err = some (go "context canceled");
  value = λ key. none;
}
cancel_any (c ∷ cs) = record {
  deadline = first_time (sort_times (deadlines (c ∷ cs)));
  done = any_done (c ∷ cs);
  err = first_err (c ∷ cs);
  value = first_value (c ∷ cs);
}
