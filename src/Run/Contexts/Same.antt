-- ===== src/Run/Contexts/Same.antt =====
-- A pair of contexts, pkg/run/task.go, as one that ends with any of two, pkg/util/context.go.
use kubecc.Common.{
  ℕ, ◌≡◌, refl, ap, sym, [], ◌∷◌, Option, none, some, Bool, false, ◌||◌, Str, arith,
}
use kubecc.Run.Contexts.{
  Context, first_some, pair_deadline, pair_context, collect, deadlines, sort_in, sort_times,
  first_time, first_err, first_value, any_done, cancel_any,
}

first_some-none {ℓ} : {A : Type ℓ} (o : Option A) → first_some o none ≡ o
unfolding first_some
first_some-none none = refl
first_some-none (some a) = refl

deadline_pair :
    (a b : Option ℕ) → pair_deadline b a ≡ first_time (sort_times (collect a (collect b [])))
unfolding pair_deadline first_time sort_times sort_in collect
deadline_pair none none = refl
deadline_pair none (some b) = refl
deadline_pair (some a) none = refl
deadline_pair (some a) (some b) = ground arith

or_comm : (a b : Bool) → (a || b) ≡ (b || (a || false))
or_comm a b = ground arith

-- For every two contexts: a pair of them has the deadline, the end, the error and the values of the
-- context that `CancelAny` makes of the server's and the client's, in this order.
pub pair_context-cancel_any :
    (server client : Context) → pair_context server client ≡ cancel_any (server ∷ client ∷ [])
unfolding pair_context cancel_any deadlines first_err first_value any_done
pair_context-cancel_any server client =
    let t = deadline_pair server.deadline client.deadline in
    let d = or_comm client.done server.done in
    let e = ap (first_some server.err) (sym (first_some-none client.err)) in
    let v : (key : Str)
        → first_some (server.value key) (client.value key)
          ≡ first_some (server.value key) (first_some (client.value key) none) =
      λ key. ap (first_some (server.value key)) (sym (first_some-none (client.value key))) in
    λ i. record { deadline = t i; done = d i; err = e i; value = λ key. v key i }
