-- ===== src/Consumerd/Server/Retries.antt =====
-- The retries of `Run` in pkg/consumerd/server.go.
use kubecc.Common.{
  ℕ, suc, ◌≡◌, refl, ap, sym, List, [], ◌∷◌, ◌++◌, Bool, true, false, ◌&&◌, length, All, arith,
  drop, subst,
}
use kubecc.Consumerd.Queue.{SplitTaskLocation, local}
use kubecc.Consumerd.Server.{
  TaskResult, finished, no_agents_retry, no_agents_run_local, failed, RunResult, response,
  run_error, task_failed, pending, run_loop,
}

abbrev pub is_retry : TaskResult → Bool
is_retry no_agents_retry = true
is_retry no_agents_run_local = true
is_retry (finished code) = false
is_retry failed = false

unfoldable pub all_retries : List TaskResult → Bool
all_retries [] = true
all_retries (r ∷ rs) = is_retry r && all_retries rs

-- How many results come before the first that asks for a local run.
unfoldable pub first_local : List TaskResult → ℕ
first_local [] = 0
first_local (no_agents_run_local ∷ rs) = 0
first_local (no_agents_retry ∷ rs) = suc (first_local rs)
first_local (finished code ∷ rs) = suc (first_local rs)
first_local (failed ∷ rs) = suc (first_local rs)

-- What ends the loop.
abbrev pub answer : TaskResult → RunResult
answer (finished code) = response code
answer failed = run_error task_failed
answer no_agents_retry = pending
answer no_agents_run_local = pending

abbrev pub IsLocal : SplitTaskLocation → Type 0
IsLocal e = e ≡ local

run_loop-local : (rs : List TaskResult) → All IsLocal (run_loop local rs).0
unfolding run_loop
run_loop-local [] = (refl, tt)
run_loop-local (finished code ∷ rs) = (refl, tt)
run_loop-local (failed ∷ rs) = (refl, tt)
run_loop-local (no_agents_retry ∷ rs) = (refl, run_loop-local rs)
run_loop-local (no_agents_run_local ∷ rs) = (refl, run_loop-local rs)

end_loop :
    (e : SplitTaskLocation) (last : TaskResult) (more : List TaskResult)
    → is_retry last ≡ false
    → run_loop e (last ∷ more) ≡ (e ∷ [], answer last)
unfolding run_loop
end_loop e (finished code) more h = refl
end_loop e failed more h = refl
end_loop e no_agents_retry more h = absurd (grind arith)
end_loop e no_agents_run_local more h = absurd (grind arith)

-- For every exclusivity, and all results of which the first ones are retries and the next one is not:
-- the loop ends with the answer of that one, after one task more than there were retries; and every
-- task after the first retry that asks for a local run is local.
pub run_loop-retries :
    (e : SplitTaskLocation) (rs : List TaskResult) (last : TaskResult) (more : List TaskResult)
    → all_retries rs ≡ true
    → is_retry last ≡ false
    → let r = run_loop e (rs ++ last ∷ more) in
      (r.1 ≡ answer last)
      × (length r.0 ≡ suc (length rs))
      × All IsLocal (drop (suc (first_local rs)) r.0)
unfolding run_loop all_retries first_local
run_loop-retries e [] last more h g =
    let p = end_loop e last more g in
    (ap (λ r. r.1) p, ap (λ r. length r.0) p, subst (λ r. All IsLocal (drop 1 r.0)) (sym p) tt)
run_loop-retries e (no_agents_retry ∷ rs) last more h g =
    let (a, b, c) = run_loop-retries e rs last more h g in (a, ap suc b, c)
run_loop-retries e (no_agents_run_local ∷ rs) last more h g =
    let (a, b, c) = run_loop-retries local rs last more h g in
    (a, ap suc b, run_loop-local (rs ++ last ∷ more))
run_loop-retries e (finished code ∷ rs) last more h g = absurd (grind arith)
run_loop-retries e (failed ∷ rs) last more h g = absurd (grind arith)
