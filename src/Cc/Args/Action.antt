-- ===== src/Cc/Args/Action.antt =====
-- The action options of pkg/cc/args.go: `SetActionOpt` against `ActionOpt`.
use kubecc.Common.{
  ℕ, ◌+◌, ◌≡◌, sym, if◌then◌else◌, some, Str, go, get_or, get_or-set_self, [], subst, arith,
  is_some, Option-cases, inl, inr, str_eq,
}
use kubecc.Common.Map.{Map, lookup, delete, lookup-insert, lookup-insert_self, lookup-delete}
use kubecc.Cc.Args.Parse.{ArgParser}
use kubecc.Cc.Args.Found.{InRange}
use kubecc.Cc.Args.Edit.{
  ActionOpt, compile, preprocess, gen_assembly, opt_string, replace_opt, set_action_opt, action_opt,
}

abbrev pub count_flag : Str → Map ℕ → ℕ
count_flag f m = if is_some (lookup f m) then 1 else 0

-- Just one of the three action options was found.
abbrev pub HasOneAction : ArgParser → Type 0
HasOneAction p =
    count_flag (go "-c") p.flag_index_map
      + count_flag (go "-S") p.flag_index_map
      + count_flag (go "-E") p.flag_index_map
    ≡ 1

abbrev pub HasValidIndexes : ArgParser → Type 0
HasValidIndexes p = (f : Str) → InRange p.args (lookup f p.flag_index_map)

action_opt-replace_opt :
    (opt old : ActionOpt) (i : ℕ) (p : ArgParser)
    → HasOneAction p
    → lookup (opt_string old) p.flag_index_map ≡ some i
    → action_opt (replace_opt p opt i old) ≡ some opt
unfolding action_opt replace_opt opt_string str_eq
action_opt-replace_opt compile compile i p h e = grind (arith, lookup-insert, lookup-delete)
action_opt-replace_opt compile preprocess i p h e = grind (arith, lookup-insert, lookup-delete)
action_opt-replace_opt compile gen_assembly i p h e = grind (arith, lookup-insert, lookup-delete)
action_opt-replace_opt preprocess compile i p h e = grind (arith, lookup-insert, lookup-delete)
action_opt-replace_opt preprocess preprocess i p h e = grind (arith, lookup-insert, lookup-delete)
action_opt-replace_opt preprocess gen_assembly i p h e = grind (arith, lookup-insert, lookup-delete)
action_opt-replace_opt gen_assembly compile i p h e = grind (arith, lookup-insert, lookup-delete)
action_opt-replace_opt gen_assembly preprocess i p h e = grind (arith, lookup-insert, lookup-delete)
action_opt-replace_opt gen_assembly gen_assembly i p h e =
    grind (arith, lookup-insert, lookup-delete)

-- Which option `set_action_opt` replaces.
set_action_opt-cases :
    (opt : ActionOpt) (p q : ArgParser)
    → set_action_opt opt p ≡ some q
    → (old : ActionOpt) × (i : ℕ) × lookup (opt_string old) p.flag_index_map ≡ some i
      × q ≡ replace_opt p opt i old
unfolding set_action_opt opt_string
set_action_opt-cases opt p q h = elim (Option-cases (lookup (go "-c") p.flag_index_map)) [
  | inr (i, e) ↦ (compile, i, e, grind arith)
  | inl e ↦ elim (Option-cases (lookup (go "-S") p.flag_index_map)) [
    | inr (i, f) ↦ (gen_assembly, i, f, grind arith)
    | inl f ↦ elim (Option-cases (lookup (go "-E") p.flag_index_map)) [
      | inr (i, g) ↦ (preprocess, i, g, grind arith)
      | inl g ↦ absurd (grind arith)
    ]
  ]
]

-- Of a parser that found just one action option and whose flag indexes are inside its arguments:
-- when `SetActionOpt` succeeds, `ActionOpt` gives the new option, and the argument at the index
-- that the new option is recorded with is the new option.
pub set_action_opt-action_opt :
    (opt : ActionOpt) (p q : ArgParser)
    → HasOneAction p
    → HasValidIndexes p
    → set_action_opt opt p ≡ some q
    → action_opt q ≡ some opt
      × ((i : ℕ) × lookup (opt_string opt) q.flag_index_map ≡ some i
          × get_or q.args i [] ≡ opt_string opt)
unfolding replace_opt
set_action_opt-action_opt opt p q one valid h =
    let (old, i, e, f) = set_action_opt-cases opt p q h in
    subst
      (λ r.
        action_opt r ≡ some opt
        × ((j : ℕ) × lookup (opt_string opt) r.flag_index_map ≡ some j
            × get_or r.args j [] ≡ opt_string opt))
      (sym f)
      (
        action_opt-replace_opt opt old i p one e,
        (
          i,
          lookup-insert_self (opt_string opt) i (delete (opt_string old) p.flag_index_map),
          get_or-set_self p.args i (opt_string opt) []
              (subst (InRange p.args) e (valid (opt_string old))),
        ),
      )
