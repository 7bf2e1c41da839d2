-- ===== src/Cc/Args/Strip.antt =====
-- The loop of `stripUnsupportedArgs` in pkg/cc/args.go, which removes while it counts up.
use mathlib.Core.List.{append_assoc}
use kubecc.Common.{
  ℕ, zero, suc, ◌≤◌, ◌≡◌, refl, sym, ap, inl, inr, List, [], ◌∷◌, ◌++◌, none, some, not, Str, arith,
  length, get_elem?, erase_idx, keep_if, length-append, Bool-cases,
}
use kubecc.Cc.Args.Parse.{is_unsupported, strip_from, strip_unsupported_args}

module _ {ℓ} {A : Type ℓ} where
  get_elem?-end : (xs : List A) → get_elem? (xs ++ []) (length xs) ≡ none
  get_elem?-end [] = refl
  get_elem?-end (x ∷ xs) = get_elem?-end xs

  get_elem?-middle : (xs ys : List A) (y : A) → get_elem? (xs ++ y ∷ ys) (length xs) ≡ some y
  get_elem?-middle [] ys y = refl
  get_elem?-middle (x ∷ xs) ys y = get_elem?-middle xs ys y

  erase_idx-middle : (xs ys : List A) (y : A) → erase_idx (xs ++ y ∷ ys) (length xs) ≡ xs ++ ys
  erase_idx-middle [] ys y = refl
  erase_idx-middle (x ∷ xs) ys y = ap (◌∷◌ x) (erase_idx-middle xs ys y)

  length-snoc : (xs : List A) (y : A) → length (xs ++ y ∷ []) ≡ suc (length xs)
  length-snoc xs y = omega (arith, length-append xs (y ∷ []))

strip_from-append :
    (fuel : ℕ) (done todo : List Str)
    → length todo ≤ fuel
    → strip_from fuel (length done) (done ++ todo)
      ≡ done ++ keep_if (λ a. not (is_unsupported a)) todo
unfolding strip_from
strip_from-append zero done [] h = refl
strip_from-append zero done (a ∷ todo) h = absurd (omega arith)
strip_from-append (suc fuel) done [] h = rw (strip_from, get_elem?-end done)
strip_from-append (suc fuel) done (a ∷ todo) h = elim (Bool-cases (is_unsupported a)) [
  | inl e ↦
      rw (strip_from, get_elem?-middle done todo a, e, erase_idx-middle done todo a)
        (strip_from-append fuel done todo (omega arith))
  | inr e ↦
      rw (strip_from, get_elem?-middle done todo a, e)
        (rw
          (
            sym (length-snoc done a),
            sym (append_assoc done (a ∷ []) todo),
            sym (append_assoc done (a ∷ []) (keep_if (λ x. not (is_unsupported x)) todo)),
          )
          (strip_from-append fuel (done ++ a ∷ []) todo (omega arith)))
]

-- For every list of arguments, the loop, with as many turns as there are arguments, removes
-- exactly the unsupported arguments and keeps the others in their order.
pub strip_unsupported_args_filters :
    (args : List Str) → strip_unsupported_args args ≡ keep_if (λ a. not (is_unsupported a)) args
unfolding strip_unsupported_args
strip_unsupported_args_filters args = strip_from-append (length args) [] args (omega arith)
