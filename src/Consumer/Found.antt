-- ===== src/Consumer/Found.antt =====
-- What the search of pkg/consumer/path_search.go finds.
use mathlib.Core.List.{Mem, mem-cons_self, mem-cons_of_mem}
use kubecc.Common.{
  ◌==◌, ◌≡◌, refl, sym, if◌then◌else◌, List, [], ◌∷◌, Option, none, some, Bool, true, false, Str,
  any, All, subst,
}
use kubecc.Consumer.{PathOps, same_path, candidate, search_dirs, look_path}

-- Whether the search takes the file of a directory.
abbrev pub is_taken : PathOps → Str → Str → Str → Bool
is_taken ops file self dir =
    if same_path ops (candidate ops dir file) self
    then false
    else ops.is_executable (candidate ops dir file)

-- A compiler that is not the running program, in a directory of the list; or no directory has one.
abbrev pub IsSearched : PathOps → List Str → Str → Str → Option Str → Type 0
IsSearched ops dirs file self none = All (λ dir. is_taken ops file self dir ≡ false) dirs
IsSearched ops dirs file self (some path) =
    (dir : Str) × Mem dir dirs
    × (path ≡ candidate ops dir file)
    × (same_path ops path self ≡ false)
    × (ops.is_executable path ≡ true)

else_right : (b : Bool) (x y : Option Str) → b ≡ false → (if b then x else y) ≡ y
else_right b x y h = rw h refl

module _ (ops : PathOps) where
  IsSearched-cons :
      (dir : Str) (dirs : List Str) (file self : Str) (o : Option Str)
      → is_taken ops file self dir ≡ false
      → IsSearched ops dirs file self o
      → IsSearched ops (dir ∷ dirs) file self o
  IsSearched-cons dir dirs file self none h r = (h, r)
  IsSearched-cons dir dirs file self (some path) h (d, m, e, s, x) =
      (d, mem-cons_of_mem dir m, e, s, x)

  IsSearched-case :
      (b c : Bool) (dir : Str) (dirs : List Str) (file self : Str)
      → same_path ops (candidate ops dir file) self ≡ b
      → ops.is_executable (candidate ops dir file) ≡ c
      → IsSearched ops dirs file self (search_dirs ops dirs file self)
      → IsSearched ops (dir ∷ dirs) file self (
          if b
          then search_dirs ops dirs file self
          else if c
          then some (candidate ops dir file)
          else search_dirs ops dirs file self)
  IsSearched-case true c dir dirs file self p q r =
      IsSearched-cons dir dirs file self (search_dirs ops dirs file self) (rw p refl) r
  IsSearched-case false false dir dirs file self p q r =
      IsSearched-cons dir dirs file self (search_dirs ops dirs file self) (rw (p, q) refl) r
  IsSearched-case false true dir dirs file self p q r = (dir, mem-cons_self, refl, p, q)

  search_dirs-IsSearched :
      (dirs : List Str) (file self : Str)
      → IsSearched ops dirs file self (search_dirs ops dirs file self)
  unfolding search_dirs
  search_dirs-IsSearched [] file self = tt
  search_dirs-IsSearched (dir ∷ dirs) file self =
      IsSearched-case (same_path ops (candidate ops dir file) self)
        (ops.is_executable (candidate ops dir file)) dir dirs file self refl refl
        (search_dirs-IsSearched dirs file self)

  -- For every list of directories, name without a slash and running program: what `lookPath` finds is
  -- an executable file of that name in one of the directories and is not the running program, nor a
  -- link to it; and where it gives an error, no directory has such a file.
  pub look_path-IsSearched :
      (dirs : List Str) (file self : Str)
      → any (λ c. c == 47) file ≡ false
      → IsSearched ops dirs file self (look_path ops dirs file self)
  unfolding look_path
  look_path-IsSearched dirs file self h =
      subst (IsSearched ops dirs file self) (sym (else_right (any (λ c. c == 47) file) _ _ h))
        (search_dirs-IsSearched dirs file self)
