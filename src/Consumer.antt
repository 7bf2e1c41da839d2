-- ===== src/Consumer.antt =====
-- The search for the compiler in pkg/consumer/path_search.go. The resolution of symbolic links, the
-- test for an executable file and `filepath.Join` are parameters; PATH is given as its list.
pub mod Found
use kubecc.Common.{
  ℕ, ◌==◌, if◌then◌else◌, List, [], ◌∷◌, Option, none, some, Bool, true, false, Str, go, str_eq,
  any,
}

pub record PathOps : Type 0 where
  pub eval_symlinks : Str → Option Str
  pub is_executable : Str → Bool
  pub join : Str → Str → Str

module _ (ops : PathOps) where
  unfoldable pub same_resolved : Option Str → Option Str → Bool
  same_resolved none b = false
  same_resolved (some a) none = false
  same_resolved (some a) (some b) = str_eq a b

  unfoldable pub same_path : Str → Str → Bool
  same_path a b =
      if str_eq a b then true else same_resolved (ops.eval_symlinks a) (ops.eval_symlinks b)

  -- An empty element is the working directory.
  unfoldable pub candidate : Str → Str → Str
  candidate dir file = ops.join (if str_eq dir [] then go "." else dir) file

  unfoldable pub search_dirs : List Str → Str → Str → Option Str
  search_dirs [] file self = none
  search_dirs (dir ∷ dirs) file self =
      let rest = search_dirs dirs file self in
      let path = candidate dir file in
      if same_path path self then rest else if ops.is_executable path then some path else rest

  -- `lookPath`; `none` is its error.
  unfoldable pub look_path : List Str → Str → Str → Option Str
  look_path dirs file self =
      if any (λ c. c == 47) file
      then (if ops.is_executable file then some file else none)
      else search_dirs dirs file self
