-- ===== src/Toolchains/Store.antt =====
-- `Store` of pkg/toolchains/store.go. What it asks the file system and a compiler for, `evalPath`
-- and the methods of a `Querier`, are parameters; a map's entries stand in some order.
use kubecc.Common.{
  ℕ, if◌then◌else◌, List, [], ◌∷◌, ◌++◌, Option, none, some, Bool, false, Str, ◌>>=◌, is_some,
}
use kubecc.Common.Map.{Map, lookup, insert, delete}
use kubecc.Types.Toolchain.{Toolchain, Kind, Lang, equivalent_to}

-- What `ModTime` gives: a time, the error that the file is gone, or another error.
pub data ModTime : Type 0 where
  modified : ℕ → ModTime
  path_error other_error : ModTime

-- What is asked of a compiler; `none` is an error.
pub record Querier : Type 0 where
  pub target_arch : Str → Option Str
  pub version : Str → Option Str
  pub is_pic_default : Str → Option Bool
  pub kind : Str → Option Kind
  pub lang : Str → Option Lang
  pub mod_time : Str → ModTime

pub record ToolchainData : Type 0 where
  pub toolchain : Toolchain
  pub mod_time : ModTime
  pub querier : Querier

unfoldable pub empty_toolchain : Str → Toolchain
empty_toolchain executable = record {
  kind = Kind.unknown;
  lang = Lang.unknown;
  executable = executable;
  target_arch = [];
  version = [];
  pic_default = false;
  pie_default = false;
}

-- `fillInfo`: five queries, in order, up to the first that fails.
unfoldable pub fill_info : Toolchain → Querier → Option Toolchain
fill_info tc q = do
  arch ← q.target_arch tc.executable
  version ← q.version tc.executable
  pic ← q.is_pic_default tc.executable
  kind ← q.kind tc.executable
  lang ← q.lang tc.executable
  some (record tc {
    target_arch = arch;
    version = version;
    pic_default = pic;
    kind = kind;
    lang = lang;
  })

-- The part of `Add` after its check.
unfoldable pub add_queried :
    Map ToolchainData → Str → Querier → Toolchain → Option (Map ToolchainData × Toolchain)
add_queried s executable q tc = elim (q.mod_time executable) [
  | modified t ↦
      some (insert executable (record { toolchain = tc; mod_time = modified t; querier = q }) s, tc)
  | path_error ↦ none
  | other_error ↦ none
]

module _ (eval_path : Str → Str) where
  unfoldable pub store_contains : Map ToolchainData → Str → Bool
  store_contains s executable = is_some (lookup (eval_path executable) s)

  -- `Add`: the store and the toolchain, or an error that leaves the store as it was.
  unfoldable pub add_toolchain :
      Map ToolchainData → Str → Querier → Option (Map ToolchainData × Toolchain)
  add_toolchain s executable q =
      if store_contains s (eval_path executable)
      then none
      else fill_info (empty_toolchain (eval_path executable)) q
        >>= add_queried s (eval_path executable) q

  unfoldable pub find_toolchain : Map ToolchainData → Str → Option Toolchain
  find_toolchain s executable = elim (lookup executable s) [
    | some found ↦ some found.toolchain
    | none ↦ elim (lookup (eval_path executable) s) [
      | some found ↦ some found.toolchain
      | none ↦ none
    ]
  ]

  -- `Merge`: a toolchain that cannot be added is left out.
  unfoldable pub merge_toolchains : Map ToolchainData → Map ToolchainData → Map ToolchainData
  merge_toolchains s [] = s
  merge_toolchains s ((k, other) ∷ m) =
      if store_contains s other.toolchain.executable
      then merge_toolchains s m
      else elim (add_toolchain s other.toolchain.executable other.querier) [
        | none ↦ merge_toolchains s m
        | some added ↦ merge_toolchains added.0 m
      ]

unfoldable pub remove_toolchain : Map ToolchainData → Toolchain → Map ToolchainData
remove_toolchain s tc = delete tc.executable s

unfoldable pub items : Map ToolchainData → List Toolchain
items [] = []
items ((k, d) ∷ s) = d.toolchain ∷ items s

-- The inner loop of `Intersection`: once for every equivalent toolchain.
unfoldable pub matches_of : Toolchain → List Toolchain → List Toolchain
matches_of tc [] = []
matches_of tc (other ∷ others) =
    let rest = matches_of tc others in if equivalent_to tc other then tc ∷ rest else rest

unfoldable pub intersect : List Toolchain → List Toolchain → List Toolchain
intersect [] others = []
intersect (tc ∷ tcs) others = matches_of tc others ++ intersect tcs others

unfoldable pub intersection : Map ToolchainData → Map ToolchainData → List Toolchain
intersection s other = intersect (items s) (items other)

-- The loop of `TryMatch`.
unfoldable pub first_match : Toolchain → List Toolchain → Option Toolchain
first_match other [] = none
first_match other (tc ∷ tcs) =
    let rest = first_match other tcs in if equivalent_to tc other then some tc else rest

unfoldable pub try_match : Map ToolchainData → Toolchain → Option Toolchain
try_match s other = first_match other (items s)
