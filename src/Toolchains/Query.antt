-- ===== src/Toolchains/Query.antt =====
-- `ExecQuerier` of pkg/toolchains/query.go. The run of a compiler is a parameter: whether it succeeds
-- and what it writes, for its arguments and its input. Of white space the ASCII characters are known.
pub mod Names
use mathlib.Core.List.{reverse}
use kubecc.Common.{
  ℕ, ◌==◌, leb, ◌&&◌, ◌||◌, if◌then◌else◌, List, [], ◌∷◌, ◌++◌, Option, none, some, Bool, true,
  false, Str, go, contains, length,
}
use kubecc.Cc.Filename.{base}
use kubecc.Types.Toolchain.{Kind, Lang, gnu, clang, c, cxx, multi}
use kubecc.Toolchains.Store.{Querier, ModTime}

pub record Executed : Type 0 where
  pub succeeds : Bool
  pub stdout : Str
  pub stderr : Str

-- `strings.Split(s, "-")`
unfoldable pub split_first : ℕ → List Str → List Str
split_first ch [] = (ch ∷ []) ∷ []
split_first ch (p ∷ ps) = (ch ∷ p) ∷ ps

unfoldable pub split_dashes : Str → List Str
split_dashes [] = [] ∷ []
split_dashes (ch ∷ s) =
    let rest = split_dashes s in if ch == b'-' then [] ∷ rest else split_first ch rest

unfoldable pub is_space : ℕ → Bool
is_space ch = ch == b' ' || (leb 9 ch && leb ch 13)

unfoldable pub trim_left : Str → Str
trim_left [] = []
trim_left (ch ∷ s) = let rest = trim_left s in if is_space ch then rest else ch ∷ s

-- `strings.TrimSpace`
unfoldable pub trim_space : Str → Str
trim_space s = reverse (trim_left (reverse (trim_left s)))

unfoldable pub pic_check : Str
pic_check =
    go
      "\n#if defined __PIC__ || defined __pic__       \n# error                                                    \n#endif                                                                          \n"

unfoldable pub pie_check : Str
pie_check =
    go
      "\n#if defined __PIE__ || defined __pie__  \n# error                                                    \n#endif                                                                          \n"

-- The base name decides.
unfoldable pub query_kind : Str → Option Kind
query_kind compiler =
    if contains (base compiler) (go "clang")
    then some clang
    else if contains (base compiler) (go "++")
    then some gnu
    else if contains (base compiler) (go "cc")
    then some gnu
    else none

unfoldable pub query_lang : Str → Option Lang
query_lang compiler =
    if contains (base compiler) (go "clang")
    then some multi
    else if contains (base compiler) (go "++")
    then some cxx
    else if contains (base compiler) (go "cc")
    then some c
    else none

module _ (exec : Str → List Str → Str → Executed) where
  -- A run that fails for another reason than the check is no error.
  unfoldable pub default_of : Executed → Option Bool
  default_of r = if r.succeeds then some false else some (contains r.stderr (go "#error"))

  unfoldable pub is_pic_default : Str → Option Bool
  is_pic_default compiler =
      default_of (exec compiler (go "-E" ∷ go "-o" ∷ go "/dev/null" ∷ go "-" ∷ []) pic_check)

  unfoldable pub is_pie_default : Str → Option Bool
  is_pie_default compiler =
      default_of (exec compiler (go "-E" ∷ go "-o" ∷ go "/dev/null" ∷ go "-" ∷ []) pie_check)

  unfoldable pub arch_of : List Str → Option Str
  arch_of (arch ∷ vendor ∷ system ∷ rest) = some (trim_space arch)
  arch_of parts = none

  unfoldable pub query_target_arch : Str → Option Str
  query_target_arch compiler =
      let r = exec compiler (go "-dumpmachine" ∷ []) [] in
      if r.succeeds then arch_of (split_dashes r.stdout) else none

  unfoldable pub query_version : Str → Option Str
  query_version compiler =
      let r = exec compiler (go "-dumpversion" ∷ []) [] in
      if r.succeeds then some (trim_space r.stdout) else none

  -- The querier, with the modification times of files.
  unfoldable pub exec_querier : (Str → ModTime) → Querier
  exec_querier mod_time = record {
    target_arch = query_target_arch;
    version = query_version;
    is_pic_default = is_pic_default;
    kind = query_kind;
    lang = query_lang;
    mod_time = mod_time;
  }
