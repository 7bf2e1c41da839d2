-- ===== src/Cc/Finder.antt =====
-- `CCFinder` of pkg/cc/finder.go. The file system is a parameter; a set is a list in the order in which
-- its elements are met.
use kubecc.Common.{
  ℕ, zero, suc, ◌≡◌, refl, ◌==◌, leb, ◌&&◌, ◌||◌, if◌then◌else◌, List, [], ◌∷◌, ◌++◌, Option, none,
  some, Bool, true, false, Str, go, has_prefix, drop, length, str_eq, any, Checked, ok, panic,
}
use kubecc.Common.Map.{Map}
use kubecc.Cc.Filename.{base}
use kubecc.Types.Toolchain.{Toolchain}
use kubecc.Toolchains.Store.{ToolchainData, Querier, store_contains, add_toolchain}

-- What `Stat` gives of a path: that there is no such file, another error, or whether it is a link.
pub data Stat : Type 0 where
  missing stat_error : Stat
  found : Bool → Stat

pub record FinderFs : Type 0 where
  pub stat : Str → Stat
  pub eval_symlinks : Str → Option Str
  pub read_dir : Str → Option (List Str)
  pub join : Str → Str → Str

-- `\w`
unfoldable pub is_word : ℕ → Bool
is_word ch =
    (leb b'0' ch && leb ch b'9')
    || (leb b'A' ch && leb ch b'Z')
    || (leb b'a' ch && leb ch b'z')
    || ch == b'_'

-- What follows `\w+\-` of a name, if the name begins so.
unfoldable pub after_word : Bool → Str → Option Str
after_word seen [] = none
after_word seen (ch ∷ s) =
    let rest = after_word true s in
    if is_word ch then rest else if seen && ch == b'-' then some s else none

unfoldable pub after_words : ℕ → Option Str → Option Str
after_words zero o = o
after_words (suc n) none = none
after_words (suc n) (some s) = after_words n (after_word false s)

-- `[\d.]+` up to the end.
unfoldable pub all_digits : Str → Bool
all_digits [] = true
all_digits (ch ∷ s) = ((leb b'0' ch && leb ch b'9') || ch == b'.') && all_digits s

unfoldable pub is_version : Str → Bool
is_version [] = true
is_version (ch ∷ []) = false
is_version (ch ∷ d ∷ s) = ch == b'-' && all_digits (d ∷ s)

unfoldable pub with_name : Str → Str → Bool
with_name name s = has_prefix s name && is_version (drop (length name) s)

unfoldable pub is_plain : Str → Bool
is_plain s =
    with_name (go "gcc") s
    || with_name (go "g++") s
    || with_name (go "clang") s
    || with_name (go "clang++") s

unfoldable pub is_plain_rest : Option Str → Bool
is_plain_rest none = false
is_plain_rest (some s) = is_plain s

-- The regular expression: with a host triple before the name, or without.
unfoldable pub is_compiler_name : Str → Bool
is_compiler_name s = is_plain s || is_plain_rest (after_words 3 (some s))

module _ (files : FinderFs) where
  unfoldable pub add_to : Str → List Str → List Str
  add_to path set = if any (str_eq path) set then set else set ++ path ∷ []

  unfoldable pub add_link : Option Str → List Str → List Str
  add_link none set = set
  add_link (some path) set = add_to path set

  -- `addPath`; the mode is read of a file information that an error leaves nil.
  unfoldable pub add_stat : Stat → Str → List Str → Checked (List Str)
  add_stat missing path set = ok set
  add_stat stat_error path set = panic
  add_stat (found true) path set = ok (add_link (files.eval_symlinks path) set)
  add_stat (found false) path set = ok (add_to path set)

  unfoldable pub add_path : Str → Checked (List Str) → Checked (List Str)
  add_path path panic = panic
  add_path path (ok set) = add_stat (files.stat path) path set

  unfoldable pub add_paths : List Str → Checked (List Str) → Checked (List Str)
  add_paths [] set = set
  add_paths (p ∷ ps) set = add_paths ps (add_path p set)

  unfoldable pub add_compilers : Str → List Str → Checked (List Str) → Checked (List Str)
  add_compilers dir [] set = set
  add_compilers dir (name ∷ names) set =
      add_compilers dir names
        (if is_compiler_name (base name) then add_path (files.join dir name) set else set)

  unfoldable pub list_dir : Str → Option (List Str) → Checked (List Str) → Checked (List Str)
  list_dir dir none set = set
  list_dir dir (some names) set = add_compilers dir names set

  unfoldable pub find_in : List Str → Checked (List Str) → Checked (List Str)
  find_in [] set = set
  find_in (dir ∷ dirs) set = find_in dirs (list_dir dir (files.read_dir dir) set)

  unfoldable pub find_in_paths : Checked (List Str) → Checked (List Str)
  find_in_paths panic = panic
  find_in_paths (ok dirs) = find_in dirs (ok [])

  module _ (eval_path : Str → Str) (querier : Querier) where
    unfoldable pub added_or :
        Map ToolchainData → Option (Map ToolchainData × Toolchain) → Map ToolchainData
    added_or s none = s
    added_or s (some added) = added.0

    unfoldable pub add_found : List Str → Map ToolchainData → Map ToolchainData
    add_found [] s = s
    add_found (compiler ∷ cs) s = add_found cs (
        if store_contains eval_path s compiler
        then s
        else added_or s (add_toolchain eval_path s compiler querier))

    unfoldable pub store_of : Checked (List Str) → Checked (Map ToolchainData)
    store_of panic = panic
    store_of (ok compilers) = ok (add_found compilers [])

    -- `FindToolchains`, with the search paths and the list of PATH if it is used.
    unfoldable pub find_toolchains : List Str → List Str → Checked (Map ToolchainData)
    find_toolchains search_paths path =
        store_of (find_in_paths (add_paths (search_paths ++ path) (ok [])))

-- Names that are compilers, and names that are not.
is_compiler_name_lem :
    (is_compiler_name (go "x86_64-linux-gnu-gcc-10.2") ≡ true)
    × (is_compiler_name (go "clang++") ≡ true)
    × (is_compiler_name (go "linux-gcc") ≡ false)
    × (is_compiler_name (go "gcc-ar") ≡ false)
unfolding is_compiler_name is_plain is_plain_rest with_name is_version all_digits after_words
    after_word is_word has_prefix
is_compiler_name_lem = (refl, refl, refl, refl)
