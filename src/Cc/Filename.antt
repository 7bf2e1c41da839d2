-- ===== src/Cc/Filename.antt =====
-- File names as the argument parser reads them (pkg/cc/filename.go).
use kubecc.Common.{
  ◌-◌, ◌==◌, if◌then◌else◌, List, [], ◌∷◌, ◌++◌, Bool, ◌||◌, Option, Str, go, str_eq, has_prefix,
  contains, any, take, length, is_some,
}
use kubecc.Common.Map.{Map, lookup}

unfoldable pub source_extensions : Map Str
source_extensions =
    (go ".i", go "c")
    ∷ (go ".ii", go "c++")
    ∷ (go ".c", go "c")
    ∷ (go ".cc", go "c++")
    ∷ (go ".cpp", go "c++")
    ∷ (go ".CPP", go "c++")
    ∷ (go ".cxx", go "c++")
    ∷ (go ".cp", go "c++")
    ∷ (go ".c++", go "c++")
    ∷ (go ".C", go "c++")
    ∷ (go ".m", go "objective-c")
    ∷ (go ".mm", go "objective-c++")
    ∷ (go ".mi", go "objective-c")
    ∷ (go ".mii", go "objective-c++")
    ∷ (go ".M", go "objective-c++")
    ∷ (go ".s", go "assembler")
    ∷ (go ".S", go "assembler")
    ∷ (go ".go", go "go")
    ∷ (go ".h", go "c-header")
    ∷ (go ".H", go "c++-header")
    ∷ (go ".hpp", go "c++-header")
    ∷ (go ".hp", go "c++-header")
    ∷ (go ".hxx", go "c++-header")
    ∷ (go ".h++", go "c++-header")
    ∷ (go ".HPP", go "c++-header")
    ∷ (go ".tcc", go "c++-header")
    ∷ (go ".hh", go "c++-header")
    ∷ []

unfoldable pub known_cmake_test_files : List Str
known_cmake_test_files =
    go "DummyCXXFile.cxx"
    ∷ go "TestForAnsiForScope.cxx"
    ∷ go "TestForANSIStreamHeaders.cxx"
    ∷ go "TestForSSTREAM.cxx"
    ∷ go "TestForSTDNamespace.cxx"
    ∷ go "CMakeCXXCompilerABI.cpp"
    ∷ go "CheckForPthreads.c"
    ∷ go "CheckFunctionExists.c"
    ∷ go "CheckVariableExists.c"
    ∷ go "CMakeCCompilerABI.c"
    ∷ go "CMakeTestGNU.c"
    ∷ []

-- `filepath.Ext`: the suffix from the last dot of the last element, or nothing.
unfoldable pub ext : Str → Str
ext [] = []
ext (c ∷ s) =
    let rest = ext s in
    if str_eq rest []
    then if any (λ d. d == 47) s then [] else if c == 46 then c ∷ s else []
    else rest

unfoldable pub trim_slashes : Str → Str
trim_slashes [] = []
trim_slashes (c ∷ s) =
    let rest = trim_slashes s in if str_eq rest [] then if c == 47 then [] else c ∷ [] else c ∷ rest

unfoldable pub after_slash : Str → Str
after_slash [] = []
after_slash (c ∷ s) =
    let rest = after_slash s in if any (λ d. d == 47) s then rest else if c == 47 then s else c ∷ s

-- `filepath.Base`
unfoldable pub base : Str → Str
base [] = go "."
base (c ∷ s) =
    let name = after_slash (trim_slashes (c ∷ s)) in if str_eq name [] then go "/" else name

unfoldable pub is_source_file : Str → Bool
is_source_file f = is_some (lookup (ext f) source_extensions)

-- `none` is the error.
unfoldable pub source_file_language : Str → Option Str
source_file_language f = lookup (ext f) source_extensions

unfoldable pub should_run_local : Str → Bool
should_run_local f =
    let basename = base f in
    has_prefix basename (go "conftest.")
    || has_prefix basename (go "tmp.conftest.")
    || contains f (go "CMakeTmp/src.")
    || any (str_eq basename) known_cmake_test_files

unfoldable pub replace_extension : Str → Str → Str
replace_extension path new_ext = take (length path - length (ext path)) path ++ new_ext
