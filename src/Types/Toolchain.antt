-- ===== src/Types/Toolchain.antt =====
-- `Toolchain` of pkg/types: its kind and language, which toolchains stand for one another, and the
-- usual names of its compiler (functions.go).
use kubecc.Common.{
  ◌≡◌, ◌↔◌, List, [], ◌∷◌, Bool, true, ◌&&◌, arith, Str, go, str_eq, str_eq_iff, is_yes,
}

pub data Kind : Type 0 where
  unknown gnu clang test_toolchain sleep : Kind

pub data Lang : Type 0 where
  unknown c cxx multi : Lang

pub record Toolchain : Type 0 where
  pub kind : Kind
  pub lang : Lang
  pub executable : Str
  pub target_arch : Str
  pub version : Str
  pub pic_default : Bool
  pub pie_default : Bool

pub Kind-discrete : Discrete Kind
Kind-discrete = hlevel

pub Lang-discrete : Discrete Lang
Lang-discrete = hlevel

-- `a == b` on the two enums.
abbrev pub kind_eq : Kind → Kind → Bool
kind_eq a b = is_yes (Kind-discrete a b)

abbrev pub lang_eq : Lang → Lang → Bool
lang_eq a b = is_yes (Lang-discrete a b)

-- `EquivalentTo`: all fields but the executable and its defaults.
unfoldable pub equivalent_to : Toolchain → Toolchain → Bool
equivalent_to tc other =
    kind_eq tc.kind other.kind
    && (lang_eq tc.lang other.lang
        && (str_eq tc.target_arch other.target_arch && str_eq tc.version other.version))

-- Two toolchains are equivalent exactly when kind, language, target and version agree.
equivalent_to_iff :
    (a b : Toolchain)
    → (equivalent_to a b ≡ true) ↔ (
        (a.kind ≡ b.kind)
        × (a.lang ≡ b.lang)
        × (a.target_arch ≡ b.target_arch)
        × (a.version ≡ b.version))
unfolding equivalent_to
equivalent_to_iff a b = (
  λ h. ground (arith, str_eq_iff a.target_arch b.target_arch, str_eq_iff a.version b.version),
  λ h. ground (arith, str_eq_iff a.target_arch b.target_arch, str_eq_iff a.version b.version),
)

-- `CommonNames`: the names of the compilers that the toolchain can stand for.
unfoldable pub common_names : Toolchain → List Str
common_names tc = names tc.kind tc.lang
  where
    names : Kind → Lang → List Str
    names clang c = go "clang" ∷ []
    names clang cxx = go "clang++" ∷ []
    names clang multi = go "clang" ∷ go "clang++" ∷ []
    names gnu c = go "gcc" ∷ go "cc" ∷ []
    names gnu cxx = go "g++" ∷ go "c++" ∷ []
    names gnu multi = go "gcc" ∷ go "cc" ∷ go "g++" ∷ go "c++" ∷ []
    names _ _ = []
