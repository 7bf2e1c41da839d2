-- ===== src/Toolchains/Query/Names.antt =====
-- What the names of compilers tell, pkg/toolchains/query.go.
use kubecc.Common.{◌≡◌, Option, none, some, Str, arith}
use kubecc.Types.Toolchain.{Kind, Lang, gnu, clang, c, cxx, multi}
use kubecc.Toolchains.Query.{query_kind, query_lang}

-- The kind that goes with a language.
abbrev kind_for : Option Lang → Option Kind
kind_for none = none
kind_for (some Lang.unknown) = none
kind_for (some c) = some gnu
kind_for (some cxx) = some gnu
kind_for (some multi) = some clang

-- For every compiler: the kind is known just when the language is, clang is of many languages, and gnu
-- of one.
query_kind-query_lang : (compiler : Str) → query_kind compiler ≡ kind_for (query_lang compiler)
unfolding query_kind query_lang
query_kind-query_lang compiler = ground arith
