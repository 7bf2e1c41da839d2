-- ===== src/Cc/Args/Local.antt =====
-- What `RemoveLocalArgs` and `ConfigurePreprocessorOptions` of pkg/cc/args.go leave.
use kubecc.Common.{
  ◌≡◌, ◌≢◌, ≢→==-false, refl, ap, List, [], ◌∷◌, ◌++◌, Bool, true, false, Str, go, str_eq, All, ok,
  arith, has_prefix,
}
use kubecc.Cc.Args.Edit.{
  takes_value, is_local, keep_remote, split_commas, insert_mf, expand, wants_path, drop_first,
  append_checked, cons_checked,
}

-- An argument that is sent to the agent.
abbrev pub IsRemote : Str → Type 0
IsRemote a = takes_value a ≡ false × is_local a ≡ false

keep_remote-All : (skip : Bool) (args : List Str) → All IsRemote (keep_remote skip args)
unfolding keep_remote
keep_remote-All skip [] = grind arith
keep_remote-All true (a ∷ rest) = keep_remote-All false rest
keep_remote-All false (a ∷ rest) = grind (arith, keep_remote-All (takes_value a) rest)

keep_remote-fixed : (args : List Str) → All IsRemote args → keep_remote false args ≡ args
unfolding keep_remote
keep_remote-fixed [] h = refl
keep_remote-fixed (a ∷ rest) (h, t) = rw (h.0, h.1) (ap (◌∷◌ a) (keep_remote-fixed rest t))

-- For every list of arguments: none of those that the loop of `RemoveLocalArgs` keeps is a local
-- argument or takes a value that is local, and a second run of the loop removes nothing more.
pub keep_remote_settles :
    (args : List Str)
    → All IsRemote (keep_remote false args)
      × keep_remote false (keep_remote false args) ≡ keep_remote false args
keep_remote_settles args = (
  keep_remote-All false args,
  keep_remote-fixed (keep_remote false args) (keep_remote-All false args),
)

split_commas-single : (s : Str) → All (λ c. c ≢ 44) s → split_commas s ≡ s ∷ []
unfolding split_commas
split_commas-single [] h = refl
split_commas-single (c ∷ s) (h, hs) = rw (≢→==-false c 44 h, split_commas-single s hs) refl

-- For every path that is not empty, has no comma and does not begin with `-`, whatever arguments
-- follow: where these expand, `-Wp,-MD,path` and `-Wp,-MMD,path` before them expand to -MD (or
-- -MMD), -MF and the path as three arguments, followed by what the others expand to.
expand_dependency_file :
    (path : Str) (rest later : List Str)
    → str_eq path [] ≡ false
    → has_prefix path (go "-") ≡ false
    → All (λ c. c ≢ 44) path
    → expand rest ≡ ok later
    → expand ((go "-Wp,-MD," ++ path) ∷ rest) ≡ ok (go "-MD" ∷ go "-MF" ∷ path ∷ later)
      × expand ((go "-Wp,-MMD," ++ path) ∷ rest) ≡ ok (go "-MMD" ∷ go "-MF" ∷ path ∷ later)
unfolding expand has_prefix split_commas drop_first insert_mf wants_path append_checked cons_checked
    str_eq
expand_dependency_file path rest later h p s e =
    (rw (split_commas-single path s, h, p, e) refl, rw (split_commas-single path s, h, p, e) refl)
