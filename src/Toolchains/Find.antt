-- ===== src/Toolchains/Find.antt =====
-- What the store of pkg/toolchains/store.go finds.
use mathlib.Core.List.{Mem, mem-cons_self, mem-cons_of_mem}
use kubecc.Common.{
  ◌≡◌, if◌then◌else◌, refl, ap, sym, ◌∙◌, List, [], ◌∷◌, Option, none, some, true, false, Str,
  ◌>>=◌, All, arith, Bool-cases, inl, inr, str_eq,
}
use kubecc.Common.Map.{Map, lookup, insert, lookup-insert, lookup-insert_self}
use kubecc.Types.Toolchain.{Toolchain, equivalent_to}
use kubecc.Toolchains.Store.{
  Querier, ToolchainData, modified, path_error, other_error, ModTime, fill_info, empty_toolchain,
  store_contains, add_queried, add_toolchain, find_toolchain, items, first_match, try_match,
}

bind-some :
    {A B : Type 0} (o : Option A) (f : A → Option B) (b : B)
    → (o >>= f) ≡ some b
    → (a : A) × o ≡ some a × f a ≡ some b
bind-some none f b h = absurd (grind arith)
bind-some (some a) f b h = (a, refl, h)

fill_info-executable :
    (tc filled : Toolchain) (q : Querier)
    → fill_info tc q ≡ some filled
    → filled.executable ≡ tc.executable
unfolding fill_info
fill_info-executable tc filled q h =
    let (a, e1, h1) = bind-some (q.target_arch tc.executable) _ filled h in
    let (b, e2, h2) = bind-some (q.version tc.executable) _ filled h1 in
    let (c, e3, h3) = bind-some (q.is_pic_default tc.executable) _ filled h2 in
    let (d, e4, h4) = bind-some (q.kind tc.executable) _ filled h3 in
    let (e, e5, h5) = bind-some (q.lang tc.executable) _ filled h4 in grind arith

add_queried-store :
    (s t : Map ToolchainData) (path : Str) (q : Querier) (filled tc : Toolchain) (m : ModTime)
    → q.mod_time path ≡ m
    → add_queried s path q filled ≡ some (t, tc)
    → filled ≡ tc × t ≡ insert path (record { toolchain = tc; mod_time = m; querier = q }) s
unfolding add_queried
add_queried-store s t path q filled tc (modified n) e h = (grind arith, grind arith)
add_queried-store s t path q filled tc path_error e h = absurd (grind arith)
add_queried-store s t path q filled tc other_error e h = absurd (grind arith)

find_inserted :
    (eval_path : Str → Str) (s : Map ToolchainData) (path : Str) (d : ToolchainData)
    → find_toolchain eval_path (insert path d s) path ≡ some d.toolchain
unfolding find_toolchain
find_inserted eval_path s path d = rw (find_toolchain, lookup-insert_self path d s) refl

-- When `Add` succeeds: `Contains` did not find the resolved path in the store, this path is the
-- executable of the new toolchain, `Find` of it in the new store gives this toolchain, and the new
-- store has a new entry for the resolved path and the old one for every other path.
pub add_toolchain-find :
    (eval_path : Str → Str) (s t : Map ToolchainData) (executable : Str) (q : Querier)
    (tc : Toolchain)
    → add_toolchain eval_path s executable q ≡ some (t, tc)
    → store_contains eval_path s (eval_path executable) ≡ false
      × tc.executable ≡ eval_path executable
      × find_toolchain eval_path t (eval_path executable) ≡ some tc
      × ((j : Str)
          → lookup j t ≡ (
              if str_eq (eval_path executable) j
              then some (record {
                toolchain = tc;
                mod_time = q.mod_time (eval_path executable);
                querier = q;
              })
              else lookup j s))
unfolding add_toolchain empty_toolchain
add_toolchain-find eval_path s t executable q tc h =
    elim (Bool-cases (store_contains eval_path s (eval_path executable))) [
      | inl e ↦ absurd (grind arith)
      | inr e ↦
          let path : Str = eval_path executable in
          let (filled, f, g) =
            bind-some (fill_info (empty_toolchain path) q) (add_queried s path q) (t, tc)
              (grind arith) in
          let (k, l) = add_queried-store s t path q filled tc (q.mod_time path) refl g in
          (
            e,
            sym (ap (λ r. r.executable) k) ∙ fill_info-executable (empty_toolchain path) filled q f,
            ap (λ m. find_toolchain eval_path m path) l ∙ find_inserted eval_path s path _,
            (λ j. ap (lookup j) l ∙ lookup-insert path j _ s),
          )
    ]

-- What the outcome of a search for an equivalent toolchain says of the toolchains searched.
abbrev pub Matches : Toolchain → List Toolchain → Option Toolchain → Type 0
Matches other tcs none = All (λ tc. equivalent_to tc other ≡ false) tcs
Matches other tcs (some tc) = Mem tc tcs × equivalent_to tc other ≡ true

Matches-cons :
    (other x : Toolchain) (tcs : List Toolchain) (o : Option Toolchain)
    → equivalent_to x other ≡ false
    → Matches other tcs o
    → Matches other (x ∷ tcs) o
Matches-cons other x tcs none e h = (e, h)
Matches-cons other x tcs (some tc) e h = (mem-cons_of_mem x h.0, h.1)

first_match-Matches :
    (other : Toolchain) (tcs : List Toolchain) → Matches other tcs (first_match other tcs)
unfolding first_match
first_match-Matches other [] = tt
first_match-Matches other (x ∷ tcs) = elim (Bool-cases (equivalent_to x other)) [
  | inl e ↦ rw e (mem-cons_self, e)
  | inr e ↦
      rw e (Matches-cons other x tcs (first_match other tcs) e (first_match-Matches other tcs))
]

-- For every store and toolchain: what `TryMatch` finds is a toolchain of the store that is
-- equivalent to the one asked for, and where it finds none, no toolchain of the store is.
pub try_match-Matches :
    (s : Map ToolchainData) (other : Toolchain) → Matches other (items s) (try_match s other)
unfolding try_match
try_match-Matches s other = first_match-Matches other (items s)
