-- ===== src/Tests/Components.antt =====
-- The theorems on keys, toolchains, the monitor's store and health at concrete inputs.
use kubecc.Common.{
  ◌≡◌, ◌≢◌, refl, List, [], ◌∷◌, ◌||◌, some, true, false, Str, go, str_eq, arith, All,
  if◌then◌else◌,
}
use kubecc.Common.Map.{Map, lookup, insert}
use kubecc.Types.Key.{
  Key, canonical, parse_key, split_two, parse_key-canonical, canonical-parse_key,
}
use kubecc.Types.Toolchain.{Toolchain, gnu, c}
use kubecc.Metrics.Health.{
  Condition, ActiveCondition, missing_optional_component, initializing, unavailable, degraded,
  ready, health, is_pending, is_optional, is_critical, has, health-status,
}
use kubecc.Toolchains.Store.{
  Querier, modified, ToolchainData, add_toolchain, add_queried, fill_info, empty_toolchain,
  store_contains, find_toolchain,
}
use kubecc.Toolchains.Find.{add_toolchain-find}

abbrev key : Key
key = record { bucket = go "meta"; name = go "a.b" }

no_dot : All (λ x. x ≢ b'.') key.bucket
no_dot = ((λ e. omega arith), ((λ e. omega arith), ((λ e. omega arith), ((λ e. omega arith), tt))))

parse_key-canonical_example : parse_key (canonical key) ≡ some key
parse_key-canonical_example = parse_key-canonical key no_dot

read_lem : parse_key (go "meta.a.b") ≡ some key
unfolding parse_key split_two
read_lem = refl

canonical-parse_key_example : (canonical key ≡ go "meta.a.b") × All (λ x. x ≢ b'.') key.bucket
canonical-parse_key_example = canonical-parse_key (go "meta.a.b") {k = key} read_lem

abbrev gcc : Toolchain
gcc = record {
  kind = gnu;
  lang = c;
  executable = go "/usr/bin/gcc";
  target_arch = go "amd64";
  version = go "10";
  pic_default = true;
  pie_default = false;
}

abbrev no_text : Condition → List Str → List Str
no_text k msgs = msgs

abbrev conditions : List ActiveCondition
conditions = record { while = 1; condition = missing_optional_component; msgs = [] } ∷ []

health-status_example : (health no_text false conditions).status ≡ (
    if has is_pending conditions
    then initializing
    else if false || has is_critical conditions
    then unavailable
    else if has is_optional conditions
    then degraded
    else ready)
health-status_example = health-status no_text false conditions

abbrev querier : Querier
querier = record {
  target_arch = λ e. some (go "amd64");
  version = λ e. some (go "10");
  is_pic_default = λ e. some true;
  kind = λ e. some gnu;
  lang = λ e. some c;
  mod_time = λ e. modified 4;
}

abbrev resolve : Str → Str
resolve path = path

abbrev one_toolchain : Map ToolchainData
one_toolchain =
    (go "/usr/bin/gcc", record { toolchain = gcc; mod_time = modified 4; querier = querier }) ∷ []

added_lem : add_toolchain resolve [] (go "/usr/bin/gcc") querier ≡ some (one_toolchain, gcc)
unfolding add_toolchain store_contains lookup fill_info empty_toolchain add_queried insert
added_lem = refl

add_toolchain-find_example :
    store_contains resolve [] (resolve (go "/usr/bin/gcc")) ≡ false
    × gcc.executable ≡ resolve (go "/usr/bin/gcc")
    × find_toolchain resolve one_toolchain (resolve (go "/usr/bin/gcc")) ≡ some gcc
    × ((j : Str)
        → lookup j one_toolchain ≡ (
            if str_eq (resolve (go "/usr/bin/gcc")) j
            then some (record {
              toolchain = gcc;
              mod_time = querier.mod_time (resolve (go "/usr/bin/gcc"));
              querier = querier;
            })
            else lookup j []))
add_toolchain-find_example =
    add_toolchain-find resolve [] one_toolchain (go "/usr/bin/gcc") querier gcc added_lem
