-- ===== src/Config.antt =====
-- The configuration, pkg/config/spec.go and config.go. `mergo.Merge`, the files and their parsers are
-- parameters; a nil pointer is `none`, and -1 for an undetermined limit is `none` too.
pub mod Globals
use kubecc.Common.{ℕ, if◌then◌else◌, List, [], ◌∷◌, Option, none, some, Bool, true, false, Str, go}

pub record GlobalSpec : Type 0 where
  pub log_level : Str
  pub log_file : Str

pub record UsageLimitsSpec : Type 0 where
  pub concurrent_process_limit : ℕ

-- Also what a `VolatileStorageSpec` has.
pub record StorageLimitsSpec : Type 0 where
  pub memory : Str
  pub disk : Str

pub record AgentSpec : Type 0 where
  pub global : GlobalSpec
  pub usage_limits : Option UsageLimitsSpec
  pub scheduler_address : Str
  pub monitor_address : Str

pub record ConsumerSpec : Type 0 where
  pub global : GlobalSpec
  pub consumerd_address : Str

pub record ConsumerdSpec : Type 0 where
  pub global : GlobalSpec
  pub usage_limits : Option UsageLimitsSpec
  pub scheduler_address : Str
  pub monitor_address : Str
  pub listen_address : Str
  pub disable_tls : Bool

pub record SchedulerSpec : Type 0 where
  pub global : GlobalSpec
  pub monitor_address : Str
  pub cache_address : Str
  pub listen_address : Str

pub record MonitorSpec : Type 0 where
  pub global : GlobalSpec
  pub listen_address : Str
  pub serve_prometheus_metrics : Bool

pub record LocalStorageSpec : Type 0 where
  pub limits : StorageLimitsSpec
  pub path : Str

pub record RemoteStorageSpec : Type 0 where
  pub endpoint : Str
  pub access_key : Str
  pub secret_key : Str
  pub tls : Bool
  pub cert_path : Str
  pub bucket : Str
  pub region : Str
  pub expiration_days : ℕ

pub record CacheSpec : Type 0 where
  pub global : GlobalSpec
  pub volatile_storage : Option StorageLimitsSpec
  pub local_storage : Option LocalStorageSpec
  pub remote_storage : Option RemoteStorageSpec
  pub listen_address : Str
  pub monitor_address : Str

pub record KcctlSpec : Type 0 where
  pub global : GlobalSpec
  pub monitor_address : Str
  pub scheduler_address : Str
  pub disable_tls : Bool

pub record KubeccSpec : Type 0 where
  pub global : GlobalSpec
  pub agent : AgentSpec
  pub consumer : ConsumerSpec
  pub consumerd : ConsumerdSpec
  pub scheduler : SchedulerSpec
  pub monitor : MonitorSpec
  pub cache : CacheSpec
  pub kcctl : KcctlSpec

-- `GetConcurrentProcessLimit`
unfoldable pub get_concurrent_process_limit : Option UsageLimitsSpec → Option ℕ
get_concurrent_process_limit none = none
get_concurrent_process_limit (some l) = some l.concurrent_process_limit

module _ (merge : GlobalSpec → GlobalSpec → GlobalSpec) where
  -- `ApplyGlobals`: every component has one embedded `GlobalSpec`.
  unfoldable pub apply_globals : KubeccSpec → KubeccSpec
  apply_globals cfg = record cfg {
    agent = record cfg.agent { global = merge cfg.agent.global cfg.global };
    consumer = record cfg.consumer { global = merge cfg.consumer.global cfg.global };
    consumerd = record cfg.consumerd { global = merge cfg.consumerd.global cfg.global };
    scheduler = record cfg.scheduler { global = merge cfg.scheduler.global cfg.global };
    monitor = record cfg.monitor { global = merge cfg.monitor.global cfg.global };
    cache = record cfg.cache { global = merge cfg.cache.global cfg.global };
    kcctl = record cfg.kcctl { global = merge cfg.kcctl.global cfg.global };
  }

  -- `LoadFile`: what was read and parsed so far is used, after an error too.
  module _ (read : Str → Str) (is_json : Str → Bool) (from_json from_yaml : Str → KubeccSpec) where
    unfoldable pub load_file : Str → KubeccSpec
    load_file path =
        let contents = read path in
        apply_globals (if is_json path then from_json contents else from_yaml contents)

module _ (join : Str → Str → Str) (exists : Str → Bool) where
  unfoldable pub find_file : Str → List Str → Option Str
  find_file p [] = none
  find_file p (f ∷ fs) =
      let rest = find_file p fs in if exists (join p f) then some (join p f) else rest

  unfoldable pub or_next : Option Str → Option Str → Option Str
  or_next none next = next
  or_next (some path) next = some path

  unfoldable pub find_config : List Str → List Str → Option Str
  find_config [] filenames = none
  find_config (p ∷ ps) filenames = or_next (find_file p filenames) (find_config ps filenames)

  -- The file that `Load` takes, with the directory of the user; `none` ends the program.
  unfoldable pub load_path : Str → Option Str
  load_path home =
      find_config (go "/etc/kubecc" ∷ join home (go ".kubecc") ∷ [])
        (go "config.yaml" ∷ go "config.yml" ∷ go "config.json" ∷ [])
