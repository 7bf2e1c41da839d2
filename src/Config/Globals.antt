-- ===== src/Config/Globals.antt =====
-- What the components of pkg/config have after `ApplyGlobals`.
use kubecc.Common.{◌≡◌, refl, sym, ap, ◌∙◌, if◌then◌else◌, List, [], ◌∷◌, Str, str_eq, arith}
use kubecc.Config.{GlobalSpec, KubeccSpec, apply_globals}

-- What `mergo.Merge` documents: a field of the first that is empty is taken from the second.
abbrev pub or_global : Str → Str → Str
or_global own other = if str_eq own [] then other else own

abbrev pub filled : GlobalSpec → GlobalSpec → GlobalSpec
filled own other = record {
  log_level = or_global own.log_level other.log_level;
  log_file = or_global own.log_file other.log_file;
}

-- The specs of the components.
abbrev pub globals : KubeccSpec → List GlobalSpec
globals cfg =
    cfg.agent.global ∷ cfg.consumer.global ∷ cfg.consumerd.global ∷ cfg.scheduler.global
    ∷ cfg.monitor.global ∷ cfg.cache.global ∷ cfg.kcctl.global ∷ []

abbrev map_filled : GlobalSpec → List GlobalSpec → List GlobalSpec
map_filled g [] = []
map_filled g (s ∷ ss) = filled s g ∷ map_filled g ss

or_global_idem : (own other : Str) → or_global (or_global own other) other ≡ or_global own other
unfolding str_eq
or_global_idem [] other = ground arith
or_global_idem (c ∷ own) other = refl

module _ (merge : GlobalSpec → GlobalSpec → GlobalSpec)
    (merges : (own other : GlobalSpec) → merge own other ≡ filled own other) where
  -- Every component has its own settings where it has any, and the global ones elsewhere; the global
  -- settings are as before.
  pub globals-apply_globals :
      (cfg : KubeccSpec)
      → (globals (apply_globals merge cfg) ≡ map_filled cfg.global (globals cfg))
        × ((apply_globals merge cfg).global ≡ cfg.global)
  unfolding apply_globals
  globals-apply_globals cfg = (
    λ i.
        merges cfg.agent.global cfg.global i
        ∷ merges cfg.consumer.global cfg.global i
        ∷ merges cfg.consumerd.global cfg.global i
        ∷ merges cfg.scheduler.global cfg.global i
        ∷ merges cfg.monitor.global cfg.global i
        ∷ merges cfg.cache.global cfg.global i
        ∷ merges cfg.kcctl.global cfg.global i
        ∷ [],
    refl,
  )

  merge_idem : (own other : GlobalSpec) → merge (merge own other) other ≡ merge own other
  merge_idem own other =
      merges (merge own other) other
      ∙ ap (λ o. filled o other) (merges own other)
      ∙ (λ i. record {
        log_level = or_global_idem own.log_level other.log_level i;
        log_file = or_global_idem own.log_file other.log_file i;
      })
      ∙ sym (merges own other)

  -- A second application changes nothing.
  pub apply_globals_idem :
      (cfg : KubeccSpec) → apply_globals merge (apply_globals merge cfg) ≡ apply_globals merge cfg
  unfolding apply_globals
  apply_globals_idem cfg = λ i. record (apply_globals merge cfg) {
    agent = record cfg.agent { global = merge_idem cfg.agent.global cfg.global i };
    consumer = record cfg.consumer { global = merge_idem cfg.consumer.global cfg.global i };
    consumerd = record cfg.consumerd { global = merge_idem cfg.consumerd.global cfg.global i };
    scheduler = record cfg.scheduler { global = merge_idem cfg.scheduler.global cfg.global i };
    monitor = record cfg.monitor { global = merge_idem cfg.monitor.global cfg.global i };
    cache = record cfg.cache { global = merge_idem cfg.cache.global cfg.global i };
    kcctl = record cfg.kcctl { global = merge_idem cfg.kcctl.global cfg.global i };
  }
