-- ===== src/Meta.antt =====
-- Contexts with metadata, pkg/meta/context.go. Values are of some type, and a nil value is `none`. A
-- provider's key, `Marshal` and `Unmarshal` are its operations; the metadata of a call gives the values
-- of a key.
pub mod Roundtrip
use kubecc.Common.{
  List, [], ◌∷◌, Option, none, some, Bool, true, false, Str, str_eq, is_some, ◌||◌, not,
  if◌then◌else◌,
}
use kubecc.Common.Map.{Map, lookup, insert, values}

pub record Provider (V : Type 0) : Type 0 where
  pub key : Str
  pub marshal : Option V → Str
  pub unmarshal : Str → Option V

pub record MetaContext (V : Type 0) : Type 0 where
  pub providers : Map (Provider V)
  pub values : Map (Option V)
  -- the context that this one is made of
  pub parent : Str → Option V

-- The status codes that an import may give.
pub data Code : Type 0 where
  ok_code internal invalid_argument : Code

-- What an import has found.
pub record Incoming (V : Type 0) : Type 0 where
  pub incoming_providers : Map (Provider V)
  pub incoming_values : Map (Option V)
  pub code : Code

module _ {V : Type 0} where
  unfoldable pub value_or : Option (Option V) → Option V → Option V
  value_or none o = o
  value_or (some v) o = v

  -- `Value`
  unfoldable pub context_value : MetaContext V → Str → Option V
  context_value c key = value_or (lookup key c.values) (c.parent key)

  unfoldable pub metadata_providers : MetaContext V → List (Provider V)
  metadata_providers c = values c.providers

  unfoldable pub export_pairs : (Str → Option V) → List (Provider V) → List (Str × Str)
  export_pairs value [] = []
  export_pairs value (p ∷ ps) = (p.key, p.marshal (value p.key)) ∷ export_pairs value ps

  -- The pairs that `ExportToOutgoing` appends.
  unfoldable pub export_to_outgoing : MetaContext V → List (Str × Str)
  export_to_outgoing c = export_pairs (context_value c) (metadata_providers c)

  unfoldable pub add_first : Provider V → List Str → Incoming V → Incoming V
  add_first p [] s = record s { code = invalid_argument }
  add_first p (v ∷ vs) s = record {
    incoming_providers = insert p.key p s.incoming_providers;
    incoming_values = insert p.key (p.unmarshal v) s.incoming_values;
    code = if is_some (p.unmarshal v) then ok_code else internal;
  }

  module _ (md : Str → List Str) where
    -- `addProvider`, with the code of its error.
    unfoldable pub add_metadata : Provider V → Incoming V → Incoming V
    add_metadata p s = add_first p (md p.key) s

    -- The loop over the required providers stops at any error.
    unfoldable pub import_required : List (Provider V) → Incoming V → Incoming V
    import_required [] s = s
    import_required (p ∷ ps) s =
        let t = add_metadata p s in
        elim t.code [ ok_code ↦ import_required ps t | internal ↦ t | invalid_argument ↦ t ]

    -- The loop over the optional ones stops at an internal error.
    unfoldable pub import_optional : List (Provider V) → Incoming V → Incoming V
    import_optional [] s = record s { code = ok_code }
    import_optional (p ∷ ps) s =
        let t = add_metadata p s in
        elim t.code [
          | ok_code ↦ import_optional ps t
          | internal ↦ t
          | invalid_argument ↦ import_optional ps t
        ]

  unfoldable pub inherit : MetaContext V → List (Provider V) → Incoming V → Incoming V
  inherit c [] s = s
  inherit c (p ∷ ps) s = inherit c ps (record s {
    incoming_providers = insert p.key p s.incoming_providers;
    incoming_values = insert p.key (value_or (lookup p.key c.values) none) s.incoming_values;
  })

  unfoldable pub inherit_from : Option (MetaContext V × List (Provider V)) → Incoming V → Incoming V
  inherit_from none s = s
  inherit_from (some (c, ps)) s = inherit c ps s

  unfoldable pub imported : (Str → Option V) → Incoming V → Option (MetaContext V)
  imported parent s = elim s.code [
    | ok_code ↦
        some
          (record { providers = s.incoming_providers; values = s.incoming_values; parent = parent })
    | internal ↦ none
    | invalid_argument ↦ none
  ]

  unfoldable pub then_optional :
      (Str → List Str)
      → List (Provider V)
      → Option (MetaContext V × List (Provider V))
      → Incoming V
      → Incoming V
  then_optional md optional inherited s = elim s.code [
    | ok_code ↦ inherit_from inherited (import_optional md optional s)
    | internal ↦ s
    | invalid_argument ↦ s
  ]

  -- `ImportFromIncoming`; `none` is an error.
  unfoldable pub import_from_incoming :
      (Str → List Str)
      → (Str → Option V)
      → List (Provider V)
      → List (Provider V)
      → Option (MetaContext V × List (Provider V))
      → Option (MetaContext V)
  import_from_incoming md parent required optional inherited = imported parent (
      then_optional md optional inherited (
        import_required md required
          (record { incoming_providers = []; incoming_values = []; code = ok_code })))

  -- `CheckContext`, with the keys of the component and of the identity.
  unfoldable pub check_context : Str → Str → MetaContext V → Bool
  check_context component uuid c =
      not (not (is_some (context_value c component)) || not (is_some (context_value c uuid)))

  unfoldable pub provider_map : List (Provider V × V) → Map (Provider V) → Map (Provider V)
  provider_map [] m = m
  provider_map ((p, v) ∷ ps) m = provider_map ps (insert p.key p m)

  unfoldable pub initial_values : List (Provider V × V) → Map (Option V) → Map (Option V)
  initial_values [] m = m
  initial_values ((p, v) ∷ ps) m = initial_values ps (insert p.key (some v) m)

  -- `NewContextWithParent`, of providers with their initial values.
  unfoldable pub new_context : (Str → Option V) → List (Provider V × V) → MetaContext V
  new_context parent ps = record {
    providers = provider_map ps [];
    values = initial_values ps [];
    parent = parent;
  }
