-- ===== src/Meta/Roundtrip.antt =====
-- Metadata that is exported by pkg/meta/context.go and imported again.
use kubecc.Common.{
  ◌≡◌, refl, sym, ap, ◌∙◌, subst, List, [], ◌∷◌, Option, none, some, Bool, true, false, Str, str_eq,
  str_eq_iff, is_some, if◌then◌else◌, All, any, arith, Bool-cases, inl, inr,
}
use kubecc.Common.Map.{Map, lookup, insert, values, lookup-insert}
use kubecc.Meta.{
  Provider, MetaContext, ok_code, internal, Incoming, value_or, context_value, metadata_providers,
  export_pairs, export_to_outgoing, add_first, add_metadata, import_required, import_optional,
  inherit_from, imported, then_optional, import_from_incoming,
}

-- The values of a key, in the order of the pairs.
abbrev pub pairs_of : Str → List (Str × Str) → List Str
pairs_of k [] = []
pairs_of k ((j, v) ∷ ps) = if str_eq j k then v ∷ pairs_of k ps else pairs_of k ps

-- The first value of a list.
abbrev Heads : Str → List Str → Type 0
Heads v [] = ⊥
Heads v (w ∷ vs) = v ≡ w

Heads-if :
    (v : Str) (b c : Bool) (xs ys : List Str)
    → b ≡ c
    → Heads v (if c then xs else ys)
    → Heads v (if b then xs else ys)
Heads-if v b c xs ys e h = subst (λ a. Heads v (if a then xs else ys)) (sym e) h

some_inj {ℓ} : {A : Type ℓ} {a b : A} → some a ≡ some b → a ≡ b
some_inj e = cc

module _ {V : Type 0} where
  -- The providers of a context stand under their keys.
  abbrev pub IsKeyed : Map (Provider V) → Type 0
  IsKeyed = All (λ e. (e.1).key ≡ e.0)

  -- A context has a provider, and a value that the provider reads back.
  abbrev pub Carries : MetaContext V → Provider V → Type 0
  Carries c p =
      (lookup p.key c.providers ≡ some p)
      × (is_some (context_value c p.key) ≡ true)
      × (p.unmarshal (p.marshal (context_value c p.key)) ≡ context_value c p.key)

  export_first :
      (value : Str → Option V) (k : Str) (p : Provider V) (m : Map (Provider V))
      → IsKeyed m
      → lookup k m ≡ some p
      → Heads (p.marshal (value k)) (pairs_of k (export_pairs value (values m)))
  unfolding lookup export_pairs
  export_first value k p [] h e = cc
  export_first value k p ((j, q) ∷ m) h e = elim (Bool-cases (str_eq j k)) [
    | inl b ↦
        let same : q ≡ p =
          some_inj (subst (λ c. (if c then some q else lookup k m) ≡ some p) b e) in
        let at : q.key ≡ k = h.0 ∙ (str_eq_iff j k).0 b in
        Heads-if _ (str_eq q.key k) true _ _ (ap (λ x. str_eq x k) h.0 ∙ b)
          (λ i. (sym same i).marshal (value (sym at i)))
    | inr b ↦ Heads-if _ (str_eq q.key k) false _ _ (ap (λ x. str_eq x k) h.0 ∙ b) (
        export_first value k p m h.1 (subst (λ c. (if c then some q else lookup k m) ≡ some p) b e))
  ]

  found_in :
      (p : Provider V) (vs : List Str) (v : Str) (o : Option V) (s : Incoming V)
      → Heads v vs
      → p.unmarshal v ≡ o
      → is_some o ≡ true
      → ((add_first p vs s).code ≡ ok_code)
        × ((add_first p vs s).incoming_values ≡ insert p.key o s.incoming_values)
  unfolding add_first
  found_in p [] v o s h e i = absurd h
  found_in p (w ∷ vs) v o s h e i =
      let read : p.unmarshal w ≡ o = ap p.unmarshal (sym h) ∙ e in
      (
        ap (λ x. if is_some x then ok_code else internal) read
            ∙ ap (λ b. if b then ok_code else internal) i,
        ap (λ x. insert p.key x s.incoming_values) read,
      )

  -- What the import of a list of such providers finds.
  abbrev pub wanted : List (Provider V) → Str → Bool
  wanted ps k = any (λ p. str_eq p.key k) ps

  wanted_step :
      (c : MetaContext V) (p : Provider V) (ps : List (Provider V)) (k : Str) (s t : Incoming V)
      → t.incoming_values ≡ insert p.key (context_value c p.key) s.incoming_values
      → (if wanted ps k then some (context_value c k) else lookup k t.incoming_values)
        ≡ (if wanted (p ∷ ps) k then some (context_value c k) else lookup k s.incoming_values)
  wanted_step c p ps k s t e =
      let l = ap (lookup k) e ∙ lookup-insert p.key k (context_value c p.key) s.incoming_values in
      elim (Bool-cases (str_eq p.key k)) [
        | inl b ↦
            let at = (str_eq_iff p.key k).0 b in
            let same = ap (λ j. some (context_value c j)) at in ground (arith, l, same)
        | inr b ↦ ground (arith, l)
      ]

  import_required-found :
      (c : MetaContext V) (md : Str → List Str)
      → ((k : Str) → md k ≡ pairs_of k (export_to_outgoing c))
      → IsKeyed c.providers
      → (ps : List (Provider V)) (s : Incoming V) → All (Carries c) ps
      → s.code ≡ ok_code
      → ((import_required md ps s).code ≡ ok_code)
        × ((k : Str)
            → lookup k (import_required md ps s).incoming_values
              ≡ (if wanted ps k then some (context_value c k) else lookup k s.incoming_values))
  unfolding import_required add_metadata export_to_outgoing metadata_providers
  import_required-found c md sent keyed [] s h o = (o, λ k. refl)
  import_required-found c md sent keyed (p ∷ ps) s h o =
      let (has, there, reads) = h.0 in
      let first =
        subst (Heads (p.marshal (context_value c p.key))) (sym (sent p.key))
          (export_first (context_value c) p.key p c.providers keyed has) in
      let (fine, kept) = found_in p (md p.key) _ _ s first reads there in
      let t = add_first p (md p.key) s in
      let (a, b) = import_required-found c md sent keyed ps t h.1 fine in
      rw (import_required, fine) (a, λ k. b k ∙ wanted_step c p ps k s t kept)

  no_optional :
      (md : Str → List Str) (parent : Str → Option V) (r : Incoming V)
      → r.code ≡ ok_code
      → imported parent (then_optional md [] none r)
        ≡ some (record {
          providers = r.incoming_providers;
          values = r.incoming_values;
          parent = parent;
        })
  unfolding imported then_optional inherit_from import_optional
  no_optional md parent r h = rw (then_optional, h) refl

  read_back :
      (c : MetaContext V) (k : Str) (w : Bool) (r : Incoming V) (parent : Str → Option V)
      → lookup k r.incoming_values ≡ (if w then some (context_value c k) else none)
      → (if w
          then context_value
              (record {
                providers = r.incoming_providers;
                values = r.incoming_values;
                parent = parent;
              })
              k
          else context_value c k)
        ≡ context_value c k
  unfolding context_value value_or
  read_back c k true r parent h = ap (λ o. value_or o (parent k)) h
  read_back c k false r parent h = refl

  -- For every context whose providers stand under their keys, and a call whose metadata has for each
  -- key what the context was exported to: an import that requires only providers that the context
  -- has, each with a value that it reads back from its text, and asks for no others, succeeds, and
  -- the context that it makes gives for the key of each of them the value that the context gives.
  pub import-export :
      (c : MetaContext V) (md : Str → List Str) (parent : Str → Option V) (ps : List (Provider V))
      → ((k : Str) → md k ≡ pairs_of k (export_to_outgoing c))
      → IsKeyed c.providers
      → All (Carries c) ps
      → (d : MetaContext V) × (import_from_incoming md parent ps [] none ≡ some d)
        × ((k : Str)
            → (if wanted ps k then context_value d k else context_value c k) ≡ context_value c k)
  unfolding import_from_incoming lookup
  import-export c md parent ps sent keyed h =
      let start : Incoming V = record {
        incoming_providers = [];
        incoming_values = [];
        code = ok_code;
      } in
      let r = import_required md ps start in
      let (a, b) = import_required-found c md sent keyed ps start h refl in
      (
        record { providers = r.incoming_providers; values = r.incoming_values; parent = parent },
        no_optional md parent r a,
        λ k. read_back c k (wanted ps k) r parent (b k),
      )
