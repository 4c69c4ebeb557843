-- ===== src/Schema/Namespace/Success.antt =====
-- When ApplyNamespace of a scope succeeds.
use arcaflow_plugin_sdk_go.Common.{
  ℕ, suc, Bytes, str_eq, true, [], ◌∷◌, All, Option, some, get_elem?, lookup, if◌then◌else◌,
  Bool-cases, inl, inr, ◌≡◌, refl, ap, ◌∙◌, subst, arith, ◌==◌, ==_iff,
}
use arcaflow_plugin_sdk_go.Go.Result.{Result, ok, ◌>>=◌}
use arcaflow_plugin_sdk_go.Schema.Types.{
  Schema, list_schema, map_schema, object_schema, ref_schema, scope_schema, one_of_schema, Object,
  object, Properties, no_properties, property, Store,
}
use arcaflow_plugin_sdk_go.Schema.Namespace.{
  Objects, link_ref, apply_schema, apply_object, apply_properties, set_object, apply_entries,
  apply_scope, self_namespace, validate_scope,
}
use arcaflow_plugin_sdk_go.Schema.Namespace.Scope.{
  AllResolvable, get_elem?-set_object_same, get_elem?-set_object_other, at_address-found,
  validate_scope-apply_scope,
}

-- Every reference of the namespace has its object among these, and there are no scopes and no one-of
-- types within.
module _ (objects : Objects) (ns : Bytes) where
  unfoldable mutual
    pub Offered : Schema → Type 0
    Offered (list_schema s lo hi) = Offered s
    Offered (map_schema k v lo hi) = Offered k × Offered v
    Offered (object_schema o) = OfferedObject o
    Offered (ref_schema id namespace link) =
        str_eq ns namespace ≡ true → (a : ℕ) × (lookup id objects ≡ some a)
    Offered (scope_schema os root) = ⊥
    Offered (one_of_schema kt cs d inlined) = ⊥
    Offered s = Unit

    pub OfferedObject : Object → Type 0
    OfferedObject (object id unenforced ps) = OfferedProperties ps

    pub OfferedProperties : Properties → Type 0
    OfferedProperties no_properties = Unit
    OfferedProperties (property id s rules ps) = Offered s × OfferedProperties ps

  -- The address holds an object that can be linked.
  abbrev pub Stored : Store → ℕ → Type 0
  Stored st a = (o : Object) × (get_elem? st a ≡ some o) × OfferedObject o

link_ref-eq-ok :
    (objects : Objects) (ns id namespace : Bytes) (link : Option ℕ)
    → (str_eq ns namespace ≡ true → (a : ℕ) × (lookup id objects ≡ some a))
    → (l : Option ℕ) × (link_ref objects ns id namespace link ≡ ok l)
unfolding link_ref
link_ref-eq-ok objects ns id namespace link h = elim (Bool-cases (str_eq ns namespace)) [
  | inl same ↦ (some ((h same).0), rw (same, (h same).1) refl)
  | inr differs ↦ (link, rw differs refl)
]

module _ (nested : Store → Objects → Result Store) (objects : Objects) (ns : Bytes) where
  -- ApplyNamespace returns, with the store as it was, and what it gives has such references again.
  abbrev Returns : {A : Type 0} → (A → Type 0) → Store → Result (Store × A) → Type 0
  Returns {A} P st r = (x : A) × (r ≡ ok (st, x)) × P x

  mutual
    unfolding apply_schema Offered

    apply_schema-Returns :
        (st : Store) (s : Schema)
        → Offered objects ns s
        → Returns (Offered objects ns) st (apply_schema nested objects ns st s)
    apply_schema-Returns st (list_schema s lo hi) v =
        let (x, e, w) = apply_schema-Returns st s v in (list_schema x lo hi, rw e refl, w)
    apply_schema-Returns st (map_schema k t lo hi) v =
        let (x, e, w) = apply_schema-Returns st k v.0 in
        let (y, d, u) = apply_schema-Returns st t v.1 in
        (map_schema x y lo hi, rw (e, d) refl, (w, u))
    apply_schema-Returns st (object_schema o) v =
        let (x, e, w) = apply_object-Returns st o v in (object_schema x, rw e refl, w)
    apply_schema-Returns st (ref_schema id namespace link) v =
        let (l, e) = link_ref-eq-ok objects ns id namespace link v in
        (ref_schema id namespace l, rw e refl, v)
    apply_schema-Returns st (scope_schema os root) v = absurd v
    apply_schema-Returns st (one_of_schema kt cs d inlined) v = absurd v
    apply_schema-Returns st s v = (s, refl, tt)

    apply_object-Returns :
        (st : Store) (o : Object)
        → OfferedObject objects ns o
        → Returns (OfferedObject objects ns) st (apply_object nested objects ns st o)
    apply_object-Returns st (object id unenforced ps) v =
        let (x, e, w) = apply_properties-Returns st ps v in (object id unenforced x, rw e refl, w)

    apply_properties-Returns :
        (st : Store) (ps : Properties)
        → OfferedProperties objects ns ps
        → Returns (OfferedProperties objects ns) st (apply_properties nested objects ns st ps)
    apply_properties-Returns st no_properties v = (no_properties, refl, tt)
    apply_properties-Returns st (property id s rules ps) v =
        let (x, e, w) = apply_schema-Returns st s v.0 in
        let (y, d, u) = apply_properties-Returns st ps v.1 in
        (property id x rules y, rw (e, d) refl, (w, u))

  set_object-Stored :
      (st : Store) (a b : ℕ) (p : Object)
      → OfferedObject objects ns p
      → Stored objects ns st a
      → Stored objects ns st b
      → Stored objects ns (set_object a p st) b
  set_object-Stored st a b p w h v = elim (Bool-cases (a == b)) [
    | inl same ↦
        subst (Stored objects ns (set_object a p st)) ((==_iff a b).0 same)
          (p, get_elem?-set_object_same a p st h.1, w)
    | inr differs ↦ (v.0, get_elem?-set_object_other a b p st (λ e. ground (arith, e)) ∙ v.1, v.2)
  ]

  apply_entries-returns :
      (es : Objects) (st : Store)
      → All (λ e. Stored objects ns st e.1) es
      → (st' : Store) × (apply_entries nested objects ns es st ≡ ok st')
  unfolding apply_entries
  apply_entries-returns [] st h = (st, refl)
  apply_entries-returns ((id, a) ∷ es) st h =
      let (x, e, w) = apply_object-Returns st (h.0.0) (h.0.2) in
      let (st', rest) = apply_entries-returns es (set_object a x st) (kept es x w h.0 h.1) in
      (
        st',
        at_address-found st a _ (h.0.1)
            ∙ ap
                (λ r. r >>= λ (q : Store × Object).
                  apply_entries nested objects ns es (set_object a q.1 q.0))
                e
            ∙ rest,
      )
    where
      kept :
          (fs : Objects) (x : Object)
          → OfferedObject objects ns x
          → Stored objects ns st a
          → All (λ e. Stored objects ns st e.1) fs
          → All (λ e. Stored objects ns (set_object a x st) e.1) fs
      kept [] x w h hs = tt
      kept (f ∷ fs) x w h hs = (set_object-Stored st a f.1 x w h hs.0, kept fs x w h hs.1)

-- ApplyNamespace of a scope succeeds, and ValidateReferences after it, where each object of the scope is
-- in the store, the objects there hold no scopes, and each of their references is of the applied
-- namespace or has its object already; those of the scope are without one-of types, and each of
-- their references of the namespace has its object among those that are applied: the scope's
-- in the scope's own namespace, the caller's in another.
pub apply_scope-succeeds :
    (f g : ℕ) (ns : Bytes) (external os : Objects) (st : Store)
    → All (λ e. Stored (if str_eq ns self_namespace then os else external) ns st e.1) os
    → AllResolvable ns st
    → (st' : Store) × (apply_scope (suc f) ns external st os ≡ ok st')
      × (validate_scope (suc g) st' os ≡ ok tt)
apply_scope-succeeds f g ns external os st h all =
    let objects : Objects = if str_eq ns self_namespace then os else external in
    let (st', e) =
      apply_entries-returns (λ s nested. apply_scope f ns objects s nested) objects ns os st h in
    let applied : apply_scope (suc f) ns external st os ≡ ok st' = unfold apply_scope in e in
    (st', applied, validate_scope-apply_scope f g ns external os st st' applied all)
