-- ===== src/Schema/Namespace/Linking.antt =====
-- A scope to which its namespace is applied has all its references.
use arcaflow_plugin_sdk_go.Common.{
  ℕ, Bytes, str_eq, true, Option, is_some, lookup, Bool-cases, Option-cases, inl, inr, ◌≡◌, ◌⊎◌,
  refl, ◌∙◌, subst, arith,
}
use arcaflow_plugin_sdk_go.Go.Result.{Result, ok, >>=-eq-ok, >>-eq-ok, ok_injective}
use arcaflow_plugin_sdk_go.Schema.Types.{
  Schema, list_schema, map_schema, object_schema, ref_schema, scope_schema, one_of_schema, Object,
  object, Properties, no_properties, property, Choices, no_choices, choice, Store,
}
use arcaflow_plugin_sdk_go.Schema.Namespace.{
  Objects, link_ref, apply_schema, apply_object, apply_properties, apply_choices, check_subtypes,
  or_panic, validate_references, validate_object_references, validate_property_references,
  validate_choice_references,
}

-- Every reference is of this namespace or has its object, and no scope lies within.
module _ (ns : Bytes) where
  unfoldable mutual
    pub Resolvable : Schema → Type 0
    Resolvable (list_schema s lo hi) = Resolvable s
    Resolvable (map_schema k v lo hi) = Resolvable k × Resolvable v
    Resolvable (object_schema o) = ResolvableObject o
    Resolvable (ref_schema id namespace link) = (str_eq ns namespace ≡ true) ⊎ (is_some link ≡ true)
    Resolvable (scope_schema os root) = ⊥
    Resolvable (one_of_schema kt cs d inlined) = ResolvableChoices cs
    Resolvable s = Unit

    pub ResolvableObject : Object → Type 0
    ResolvableObject (object id unenforced ps) = ResolvableProperties ps

    pub ResolvableProperties : Properties → Type 0
    ResolvableProperties no_properties = Unit
    ResolvableProperties (property id s rules ps) = Resolvable s × ResolvableProperties ps

    pub ResolvableChoices : Choices → Type 0
    ResolvableChoices no_choices = Unit
    ResolvableChoices (choice k s cs) = Resolvable s × ResolvableChoices cs

link_ref-is_some :
    (objects : Objects) (ns id namespace : Bytes) (link l : Option ℕ)
    → link_ref objects ns id namespace link ≡ ok l
    → (str_eq ns namespace ≡ true) ⊎ (is_some link ≡ true)
    → is_some l ≡ true
unfolding link_ref
link_ref-is_some objects ns id namespace link l h r = elim (Bool-cases (str_eq ns namespace)) [
  | inl same ↦ elim (Option-cases (lookup id objects)) [
    | inl missing ↦ absurd (ground arith)
    | inr (a, found) ↦ ground arith
  ]
  | inr differs ↦ ground arith
]

module _ (nested : Store → Objects → Result Store) (objects : Objects) (ns : Bytes)
    (nested_references : Objects → Result (Unit {0})) where
  -- What ApplyNamespace makes of a type: it has its references, and the store is the same.
  abbrev Post : Store → Store × Schema → Type 0
  Post st q = (validate_references nested_references q.1 ≡ ok tt) × Resolvable ns q.1 × (q.0 ≡ st)

  abbrev PostObject : Store → Store × Object → Type 0
  PostObject st q =
      (validate_object_references nested_references q.1 ≡ ok tt)
      × ResolvableObject ns q.1
      × (q.0 ≡ st)

  abbrev PostProperties : Store → Store × Properties → Type 0
  PostProperties st q =
      (validate_property_references nested_references q.1 ≡ ok tt)
      × ResolvableProperties ns q.1
      × (q.0 ≡ st)

  abbrev PostChoices : Store → Store × Choices → Type 0
  PostChoices st q =
      (validate_choice_references nested_references q.1 ≡ ok tt)
      × ResolvableChoices ns q.1
      × (q.0 ≡ st)

  mutual
    unfolding apply_schema Resolvable validate_references

    apply_schema-Post :
        (st : Store) (s : Schema) (q : Store × Schema)
        → apply_schema nested objects ns st s ≡ ok q
        → Resolvable ns s
        → Post st q
    apply_schema-Post st (list_schema s lo hi) q h v =
        let (r, e, f) = >>=-eq-ok (apply_schema nested objects ns st s) _ h in
        subst (Post st) (ok_injective f) (apply_schema-Post st s r e v)
    apply_schema-Post st (map_schema k t lo hi) q h v =
        let (r, e, f) = >>=-eq-ok (apply_schema nested objects ns st k) _ h in
        let (p, d, g) = >>=-eq-ok (apply_schema nested objects ns r.0 t) _ f in
        let (valid, resolvable, same) = apply_schema-Post st k r e v.0 in
        let (valid', resolvable', same') = apply_schema-Post r.0 t p d v.1 in
        subst (Post st) (ok_injective g)
          (rw (valid, valid') refl, (resolvable, resolvable'), same' ∙ same)
    apply_schema-Post st (object_schema o) q h v =
        let (r, e, f) = >>=-eq-ok (apply_object nested objects ns st o) _ h in
        subst (Post st) (ok_injective f) (apply_object-Post st o r e v)
    apply_schema-Post st (ref_schema id namespace link) q h v =
        let (l, e, f) = >>=-eq-ok (link_ref objects ns id namespace link) _ h in
        let linked = link_ref-is_some objects ns id namespace link l e v in
        subst (Post st) (ok_injective f) (rw linked refl, inr linked, refl)
    apply_schema-Post st (scope_schema os root) q h v = absurd v
    apply_schema-Post st (one_of_schema kt cs d inlined) q h v =
        let (r, e, f) = >>=-eq-ok (apply_choices nested objects ns st cs) _ h in
        let checks = >>-eq-ok (or_panic (check_subtypes r.0 kt d inlined r.1)) _ f in
        subst (Post st) (ok_injective checks.1) (apply_choices-Post st cs r e v)
    apply_schema-Post st s q h v = subst (Post st) (ok_injective h) (refl, tt, refl)

    pub apply_object-Post :
        (st : Store) (o : Object) (q : Store × Object)
        → apply_object nested objects ns st o ≡ ok q
        → ResolvableObject ns o
        → PostObject st q
    apply_object-Post st (object id unenforced ps) q h v =
        let (r, e, f) = >>=-eq-ok (apply_properties nested objects ns st ps) _ h in
        subst (PostObject st) (ok_injective f) (apply_properties-Post st ps r e v)

    apply_properties-Post :
        (st : Store) (ps : Properties) (q : Store × Properties)
        → apply_properties nested objects ns st ps ≡ ok q
        → ResolvableProperties ns ps
        → PostProperties st q
    apply_properties-Post st no_properties q h v =
        subst (PostProperties st) (ok_injective h) (refl, tt, refl)
    apply_properties-Post st (property id s rules ps) q h v =
        let (r, e, f) = >>=-eq-ok (apply_schema nested objects ns st s) _ h in
        let (p, d, g) = >>=-eq-ok (apply_properties nested objects ns r.0 ps) _ f in
        let (valid, resolvable, same) = apply_schema-Post st s r e v.0 in
        let (valid', resolvable', same') = apply_properties-Post r.0 ps p d v.1 in
        subst (PostProperties st) (ok_injective g)
          (rw (valid, valid') refl, (resolvable, resolvable'), same' ∙ same)

    apply_choices-Post :
        (st : Store) (cs : Choices) (q : Store × Choices)
        → apply_choices nested objects ns st cs ≡ ok q
        → ResolvableChoices ns cs
        → PostChoices st q
    apply_choices-Post st no_choices q h v =
        subst (PostChoices st) (ok_injective h) (refl, tt, refl)
    apply_choices-Post st (choice k s cs) q h v =
        let (r, e, f) = >>=-eq-ok (apply_schema nested objects ns st s) _ h in
        let (p, d, g) = >>=-eq-ok (apply_choices nested objects ns r.0 cs) _ f in
        let (valid, resolvable, same) = apply_schema-Post st s r e v.0 in
        let (valid', resolvable', same') = apply_choices-Post r.0 cs p d v.1 in
        subst (PostChoices st) (ok_injective g)
          (rw (valid, valid') refl, (resolvable, resolvable'), same' ∙ same)
