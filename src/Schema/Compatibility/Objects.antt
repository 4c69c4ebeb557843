-- ===== src/Schema/Compatibility/Objects.antt =====
-- schema/object.go: which object schemas ValidateCompatibility of an object accepts.
use arcaflow_plugin_sdk_go.Common.{
  ℕ, suc, Bytes, str_eq, str_eq_iff, Bool, true, false, not, ◌&&◌, ◌||◌, List, [], ◌∷◌, some,
  lookup, has, All, ◌≡◌, ◌⊎◌, ◌↔◌, inl, inr, refl, arith, Option-cases,
}
use arcaflow_plugin_sdk_go.Go.Result.{
  Result, ok, ensure, under, name, required, incompatible, >>-eq-ok, under-eq-ok,
}
use arcaflow_plugin_sdk_go.Go.Convert.{Floats}
use arcaflow_plugin_sdk_go.Schema.Types.{
  Schema, object_schema, Property, Object, Store, object_id, object_properties,
}
use arcaflow_plugin_sdk_go.Schema.Compatibility.Whole.{
  compare_properties, required_present, compatible_objects, id_unenforced, compatible_schema,
}

-- One of the objects does not enforce its ID, or they have the same.
abbrev pub SameId : Object → Object → Type 0
SameId o p = (id_unenforced p ≡ true) ⊎ (id_unenforced o ≡ true) ⊎ (object_id p ≡ object_id o)

-- The object has a property of this name whose type accepts the given one's.
abbrev pub Accepted :
    (Schema → Schema → Result (Unit {0})) → List (Bytes × Property) → Bytes × Property → Type 0
Accepted type own (k, q) = (p : Property) × (lookup k own ≡ some p) × (type p.type q.type ≡ ok tt)

abbrev pub Present : List (Bytes × Property) → Bytes × Property → Type 0
Present others (k, p) = p.rules.required ≡ true → has k others ≡ true

module _ (type : Schema → Schema → Result (Unit {0})) where
  properties-Accepted :
      (own others : List (Bytes × Property))
      → compare_properties type own others ≡ ok tt
      → All (Accepted type own) others
  unfolding compare_properties
  properties-Accepted own [] h = tt
  properties-Accepted own ((k, q) ∷ others) h = elim (Option-cases (lookup k own)) [
    | inl missing ↦ absurd (ground arith)
    | inr (p, found) ↦
        let (first, rest) =
          >>-eq-ok (under (name k) (type p.type q.type)) _ (rw (found, compare_properties) at h) in
        (
          (p, found, under-eq-ok (name k) (type p.type q.type) first),
          properties-Accepted own others rest,
        )
  ]

  Accepted-properties :
      (own others : List (Bytes × Property))
      → All (Accepted type own) others
      → compare_properties type own others ≡ ok tt
  unfolding compare_properties
  Accepted-properties own [] h = refl
  Accepted-properties own ((k, q) ∷ others) h =
      let (p, found, accepts) = h.0 in
      rw (found, compare_properties) (rw accepts (Accepted-properties own others h.1))

required_iff : (b c : Bool) → (ensure (not (b && not c)) required ≡ ok tt) ↔ (b ≡ true → c ≡ true)
required_iff true true = (λ e h. refl, λ h. refl)
required_iff true false = (λ e. cc, λ h. cc (h refl))
required_iff false c = (λ e h. cc, λ h. refl)

id_iff :
    (a b : Bool) (s t : Bytes)
    → (ensure (a || b || str_eq s t) incompatible ≡ ok tt) ↔ ((a ≡ true) ⊎ (b ≡ true) ⊎ (s ≡ t))
id_iff true b s t = (λ e. inl refl, λ h. refl)
id_iff false true s t = (λ e. inr (inl refl), λ h. refl)
id_iff false false s t = (
  λ e. inr (inr ((str_eq_iff s t).0 (ensured (str_eq s t) e))),
  λ h. elim h [
    | inl no_a ↦ absurd (cc)
    | inr (inl no_b) ↦ absurd (cc)
    | inr (inr same) ↦ rw ((str_eq_iff s t).1 same) refl
  ],
)
  where
    ensured : (b : Bool) → ensure b incompatible ≡ ok tt → b ≡ true
    ensured true e = refl
    ensured false e = cc

Present-iff :
    (own others : List (Bytes × Property))
    → (required_present own others ≡ ok tt) ↔ All (Present others) own
unfolding required_present
Present-iff [] others = (λ e. tt, λ h. refl)
Present-iff ((k, p) ∷ own) others =
    let head = required_iff p.rules.required (has k others) in
    let rest = Present-iff own others in
    (
      λ e. let both = >>-eq-ok _ _ e in (head.0 both.0, rest.0 both.1),
      λ h. rw (head.1 h.0) (rest.1 h.1),
    )

objects_iff :
    (type : Schema → Schema → Result (Unit {0})) (o p : Object)
    → (compatible_objects type o p ≡ ok tt) ↔ (
        SameId o p
        × All (Accepted type (object_properties o)) (object_properties p)
        × All (Present (object_properties p)) (object_properties o))
unfolding compatible_objects
objects_iff type o p =
    let own = object_properties o in
    let others = object_properties p in
    let id = id_iff (id_unenforced p) (id_unenforced o) (object_id p) (object_id o) in
    let present = Present-iff own others in
    (
      λ e.
          let first = >>-eq-ok _ _ e in
          let second = >>-eq-ok _ _ first.1 in
          (id.0 first.0, properties-Accepted type own others second.0, present.0 second.1),
      λ h. rw (id.1 h.0) (rw (Accepted-properties type own others h.1) (present.1 h.2)),
    )

-- An object accepts another one exactly where their IDs are the same or one of them is not enforced, each
-- property of the other is one of its own whose type accepts the other's, and the other one has each
-- property that it requires.
pub compatible_objects_iff :
    (fl : Floats) (store : Store) (f : ℕ) (o p : Object)
    → (compatible_schema fl store (suc f) (object_schema o) (object_schema p) ≡ ok tt) ↔ (
        SameId o p
        × All
            (Accepted (λ r s. compatible_schema fl store f r s) (object_properties o))
            (object_properties p)
        × All (Present (object_properties p)) (object_properties o))
unfolding compatible_schema
compatible_objects_iff fl store f o p = objects_iff (λ r s. compatible_schema fl store f r s) o p
