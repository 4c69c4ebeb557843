-- ===== src/Schema/Tree/WellFormed.antt =====
-- When the schema and the objects in the store are fit for use: units parse without a panic, maps have
-- keys that can be compared, every reference and scope has its
-- object (what ValidateReferences and RootObject check), the defaults are decoded JSON, and the
-- references do not lead back to themselves, by a rank that falls along them.
use arcaflow_plugin_sdk_go.Common.{
  ℕ, suc, ◌≤◌, Bytes, List, Option, none, some, ◌≡◌, refl, sym, ap, ◌∙◌, true, lookup, get_elem?,
  arith, Option-cases, inl, inr,
}
use Prim.Native.Nat.{max}
use arcaflow_plugin_sdk_go.Go.Value.{Value, GoType, string_map, slice_type, map_type, comparable}
use arcaflow_plugin_sdk_go.Go.Result.{ok, ok_injective}
use arcaflow_plugin_sdk_go.Schema.Types.{
  Schema, int_schema, float_schema, int_enum, list_schema, map_schema, object_schema, ref_schema,
  scope_schema, one_of_schema, Object, object, Properties, no_properties, property, Choices,
  no_choices, choice, Store, root_object, linked_object, reflected_type, properties,
}
use arcaflow_plugin_sdk_go.Schema.Scalar.Safety.{UnitsSafe}
use arcaflow_plugin_sdk_go.Schema.Sound.{StringKeyed}

abbrev pub target : List (Bytes × ℕ) → Bytes → Option ℕ
target objects root = lookup root objects

abbrev pub rank_of : (ℕ → ℕ) → Option ℕ → ℕ
rank_of rank none = 0
rank_of rank (some a) = rank a

-- The nesting of a schema, where a reference counts for the rank of its object.
unfoldable mutual
  pub depth : (ℕ → ℕ) → Schema → ℕ
  depth rank (list_schema s lo hi) = suc (depth rank s)
  depth rank (map_schema k e lo hi) = suc (max (depth rank k) (depth rank e))
  depth rank (object_schema o) = suc (depth_object rank o)
  depth rank (ref_schema id ns link) = suc (rank_of rank link)
  depth rank (scope_schema objects root) = suc (rank_of rank (lookup root objects))
  depth rank (one_of_schema kt cs d inlined) = suc (depth_choices rank cs)
  depth rank s = 0

  pub depth_object : (ℕ → ℕ) → Object → ℕ
  depth_object rank (object id unenforced ps) = depth_properties rank ps

  pub depth_properties : (ℕ → ℕ) → Properties → ℕ
  depth_properties rank no_properties = 0
  depth_properties rank (property id s r ps) = max (depth rank s) (depth_properties rank ps)

  pub depth_choices : (ℕ → ℕ) → Choices → ℕ
  depth_choices rank no_choices = 0
  depth_choices rank (choice k s cs) = max (depth rank s) (depth_choices rank cs)

abbrev pub DefaultKeyed : Option Value → Type 0
DefaultKeyed none = Unit
DefaultKeyed (some d) = StringKeyed d

module _ (store : Store) where
  unfoldable mutual
    pub Linked : Schema → Type 0
    Linked (int_schema lo hi u) = UnitsSafe u
    Linked (float_schema lo hi u) = UnitsSafe u
    Linked (int_enum vs u) = UnitsSafe u
    Linked (list_schema s lo hi) = Linked s
    -- The type of a map's keys is one that a Go map may have.
    Linked (map_schema k e lo hi) =
        Linked k
        × Linked e
        × ((t : GoType) × (reflected_type store k ≡ ok t) × (comparable t ≡ true))
    Linked (object_schema o) = LinkedObject o
    Linked (ref_schema id ns link) = (o : Object) × (linked_object store link ≡ ok o)
    Linked (scope_schema objects root) = (o : Object) × (root_object store objects root ≡ ok o)
    Linked (one_of_schema kt cs d inlined) = LinkedChoices cs
    Linked _ = Unit

    pub LinkedObject : Object → Type 0
    LinkedObject (object id unenforced ps) = LinkedProperties ps

    -- A Go map has a name once.
    pub LinkedProperties : Properties → Type 0
    LinkedProperties no_properties = Unit
    LinkedProperties (property id s r ps) =
        Linked s
        × DefaultKeyed r.default_value
        × (lookup id (properties ps) ≡ none)
        × LinkedProperties ps

    pub LinkedChoices : Choices → Type 0
    LinkedChoices no_choices = Unit
    LinkedChoices (choice k s cs) = Linked s × LinkedChoices cs

  -- Every object in the store is linked, and its references have a lower rank.
  pub record WellFormed (rank : ℕ → ℕ) : Type 0 where
    pub linked : (a : ℕ) (o : Object) → get_elem? store a ≡ some o → Linked (object_schema o)
    pub ranked :
        (a : ℕ) (o : Object) → get_elem? store a ≡ some o → depth rank (object_schema o) ≤ rank a

  pub linked_object-eq-ok :
      (link : Option ℕ) (o : Object)
      → linked_object store link ≡ ok o
      → (a : ℕ) × (link ≡ some a) × (get_elem? store a ≡ some o)
  unfolding linked_object
  linked_object-eq-ok none o h = cc
  linked_object-eq-ok (some a) o h = (a, refl, ground arith)

  pub root_object-eq-ok :
      (objects : List (Bytes × ℕ)) (root : Bytes) (o : Object)
      → root_object store objects root ≡ ok o
      → (a : ℕ) × (lookup root objects ≡ some a) × (get_elem? store a ≡ some o)
  unfolding root_object
  root_object-eq-ok objects root o h = elim (Option-cases (lookup root objects)) [
    | inl missing ↦ absurd (ground arith)
    | inr (a, found) ↦ (a, found, ground arith)
  ]

  -- ReflectedType does not panic on a linked schema.
  pub reflected_type_total :
      (s : Schema) → Linked s → (t : GoType) × (reflected_type store s ≡ ok t)
  unfolding Linked reflected_type
  reflected_type_total (list_schema s lo hi) h =
      let (t, e) = reflected_type_total s h in (slice_type t, rw e)
  reflected_type_total (map_schema k e lo hi) h =
      let (tk, ek) = reflected_type_total k h.0 in
      let (tv, ev) = reflected_type_total e h.1 in
      let same : h.2.0 ≡ tk = ok_injective (sym h.2.1 ∙ ek) in
      (map_type tk tv, rw (ek, ev, ap comparable (sym same) ∙ h.2.2) refl)
  reflected_type_total (ref_schema id ns link) h = (string_map, rw h.1)
  reflected_type_total (scope_schema objects root) h = (string_map, rw h.1)
  reflected_type_total _ h = (_, refl)
