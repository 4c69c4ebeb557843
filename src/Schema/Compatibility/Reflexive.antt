-- ===== src/Schema/Compatibility/Reflexive.antt =====
-- A schema is compatible with itself.
use arcaflow_plugin_sdk_go.Common.{
  ℕ, zero, suc, ◌≤◌, ◌<◌, ltb_ℤ, Bytes, str_eq_refl, Bool, true, false, not, ◌&&◌, ◌||◌, List, [],
  ◌∷◌, Option, none, some, lookup, get_elem?, ◌≡◌, refl, ap, arith,
}
use arcaflow_plugin_sdk_go.Go.Result.{Result, ok, ◌>>◌, ensure, under, name, required, incompatible}
use arcaflow_plugin_sdk_go.Go.Convert.{Floats}
use arcaflow_plugin_sdk_go.Schema.Types.{
  Schema, int_schema, float_schema, string_schema, bool_schema, pattern_schema, int_enum,
  string_enum, list_schema, map_schema, any_schema, object_schema, ref_schema, scope_schema,
  one_of_schema, KeyType, int_keys, string_keys, Key, Property, Object, object, Properties,
  no_properties, property, Choices, no_choices, choice, Store, choices, properties, root_object,
  linked_object,
}
use arcaflow_plugin_sdk_go.Schema.OneOf.{find_type}
use arcaflow_plugin_sdk_go.Schema.Any.{wrapped}
use arcaflow_plugin_sdk_go.Schema.Tree.WellFormed.{
  depth, rank_of, depth_object, depth_properties, depth_choices, linked_object-eq-ok,
  root_object-eq-ok,
}
use arcaflow_plugin_sdk_go.Schema.Compatibility.{exclusive, refuse_exclusive}
use arcaflow_plugin_sdk_go.Schema.Compatibility.Enums.{
  EnumValues, find_display, compare_displays, compare_values, same_int, same_string,
}
use arcaflow_plugin_sdk_go.Schema.Compatibility.Whole.{
  compare_properties, required_present, compatible_objects, same_key_type, compare_choices,
  own_root, compatible_schema, handed_on,
}

-- A lower bound is not above the upper one.
abbrev pub Ordered {ℓ} : {A : Type ℓ} → (A → A → Bool) → (lo hi : Option A) → Type 0
Ordered less (some lo) (some hi) = less hi lo ≡ false
Ordered less lo hi = Unit

-- A map holds each of its values under its key.
abbrev pub Displayed : {A : Type 0} → (A → A → Bool) → (own vs : EnumValues A) → Type 0
Displayed same own [] = Unit
Displayed same own ((a, display) ∷ vs) =
    (find_display same a own ≡ some display) × Displayed same own vs

exclusive_self {ℓ} :
    {A : Type ℓ} (less : A → A → Bool) (lo hi : Option A)
    → Ordered less lo hi
    → refuse_exclusive (exclusive less lo hi lo hi) ≡ ok tt
unfolding exclusive
exclusive_self less none none h = refl
exclusive_self less none (some hi) h = refl
exclusive_self less (some lo) none h = refl
exclusive_self less (some lo) (some hi) h = rw h refl

displays_self :
    (display : Option Bytes) (rest : Result (Unit {0}))
    → rest ≡ ok tt
    → compare_displays display display rest ≡ ok tt
unfolding compare_displays
displays_self none rest h = refl
displays_self (some s) rest h = rw (str_eq_refl s) h

values_self :
    {A : Type 0} (same : A → A → Bool) (own vs : EnumValues A)
    → Displayed same own vs
    → compare_values same (λ a. some a) own vs ≡ ok tt
unfolding compare_values
values_self same own [] h = refl
values_self same own ((a, display) ∷ vs) h =
    rw (h.0, compare_values) (displays_self display _ (values_self same own vs h.1))

after : {check rest : Result (Unit {0})} → check ≡ ok tt → rest ≡ ok tt → (check >> rest) ≡ ok tt
after h k = rw h k

present : (b : Bool) → ensure (not (b && not true)) required ≡ ok tt
present true = refl
present false = refl

same_id : (b : Bool) → ensure (b || b || true) incompatible ≡ ok tt
same_id true = refl
same_id false = refl

under_self : (k : Bytes) {m : Result (Unit {0})} → m ≡ ok tt → under (name k) m ≡ ok tt
under_self k h = rw h refl

wrapped_self : {m : Result (Unit {0})} → m ≡ ok tt → wrapped m ≡ ok tt
wrapped_self h = rw h refl

le_of_rank : {d r t f : ℕ} → d ≤ r → t ≡ r → suc t < suc f → d < f
le_of_rank h e l = omega arith

module _ (fl : Floats) (store : Store) where
  -- The bounds are in order, maps hold their values under their keys, and references and scopes have their
  -- objects.
  unfoldable mutual
    pub Comparable : Schema → Type 0
    Comparable (int_schema lo hi u) = Ordered ltb_ℤ lo hi
    Comparable (float_schema lo hi u) = Ordered fl.lt lo hi
    Comparable (string_schema lo hi p) = Ordered ltb_ℤ lo hi
    Comparable (int_enum vs u) = Displayed same_int vs vs
    Comparable (string_enum vs) = Displayed same_string vs vs
    Comparable (list_schema s lo hi) = Comparable s
    Comparable (map_schema k e lo hi) = Comparable k × Comparable e × Ordered ltb_ℤ lo hi
    Comparable (object_schema o) = ComparableObject o
    Comparable (ref_schema id ns link) = (o : Object) × (linked_object store link ≡ ok o)
    Comparable (scope_schema objects root) = (o : Object) × (root_object store objects root ≡ ok o)
    Comparable (one_of_schema kt cs d inlined) = ComparableChoices (choices cs) cs
    Comparable s = Unit

    pub ComparableObject : Object → Type 0
    ComparableObject (object id unenforced ps) = ComparableProperties (properties ps) ps

    pub ComparableProperties : List (Bytes × Property) → Properties → Type 0
    ComparableProperties own no_properties = Unit
    ComparableProperties own (property id s r ps) =
        Comparable s
        × (lookup id own ≡ some (record { type = s; rules = r }))
        × ComparableProperties own ps

    pub ComparableChoices : List (Key × Schema) → Choices → Type 0
    ComparableChoices own no_choices = Unit
    ComparableChoices own (choice k s cs) =
        Comparable s × (find_type k own ≡ some s) × ComparableChoices own cs

  -- The objects in the store are comparable, and references fall in rank.
  pub record ComparableStore (rank : ℕ → ℕ) : Type 0 where
    pub comparable : (a : ℕ) (o : Object) → get_elem? store a ≡ some o → ComparableObject o
    pub ranked :
        (a : ℕ) (o : Object) → get_elem? store a ≡ some o → depth rank (object_schema o) ≤ rank a

  required_self :
      (own : List (Bytes × Property)) (ps : Properties)
      → ComparableProperties own ps
      → required_present (properties ps) own ≡ ok tt
  unfolding required_present ComparableProperties
  required_self own no_properties h = refl
  required_self own (property id s r ps) h =
      rw (h.1) (after (present r.required) (required_self own ps h.2))

  same_key_type_refl : (kt : KeyType) → same_key_type kt kt ≡ true
  unfolding same_key_type
  same_key_type_refl int_keys = refl
  same_key_type_refl string_keys = refl

  own_root_lem :
      (objects : List (Bytes × ℕ)) (root : Bytes) (o : Object)
      → root_object store objects root ≡ ok o
      → own_root store objects root ≡ ok o
  unfolding own_root
  own_root_lem objects root o h =
      let (a, found, stored) = root_object-eq-ok store objects root o h in
      rw (found, own_root) (rw stored refl)

  -- The loops over properties and choices, where the operation accepts what is below the fuel.
  module _ (rank : ℕ → ℕ) (f : ℕ)
      (accepts : (s : Schema)
        → Comparable s
        → depth rank s < f
        → compatible_schema fl store f s s ≡ ok tt) where
    properties_self :
        (own : List (Bytes × Property)) (ps : Properties)
        → ComparableProperties own ps
        → depth_properties rank ps < f
        → compare_properties (λ r s. compatible_schema fl store f r s) own (properties ps) ≡ ok tt
    unfolding compare_properties ComparableProperties depth_properties
    properties_self own no_properties h l = refl
    properties_self own (property id s r ps) h l =
        rw (h.1, compare_properties)
          (after (under_self id (accepts s h.0 (omega arith)))
            (properties_self own ps h.2 (omega arith)))

    choices_self :
        (own : List (Key × Schema)) (cs : Choices)
        → ComparableChoices own cs
        → depth_choices rank cs < f
        → compare_choices (λ r s. compatible_schema fl store f r s) (choices cs) own ≡ ok tt
    unfolding compare_choices ComparableChoices depth_choices
    choices_self own no_choices h l = refl
    choices_self own (choice k s cs) h l =
        rw (h.1, compare_choices)
          (after (wrapped_self (accepts s h.0 (omega arith)))
            (choices_self own cs h.2 (omega arith)))

    objects_self :
        (o : Object)
        → ComparableObject o
        → depth_object rank o < f
        → compatible_objects (λ r s. compatible_schema fl store f r s) o o ≡ ok tt
    unfolding compatible_objects ComparableObject depth_object
    objects_self (object id unenforced ps) h l = rw (str_eq_refl id) (
        after (same_id unenforced)
          (after (properties_self (properties ps) ps h l) (required_self (properties ps) ps h)))

  ref_self :
      (id ns : Bytes) (link : Option ℕ) (o : Object)
      → linked_object store link ≡ ok o
      → handed_on store (ref_schema id ns link) (ref_schema id ns link)
        ≡ ok (some (object_schema o))
  unfolding linked_object
  ref_self id ns none o h = cc
  ref_self id ns (some a) o h = rw h refl

  module _ (rank : ℕ → ℕ) (w : ComparableStore rank) where
    -- A schema whose bounds are in order, whose maps hold their values under their keys and whose references and
    -- scopes have their objects is compatible with itself, and ValidateCompatibility returns within fuel above
    -- its depth, where the objects in the store are so too and their references fall in rank.
    pub compatible_schema_self :
        (f : ℕ) (s : Schema)
        → Comparable s
        → depth rank s < f
        → compatible_schema fl store f s s ≡ ok tt
    unfolding compatible_schema Comparable depth
    compatible_schema_self zero s h l = absurd (omega arith)
    compatible_schema_self (suc f) (int_schema lo hi u) h l = exclusive_self ltb_ℤ lo hi h
    compatible_schema_self (suc f) (float_schema lo hi u) h l = exclusive_self fl.lt lo hi h
    compatible_schema_self (suc f) (string_schema lo hi p) h l = exclusive_self ltb_ℤ lo hi h
    compatible_schema_self (suc f) bool_schema h l = refl
    compatible_schema_self (suc f) (pattern_schema compiles) h l = refl
    compatible_schema_self (suc f) (int_enum vs u) h l = values_self same_int vs vs h
    compatible_schema_self (suc f) (string_enum vs) h l = values_self same_string vs vs h
    compatible_schema_self (suc f) (list_schema s lo hi) h l =
        compatible_schema_self f s h (omega arith)
    compatible_schema_self (suc f) (map_schema k e lo hi) h l =
        after (wrapped_self (compatible_schema_self f k h.0 (omega arith))) (
          after (wrapped_self (compatible_schema_self f e h.1 (omega arith)))
            (exclusive_self ltb_ℤ lo hi h.2))
    compatible_schema_self (suc f) any_schema h l = refl
    compatible_schema_self (suc f) (object_schema o) h l =
        objects_self rank f (λ s c d. compatible_schema_self f s c d) o h (omega arith)
    compatible_schema_self (suc f) (ref_schema id ns link) h l =
        let (a, linked, stored) = linked_object-eq-ok store link h.0 h.1 in
        let below : depth rank (object_schema h.0) < f =
          le_of_rank (w.ranked a h.0 stored) (ap (rank_of rank) linked) l in
        rw (h.1) (
          rw (ref_self id ns link h.0 h.1)
            (compatible_schema_self f (object_schema h.0) (w.comparable a h.0 stored) below))
    compatible_schema_self (suc f) (scope_schema objects root) h l =
        let (a, found, stored) = root_object-eq-ok store objects root h.0 h.1 in
        let below : depth rank (object_schema h.0) < f =
          le_of_rank (w.ranked a h.0 stored) (ap (rank_of rank) found) l in
        rw (h.1) (
          rw (own_root_lem objects root h.0 h.1)
            (compatible_schema_self f (object_schema h.0) (w.comparable a h.0 stored) below))
    compatible_schema_self (suc f) (one_of_schema kt cs d inlined) h l =
        rw (same_key_type_refl kt, str_eq_refl d)
          (choices_self rank f (λ s c d. compatible_schema_self f s c d) (choices cs) cs h
            (omega arith))
