-- ===== src/Schema/Compatibility/Enums.antt =====
-- schema/enum.go: ValidateCompatibility of an enum with another enum. The map of valid values is an
-- association list from the values to the names of their displays, where they have one.
use arcaflow_plugin_sdk_go.Common.{
  ℤ, eqb_ℤ, Bytes, str_eq, Bool, List, [], ◌∷◌, Option, none, some, if◌then◌else◌,
}
use arcaflow_plugin_sdk_go.Go.Result.{Result, ok, err, constraint, plain, incompatible}
use arcaflow_plugin_sdk_go.Go.Convert.{encode_rune}
use arcaflow_plugin_sdk_go.Schema.Types.{Schema, int_enum, string_enum}

abbrev pub EnumValues : Type 0 → Type 0
EnumValues A = List (A × Option Bytes)

-- `e.ValidValuesMap[key]`
unfoldable pub find_display :
    {A : Type 0} → (A → A → Bool) → A → EnumValues A → Option (Option Bytes)
find_display same a [] = none
find_display same a ((b, display) ∷ vs) = if same b a then some display else find_display same a vs

-- The switch over the two display names. It returns where neither is set, and the loop goes on to the
-- rest only where they are equal.
unfoldable pub compare_displays : (own other : Option Bytes) → Result (Unit {0}) → Result (Unit {0})
compare_displays none none rest = ok tt
compare_displays (some s) none rest = err (constraint incompatible [])
compare_displays none (some t) rest = err (constraint incompatible [])
compare_displays (some s) (some t) rest =
    if str_eq s t then rest else err (constraint incompatible [])

-- The loop over the other enum's values; `convert` is the conversion to the type of the own ones.
unfoldable pub compare_values :
    {A B : Type 0}
    → (A → A → Bool)
    → (B → Option A)
    → EnumValues A
    → EnumValues B
    → Result (Unit {0})
unfolding find_display compare_displays
compare_values same convert own [] = ok tt
compare_values same convert own ((b, display) ∷ others) =
    let rest = compare_values same convert own others in
    elim (convert b) [
      | none ↦ err plain
      | some a ↦ elim (find_display same a own) [
        | none ↦ err (constraint incompatible [])
        | some own_display ↦ compare_displays own_display display rest
      ]
    ]

abbrev pub same_int : ℤ → ℤ → Bool
same_int a b = eqb_ℤ a b

abbrev pub same_string : Bytes → Bytes → Bool
same_string s t = str_eq s t

-- EnumSchema.ValidateCompatibility of a schema, at both types of values. What is no enum is validated
-- as data, with the outcome `validated`.
unfoldable pub compatible_int_enum :
    EnumValues ℤ → (validated : Result (Unit {0})) → Schema → Result (Unit {0})
unfolding compare_values
compatible_int_enum own validated (int_enum vs u) = compare_values same_int (λ z. some z) own vs
compatible_int_enum own validated (string_enum vs) = compare_values same_int (λ s. none) own vs
compatible_int_enum own validated s = validated

unfoldable pub compatible_string_enum :
    EnumValues Bytes → (validated : Result (Unit {0})) → Schema → Result (Unit {0})
unfolding compare_values encode_rune
compatible_string_enum own validated (string_enum vs) =
    compare_values same_string (λ s. some s) own vs
compatible_string_enum own validated (int_enum vs u) =
    compare_values same_string (λ z. some (encode_rune z)) own vs
compatible_string_enum own validated s = validated
