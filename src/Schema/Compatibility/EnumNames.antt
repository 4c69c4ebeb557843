-- ===== src/Schema/Compatibility/EnumNames.antt =====
-- schema/enum.go: which enums ValidateCompatibility of an enum accepts.
use arcaflow_plugin_sdk_go.Common.{
  ℤ, Bytes, str_eq_iff, Bool, [], ◌∷◌, Option, none, some, ◌≡◌, ◌↔◌, refl, arith,
}
use arcaflow_plugin_sdk_go.Go.Result.{Result, ok, err, constraint, incompatible}
use arcaflow_plugin_sdk_go.Schema.Types.{int_enum, string_enum, UnitsParser}
use arcaflow_plugin_sdk_go.Schema.Compatibility.Enums.{
  EnumValues, find_display, compare_displays, compare_values, same_int, same_string,
  compatible_int_enum, compatible_string_enum,
}

-- Up to the first value that has no display name, and with it, each one is known under the same name.
abbrev pub KnownUpToUnnamed : {A : Type 0} → (A → A → Bool) → (own vs : EnumValues A) → Type 0
KnownUpToUnnamed same own [] = Unit
KnownUpToUnnamed same own ((a, none) ∷ vs) = find_display same a own ≡ some none
KnownUpToUnnamed same own ((a, some t) ∷ vs) =
    (find_display same a own ≡ some (some t)) × KnownUpToUnnamed same own vs

-- The value of the loop's head.
head_unnamed :
    (found : Option (Option Bytes)) (rest : Result (Unit {0}))
    → (elim found [
      | none ↦ err (constraint incompatible [])
      | some own ↦ compare_displays own none rest
    ]
        ≡ ok tt)
      ↔ (found ≡ some none)
unfolding compare_displays
head_unnamed none rest = ground arith
head_unnamed (some none) rest = ground arith
head_unnamed (some (some s)) rest = ground arith

head_named :
    (found : Option (Option Bytes)) (t : Bytes) (rest : Result (Unit {0}))
    → (elim found [
      | none ↦ err (constraint incompatible [])
      | some own ↦ compare_displays own (some t) rest
    ]
        ≡ ok tt)
      ↔ ((found ≡ some (some t)) × (rest ≡ ok tt))
unfolding compare_displays
head_named none t rest = ground arith
head_named (some none) t rest = ground arith
head_named (some (some s)) t rest = ground (arith, str_eq_iff s t)

values_iff :
    {A : Type 0} (same : A → A → Bool) (own vs : EnumValues A)
    → (compare_values same (λ a. some a) own vs ≡ ok tt) ↔ KnownUpToUnnamed same own vs
unfolding compare_values
values_iff same own [] = (λ e. tt, λ h. refl)
values_iff same own ((a, none) ∷ vs) = head_unnamed (find_display same a own) _
values_iff same own ((a, some t) ∷ vs) =
    let head = head_named (find_display same a own) t (compare_values same (λ a. some a) own vs) in
    let rest = values_iff same own vs in
    (λ e. let both = head.0 e in (both.0, rest.0 both.1), λ h. head.1 (h.0, rest.1 h.1))

-- An enum accepts another one of the same kind of values exactly where each value, in the order in which the
-- other's map is met, up to the first one without a display name and with it, is known to the enum
-- under the same name. The values behind that one are not looked at.
pub compatible_enum_iff :
    (own vs : EnumValues ℤ) (own_texts texts : EnumValues Bytes) (u : Option UnitsParser)
    (validated : Result (Unit {0}))
    → ((compatible_int_enum own validated (int_enum vs u) ≡ ok tt)
        ↔ KnownUpToUnnamed same_int own vs)
      × ((compatible_string_enum own_texts validated (string_enum texts) ≡ ok tt)
          ↔ KnownUpToUnnamed same_string own_texts texts)
unfolding compatible_int_enum compatible_string_enum
compatible_enum_iff own vs own_texts texts u validated =
    (values_iff same_int own vs, values_iff same_string own_texts texts)
