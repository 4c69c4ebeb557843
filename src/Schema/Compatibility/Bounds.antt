-- ===== src/Schema/Compatibility/Bounds.antt =====
-- When the bounds of two schemas are compatible.
use arcaflow_plugin_sdk_go.Common.{
  ℕ, ℤ, ◌≤ℤ◌, ltb_ℤ, Bool, true, false, ◌||◌, Bytes, sym, ap, ◌∙◌, Option, none, some, ◌≡◌, ◌↔◌,
  inl, inr, refl, Bool-cases, arith,
}
use arcaflow_plugin_sdk_go.Go.Result.{ok, panic}
use arcaflow_plugin_sdk_go.Go.Convert.{Floats}
use arcaflow_plugin_sdk_go.Schema.Types.{int_schema, string_schema, float_schema, UnitsParser}
use arcaflow_plugin_sdk_go.Schema.Compatibility.{
  exclusive, compatible_int_schema, compatible_string_schema, compatible_float_schema,
  refuse_exclusive,
}

-- A number within the bounds of both.
abbrev pub InBoth : (lo hi a b : ℤ) → Type 0
InBoth lo hi a b = (z : ℤ) × (lo ≤ℤ z) × (z ≤ℤ hi) × (a ≤ℤ z) × (z ≤ℤ b)

not_below : (a b : ℤ) → ltb_ℤ a b ≡ false → b ≤ℤ a
not_below a b h = ground arith

less_le : (a b : ℤ) → ltb_ℤ a b ≡ true → a ≤ℤ b
less_le a b h = ground arith

no_common : (lo hi a b : ℤ) → InBoth lo hi a b → (ltb_ℤ hi a ≡ false) × (ltb_ℤ b lo ≡ false)
no_common lo hi a b (z, lower, upper, other_lower, other_upper) =
    (le_not_less a z hi other_lower upper, le_not_less lo z b lower other_upper)
  where
    le_not_less : (x y w : ℤ) → x ≤ℤ y → y ≤ℤ w → ltb_ℤ w x ≡ false
    le_not_less x y w h g = ground arith

overlap :
    (lo hi a b : ℤ) → lo ≤ℤ hi → a ≤ℤ b → ltb_ℤ hi a ≡ false → ltb_ℤ b lo ≡ false → InBoth lo hi a b
overlap lo hi a b h g below over = elim (Bool-cases (ltb_ℤ lo a)) [
  | inl less ↦ (a, less_le lo a less, not_below hi a below, omega arith, g)
  | inr more ↦ (lo, omega arith, h, not_below lo a more, not_below b lo over)
]

-- The condition of the source, where all bounds are set.
exclusive-set :
    (lo hi a b : ℤ)
    → exclusive ltb_ℤ (some lo) (some hi) (some a) (some b) ≡ ok (ltb_ℤ hi a || ltb_ℤ b lo)
unfolding exclusive
exclusive-set lo hi a b = elim (Bool-cases (ltb_ℤ hi a)) [
  | inl above ↦ rw above refl
  | inr below ↦ rw below refl
]

refused-eq-ok : (b : Bool) → refuse_exclusive (ok b) ≡ ok tt → b ≡ false
refused-eq-ok true h = cc
refused-eq-ok false h = refl

or_false : (a b : Bool) → (a || b) ≡ false → (a ≡ false) × (b ≡ false)
or_false a b h = ground arith

bounds_iff :
    (lo hi a b : ℤ)
    → lo ≤ℤ hi
    → a ≤ℤ b
    → (refuse_exclusive (exclusive ltb_ℤ (some lo) (some hi) (some a) (some b)) ≡ ok tt)
      ↔ InBoth lo hi a b
bounds_iff lo hi a b h g = (
  λ e.
      let neither = or_false (ltb_ℤ hi a) (ltb_ℤ b lo) (
        refused-eq-ok (ltb_ℤ hi a || ltb_ℤ b lo)
          (sym (ap refuse_exclusive (exclusive-set lo hi a b)) ∙ e)) in
      overlap lo hi a b h g neither.0 neither.1,
  λ c.
      let neither = no_common lo hi a b c in
      ap refuse_exclusive (exclusive-set lo hi a b) ∙ rw (neither.0, neither.1) refl,
)

-- Two integer schemas, or two string schemas, with all bounds set, the lower ones not above the upper
-- ones, are compatible exactly where a number, or a length, is within the bounds of both.
compatible_bounds_iff :
    (lo hi a b : ℤ) (u : Option UnitsParser) (p : Option (Bytes → Bool))
    → lo ≤ℤ hi
    → a ≤ℤ b
    → ((compatible_int_schema (some lo) (some hi) (int_schema (some a) (some b) u) ≡ ok tt)
        ↔ InBoth lo hi a b)
      × ((compatible_string_schema (some lo) (some hi) (string_schema (some a) (some b) p) ≡ ok tt)
          ↔ InBoth lo hi a b)
unfolding compatible_int_schema compatible_string_schema
compatible_bounds_iff lo hi a b u p h g = (bounds_iff lo hi a b h g, bounds_iff lo hi a b h g)

-- A nil bound is read where a schema sets only a lower bound, and the other one only an upper bound:
-- the comparison of two integer schemas, of two string schemas and of two float schemas
-- panics, whichever of them is the receiver.
pub half_bounded-panics :
    (fl : Floats) (a b : ℤ) (x y : ℕ) (u : Option UnitsParser) (p : Option (Bytes → Bool))
    → (compatible_int_schema (some a) none (int_schema none (some b) u) ≡ panic)
      × (compatible_int_schema none (some b) (int_schema (some a) none u) ≡ panic)
      × (compatible_string_schema (some a) none (string_schema none (some b) p) ≡ panic)
      × (compatible_string_schema none (some b) (string_schema (some a) none p) ≡ panic)
      × (compatible_float_schema fl (some x) none (float_schema none (some y) u) ≡ panic)
      × (compatible_float_schema fl none (some y) (float_schema (some x) none u) ≡ panic)
unfolding compatible_int_schema compatible_string_schema compatible_float_schema exclusive
half_bounded-panics fl a b x y u p = (refl, refl, refl, refl, refl, refl)
