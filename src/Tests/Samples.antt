-- ===== src/Tests/Samples.antt =====
-- Sample data for the tests: floats on which the arithmetic is that of natural numbers, and a scope.
use arcaflow_plugin_sdk_go.Common.{
  some_injective, ℕ, zero, suc, ◌+◌, ◌-◌, ◌*◌, ◌/◌, ◌≤◌, pos, pos_part, Bytes, codes, ltb, ◌==◌,
  Bool, true, false, List, [], ◌∷◌, none, some, ◌≡◌, refl, lookup, str_eq, get_elem?, subst, arith,
}
use arcaflow_plugin_sdk_go.Go.Text.{format_nat}
use arcaflow_plugin_sdk_go.Go.Convert.{Floats}
use arcaflow_plugin_sdk_go.Go.Value.{Value, str, slice, any_type, of_fields, of_items}
use arcaflow_plugin_sdk_go.Schema.Types.{
  Schema, int_schema, string_schema, list_schema, scope_schema, object_schema, Object, object,
  property, no_properties, Rules, Store,
}
use arcaflow_plugin_sdk_go.Schema.Tree.WellFormed.{WellFormed, Linked, depth}

abbrev pub floats : Floats
floats = record {
  of_int = λ z. pos_part z;
  to_int = λ x. pos x;
  eq = λ x y. x == y;
  lt = λ x y. ltb x y;
  add = λ x y. x + y;
  sub = λ x y. x - y;
  mul = λ x y. x * y;
  div = λ x y. x / y;
  floor = λ x. x;
  of_int32 = λ z. pos_part z;
  to_int32 = λ x. pos x;
  widen = λ x. x;
  format = λ x. format_nat x;
  format32 = λ x. format_nat x;
  parse = λ s. none;
}

abbrev pub rules : Bool → List Bytes → Rules
rules required conflicts = record {
  required = required;
  required_if = [];
  required_if_not = [];
  conflicts = conflicts;
  default_value = none;
  disabled = false;
}

-- An object with a required integer of at least 1 and a list of strings.
abbrev pub node : Object
node = object (codes "node") false (
    property (codes "size") (int_schema (some (pos 1)) none none) (rules true []) (
      property (codes "tags") (list_schema (string_schema none none none) none none)
        (rules false []) no_properties))

abbrev pub nodes : Store
nodes = node ∷ []

abbrev pub node_scope : Schema
node_scope = scope_schema ((codes "node", 0) ∷ []) (codes "node")

abbrev pub node_data : Value
node_data = of_fields (
    (codes "size", str (codes "3"))
    ∷ (codes "tags", slice any_type (of_items (str (codes "a") ∷ [])))
    ∷ [])

abbrev pub node_rank : ℕ → ℕ
node_rank a = 2

node-Linked : Linked nodes (object_schema node)
unfolding Linked lookup str_eq
node-Linked = (tt, tt, refl, (tt, tt, refl, tt))

Linked-at : (a : ℕ) (o : Object) → get_elem? nodes a ≡ some o → Linked nodes (object_schema o)
Linked-at zero o e = subst (λ x. Linked nodes (object_schema x)) (some_injective e) node-Linked
Linked-at (suc a) o e = absurd (cc)

node-depth : depth node_rank (object_schema node) ≤ 2
unfolding depth
node-depth = omega arith

ranked_at :
    (a : ℕ) (o : Object)
    → get_elem? nodes a ≡ some o
    → depth node_rank (object_schema o) ≤ node_rank a
ranked_at zero o e =
    subst (λ x. depth node_rank (object_schema x) ≤ 2) (some_injective e) node-depth
ranked_at (suc a) o e = absurd (cc)

pub nodes-WellFormed : WellFormed nodes node_rank
nodes-WellFormed = record { linked = Linked-at; ranked = ranked_at }
