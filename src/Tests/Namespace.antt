-- ===== src/Tests/Namespace.antt =====
-- The linking of a scope's references.
use arcaflow_plugin_sdk_go.Common.{
  ℕ, Bytes, ◌++◌, zero, suc, codes, false, [], ◌∷◌, All, none, some, lookup, str_eq, ◌≡◌, refl, inl,
  some_injective, subst, if◌then◌else◌,
}
use arcaflow_plugin_sdk_go.Go.Result.{ok, err, bad_argument}
use arcaflow_plugin_sdk_go.Schema.Types.{ref_schema, Object, object, property, no_properties, Store}
use arcaflow_plugin_sdk_go.Schema.Namespace.{
  apply_scope, validate_scope, Objects, self_namespace, link_ref,
}
use arcaflow_plugin_sdk_go.Schema.Namespace.Linking.{Resolvable, ResolvableObject}
use arcaflow_plugin_sdk_go.Schema.Namespace.Scope.{AllResolvable, validate_scope-apply_scope}
use arcaflow_plugin_sdk_go.Schema.Namespace.Success.{Stored, Offered, apply_scope-succeeds}
use arcaflow_plugin_sdk_go.Step.Schemas.{ScopeSchema, StepSchema, apply_namespace, apply_outputs}
use arcaflow_plugin_sdk_go.Step.Linked.{ValidStep, apply_namespace-ValidStep}
use arcaflow_plugin_sdk_go.Tests.Samples.{rules}

-- An object of a scope that refers to itself, before the scope's namespace is applied.
abbrev pub loose : Object
loose =
    object (codes "tree") false
      (property (codes "next") (ref_schema (codes "tree") [] none) (rules false []) no_properties)

abbrev pub loose_store : Store
loose_store = loose ∷ []

abbrev pub tree_objects : Objects
tree_objects = (codes "tree", 0) ∷ []

abbrev pub tied_store : Store
tied_store =
    object (codes "tree") false (
      property (codes "next") (ref_schema (codes "tree") [] (some 0)) (rules false [])
        no_properties)
    ∷ []

loose_invalid : validate_scope 1 loose_store tree_objects ≡ err bad_argument
unfolding validate_scope
loose_invalid = refl

tied : apply_scope 1 [] [] loose_store tree_objects ≡ ok tied_store
unfolding apply_scope link_ref lookup str_eq
tied = refl

pub loose-Resolvable : AllResolvable [] loose_store
unfolding Resolvable str_eq
loose-Resolvable zero o e = subst (ResolvableObject []) (some_injective e) (inl refl, tt)
loose-Resolvable (suc a) o e = absurd (cc)

validate_scope-apply_scope_example : validate_scope 1 tied_store tree_objects ≡ ok tt
validate_scope-apply_scope_example =
    validate_scope-apply_scope 0 0 [] [] tree_objects loose_store tied_store tied loose-Resolvable

loose-Stored : Stored tree_objects [] loose_store 0
unfolding Offered lookup str_eq
loose-Stored = (loose, refl, (λ e. (0, refl), tt))

self-Stored :
    All
      (λ e. Stored (if str_eq [] self_namespace then tree_objects else []) [] loose_store e.1)
      tree_objects
unfolding str_eq
self-Stored = (loose-Stored, tt)

apply_scope-succeeds_example :
    (st : Store) × (apply_scope 1 [] [] loose_store tree_objects ≡ ok st)
    × (validate_scope 1 st tree_objects ≡ ok tt)
apply_scope-succeeds_example =
    apply_scope-succeeds 0 0 [] [] tree_objects loose_store self-Stored loose-Resolvable

-- A step whose input and output are the first of two objects, and with a signal whose data is the second one.
abbrev tree_scope : ℕ → ScopeSchema
tree_scope a = record { objects = (codes "tree", a) ∷ []; root = codes "tree" }

abbrev tree_step : StepSchema
tree_step = record {
  id = codes "grow";
  input = tree_scope 0;
  outputs = (codes "grown", record { schema = tree_scope 0; error = false }) ∷ [];
  signal_handlers = (codes "cut", record { id = codes "cut"; data_schema = tree_scope 1 }) ∷ [];
  signal_emitters = [];
}

abbrev two_loose : Store
two_loose = loose ∷ loose ∷ []

abbrev one_tied : Store
one_tied = tied_store ++ loose_store

schema_linked : apply_namespace 1 ((codes "grow", tree_step) ∷ []) two_loose ≡ ok one_tied
unfolding apply_namespace apply_outputs apply_scope link_ref lookup str_eq
schema_linked = refl

-- The signal's data is not linked.
signal_left_loose : validate_scope 1 one_tied (tree_scope 1).objects ≡ err bad_argument
unfolding validate_scope
signal_left_loose = refl

two_loose-Resolvable : AllResolvable self_namespace two_loose
unfolding Resolvable str_eq
two_loose-Resolvable zero o e =
    subst (ResolvableObject self_namespace) (some_injective e) (inl refl, tt)
two_loose-Resolvable (suc zero) o e =
    subst (ResolvableObject self_namespace) (some_injective e) (inl refl, tt)
two_loose-Resolvable (suc (suc a)) o e = absurd (cc)

apply_namespace-ValidStep_example :
    All (λ (s : Bytes × StepSchema). ValidStep 1 one_tied s.1) ((codes "grow", tree_step) ∷ [])
apply_namespace-ValidStep_example =
    apply_namespace-ValidStep 0 0 ((codes "grow", tree_step) ∷ []) two_loose one_tied schema_linked
      two_loose-Resolvable
