-- ===== src/Schema/Describe/Objects.antt =====
-- schema/schema_schema.go: basicObjects and scopeObject, which describe the schema types. The structs to which
-- the objects are tied, the displays and the examples are left out.
use arcaflow_plugin_sdk_go.Common.{pos, Bytes, codes, Bool, true, false, none, some}
use arcaflow_plugin_sdk_go.Go.Value.{bool, str}
use arcaflow_plugin_sdk_go.Schema.Types.{
  int_schema, float_schema, string_schema, bool_schema, pattern_schema, list_schema, map_schema,
  one_of_schema, string_keys, string_key, choice, no_choices, UnitsParser, Object, object, property,
  no_properties,
}
use arcaflow_plugin_sdk_go.Schema.Namespace.{self_namespace}
use arcaflow_plugin_sdk_go.Schema.Describe.Types.{
  new_ref_schema, rules, optional, mandatory, id_type, units_type, display_type, map_key_type,
  value_type,
}

abbrev pub bool_schema_object : Object
bool_schema_object = object (codes "BoolSchema") false no_properties

abbrev pub any_schema_object : Object
any_schema_object = object (codes "AnySchema") false no_properties

abbrev pub display_object : Object
display_object = object (codes "Display") false (
    property (codes "name") (string_schema (some (pos 1)) none none) optional (
      property (codes "description") (string_schema (some (pos 1)) none none) optional
        (property (codes "icon") (string_schema (some (pos 1)) none none) optional no_properties)))

abbrev pub float_object : Object
float_object = object (codes "Float") false (
    property (codes "min") (float_schema none none none) optional (
      property (codes "max") (float_schema none none none) optional
        (property (codes "units") units_type optional no_properties)))

abbrev pub int_enum_object : Object
int_enum_object = object (codes "IntEnum") false (
    property (codes "values")
      (map_schema (int_schema none none none) (new_ref_schema (codes "Display")) (some (pos 1))
        none)
      mandatory (property (codes "units") units_type optional no_properties))

abbrev pub int_object : Object
int_object = object (codes "Int") false (
    property (codes "min") (int_schema (some (pos 0)) none none) optional (
      property (codes "max") (int_schema (some (pos 0)) none none) optional
        (property (codes "units") units_type optional no_properties)))

abbrev pub list_object : Object
list_object = object (codes "List") false (
    property (codes "items") value_type mandatory (
      property (codes "min") (int_schema (some (pos 0)) none none) optional
        (property (codes "max") (int_schema (some (pos 0)) none none) optional no_properties)))

abbrev pub map_object : Object
map_object = object (codes "Map") false (
    property (codes "keys") map_key_type mandatory (
      property (codes "values") value_type mandatory (
        property (codes "min") (int_schema (some (pos 0)) none none) optional
          (property (codes "max") (int_schema (some (pos 0)) none none) optional no_properties))))

abbrev pub object_object : Object
object_object = object (codes "Object") false (
    property (codes "id") id_type mandatory (
      property (codes "properties")
        (map_schema (string_schema (some (pos 1)) none none) (new_ref_schema (codes "Property"))
          none none)
        mandatory
        (property (codes "id_unenforced") bool_schema (rules false (some (bool false)))
          no_properties)))

abbrev pub one_of_int_schema_object : Object
one_of_int_schema_object = object (codes "OneOfIntSchema") false (
    property (codes "discriminator_inlined") bool_schema (rules true (some (bool false))) (
      property (codes "discriminator_field_name") (string_schema none none none) mandatory (
        property (codes "types")
          (map_schema (int_schema none none none)
            (one_of_schema string_keys
              (choice (string_key (codes "ref")) (new_ref_schema (codes "Ref")) (
                choice (string_key (codes "scope")) (new_ref_schema (codes "Scope")) (
                  choice (string_key (codes "object")) (new_ref_schema (codes "Object"))
                    no_choices)))
              (codes "type_id") false)
            none none)
          optional no_properties)))

abbrev pub one_of_string_schema_object : Object
one_of_string_schema_object = object (codes "OneOfStringSchema") false (
    property (codes "discriminator_inlined") bool_schema (rules true (some (bool false))) (
      property (codes "discriminator_field_name") (string_schema none none none) mandatory (
        property (codes "types")
          (map_schema (string_schema none none none)
            (one_of_schema string_keys
              (choice (string_key (codes "ref")) (new_ref_schema (codes "Ref")) (
                choice (string_key (codes "scope")) (new_ref_schema (codes "Scope")) (
                  choice (string_key (codes "object")) (new_ref_schema (codes "Object"))
                    no_choices)))
              (codes "type_id") false)
            none none)
          optional no_properties)))

abbrev pub pattern_object : Object
pattern_object = object (codes "Pattern") false no_properties

abbrev pub property_object : Object
property_object = object (codes "Property") false (
    property (codes "type") value_type mandatory (
      property (codes "display") display_type optional (
        property (codes "required") bool_schema (rules false (some (bool true))) (
          property (codes "required_if_not") (list_schema (string_schema none none none) none none)
            optional
            (property (codes "required_if") (list_schema (string_schema none none none) none none)
              optional
              (property (codes "conflicts") (list_schema (string_schema none none none) none none)
                optional
                (property (codes "default") (string_schema none none none) optional (
                  property (codes "examples") (list_schema (string_schema none none none) none none)
                    optional
                    (property (codes "disabled") bool_schema optional (
                      property (codes "disabled_reason") (string_schema none none none) optional
                        no_properties))))))))))

abbrev pub ref_object : Object
ref_object = object (codes "Ref") false (
    property (codes "id") id_type optional (
      property (codes "namespace") (string_schema none none none)
        (rules false (some (str self_namespace)))
        (property (codes "display") display_type optional no_properties)))

abbrev pub string_enum_object : Object
string_enum_object = object (codes "StringEnum") false (
    property (codes "values")
      (map_schema (string_schema none none none) (new_ref_schema (codes "Display")) (some (pos 1))
        none)
      mandatory no_properties)

-- `compiles` says which texts `regexp.Compile` accepts, and `characters` is the parser of UnitCharacters.
abbrev pub string_object : (compiles : Bytes → Bool) → (characters : UnitsParser) → Object
string_object compiles characters = object (codes "String") false (
    property (codes "min") (int_schema (some (pos 0)) none (some characters)) optional (
      property (codes "max") (int_schema (some (pos 0)) none (some characters)) optional
        (property (codes "pattern") (pattern_schema compiles) optional no_properties)))

abbrev pub unit_object : Object
unit_object = object (codes "Unit") false (
    property (codes "name_long_plural") (string_schema none none none) mandatory (
      property (codes "name_long_singular") (string_schema none none none) mandatory (
        property (codes "name_short_plural") (string_schema none none none) mandatory (
          property (codes "name_short_singular") (string_schema none none none) mandatory
            no_properties))))

abbrev pub units_object : Object
units_object = object (codes "Units") false (
    property (codes "base_unit") (new_ref_schema (codes "Unit")) mandatory (
      property (codes "multipliers")
        (map_schema (int_schema none none none) (new_ref_schema (codes "Unit")) none none) optional
        no_properties))

abbrev pub scope_object : Object
scope_object = object (codes "Scope") false (
    property (codes "objects") (map_schema id_type (new_ref_schema (codes "Object")) none none)
      mandatory (property (codes "root") id_type mandatory no_properties))
