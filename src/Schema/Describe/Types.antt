-- ===== src/Schema/Describe/Types.antt =====
-- schema/schema_schema.go: the types that the objects of the schema of schemas share. Displays and examples
-- are left out.
use arcaflow_plugin_sdk_go.Common.{
  ℕ, pos, Bytes, codes, leb, ◌==◌, Bool, true, false, ◌&&◌, ◌||◌, [], ◌∷◌, Option, none, some,
}
use arcaflow_plugin_sdk_go.Go.Value.{Value}
use arcaflow_plugin_sdk_go.Schema.Types.{
  Schema, string_schema, one_of_schema, string_keys, string_key, choice, no_choices, Rules,
  ref_schema,
}
use arcaflow_plugin_sdk_go.Schema.Namespace.{self_namespace}

-- NewRefSchema: a reference in the namespace of the scope around it, not linked yet
abbrev pub new_ref_schema : Bytes → Schema
new_ref_schema id = ref_schema id self_namespace none

-- What NewPropertySchema makes of its arguments, where all the lists of names are nil.
abbrev pub rules : (required : Bool) → (default_value : Option Value) → Rules
rules r d = record {
  required = r;
  required_if = [];
  required_if_not = [];
  conflicts = [];
  default_value = d;
  disabled = false;
}

abbrev pub optional : Rules
optional = rules false none

abbrev pub mandatory : Rules
mandatory = rules true none

-- [$@a-zA-Z0-9-_]
unfoldable pub is_id_char : ℕ → Bool
is_id_char c =
    (c == b'$')
    || (c == b'@')
    || (leb b'a' c && leb c b'z')
    || (leb b'A' c && leb c b'Z')
    || (leb b'0' c && leb c b'9')
    || (c == b'-')
    || (c == b'_')

-- One or more of these characters, and no others.
unfoldable pub is_id : Bytes → Bool
unfolding is_id_char
is_id [] = false
is_id (c ∷ []) = is_id_char c
is_id (c ∷ s) = is_id_char c && is_id s

abbrev pub id_type : Schema
id_type = string_schema (some (pos 1)) (some (pos 255)) (some is_id)

-- The types of unitsProperty and displayProperty, which are both optional.
abbrev pub units_type : Schema
units_type = new_ref_schema (codes "Units")

abbrev pub display_type : Schema
display_type = new_ref_schema (codes "Display")

abbrev pub map_key_type : Schema
map_key_type =
    one_of_schema string_keys
      (choice (string_key (codes "integer")) (new_ref_schema (codes "Int"))
        (choice (string_key (codes "string")) (new_ref_schema (codes "String")) no_choices))
      (codes "type_id") false

abbrev pub value_type : Schema
value_type =
    one_of_schema string_keys
      (choice (string_key (codes "any")) (new_ref_schema (codes "AnySchema")) (
        choice (string_key (codes "bool")) (new_ref_schema (codes "BoolSchema")) (
          choice (string_key (codes "enum_integer")) (new_ref_schema (codes "IntEnum")) (
            choice (string_key (codes "enum_string")) (new_ref_schema (codes "StringEnum")) (
              choice (string_key (codes "float")) (new_ref_schema (codes "Float")) (
                choice (string_key (codes "integer")) (new_ref_schema (codes "Int")) (
                  choice (string_key (codes "list")) (new_ref_schema (codes "List")) (
                    choice (string_key (codes "map")) (new_ref_schema (codes "Map")) (
                      choice (string_key (codes "object")) (new_ref_schema (codes "Object")) (
                        choice (string_key (codes "one_of_int"))
                          (new_ref_schema (codes "OneOfIntSchema"))
                          (choice (string_key (codes "one_of_string"))
                            (new_ref_schema (codes "OneOfStringSchema"))
                            (choice (string_key (codes "pattern"))
                              (new_ref_schema (codes "Pattern"))
                              (choice (string_key (codes "ref")) (new_ref_schema (codes "Ref")) (
                                choice (string_key (codes "scope")) (new_ref_schema (codes "Scope"))
                                  (choice (string_key (codes "string"))
                                    (new_ref_schema (codes "String")) no_choices)))))))))))))))
      (codes "type_id") false
