-- ===== src/Schema/Describe/Steps.antt =====
-- schema/schema_schema.go: the objects that describe a plugin's schema, its steps, outputs and signals.
use arcaflow_plugin_sdk_go.Common.{codes, false, none, some}
use arcaflow_plugin_sdk_go.Go.Value.{bool}
use arcaflow_plugin_sdk_go.Schema.Types.{
  bool_schema, map_schema, Object, object, property, no_properties,
}
use arcaflow_plugin_sdk_go.Schema.Describe.Types.{
  new_ref_schema, rules, optional, mandatory, id_type, display_type,
}

abbrev pub step_output_object : Object
step_output_object = object (codes "StepOutput") false (
    property (codes "display") display_type optional (
      property (codes "error") bool_schema (rules false (some (bool false)))
        (property (codes "schema") (new_ref_schema (codes "Scope")) mandatory no_properties)))

abbrev pub signal_object : Object
signal_object = object (codes "Signal") false (
    property (codes "display") display_type optional (
      property (codes "id") id_type mandatory
        (property (codes "data_schema") (new_ref_schema (codes "Scope")) mandatory no_properties)))

abbrev pub step_object : Object
step_object = object (codes "Step") false (
    property (codes "display") display_type optional (
      property (codes "id") id_type mandatory (
        property (codes "input") (new_ref_schema (codes "Scope")) mandatory (
          property (codes "outputs")
            (map_schema id_type (new_ref_schema (codes "StepOutput")) none none) mandatory
            (property (codes "signal_handlers")
              (map_schema id_type (new_ref_schema (codes "Signal")) none none) optional
              (property (codes "signal_emitters")
                (map_schema id_type (new_ref_schema (codes "Signal")) none none) optional
                no_properties))))))

abbrev pub schema_object : Object
schema_object = object (codes "Schema") false (
    property (codes "steps") (map_schema id_type (new_ref_schema (codes "Step")) none none)
      mandatory no_properties)
