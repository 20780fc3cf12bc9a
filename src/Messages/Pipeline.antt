-- ===== src/Messages/Pipeline.antt =====
-- The tables of src/protobuf/pipeline_config.pb-c.c.
use dipp.Base.{ℕ, List, [], ◌∷◌, none, some, true, false}
use dipp.Base.Text.{codes}
use dipp.Messages.Descriptors.{
  label_none, label_repeated, type_string, type_int32, type_message, module_definition,
  FieldDescriptor, IntRange, MessageDescriptor,
}

abbrev pub module_definition_field_descriptors : List FieldDescriptor
module_definition_field_descriptors =
    record {
      name = codes "order";
      id = 1;
      label = label_none;
      field_type = type_int32;
      quantifier_offset = none;
      offset = codes "order";
      descriptor = none;
      has_default = false;
      is_oneof = false;
    }
    ∷ record {
      name = codes "name";
      id = 2;
      label = label_none;
      field_type = type_string;
      quantifier_offset = none;
      offset = codes "name";
      descriptor = none;
      has_default = true;
      is_oneof = false;
    }
    ∷ record {
      name = codes "param_id";
      id = 3;
      label = label_none;
      field_type = type_int32;
      quantifier_offset = none;
      offset = codes "param_id";
      descriptor = none;
      has_default = false;
      is_oneof = false;
    }
    ∷ []

abbrev pub module_definition_field_indices_by_name : List ℕ
module_definition_field_indices_by_name = 1 ∷ 0 ∷ 2 ∷ []

abbrev pub module_definition_number_ranges : List IntRange
module_definition_number_ranges =
    record { start_value = 1; orig_index = 0 } ∷ record { start_value = 0; orig_index = 3 } ∷ []

abbrev pub module_definition_descriptor : MessageDescriptor
module_definition_descriptor = record {
  name = codes "ModuleDefinition";
  n_fields = 3;
  fields = module_definition_field_descriptors;
  fields_sorted_by_name = module_definition_field_indices_by_name;
  n_field_ranges = 1;
  field_ranges = module_definition_number_ranges;
}

abbrev pub pipeline_definition_field_descriptors : List FieldDescriptor
pipeline_definition_field_descriptors =
    record {
      name = codes "modules";
      id = 1;
      label = label_repeated;
      field_type = type_message;
      quantifier_offset = some (codes "n_modules");
      offset = codes "modules";
      descriptor = some module_definition;
      has_default = false;
      is_oneof = false;
    }
    ∷ []

abbrev pub pipeline_definition_field_indices_by_name : List ℕ
pipeline_definition_field_indices_by_name = 0 ∷ []

abbrev pub pipeline_definition_number_ranges : List IntRange
pipeline_definition_number_ranges =
    record { start_value = 1; orig_index = 0 } ∷ record { start_value = 0; orig_index = 1 } ∷ []

abbrev pub pipeline_definition_descriptor : MessageDescriptor
pipeline_definition_descriptor = record {
  name = codes "PipelineDefinition";
  n_fields = 1;
  fields = pipeline_definition_field_descriptors;
  fields_sorted_by_name = pipeline_definition_field_indices_by_name;
  n_field_ranges = 1;
  field_ranges = pipeline_definition_number_ranges;
}
