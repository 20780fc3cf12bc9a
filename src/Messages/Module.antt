-- ===== src/Messages/Module.antt =====
-- The tables of src/protobuf/module_config.pb-c.c.
use dipp.Base.{ℕ, List, [], ◌∷◌, none, some, true, false}
use dipp.Base.Text.{codes}
use dipp.Messages.Descriptors.{
  label_none, label_repeated, type_string, type_bool, type_int32, type_float, type_message,
  config_parameter, FieldDescriptor, IntRange, MessageDescriptor,
}

abbrev pub config_parameter_field_descriptors : List FieldDescriptor
config_parameter_field_descriptors =
    record {
      name = codes "key";
      id = 1;
      label = label_none;
      field_type = type_string;
      quantifier_offset = none;
      offset = codes "key";
      descriptor = none;
      has_default = true;
      is_oneof = false;
    }
    ∷ record {
      name = codes "bool_value";
      id = 2;
      label = label_none;
      field_type = type_bool;
      quantifier_offset = some (codes "value_case");
      offset = codes "bool_value";
      descriptor = none;
      has_default = false;
      is_oneof = true;
    }
    ∷ record {
      name = codes "int_value";
      id = 3;
      label = label_none;
      field_type = type_int32;
      quantifier_offset = some (codes "value_case");
      offset = codes "int_value";
      descriptor = none;
      has_default = false;
      is_oneof = true;
    }
    ∷ record {
      name = codes "float_value";
      id = 4;
      label = label_none;
      field_type = type_float;
      quantifier_offset = some (codes "value_case");
      offset = codes "float_value";
      descriptor = none;
      has_default = false;
      is_oneof = true;
    }
    ∷ record {
      name = codes "string_value";
      id = 5;
      label = label_none;
      field_type = type_string;
      quantifier_offset = some (codes "value_case");
      offset = codes "string_value";
      descriptor = none;
      has_default = true;
      is_oneof = true;
    }
    ∷ []

abbrev pub config_parameter_field_indices_by_name : List ℕ
config_parameter_field_indices_by_name = 1 ∷ 3 ∷ 2 ∷ 0 ∷ 4 ∷ []

abbrev pub config_parameter_number_ranges : List IntRange
config_parameter_number_ranges =
    record { start_value = 1; orig_index = 0 } ∷ record { start_value = 0; orig_index = 5 } ∷ []

abbrev pub config_parameter_descriptor : MessageDescriptor
config_parameter_descriptor = record {
  name = codes "ConfigParameter";
  n_fields = 5;
  fields = config_parameter_field_descriptors;
  fields_sorted_by_name = config_parameter_field_indices_by_name;
  n_field_ranges = 1;
  field_ranges = config_parameter_number_ranges;
}

abbrev pub module_config_field_descriptors : List FieldDescriptor
module_config_field_descriptors =
    record {
      name = codes "parameters";
      id = 1;
      label = label_repeated;
      field_type = type_message;
      quantifier_offset = some (codes "n_parameters");
      offset = codes "parameters";
      descriptor = some config_parameter;
      has_default = false;
      is_oneof = false;
    }
    ∷ []

abbrev pub module_config_field_indices_by_name : List ℕ
module_config_field_indices_by_name = 0 ∷ []

abbrev pub module_config_number_ranges : List IntRange
module_config_number_ranges =
    record { start_value = 1; orig_index = 0 } ∷ record { start_value = 0; orig_index = 1 } ∷ []

abbrev pub module_config_descriptor : MessageDescriptor
module_config_descriptor = record {
  name = codes "ModuleConfig";
  n_fields = 1;
  fields = module_config_field_descriptors;
  fields_sorted_by_name = module_config_field_indices_by_name;
  n_field_ranges = 1;
  field_ranges = module_config_number_ranges;
}
