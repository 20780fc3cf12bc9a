-- ===== src/Messages/Image.antt =====
-- The tables of src/protobuf/metadata.pb-c.c.
use dipp.Base.{ℕ, List, [], ◌∷◌, none, some, true, false}
use dipp.Base.Text.{codes}
use dipp.Messages.Descriptors.{
  label_none, label_repeated, type_string, type_bool, type_int32, type_float, type_message,
  metadata_item, FieldDescriptor, IntRange, MessageDescriptor,
}

abbrev pub metadata_item_field_descriptors : List FieldDescriptor
metadata_item_field_descriptors =
    record {
      name = codes "key";
      id = 1;
      label = label_none;
      field_type = type_string;
      quantifier_offset = none;
      offset = codes "key";
      descriptor = none;
      has_default = true;
      is_oneof = false;
    }
    ∷ record {
      name = codes "bool_value";
      id = 2;
      label = label_none;
      field_type = type_bool;
      quantifier_offset = some (codes "value_case");
      offset = codes "bool_value";
      descriptor = none;
      has_default = false;
      is_oneof = true;
    }
    ∷ record {
      name = codes "int_value";
      id = 3;
      label = label_none;
      field_type = type_int32;
      quantifier_offset = some (codes "value_case");
      offset = codes "int_value";
      descriptor = none;
      has_default = false;
      is_oneof = true;
    }
    ∷ record {
      name = codes "float_value";
      id = 4;
      label = label_none;
      field_type = type_float;
      quantifier_offset = some (codes "value_case");
      offset = codes "float_value";
      descriptor = none;
      has_default = false;
      is_oneof = true;
    }
    ∷ record {
      name = codes "string_value";
      id = 5;
      label = label_none;
      field_type = type_string;
      quantifier_offset = some (codes "value_case");
      offset = codes "string_value";
      descriptor = none;
      has_default = true;
      is_oneof = true;
    }
    ∷ []

abbrev pub metadata_item_field_indices_by_name : List ℕ
metadata_item_field_indices_by_name = 1 ∷ 3 ∷ 2 ∷ 0 ∷ 4 ∷ []

abbrev pub metadata_item_number_ranges : List IntRange
metadata_item_number_ranges =
    record { start_value = 1; orig_index = 0 } ∷ record { start_value = 0; orig_index = 5 } ∷ []

abbrev pub metadata_item_descriptor : MessageDescriptor
metadata_item_descriptor = record {
  name = codes "MetadataItem";
  n_fields = 5;
  fields = metadata_item_field_descriptors;
  fields_sorted_by_name = metadata_item_field_indices_by_name;
  n_field_ranges = 1;
  field_ranges = metadata_item_number_ranges;
}

abbrev pub metadata_field_descriptors : List FieldDescriptor
metadata_field_descriptors =
    record {
      name = codes "size";
      id = 1;
      label = label_none;
      field_type = type_int32;
      quantifier_offset = none;
      offset = codes "size";
      descriptor = none;
      has_default = false;
      is_oneof = false;
    }
    ∷ record {
      name = codes "height";
      id = 2;
      label = label_none;
      field_type = type_int32;
      quantifier_offset = none;
      offset = codes "height";
      descriptor = none;
      has_default = false;
      is_oneof = false;
    }
    ∷ record {
      name = codes "width";
      id = 3;
      label = label_none;
      field_type = type_int32;
      quantifier_offset = none;
      offset = codes "width";
      descriptor = none;
      has_default = false;
      is_oneof = false;
    }
    ∷ record {
      name = codes "channels";
      id = 4;
      label = label_none;
      field_type = type_int32;
      quantifier_offset = none;
      offset = codes "channels";
      descriptor = none;
      has_default = false;
      is_oneof = false;
    }
    ∷ record {
      name = codes "timestamp";
      id = 5;
      label = label_none;
      field_type = type_int32;
      quantifier_offset = none;
      offset = codes "timestamp";
      descriptor = none;
      has_default = false;
      is_oneof = false;
    }
    ∷ record {
      name = codes "bits_pixel";
      id = 6;
      label = label_none;
      field_type = type_int32;
      quantifier_offset = none;
      offset = codes "bits_pixel";
      descriptor = none;
      has_default = false;
      is_oneof = false;
    }
    ∷ record {
      name = codes "obid";
      id = 7;
      label = label_none;
      field_type = type_int32;
      quantifier_offset = none;
      offset = codes "obid";
      descriptor = none;
      has_default = false;
      is_oneof = false;
    }
    ∷ record {
      name = codes "camera";
      id = 8;
      label = label_none;
      field_type = type_string;
      quantifier_offset = none;
      offset = codes "camera";
      descriptor = none;
      has_default = true;
      is_oneof = false;
    }
    ∷ record {
      name = codes "items";
      id = 9;
      label = label_repeated;
      field_type = type_message;
      quantifier_offset = some (codes "n_items");
      offset = codes "items";
      descriptor = some metadata_item;
      has_default = false;
      is_oneof = false;
    }
    ∷ []

abbrev pub metadata_field_indices_by_name : List ℕ
metadata_field_indices_by_name = 5 ∷ 7 ∷ 3 ∷ 1 ∷ 8 ∷ 6 ∷ 0 ∷ 4 ∷ 2 ∷ []

abbrev pub metadata_number_ranges : List IntRange
metadata_number_ranges =
    record { start_value = 1; orig_index = 0 } ∷ record { start_value = 0; orig_index = 9 } ∷ []

abbrev pub metadata_descriptor : MessageDescriptor
metadata_descriptor = record {
  name = codes "Metadata";
  n_fields = 9;
  fields = metadata_field_descriptors;
  fields_sorted_by_name = metadata_field_indices_by_name;
  n_field_ranges = 1;
  field_ranges = metadata_number_ranges;
}
