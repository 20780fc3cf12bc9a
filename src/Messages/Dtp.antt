-- ===== src/Messages/Dtp.antt =====
-- The tables of src/protobuf/dtpmetadata.pb-c.c.
use dipp.Base.{ℕ, List, [], ◌∷◌, none, some, false}
use dipp.Base.Text.{codes}
use dipp.Messages.Descriptors.{
  label_none, label_repeated, type_int32, type_message, dtpmetadata_item, FieldDescriptor, IntRange,
  MessageDescriptor,
}

abbrev pub dtpmetadata_item_field_descriptors : List FieldDescriptor
dtpmetadata_item_field_descriptors =
    record {
      name = codes "payload_id";
      id = 1;
      label = label_none;
      field_type = type_int32;
      quantifier_offset = none;
      offset = codes "payload_id";
      descriptor = none;
      has_default = false;
      is_oneof = false;
    }
    ∷ record {
      name = codes "size";
      id = 2;
      label = label_none;
      field_type = type_int32;
      quantifier_offset = none;
      offset = codes "size";
      descriptor = none;
      has_default = false;
      is_oneof = false;
    }
    ∷ record {
      name = codes "obid";
      id = 3;
      label = label_none;
      field_type = type_int32;
      quantifier_offset = none;
      offset = codes "obid";
      descriptor = none;
      has_default = false;
      is_oneof = false;
    }
    ∷ []

abbrev pub dtpmetadata_item_field_indices_by_name : List ℕ
dtpmetadata_item_field_indices_by_name = 2 ∷ 0 ∷ 1 ∷ []

abbrev pub dtpmetadata_item_number_ranges : List IntRange
dtpmetadata_item_number_ranges =
    record { start_value = 1; orig_index = 0 } ∷ record { start_value = 0; orig_index = 3 } ∷ []

abbrev pub dtpmetadata_item_descriptor : MessageDescriptor
dtpmetadata_item_descriptor = record {
  name = codes "DTPMetadataItem";
  n_fields = 3;
  fields = dtpmetadata_item_field_descriptors;
  fields_sorted_by_name = dtpmetadata_item_field_indices_by_name;
  n_field_ranges = 1;
  field_ranges = dtpmetadata_item_number_ranges;
}

abbrev pub dtpmetadata_field_descriptors : List FieldDescriptor
dtpmetadata_field_descriptors =
    record {
      name = codes "items";
      id = 1;
      label = label_repeated;
      field_type = type_message;
      quantifier_offset = some (codes "n_items");
      offset = codes "items";
      descriptor = some dtpmetadata_item;
      has_default = false;
      is_oneof = false;
    }
    ∷ []

abbrev pub dtpmetadata_field_indices_by_name : List ℕ
dtpmetadata_field_indices_by_name = 0 ∷ []

abbrev pub dtpmetadata_number_ranges : List IntRange
dtpmetadata_number_ranges =
    record { start_value = 1; orig_index = 0 } ∷ record { start_value = 0; orig_index = 1 } ∷ []

abbrev pub dtpmetadata_descriptor : MessageDescriptor
dtpmetadata_descriptor = record {
  name = codes "DTPMetadata";
  n_fields = 1;
  fields = dtpmetadata_field_descriptors;
  fields_sorted_by_name = dtpmetadata_field_indices_by_name;
  n_field_ranges = 1;
  field_ranges = dtpmetadata_number_ranges;
}
