-- ===== src/Messages/Descriptors.antt =====
-- The descriptors by which protobuf-c packs and unpacks, as src/protobuf/*.pb-c.c fill them.
use dipp.Base.{ℕ, List, Option, Bool}
use dipp.Types.{Text}

-- PROTOBUF_C_LABEL_NONE and PROTOBUF_C_LABEL_REPEATED.
pub data Label : Type 0 where
  label_none label_repeated : Label

-- The types that are used, PROTOBUF_C_TYPE_STRING and so on.
pub data FieldType : Type 0 where
  type_string type_bool type_int32 type_float type_message : FieldType

-- The messages, each with a descriptor of its own.
pub data Message : Type 0 where
  metadata_item metadata config_parameter module_config : Message
  module_definition pipeline_definition dtpmetadata_item dtpmetadata : Message

-- An offset is the name of the member of the struct; `none` for 0. The descriptor is that of the
-- message that the field holds, `none` for NULL. A default is the empty string.
pub record FieldDescriptor : Type 0 where
  pub name : Text
  pub id : ℕ
  pub label : Label
  pub field_type : FieldType
  pub quantifier_offset : Option Text
  pub offset : Text
  pub descriptor : Option Message
  pub has_default : Bool
  pub is_oneof : Bool

-- From the number `start_value` on, the fields lie from the index `orig_index` on, up to that of the
-- next range; the last one holds the number of fields.
pub record IntRange : Type 0 where
  pub start_value : ℕ
  pub orig_index : ℕ

pub record MessageDescriptor : Type 0 where
  pub name : Text
  pub n_fields : ℕ
  pub fields : List FieldDescriptor
  pub fields_sorted_by_name : List ℕ
  pub n_field_ranges : ℕ
  pub field_ranges : List IntRange
