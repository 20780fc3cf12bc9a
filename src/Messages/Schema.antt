-- ===== src/Messages/Schema.antt =====
-- The schema of the metadata, protos/metadata.proto, and that of the transfer,
-- protos/dtpmetadata.proto, against the tables.
use dipp.Base.{
  ℕ, zero, suc, ◌≡◌, ◌≢◌, refl, ap, ◌∙◌, sym, List, [], ◌∷◌, ◌++◌, Option, none, some, Bool, true,
  false, if◌then◌else◌, get_elem?, arith,
}
use mathlib.Core.List.{map}
use dipp.Base.Text.{codes}
use dipp.Types.{Text}
use dipp.Messages.Descriptors.{
  label_none, label_repeated, FieldType, type_string, type_bool, type_int32, type_float,
  type_message, Message, metadata_item, FieldDescriptor,
}
use dipp.Messages.Image.{metadata_item_field_descriptors, metadata_field_descriptors}
use dipp.Messages.Dtp.{dtpmetadata_item_field_descriptors}

-- A line of a schema: whether it is repeated, the type, the message that the type names, the name,
-- the number, and the `oneof` around it.
pub record SchemaField : Type 0 where
  pub is_repeated : Bool
  pub field_type : FieldType
  pub message : Option Message
  pub name : Text
  pub number : ℕ
  pub oneof : Option Text

abbrev singular : FieldType → Text → ℕ → SchemaField
singular t name number = record {
  is_repeated = false;
  field_type = t;
  message = none;
  name = name;
  number = number;
  oneof = none;
}

abbrev in_oneof : Text → FieldType → Text → ℕ → SchemaField
in_oneof o t name number = record {
  is_repeated = false;
  field_type = t;
  message = none;
  name = name;
  number = number;
  oneof = some o;
}

abbrev pub metadata_item_schema : List SchemaField
metadata_item_schema =
    singular type_string (codes "key") 1
    ∷ in_oneof (codes "value") type_bool (codes "bool_value") 2
    ∷ in_oneof (codes "value") type_int32 (codes "int_value") 3
    ∷ in_oneof (codes "value") type_float (codes "float_value") 4
    ∷ in_oneof (codes "value") type_string (codes "string_value") 5
    ∷ []

abbrev pub metadata_schema : List SchemaField
metadata_schema =
    singular type_int32 (codes "size") 1
    ∷ singular type_int32 (codes "height") 2
    ∷ singular type_int32 (codes "width") 3
    ∷ singular type_int32 (codes "channels") 4
    ∷ singular type_int32 (codes "timestamp") 5
    ∷ singular type_int32 (codes "bits_pixel") 6
    ∷ singular type_int32 (codes "obid") 7
    ∷ singular type_string (codes "camera") 8
    ∷ record {
      is_repeated = true;
      field_type = type_message;
      message = some metadata_item;
      name = codes "items";
      number = 9;
      oneof = none;
    }
    ∷ []

abbrev pub dtpmetadata_item_schema : List SchemaField
dtpmetadata_item_schema =
    singular type_int32 (codes "index") 1
    ∷ singular type_int32 (codes "size") 2
    ∷ singular type_int32 (codes "obid") 3
    ∷ []

-- The member beside the value: the count of a repeated field, the case of a `oneof`.
abbrev quantifier : Bool → Text → Option Text → Option Text
quantifier true name o = some (codes "n_" ++ name)
quantifier false name none = none
quantifier false name (some o) = some (o ++ codes "_case")

abbrev has_text : FieldType → Bool
has_text type_string = true
has_text _ = false

abbrev inside : Option Text → Bool
inside none = false
inside (some o) = true

-- What a line of a schema means for the table of fields: a repeated field has a count, a field of a
-- `oneof` the case of it, and a text is empty until it is set.
abbrev pub field_of : SchemaField → FieldDescriptor
field_of p = record {
  name = p.name;
  id = p.number;
  label = if p.is_repeated then label_repeated else label_none;
  field_type = p.field_type;
  quantifier_offset = quantifier p.is_repeated p.name p.oneof;
  offset = p.name;
  descriptor = p.message;
  has_default = has_text p.field_type;
  is_oneof = inside p.oneof;
}

-- The field of a schema at an index, as the table has it.
abbrev pub schema_field : List SchemaField → ℕ → Option FieldDescriptor
schema_field schema i = elim (get_elem? schema i) [ none ↦ none | some p ↦ some (field_of p) ]

get_elem?-map :
    (schema : List SchemaField) (i : ℕ) → get_elem? (map field_of schema) i ≡ schema_field schema i
get_elem?-map [] i = refl
get_elem?-map (p ∷ schema) zero = refl
get_elem?-map (p ∷ schema) (suc i) = get_elem?-map schema i

metadata_item_fields : map field_of metadata_item_schema ≡ metadata_item_field_descriptors
metadata_item_fields = refl

metadata_fields : map field_of metadata_schema ≡ metadata_field_descriptors
metadata_fields = refl

-- At every index the tables of Metadata and MetadataItem have the field that protos/metadata.proto
-- has there, with its name, number, type, count, case and default, and no more fields.
pub field_descriptors-schema_field :
    (i : ℕ)
    → (get_elem? metadata_field_descriptors i ≡ schema_field metadata_schema i)
      × (get_elem? metadata_item_field_descriptors i ≡ schema_field metadata_item_schema i)
field_descriptors-schema_field i = (
  ap (λ fs. get_elem? fs i) (sym metadata_fields) ∙ get_elem?-map metadata_schema i,
  ap (λ fs. get_elem? fs i) (sym metadata_item_fields) ∙ get_elem?-map metadata_item_schema i,
)

abbrev first_letter : Option FieldDescriptor → ℕ
first_letter none = 0
first_letter (some f) = elim f.name [ [] ↦ 0 | x ∷ xs ↦ x ]

-- The table for the transfer calls its first field payload_id, where the schema has index; the
-- other two are the schema's.
pub dtpmetadata_item-differs :
    (i : ℕ)
    → (get_elem? dtpmetadata_item_field_descriptors (suc i)
        ≡ schema_field dtpmetadata_item_schema (suc i))
      × (get_elem? dtpmetadata_item_field_descriptors 0 ≢ schema_field dtpmetadata_item_schema 0)
dtpmetadata_item-differs i = (
  get_elem?-map (singular type_int32 (codes "size") 2 ∷ singular type_int32 (codes "obid") 3 ∷ [])
      i,
  λ e. absurd (let letters : 112 ≡ 105 = ap first_letter e in omega (arith, letters)),
)
