-- ===== src/Messages/Tests.antt =====
-- Fields of the messages, found by name and by number.
use dipp.Base.{◌≡◌, ◌≢◌, get_elem?}
use dipp.Messages.Image.{metadata_field_descriptors, metadata_item_field_descriptors}
use dipp.Messages.Schema.{
  schema_field, metadata_schema, metadata_item_schema, dtpmetadata_item_schema,
  field_descriptors-schema_field, dtpmetadata_item-differs,
}
use dipp.Messages.Dtp.{dtpmetadata_item_field_descriptors}

field_descriptors-schema_field_example :
    (get_elem? metadata_field_descriptors 1 ≡ schema_field metadata_schema 1)
    × (get_elem? metadata_item_field_descriptors 1 ≡ schema_field metadata_item_schema 1)
field_descriptors-schema_field_example = field_descriptors-schema_field 1

dtpmetadata_item-differs_example :
    (get_elem? dtpmetadata_item_field_descriptors 2 ≡ schema_field dtpmetadata_item_schema 2)
    × (get_elem? dtpmetadata_item_field_descriptors 0 ≢ schema_field dtpmetadata_item_schema 0)
dtpmetadata_item-differs_example = dtpmetadata_item-differs 1
