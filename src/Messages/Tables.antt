-- ===== src/Messages/Tables.antt =====
-- The eight descriptors together, and how they are searched.
use dipp.Base.{
  ℕ, ◌+◌, ◌-◌, List, [], ◌∷◌, none, some, Bool, true, false, get_elem?, ◌==◌, ◌&&◌, if◌then◌else◌,
  ltb, leb,
}
use dipp.Types.{Text}
use dipp.Messages.Descriptors.{
  Message, metadata_item, metadata, config_parameter, module_config, module_definition,
  pipeline_definition, dtpmetadata_item, dtpmetadata, FieldDescriptor, IntRange, MessageDescriptor,
}
use dipp.Messages.Image.{metadata_item_descriptor, metadata_descriptor}
use dipp.Messages.Module.{config_parameter_descriptor, module_config_descriptor}
use dipp.Messages.Pipeline.{module_definition_descriptor, pipeline_definition_descriptor}
use dipp.Messages.Dtp.{dtpmetadata_item_descriptor, dtpmetadata_descriptor}

abbrev pub descriptor_of : Message → MessageDescriptor
descriptor_of metadata_item = metadata_item_descriptor
descriptor_of metadata = metadata_descriptor
descriptor_of config_parameter = config_parameter_descriptor
descriptor_of module_config = module_config_descriptor
descriptor_of module_definition = module_definition_descriptor
descriptor_of pipeline_definition = pipeline_definition_descriptor
descriptor_of dtpmetadata_item = dtpmetadata_item_descriptor
descriptor_of dtpmetadata = dtpmetadata_descriptor

-- The order of strcmp.
unfoldable pub before : Text → Text → Bool
before [] [] = false
before [] (y ∷ ys) = true
before (x ∷ xs) [] = false
before (x ∷ xs) (y ∷ ys) = let rest = before xs ys in if x == y then rest else ltb x y

-- The fields at these indices; an index behind the table gives none.
unfoldable pub fields_at : List FieldDescriptor → List ℕ → List FieldDescriptor
fields_at fields [] = []
fields_at fields (i ∷ indices) = elim (get_elem? fields i) [
  | none ↦ fields_at fields indices
  | some f ↦ f ∷ fields_at fields indices
]

-- The fields in the order of their names.
abbrev pub fields_by_name : MessageDescriptor → List FieldDescriptor
fields_by_name d = fields_at d.fields d.fields_sorted_by_name

-- Some range of the list has this number, and gives this index.
unfoldable pub leads_to : List IntRange → ℕ → ℕ → Bool
leads_to [] number index = false
leads_to (r ∷ []) number index = false
leads_to (r ∷ s ∷ ranges) number index =
    if leb r.start_value number
      && r.orig_index + (number - r.start_value) == index
      && ltb index s.orig_index
    then true
    else leads_to (s ∷ ranges) number index
