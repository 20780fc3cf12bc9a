-- ===== src/Messages/Functions/Guards.antt =====
-- The functions of all messages side by side, and what each of them guards.
use dipp.Base.{ℕ, ◌≡◌, refl, List, Option, none, some, if◌then◌else◌}
use dipp.Messages.Descriptors.{
  Message, metadata_item, metadata, config_parameter, module_config, module_definition,
  pipeline_definition, dtpmetadata_item, dtpmetadata,
}
use dipp.Messages.Structs.{Instance, is_descriptor, Protobuf}
use dipp.Messages.Functions.Image.{
  metadata_item_init, metadata_item_get_packed_size, metadata_item_pack,
  metadata_item_pack_to_buffer, metadata_item_unpack, metadata_item_free_unpacked, metadata_init,
  metadata_get_packed_size, metadata_pack, metadata_pack_to_buffer, metadata_unpack,
  metadata_free_unpacked,
}
use dipp.Messages.Functions.Module.{
  config_parameter_init, config_parameter_get_packed_size, config_parameter_pack,
  config_parameter_pack_to_buffer, config_parameter_unpack, config_parameter_free_unpacked,
  module_config_init, module_config_get_packed_size, module_config_pack,
  module_config_pack_to_buffer, module_config_unpack, module_config_free_unpacked,
}
use dipp.Messages.Functions.Pipeline.{
  module_definition_init, module_definition_get_packed_size, module_definition_pack,
  module_definition_pack_to_buffer, module_definition_unpack, module_definition_free_unpacked,
  pipeline_definition_init, pipeline_definition_get_packed_size, pipeline_definition_pack,
  pipeline_definition_pack_to_buffer, pipeline_definition_unpack, pipeline_definition_free_unpacked,
}
use dipp.Messages.Functions.Dtp.{
  dtpmetadata_item_init, dtpmetadata_item_get_packed_size, dtpmetadata_item_pack,
  dtpmetadata_item_pack_to_buffer, dtpmetadata_item_unpack, dtpmetadata_item_free_unpacked,
  dtpmetadata_init, dtpmetadata_get_packed_size, dtpmetadata_pack, dtpmetadata_pack_to_buffer,
  dtpmetadata_unpack, dtpmetadata_free_unpacked,
}

-- The six functions of one message.
pub record Functions (lib : Protobuf) (m : Message) : Type 0 where
  pub init : Instance m → Instance m
  pub get_packed_size : Instance m → Option ℕ
  pub pack : Instance m → Option (ℕ × List ℕ)
  pub pack_to_buffer : Instance m → lib.Buffer → Option (ℕ × lib.Buffer)
  pub unpack : Option ℕ → ℕ → List ℕ → lib.Heap → Option (Instance m) × lib.Heap
  pub free_unpacked : Option (Instance m) → Option ℕ → lib.Heap → Option lib.Heap

abbrev pub functions_of : (lib : Protobuf) (m : Message) → Functions lib m
functions_of lib metadata_item = record {
  init = metadata_item_init;
  get_packed_size = metadata_item_get_packed_size lib;
  pack = metadata_item_pack lib;
  pack_to_buffer = metadata_item_pack_to_buffer lib;
  unpack = metadata_item_unpack lib;
  free_unpacked = metadata_item_free_unpacked lib;
}
functions_of lib metadata = record {
  init = metadata_init;
  get_packed_size = metadata_get_packed_size lib;
  pack = metadata_pack lib;
  pack_to_buffer = metadata_pack_to_buffer lib;
  unpack = metadata_unpack lib;
  free_unpacked = metadata_free_unpacked lib;
}
functions_of lib config_parameter = record {
  init = config_parameter_init;
  get_packed_size = config_parameter_get_packed_size lib;
  pack = config_parameter_pack lib;
  pack_to_buffer = config_parameter_pack_to_buffer lib;
  unpack = config_parameter_unpack lib;
  free_unpacked = config_parameter_free_unpacked lib;
}
functions_of lib module_config = record {
  init = module_config_init;
  get_packed_size = module_config_get_packed_size lib;
  pack = module_config_pack lib;
  pack_to_buffer = module_config_pack_to_buffer lib;
  unpack = module_config_unpack lib;
  free_unpacked = module_config_free_unpacked lib;
}
functions_of lib module_definition = record {
  init = module_definition_init;
  get_packed_size = module_definition_get_packed_size lib;
  pack = module_definition_pack lib;
  pack_to_buffer = module_definition_pack_to_buffer lib;
  unpack = module_definition_unpack lib;
  free_unpacked = module_definition_free_unpacked lib;
}
functions_of lib pipeline_definition = record {
  init = pipeline_definition_init;
  get_packed_size = pipeline_definition_get_packed_size lib;
  pack = pipeline_definition_pack lib;
  pack_to_buffer = pipeline_definition_pack_to_buffer lib;
  unpack = pipeline_definition_unpack lib;
  free_unpacked = pipeline_definition_free_unpacked lib;
}
functions_of lib dtpmetadata_item = record {
  init = dtpmetadata_item_init;
  get_packed_size = dtpmetadata_item_get_packed_size lib;
  pack = dtpmetadata_item_pack lib;
  pack_to_buffer = dtpmetadata_item_pack_to_buffer lib;
  unpack = dtpmetadata_item_unpack lib;
  free_unpacked = dtpmetadata_item_free_unpacked lib;
}
functions_of lib dtpmetadata = record {
  init = dtpmetadata_init;
  get_packed_size = dtpmetadata_get_packed_size lib;
  pack = dtpmetadata_pack lib;
  pack_to_buffer = dtpmetadata_pack_to_buffer lib;
  unpack = dtpmetadata_unpack lib;
  free_unpacked = dtpmetadata_free_unpacked lib;
}

-- What stands behind an assertion that the message has this descriptor.
abbrev pub asserted : {A : Type 0} → (m : Message) → Instance m → A → Option A
asserted m message result = if is_descriptor message.descriptor m then some result else none

pub get_packed_size-asserted :
    (lib : Protobuf) (m : Message) (x : Instance m)
    → (functions_of lib m).get_packed_size x ≡ asserted m x (lib.message_get_packed_size m x)
unfolding metadata_item_get_packed_size metadata_get_packed_size config_parameter_get_packed_size
    module_config_get_packed_size module_definition_get_packed_size
    pipeline_definition_get_packed_size dtpmetadata_item_get_packed_size dtpmetadata_get_packed_size
get_packed_size-asserted lib metadata_item x = refl
get_packed_size-asserted lib metadata x = refl
get_packed_size-asserted lib config_parameter x = refl
get_packed_size-asserted lib module_config x = refl
get_packed_size-asserted lib module_definition x = refl
get_packed_size-asserted lib pipeline_definition x = refl
get_packed_size-asserted lib dtpmetadata_item x = refl
get_packed_size-asserted lib dtpmetadata x = refl

pub pack-asserted :
    (lib : Protobuf) (m : Message) (x : Instance m)
    → (functions_of lib m).pack x ≡ asserted m x (lib.message_pack m x)
unfolding metadata_item_pack metadata_pack config_parameter_pack module_config_pack
    module_definition_pack pipeline_definition_pack dtpmetadata_item_pack dtpmetadata_pack
pack-asserted lib metadata_item x = refl
pack-asserted lib metadata x = refl
pack-asserted lib config_parameter x = refl
pack-asserted lib module_config x = refl
pack-asserted lib module_definition x = refl
pack-asserted lib pipeline_definition x = refl
pack-asserted lib dtpmetadata_item x = refl
pack-asserted lib dtpmetadata x = refl

pub pack_to_buffer-asserted :
    (lib : Protobuf) (m : Message) (x : Instance m) (buffer : lib.Buffer)
    → (functions_of lib m).pack_to_buffer x buffer
      ≡ asserted m x (lib.message_pack_to_buffer m x buffer)
unfolding metadata_item_pack_to_buffer metadata_pack_to_buffer config_parameter_pack_to_buffer
    module_config_pack_to_buffer module_definition_pack_to_buffer pipeline_definition_pack_to_buffer
    dtpmetadata_item_pack_to_buffer dtpmetadata_pack_to_buffer
pack_to_buffer-asserted lib metadata_item x buffer = refl
pack_to_buffer-asserted lib metadata x buffer = refl
pack_to_buffer-asserted lib config_parameter x buffer = refl
pack_to_buffer-asserted lib module_config x buffer = refl
pack_to_buffer-asserted lib module_definition x buffer = refl
pack_to_buffer-asserted lib pipeline_definition x buffer = refl
pack_to_buffer-asserted lib dtpmetadata_item x buffer = refl
pack_to_buffer-asserted lib dtpmetadata x buffer = refl

pub unpack-message_unpack :
    (lib : Protobuf) (m : Message) (allocator : Option ℕ) (len : ℕ) (bytes : List ℕ)
    (heap : lib.Heap)
    → (functions_of lib m).unpack allocator len bytes heap
      ≡ lib.message_unpack m allocator len bytes heap
unfolding metadata_item_unpack metadata_unpack config_parameter_unpack module_config_unpack
    module_definition_unpack pipeline_definition_unpack dtpmetadata_item_unpack dtpmetadata_unpack
unpack-message_unpack lib metadata_item allocator len bytes heap = refl
unpack-message_unpack lib metadata allocator len bytes heap = refl
unpack-message_unpack lib config_parameter allocator len bytes heap = refl
unpack-message_unpack lib module_config allocator len bytes heap = refl
unpack-message_unpack lib module_definition allocator len bytes heap = refl
unpack-message_unpack lib pipeline_definition allocator len bytes heap = refl
unpack-message_unpack lib dtpmetadata_item allocator len bytes heap = refl
unpack-message_unpack lib dtpmetadata allocator len bytes heap = refl

pub free_unpacked-asserted :
    (lib : Protobuf) (m : Message) (x : Instance m) (allocator : Option ℕ) (heap : lib.Heap)
    → (functions_of lib m).free_unpacked (some x) allocator heap
      ≡ asserted m x (lib.message_free_unpacked m x allocator heap)
unfolding metadata_item_free_unpacked metadata_free_unpacked config_parameter_free_unpacked
    module_config_free_unpacked module_definition_free_unpacked pipeline_definition_free_unpacked
    dtpmetadata_item_free_unpacked dtpmetadata_free_unpacked
free_unpacked-asserted lib metadata_item x allocator heap = refl
free_unpacked-asserted lib metadata x allocator heap = refl
free_unpacked-asserted lib config_parameter x allocator heap = refl
free_unpacked-asserted lib module_config x allocator heap = refl
free_unpacked-asserted lib module_definition x allocator heap = refl
free_unpacked-asserted lib pipeline_definition x allocator heap = refl
free_unpacked-asserted lib dtpmetadata_item x allocator heap = refl
free_unpacked-asserted lib dtpmetadata x allocator heap = refl

pub init-descriptor :
    (lib : Protobuf) (m : Message) (x : Instance m)
    → ((functions_of lib m).init x).descriptor ≡ some m
unfolding metadata_item_init metadata_init config_parameter_init module_config_init
    module_definition_init pipeline_definition_init dtpmetadata_item_init dtpmetadata_init
init-descriptor lib metadata_item x = refl
init-descriptor lib metadata x = refl
init-descriptor lib config_parameter x = refl
init-descriptor lib module_config x = refl
init-descriptor lib module_definition x = refl
init-descriptor lib pipeline_definition x = refl
init-descriptor lib dtpmetadata_item x = refl
init-descriptor lib dtpmetadata x = refl
