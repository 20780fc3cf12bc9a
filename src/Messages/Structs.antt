-- ===== src/Messages/Structs.antt =====
-- The structs of the eight messages, src/include/protobuf/*.pb-c.h, with the part that protobuf-c
-- puts before each, and the functions of protobuf-c that src/protobuf/*.pb-c.c call.
use dipp.Base.{ℕ, List, [], Option, none, some, Bool, false, ◌==◌}
use dipp.Base.Int.{ℤ}
use dipp.Types.{
  ModuleDefinition, PipelineDefinition, ConfigParameter, ModuleConfig, MetadataItem, Metadata,
}
use dipp.Messages.Descriptors.{
  Message, metadata_item, metadata, config_parameter, module_config, module_definition,
  pipeline_definition, dtpmetadata_item, dtpmetadata,
}

pub record DtpMetadataItem : Type 0 where
  pub payload_id : ℤ
  pub size : ℤ
  pub obid : ℤ

pub record DtpMetadata : Type 0 where
  pub items : List DtpMetadataItem

-- The members of each struct behind `base`; of a message that it holds only these are kept.
abbrev pub Struct : Message → Type 0
Struct metadata_item = MetadataItem
Struct metadata = Metadata
Struct config_parameter = ConfigParameter
Struct module_config = ModuleConfig
Struct module_definition = ModuleDefinition
Struct pipeline_definition = PipelineDefinition
Struct dtpmetadata_item = DtpMetadataItem
Struct dtpmetadata = DtpMetadata

-- A struct with its `base`: the descriptor, `none` for a pointer to none of the eight, and the
-- fields that the parser did not know.
pub record Instance (m : Message) : Type 0 where
  pub descriptor : Option Message
  pub unknown_fields : List (List ℕ)
  pub contents : Struct m

-- PROTOBUF_C_MESSAGE_INIT, and the members behind it.
abbrev pub initial : (m : Message) → Struct m → Instance m
initial m contents = record { descriptor = some m; unknown_fields = []; contents = contents }

-- The place of a message among the descriptors.
abbrev pub place : Message → ℕ
place metadata_item = 0
place metadata = 1
place config_parameter = 2
place module_config = 3
place module_definition = 4
place pipeline_definition = 5
place dtpmetadata_item = 6
place dtpmetadata = 7

-- Whether the pointer is the address of the descriptor of this message.
unfoldable pub is_descriptor : Option Message → Message → Bool
is_descriptor none m = false
is_descriptor (some d) m = place d == place m

-- protobuf-c. A message is packed and freed by the descriptor that its `base` points to, which the
-- first argument is. `pack` gives its result and the bytes at `out`. An allocator is `none` for NULL.
pub record Protobuf : Type 1 where
  pub Heap : Type 0
  pub Buffer : Type 0
  pub message_get_packed_size : (m : Message) → Instance m → ℕ
  pub message_pack : (m : Message) → Instance m → ℕ × List ℕ
  pub message_pack_to_buffer : (m : Message) → Instance m → Buffer → ℕ × Buffer
  pub message_unpack : (m : Message) → Option ℕ → ℕ → List ℕ → Heap → Option (Instance m) × Heap
  pub message_free_unpacked : (m : Message) → Instance m → Option ℕ → Heap → Heap
