-- ===== src/Messages/Functions/Image.antt =====
-- The functions of src/protobuf/metadata.pb-c.c and the initial values of
-- src/include/protobuf/metadata.pb-c.h. A failed assertion, which ends the process, is `none`.
use dipp.Base.{ℕ, List, [], Option, none, some, if◌then◌else◌}
use dipp.Base.Int.{pos}
use dipp.Types.{meta_not_set}
use dipp.Messages.Descriptors.{metadata_item, metadata}
use dipp.Messages.Structs.{Instance, initial, is_descriptor, Protobuf}

abbrev pub metadata_item_init_value : Instance metadata_item
metadata_item_init_value = initial metadata_item (record { key = []; value = meta_not_set })

unfoldable pub metadata_item_init : Instance metadata_item → Instance metadata_item
metadata_item_init message = metadata_item_init_value

unfoldable pub metadata_item_get_packed_size : (lib : Protobuf) → Instance metadata_item → Option ℕ
metadata_item_get_packed_size lib message =
    if is_descriptor message.descriptor metadata_item
    then some (lib.message_get_packed_size metadata_item message)
    else none

unfoldable pub metadata_item_pack : (lib : Protobuf) → Instance metadata_item → Option (ℕ × List ℕ)
metadata_item_pack lib message =
    if is_descriptor message.descriptor metadata_item
    then some (lib.message_pack metadata_item message)
    else none

unfoldable pub metadata_item_pack_to_buffer :
    (lib : Protobuf) → Instance metadata_item → lib.Buffer → Option (ℕ × lib.Buffer)
metadata_item_pack_to_buffer lib message buffer =
    if is_descriptor message.descriptor metadata_item
    then some (lib.message_pack_to_buffer metadata_item message buffer)
    else none

unfoldable pub metadata_item_unpack :
    (lib : Protobuf) → Option ℕ → ℕ → List ℕ → lib.Heap → Option (Instance metadata_item) × lib.Heap
metadata_item_unpack lib allocator len data_bytes heap =
    lib.message_unpack metadata_item allocator len data_bytes heap

unfoldable pub metadata_item_free_unpacked :
    (lib : Protobuf) → Option (Instance metadata_item) → Option ℕ → lib.Heap → Option lib.Heap
metadata_item_free_unpacked lib none allocator heap = some heap
metadata_item_free_unpacked lib (some message) allocator heap =
    if is_descriptor message.descriptor metadata_item
    then some (lib.message_free_unpacked metadata_item message allocator heap)
    else none

abbrev pub metadata_init_value : Instance metadata
metadata_init_value = initial metadata (record {
  size = pos 0;
  height = pos 0;
  width = pos 0;
  channels = pos 0;
  timestamp = pos 0;
  bits_pixel = pos 0;
  obid = pos 0;
  camera = [];
  items = [];
})

unfoldable pub metadata_init : Instance metadata → Instance metadata
metadata_init message = metadata_init_value

unfoldable pub metadata_get_packed_size : (lib : Protobuf) → Instance metadata → Option ℕ
metadata_get_packed_size lib message =
    if is_descriptor message.descriptor metadata
    then some (lib.message_get_packed_size metadata message)
    else none

unfoldable pub metadata_pack : (lib : Protobuf) → Instance metadata → Option (ℕ × List ℕ)
metadata_pack lib message =
    if is_descriptor message.descriptor metadata
    then some (lib.message_pack metadata message)
    else none

unfoldable pub metadata_pack_to_buffer :
    (lib : Protobuf) → Instance metadata → lib.Buffer → Option (ℕ × lib.Buffer)
metadata_pack_to_buffer lib message buffer =
    if is_descriptor message.descriptor metadata
    then some (lib.message_pack_to_buffer metadata message buffer)
    else none

unfoldable pub metadata_unpack :
    (lib : Protobuf) → Option ℕ → ℕ → List ℕ → lib.Heap → Option (Instance metadata) × lib.Heap
metadata_unpack lib allocator len data_bytes heap =
    lib.message_unpack metadata allocator len data_bytes heap

unfoldable pub metadata_free_unpacked :
    (lib : Protobuf) → Option (Instance metadata) → Option ℕ → lib.Heap → Option lib.Heap
metadata_free_unpacked lib none allocator heap = some heap
metadata_free_unpacked lib (some message) allocator heap =
    if is_descriptor message.descriptor metadata
    then some (lib.message_free_unpacked metadata message allocator heap)
    else none
