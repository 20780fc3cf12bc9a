-- ===== src/Messages/Functions/Dtp.antt =====
-- The functions of src/protobuf/dtpmetadata.pb-c.c and the initial values of
-- src/include/protobuf/dtpmetadata.pb-c.h. A failed assertion, which ends the process, is `none`.
use dipp.Base.{ℕ, List, [], Option, none, some, if◌then◌else◌}
use dipp.Base.Int.{pos}
use dipp.Messages.Descriptors.{dtpmetadata_item, dtpmetadata}
use dipp.Messages.Structs.{Instance, initial, is_descriptor, Protobuf}

abbrev pub dtpmetadata_item_init_value : Instance dtpmetadata_item
dtpmetadata_item_init_value =
    initial dtpmetadata_item (record { payload_id = pos 0; size = pos 0; obid = pos 0 })

unfoldable pub dtpmetadata_item_init : Instance dtpmetadata_item → Instance dtpmetadata_item
dtpmetadata_item_init message = dtpmetadata_item_init_value

unfoldable pub dtpmetadata_item_get_packed_size :
    (lib : Protobuf) → Instance dtpmetadata_item → Option ℕ
dtpmetadata_item_get_packed_size lib message =
    if is_descriptor message.descriptor dtpmetadata_item
    then some (lib.message_get_packed_size dtpmetadata_item message)
    else none

unfoldable pub dtpmetadata_item_pack :
    (lib : Protobuf) → Instance dtpmetadata_item → Option (ℕ × List ℕ)
dtpmetadata_item_pack lib message =
    if is_descriptor message.descriptor dtpmetadata_item
    then some (lib.message_pack dtpmetadata_item message)
    else none

unfoldable pub dtpmetadata_item_pack_to_buffer :
    (lib : Protobuf) → Instance dtpmetadata_item → lib.Buffer → Option (ℕ × lib.Buffer)
dtpmetadata_item_pack_to_buffer lib message buffer =
    if is_descriptor message.descriptor dtpmetadata_item
    then some (lib.message_pack_to_buffer dtpmetadata_item message buffer)
    else none

unfoldable pub dtpmetadata_item_unpack :
    (lib : Protobuf)
    → Option ℕ
    → ℕ
    → List ℕ
    → lib.Heap
    → Option (Instance dtpmetadata_item) × lib.Heap
dtpmetadata_item_unpack lib allocator len data_bytes heap =
    lib.message_unpack dtpmetadata_item allocator len data_bytes heap

unfoldable pub dtpmetadata_item_free_unpacked :
    (lib : Protobuf) → Option (Instance dtpmetadata_item) → Option ℕ → lib.Heap → Option lib.Heap
dtpmetadata_item_free_unpacked lib none allocator heap = some heap
dtpmetadata_item_free_unpacked lib (some message) allocator heap =
    if is_descriptor message.descriptor dtpmetadata_item
    then some (lib.message_free_unpacked dtpmetadata_item message allocator heap)
    else none

abbrev pub dtpmetadata_init_value : Instance dtpmetadata
dtpmetadata_init_value = initial dtpmetadata (record { items = [] })

unfoldable pub dtpmetadata_init : Instance dtpmetadata → Instance dtpmetadata
dtpmetadata_init message = dtpmetadata_init_value

unfoldable pub dtpmetadata_get_packed_size : (lib : Protobuf) → Instance dtpmetadata → Option ℕ
dtpmetadata_get_packed_size lib message =
    if is_descriptor message.descriptor dtpmetadata
    then some (lib.message_get_packed_size dtpmetadata message)
    else none

unfoldable pub dtpmetadata_pack : (lib : Protobuf) → Instance dtpmetadata → Option (ℕ × List ℕ)
dtpmetadata_pack lib message =
    if is_descriptor message.descriptor dtpmetadata
    then some (lib.message_pack dtpmetadata message)
    else none

unfoldable pub dtpmetadata_pack_to_buffer :
    (lib : Protobuf) → Instance dtpmetadata → lib.Buffer → Option (ℕ × lib.Buffer)
dtpmetadata_pack_to_buffer lib message buffer =
    if is_descriptor message.descriptor dtpmetadata
    then some (lib.message_pack_to_buffer dtpmetadata message buffer)
    else none

unfoldable pub dtpmetadata_unpack :
    (lib : Protobuf) → Option ℕ → ℕ → List ℕ → lib.Heap → Option (Instance dtpmetadata) × lib.Heap
dtpmetadata_unpack lib allocator len data_bytes heap =
    lib.message_unpack dtpmetadata allocator len data_bytes heap

unfoldable pub dtpmetadata_free_unpacked :
    (lib : Protobuf) → Option (Instance dtpmetadata) → Option ℕ → lib.Heap → Option lib.Heap
dtpmetadata_free_unpacked lib none allocator heap = some heap
dtpmetadata_free_unpacked lib (some message) allocator heap =
    if is_descriptor message.descriptor dtpmetadata
    then some (lib.message_free_unpacked dtpmetadata message allocator heap)
    else none
