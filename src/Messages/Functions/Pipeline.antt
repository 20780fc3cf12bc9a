-- ===== src/Messages/Functions/Pipeline.antt =====
-- The functions of src/protobuf/pipeline_config.pb-c.c and the initial values of
-- src/include/protobuf/pipeline_config.pb-c.h. A failed assertion, which ends the process, is `none`.
use dipp.Base.{ℕ, List, [], Option, none, some, if◌then◌else◌}
use dipp.Base.Int.{pos}
use dipp.Messages.Descriptors.{module_definition, pipeline_definition}
use dipp.Messages.Structs.{Instance, initial, is_descriptor, Protobuf}

abbrev pub module_definition_init_value : Instance module_definition
module_definition_init_value =
    initial module_definition (record { order = pos 0; name = []; param_id = pos 0 })

unfoldable pub module_definition_init : Instance module_definition → Instance module_definition
module_definition_init message = module_definition_init_value

unfoldable pub module_definition_get_packed_size :
    (lib : Protobuf) → Instance module_definition → Option ℕ
module_definition_get_packed_size lib message =
    if is_descriptor message.descriptor module_definition
    then some (lib.message_get_packed_size module_definition message)
    else none

unfoldable pub module_definition_pack :
    (lib : Protobuf) → Instance module_definition → Option (ℕ × List ℕ)
module_definition_pack lib message =
    if is_descriptor message.descriptor module_definition
    then some (lib.message_pack module_definition message)
    else none

unfoldable pub module_definition_pack_to_buffer :
    (lib : Protobuf) → Instance module_definition → lib.Buffer → Option (ℕ × lib.Buffer)
module_definition_pack_to_buffer lib message buffer =
    if is_descriptor message.descriptor module_definition
    then some (lib.message_pack_to_buffer module_definition message buffer)
    else none

unfoldable pub module_definition_unpack :
    (lib : Protobuf)
    → Option ℕ
    → ℕ
    → List ℕ
    → lib.Heap
    → Option (Instance module_definition) × lib.Heap
module_definition_unpack lib allocator len data_bytes heap =
    lib.message_unpack module_definition allocator len data_bytes heap

unfoldable pub module_definition_free_unpacked :
    (lib : Protobuf) → Option (Instance module_definition) → Option ℕ → lib.Heap → Option lib.Heap
module_definition_free_unpacked lib none allocator heap = some heap
module_definition_free_unpacked lib (some message) allocator heap =
    if is_descriptor message.descriptor module_definition
    then some (lib.message_free_unpacked module_definition message allocator heap)
    else none

abbrev pub pipeline_definition_init_value : Instance pipeline_definition
pipeline_definition_init_value = initial pipeline_definition (record { modules = [] })

unfoldable pub pipeline_definition_init :
    Instance pipeline_definition → Instance pipeline_definition
pipeline_definition_init message = pipeline_definition_init_value

unfoldable pub pipeline_definition_get_packed_size :
    (lib : Protobuf) → Instance pipeline_definition → Option ℕ
pipeline_definition_get_packed_size lib message =
    if is_descriptor message.descriptor pipeline_definition
    then some (lib.message_get_packed_size pipeline_definition message)
    else none

unfoldable pub pipeline_definition_pack :
    (lib : Protobuf) → Instance pipeline_definition → Option (ℕ × List ℕ)
pipeline_definition_pack lib message =
    if is_descriptor message.descriptor pipeline_definition
    then some (lib.message_pack pipeline_definition message)
    else none

unfoldable pub pipeline_definition_pack_to_buffer :
    (lib : Protobuf) → Instance pipeline_definition → lib.Buffer → Option (ℕ × lib.Buffer)
pipeline_definition_pack_to_buffer lib message buffer =
    if is_descriptor message.descriptor pipeline_definition
    then some (lib.message_pack_to_buffer pipeline_definition message buffer)
    else none

unfoldable pub pipeline_definition_unpack :
    (lib : Protobuf)
    → Option ℕ
    → ℕ
    → List ℕ
    → lib.Heap
    → Option (Instance pipeline_definition) × lib.Heap
pipeline_definition_unpack lib allocator len data_bytes heap =
    lib.message_unpack pipeline_definition allocator len data_bytes heap

unfoldable pub pipeline_definition_free_unpacked :
    (lib : Protobuf) → Option (Instance pipeline_definition) → Option ℕ → lib.Heap → Option lib.Heap
pipeline_definition_free_unpacked lib none allocator heap = some heap
pipeline_definition_free_unpacked lib (some message) allocator heap =
    if is_descriptor message.descriptor pipeline_definition
    then some (lib.message_free_unpacked pipeline_definition message allocator heap)
    else none
