-- ===== src/Messages/Functions/Module.antt =====
-- The functions of src/protobuf/module_config.pb-c.c and the initial values of
-- src/include/protobuf/module_config.pb-c.h. A failed assertion, which ends the process, is `none`.
use dipp.Base.{ℕ, List, [], Option, none, some, if◌then◌else◌}
use dipp.Types.{value_not_set}
use dipp.Messages.Descriptors.{config_parameter, module_config}
use dipp.Messages.Structs.{Instance, initial, is_descriptor, Protobuf}

abbrev pub config_parameter_init_value : Instance config_parameter
config_parameter_init_value = initial config_parameter (record { key = []; value = value_not_set })

unfoldable pub config_parameter_init : Instance config_parameter → Instance config_parameter
config_parameter_init message = config_parameter_init_value

unfoldable pub config_parameter_get_packed_size :
    (lib : Protobuf) → Instance config_parameter → Option ℕ
config_parameter_get_packed_size lib message =
    if is_descriptor message.descriptor config_parameter
    then some (lib.message_get_packed_size config_parameter message)
    else none

unfoldable pub config_parameter_pack :
    (lib : Protobuf) → Instance config_parameter → Option (ℕ × List ℕ)
config_parameter_pack lib message =
    if is_descriptor message.descriptor config_parameter
    then some (lib.message_pack config_parameter message)
    else none

unfoldable pub config_parameter_pack_to_buffer :
    (lib : Protobuf) → Instance config_parameter → lib.Buffer → Option (ℕ × lib.Buffer)
config_parameter_pack_to_buffer lib message buffer =
    if is_descriptor message.descriptor config_parameter
    then some (lib.message_pack_to_buffer config_parameter message buffer)
    else none

unfoldable pub config_parameter_unpack :
    (lib : Protobuf)
    → Option ℕ
    → ℕ
    → List ℕ
    → lib.Heap
    → Option (Instance config_parameter) × lib.Heap
config_parameter_unpack lib allocator len data_bytes heap =
    lib.message_unpack config_parameter allocator len data_bytes heap

unfoldable pub config_parameter_free_unpacked :
    (lib : Protobuf) → Option (Instance config_parameter) → Option ℕ → lib.Heap → Option lib.Heap
config_parameter_free_unpacked lib none allocator heap = some heap
config_parameter_free_unpacked lib (some message) allocator heap =
    if is_descriptor message.descriptor config_parameter
    then some (lib.message_free_unpacked config_parameter message allocator heap)
    else none

abbrev pub module_config_init_value : Instance module_config
module_config_init_value = initial module_config (record { parameters = [] })

unfoldable pub module_config_init : Instance module_config → Instance module_config
module_config_init message = module_config_init_value

unfoldable pub module_config_get_packed_size : (lib : Protobuf) → Instance module_config → Option ℕ
module_config_get_packed_size lib message =
    if is_descriptor message.descriptor module_config
    then some (lib.message_get_packed_size module_config message)
    else none

unfoldable pub module_config_pack : (lib : Protobuf) → Instance module_config → Option (ℕ × List ℕ)
module_config_pack lib message =
    if is_descriptor message.descriptor module_config
    then some (lib.message_pack module_config message)
    else none

unfoldable pub module_config_pack_to_buffer :
    (lib : Protobuf) → Instance module_config → lib.Buffer → Option (ℕ × lib.Buffer)
module_config_pack_to_buffer lib message buffer =
    if is_descriptor message.descriptor module_config
    then some (lib.message_pack_to_buffer module_config message buffer)
    else none

unfoldable pub module_config_unpack :
    (lib : Protobuf) → Option ℕ → ℕ → List ℕ → lib.Heap → Option (Instance module_config) × lib.Heap
module_config_unpack lib allocator len data_bytes heap =
    lib.message_unpack module_config allocator len data_bytes heap

unfoldable pub module_config_free_unpacked :
    (lib : Protobuf) → Option (Instance module_config) → Option ℕ → lib.Heap → Option lib.Heap
module_config_free_unpacked lib none allocator heap = some heap
module_config_free_unpacked lib (some message) allocator heap =
    if is_descriptor message.descriptor module_config
    then some (lib.message_free_unpacked module_config message allocator heap)
    else none
