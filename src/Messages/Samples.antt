-- ===== src/Messages/Samples.antt =====
-- A protobuf-c that packs every message to the same three bytes, and unpacks one message.
use dipp.Base.{ℕ, suc, ◌-◌, List, [], ◌∷◌, ◌++◌, Option, none, some}
use dipp.Messages.Descriptors.{Message, metadata}
use dipp.Messages.Structs.{Instance, Protobuf}

abbrev three_bytes : List ℕ
three_bytes = 5 ∷ 6 ∷ 7 ∷ []

abbrev unpacked : Instance metadata → (m : Message) → Option (Instance m)
unpacked x metadata = some x
unpacked x _ = none

-- A heap counts the messages on it.
abbrev pub sample_lib : Instance metadata → Protobuf
sample_lib x = record {
  Heap = ℕ;
  Buffer = List ℕ;
  message_get_packed_size = λ m y. 3;
  message_pack = λ m y. (3, three_bytes);
  message_pack_to_buffer = λ m y buffer. (3, three_bytes ++ buffer);
  message_unpack = λ m allocator len bytes heap. (unpacked x m, suc heap);
  message_free_unpacked = λ m y allocator heap. heap - 1;
}
