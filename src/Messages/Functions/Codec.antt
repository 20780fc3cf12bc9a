-- ===== src/Messages/Functions/Codec.antt =====
-- A message that is packed and unpacked by the generated functions.
use dipp.Base.{
  ℕ, ◌≡◌, ◌≢◌, refl, List, [], ◌∷◌, Option, none, some, true, length, get_elem?, ◌==◌, Bool-cases,
  ap, sym, ◌∙◌, inl, inr, arith,
}
use dipp.Messages.Descriptors.{
  Message, metadata_item, metadata, config_parameter, module_config, module_definition,
  pipeline_definition, dtpmetadata_item, dtpmetadata,
}
use dipp.Messages.Structs.{Instance, place, is_descriptor, Protobuf}
use dipp.Messages.Functions.Guards.{
  functions_of, asserted, get_packed_size-asserted, pack-asserted, pack_to_buffer-asserted,
  unpack-message_unpack, free_unpacked-asserted,
}

-- The bytes that protobuf-c makes of a message.
abbrev pub packed_bytes : (lib : Protobuf) (m : Message) → Instance m → List ℕ
packed_bytes lib m x = (lib.message_pack m x).1

-- What protobuf-c promises for a message that it can pack: the size that it states is the number of
-- bytes that it writes, and from these bytes it makes the message again.
pub record Codes (lib : Protobuf) (m : Message) (x : Instance m) : Type 0 where
  pub size_stated : lib.message_get_packed_size m x ≡ length (packed_bytes lib m x)
  pub size_returned : (lib.message_pack m x).0 ≡ length (packed_bytes lib m x)
  pub unpacks :
      (allocator : Option ℕ) (heap : lib.Heap)
      → (lib.message_unpack m allocator
          (length (packed_bytes lib m x))
          (packed_bytes lib m x)
          heap).0
        ≡ some x

is_descriptor_refl : (d : Option Message) (m : Message) → d ≡ some m → is_descriptor d m ≡ true
unfolding is_descriptor
is_descriptor_refl d m e =
    ap (λ o. is_descriptor o m) e ∙ (let same : place m == place m ≡ true = ground arith in same)

asserted-some :
    {A : Type 0}
    → (m : Message) (x : Instance m) (result : A) → x.descriptor ≡ some m
    → asserted m x result ≡ some result
asserted-some m x result e = rw (is_descriptor_refl x.descriptor m e) refl

-- Let a message of any of the eight kinds point to its own descriptor, and let protobuf-c be able
-- to pack it. Then none of the assertions in the generated functions fails: `get_packed_size`
-- returns the number of bytes that `pack` writes and returns, `unpack` makes the message again from
-- them, and `free_unpacked` frees it.
pub pack-unpack :
    (lib : Protobuf) (m : Message) (x : Instance m)
    → x.descriptor ≡ some m
    → Codes lib m x
    → ((functions_of lib m).get_packed_size x ≡ some (length (packed_bytes lib m x)))
      × ((functions_of lib m).pack x ≡ some (length (packed_bytes lib m x), packed_bytes lib m x))
      × ((allocator : Option ℕ) (heap : lib.Heap)
          → ((functions_of lib m).unpack allocator
              (length (packed_bytes lib m x))
              (packed_bytes lib m x)
              heap).0
            ≡ some x)
      × ((allocator : Option ℕ) (heap : lib.Heap)
          → (functions_of lib m).free_unpacked (some x) allocator heap
            ≡ some (lib.message_free_unpacked m x allocator heap))
pack-unpack lib m x own codes = (
  get_packed_size-asserted lib m x
      ∙ asserted-some m x (lib.message_get_packed_size m x) own
      ∙ ap some codes.size_stated,
  pack-asserted lib m x
      ∙ asserted-some m x (lib.message_pack m x) own
      ∙ ap (λ n. some (n, packed_bytes lib m x)) codes.size_returned,
  λ allocator heap.
      ap (λ r. r.0)
        (unpack-message_unpack lib m allocator (length (packed_bytes lib m x))
          (packed_bytes lib m x) heap)
      ∙ codes.unpacks allocator heap,
  λ allocator heap.
      free_unpacked-asserted lib m x allocator heap
      ∙ asserted-some m x (lib.message_free_unpacked m x allocator heap) own,
)

-- The messages in the order of their places.
abbrev messages : List Message
messages =
    metadata_item ∷ metadata ∷ config_parameter ∷ module_config ∷ module_definition
    ∷ pipeline_definition ∷ dtpmetadata_item ∷ dtpmetadata ∷ []

get_elem?-place : (m : Message) → get_elem? messages (place m) ≡ some m
get_elem?-place metadata_item = refl
get_elem?-place metadata = refl
get_elem?-place config_parameter = refl
get_elem?-place module_config = refl
get_elem?-place module_definition = refl
get_elem?-place pipeline_definition = refl
get_elem?-place dtpmetadata_item = refl
get_elem?-place dtpmetadata = refl

is_descriptor-some : (d : Option Message) (m : Message) → is_descriptor d m ≡ true → d ≡ some m
unfolding is_descriptor
is_descriptor-some none m e = cc
is_descriptor-some (some d) m e =
    let same : place d ≡ place m = ground arith in
    sym (get_elem?-place d) ∙ ap (λ n. get_elem? messages n) same ∙ get_elem?-place m

asserted-none :
    {A : Type 0}
    → (m : Message) (x : Instance m) (result : A) → x.descriptor ≢ some m
    → asserted m x result ≡ none
asserted-none m x result other = elim (Bool-cases (is_descriptor x.descriptor m)) [
  | inl e ↦ absurd (other (is_descriptor-some x.descriptor m e))
  | inr e ↦ rw e refl
]

-- A message that does not point to the descriptor of its kind ends the process in each of the
-- functions that take it.
pub functions_of-abort :
    (lib : Protobuf) (m : Message) (x : Instance m) (buffer : lib.Buffer) (allocator : Option ℕ)
    (heap : lib.Heap)
    → x.descriptor ≢ some m
    → ((functions_of lib m).get_packed_size x ≡ none)
      × ((functions_of lib m).pack x ≡ none)
      × ((functions_of lib m).pack_to_buffer x buffer ≡ none)
      × ((functions_of lib m).free_unpacked (some x) allocator heap ≡ none)
functions_of-abort lib m x buffer allocator heap other = (
  get_packed_size-asserted lib m x ∙ asserted-none m x (lib.message_get_packed_size m x) other,
  pack-asserted lib m x ∙ asserted-none m x (lib.message_pack m x) other,
  pack_to_buffer-asserted lib m x buffer
      ∙ asserted-none m x (lib.message_pack_to_buffer m x buffer) other,
  free_unpacked-asserted lib m x allocator heap
      ∙ asserted-none m x (lib.message_free_unpacked m x allocator heap) other,
)
