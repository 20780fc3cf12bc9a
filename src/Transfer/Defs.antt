-- ===== src/Transfer/Defs.antt =====
-- `observation_read`, `get_payload_meta`, `observation_get_meta_size`, `observation_get_metadata`,
-- `observation_get_dtp_meta` and `dtp_indeces_server`. The ring buffer stays as it is while a
-- request is served.
use dipp.Base.{
  ℕ, ◌+◌, ◌*◌, ◌%◌, ◌^◌, List, [], ◌∷◌, ◌++◌, Option, none, some, Bool, ◌==◌, if◌then◌else◌,
}
use dipp.Base.Int.{to_u32}
use dipp.Base.Word.{le_bytes, le_value}
use dipp.Types.{Metadata}

-- What libvmem answers about the ring buffer `vmem_images`: whether an index is valid, the size of
-- an element, the number of elements, the offset of a byte of an element, and the bytes from an
-- offset on; and what protobuf-c makes of packed metadata, `none` for NULL.
pub record RingLib : Type 0 where
  pub is_valid_index : ℕ → Bool
  pub element_size : ℕ → ℕ
  pub amount_of_elements : ℕ
  pub ring_offset : ℕ → ℕ → ℕ
  pub read : ℕ → ℕ → List ℕ
  pub unpack_metadata : List ℕ → Option Metadata

pub record ObservationMeta : Type 0 where
  pub index : ℕ
  pub size : ℕ
  pub obid : ℕ

-- The two fields of `dftp_payload_meta_t` that are set.
pub record PayloadMeta : Type 0 where
  pub size : ℕ
  pub read : ℕ → ℕ → ℕ → List ℕ

-- The bytes of a packet's buffer. The server does not ask how many of them came with the packet.
pub record Packet : Type 0 where
  pub byte_at : ℕ → ℕ

-- What happens in one round of the server: `csp_accept` gives NULL, `csp_read` gives NULL, or a
-- packet arrives.
pub data Connection : Type 0 where
  no_connection : Connection
  no_request : Connection
  request : Packet → Connection

-- The packets that have been sent, or a read through a NULL pointer.
pub data Served : Type 0 where
  sent : List (List ℕ) → Served
  crashed : Served

abbrev pub observation_amount_request : ℕ
observation_amount_request = 0

abbrev pub observation_meta_request : ℕ
observation_meta_request = 1

-- `response->data`, behind the first byte: the struct, with two bytes of padding that nothing sets.
unfoldable pub observation_meta_bytes : List ℕ → ObservationMeta → List ℕ
observation_meta_bytes padding m =
    le_bytes 2 m.index ++ (padding ++ (le_bytes 4 m.size ++ le_bytes 4 m.obid))

-- The index of a request.
unfoldable pub requested_index : Packet → ℕ
requested_index p = (p.byte_at 1 + p.byte_at 2 * 2 ^ 8) % 2 ^ 16

module _ (lib : RingLib) where
  -- The bytes of `output` behind the call.
  unfoldable pub observation_read : ℕ → ℕ → ℕ → List ℕ
  observation_read index offset_within_observation size =
      lib.read (lib.ring_offset index offset_within_observation) size

  -- `none` for `false`.
  unfoldable pub get_payload_meta : ℕ → Option PayloadMeta
  get_payload_meta payload_id =
      if lib.is_valid_index payload_id
      then some (record { size = lib.element_size payload_id; read = observation_read })
      else none

  unfoldable pub observation_get_meta_size : ℕ → ℕ
  unfolding observation_read
  observation_get_meta_size index = le_value (observation_read index 0 4)

  unfoldable pub observation_get_metadata : ℕ → Option Metadata
  unfolding observation_get_meta_size
  observation_get_metadata index =
      lib.unpack_metadata (observation_read index 4 (observation_get_meta_size index))

  -- `none` is a read through the NULL of `observation_get_metadata`.
  unfoldable pub observation_get_dtp_meta : ℕ → Option ObservationMeta
  unfolding observation_get_metadata
  observation_get_dtp_meta index = elim (observation_get_metadata index) [
    | none ↦ none
    | some meta ↦ some (record { index = index; size = to_u32 meta.size; obid = to_u32 meta.obid })
  ]

  -- The answer to a request for the metadata of an observation.
  unfoldable pub answer_meta : List ℕ → ℕ → Served
  unfolding observation_meta_bytes observation_get_dtp_meta
  answer_meta padding index =
      if lib.is_valid_index index
      then elim (observation_get_dtp_meta index) [
        | none ↦ crashed
        | some obs_meta ↦ sent ((1 ∷ observation_meta_bytes padding obs_meta) ∷ [])
      ]
      else sent ((0 ∷ []) ∷ [])

  -- The two cases of a request; any other is read and dropped.
  unfoldable pub answer : List ℕ → Packet → Served
  unfolding answer_meta requested_index
  answer padding p =
      if p.byte_at 0 == observation_amount_request
      then sent (le_bytes 4 lib.amount_of_elements ∷ [])
      else (if p.byte_at 0 == observation_meta_request
          then answer_meta padding (requested_index p)
          else sent [])

  -- The packets of a round before those of the later ones.
  unfoldable pub then_serve : Served → Served → Served
  then_serve crashed later = crashed
  then_serve (sent packets) crashed = crashed
  then_serve (sent packets) (sent later) = sent (packets ++ later)

  -- The loop, for as many rounds as there are connections.
  unfoldable pub dtp_indeces_server : List ℕ → List Connection → Served
  unfolding answer then_serve
  dtp_indeces_server padding [] = sent []
  dtp_indeces_server padding (no_connection ∷ cs) = dtp_indeces_server padding cs
  dtp_indeces_server padding (no_request ∷ cs) = crashed
  dtp_indeces_server padding (request p ∷ cs) =
      then_serve (answer padding p) (dtp_indeces_server padding cs)
