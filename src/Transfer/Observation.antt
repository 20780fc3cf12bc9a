-- ===== src/Transfer/Observation.antt =====
-- Observations that `upload` has put into the ring buffer, read back by the server.
use mathlib.Core.Path.{ap₂}
use dipp.Base.{
  ℕ, ◌+◌, ◌≡◌, ◌≤◌, ◌<◌, ◌^◌, refl, ap, ◌∙◌, List, [], ◌∷◌, ◌++◌, some, true, arith, length, take,
  drop, length-append, take-append, drop_add, take_add, take-all,
}
use dipp.Base.Int.{to_u32}
use dipp.Base.Word.{le_bytes, le_value, length-le_bytes, le_value-le_bytes}
use dipp.Types.{Metadata}
use dipp.Upload.Blocks.{Shot, block}
use dipp.Transfer.Defs.{
  RingLib, PayloadMeta, observation_read, get_payload_meta, observation_get_meta_size,
  observation_get_metadata, observation_get_dtp_meta,
}

-- The element at an index of the ring buffer holds these bytes: a read inside gives them.
abbrev pub Holds : RingLib → ℕ → List ℕ → Type 0
Holds lib index bytes =
    (offset n : ℕ)
    → offset + n ≤ length bytes
    → lib.read (lib.ring_offset index offset) n ≡ take n (drop offset bytes)

module _ (lib : RingLib) (index : ℕ) (shot : Shot) (holds : Holds lib index (block shot))
    (fits : length shot.meta < 2 ^ 32) where
  length-block : length (block shot) ≡ 4 + length shot.meta + length shot.image
  length-block = omega (
    arith,
    length-append (le_bytes 4 (length shot.meta)) (shot.meta ++ shot.image),
    length-append shot.meta shot.image,
    length-le_bytes 4 (length shot.meta),
  )

  observation_get_meta_size-block : observation_get_meta_size lib index ≡ length shot.meta
  unfolding observation_get_meta_size
  observation_get_meta_size-block =
      ap le_value (
        holds 0 4 (omega (arith, length-block))
        ∙ take-append (le_bytes 4 (length shot.meta)) (shot.meta ++ shot.image))
      ∙ le_value-le_bytes 4 (length shot.meta) (omega arith)

  meta_read : observation_read lib index 4 (length shot.meta) ≡ shot.meta
  unfolding observation_read
  meta_read =
      holds 4 (length shot.meta) (omega (arith, length-block)) ∙ take-append shot.meta shot.image

  observation_get_metadata-block :
      observation_get_metadata lib index ≡ lib.unpack_metadata shot.meta
  unfolding observation_get_metadata
  observation_get_metadata-block =
      ap (λ n. lib.unpack_metadata (observation_read lib index 4 n)) observation_get_meta_size-block
      ∙ ap lib.unpack_metadata meta_read

  -- An element that holds an observation as `upload` writes it, whose metadata unpacks: the server
  -- finds the index, and the size and the obid of the metadata.
  pub observation_get_dtp_meta-block :
      (m : Metadata)
      → lib.unpack_metadata shot.meta ≡ some m
      → observation_get_dtp_meta lib index
        ≡ some (record { index = index; size = to_u32 m.size; obid = to_u32 m.obid })
  unfolding observation_get_dtp_meta
  observation_get_dtp_meta-block m e =
      rw (observation_get_metadata-block ∙ e, observation_get_dtp_meta) refl

-- Reads of one part of an element after another.
abbrev pub read_chunks : (ℕ → ℕ → ℕ → List ℕ) → ℕ → ℕ → List ℕ → List ℕ
read_chunks read index offset [] = []
read_chunks read index offset (n ∷ ns) =
    read index offset n ++ read_chunks read index (offset + n) ns

abbrev pub sum : List ℕ → ℕ
sum [] = 0
sum (n ∷ ns) = n + sum ns

read_chunks-Holds :
    (lib : RingLib) (index : ℕ) (bytes : List ℕ) (sizes : List ℕ) (offset : ℕ)
    → Holds lib index bytes
    → offset + sum sizes ≤ length bytes
    → read_chunks (observation_read lib) index offset sizes ≡ take (sum sizes) (drop offset bytes)
unfolding observation_read
read_chunks-Holds lib index bytes [] offset holds h = refl
read_chunks-Holds lib index bytes (n ∷ ns) offset holds h =
    ap₂ (λ xs ys. xs ++ ys) (holds offset n (omega arith))
      (read_chunks-Holds lib index bytes ns (offset + n) holds (omega arith)
        ∙ ap (take (sum ns)) (drop_add offset n bytes))
    ∙ take_add n (sum ns) (drop offset bytes)

-- A valid index whose element holds these bytes: the server tells their number, and a client that
-- reads them with the function that it is given, in parts of any sizes, gets all of them in order.
pub get_payload_meta-Holds :
    (lib : RingLib) (index : ℕ) (bytes : List ℕ) (sizes : List ℕ)
    → Holds lib index bytes
    → lib.is_valid_index index ≡ true
    → lib.element_size index ≡ length bytes
    → sum sizes ≡ length bytes
    → (meta : PayloadMeta) × (get_payload_meta lib index ≡ some meta)
      × (meta.size ≡ length bytes)
      × (read_chunks meta.read index 0 sizes ≡ bytes)
unfolding get_payload_meta
get_payload_meta-Holds lib index bytes sizes holds valid size whole = (
  record { size = lib.element_size index; read = observation_read lib },
  rw valid refl,
  size,
  read_chunks-Holds lib index bytes sizes 0 holds (omega arith)
      ∙ ap (λ n. take n bytes) whole
      ∙ take-all bytes,
)
