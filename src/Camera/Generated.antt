-- ===== src/Camera/Generated.antt =====
-- sim/camera_control.c with the generated functions of src/protobuf/metadata.pb-c.c: what it packs,
-- src/vmem/vmem_upload_local.c unpacks.
use dipp.Base.{Option, ℕ, ◌≡◌, ◌∙◌, ap, refl, List, [], none, some, length}
use dipp.Base.Text.{codes}
use dipp.Base.Int.{pos}
use dipp.Types.{Metadata}
use dipp.Machine.{Env, History}
use dipp.Upload.Blocks.{Shot}
use dipp.Messages.Descriptors.{metadata}
use dipp.Messages.Structs.{Instance, initial, Protobuf}
use dipp.Messages.Functions.Image.{metadata_init_value, metadata_pack, metadata_unpack}
use dipp.Messages.Functions.Codec.{packed_bytes, Codes, pack-unpack}
use dipp.Camera.Defs.{image_height, image_width}

-- METADATA__INIT and the members that the camera sets.
abbrev pub new_meta : ℕ → Instance metadata
new_meta size = record metadata_init_value {
  contents = record metadata_init_value.contents {
    size = pos size;
    width = pos image_width;
    height = pos image_height;
    channels = pos 1;
    timestamp = pos 0;
    bits_pixel = pos 12;
    obid = pos 0;
    camera = codes "rgb";
  };
}

-- The bytes in `meta_buf` behind the call; none where an assertion fails.
abbrev written : Option (ℕ × List ℕ) → List ℕ
written none = []
written (some (n, bytes)) = bytes

abbrev pub pack_metadata : Protobuf → Metadata → List ℕ
pack_metadata lib contents = written (metadata_pack lib (initial metadata contents))

-- What the caller of `metadata__unpack` reads through the pointer.
abbrev pub contents_of : Option (Instance metadata) → Option Metadata
contents_of none = none
contents_of (some x) = some x.contents

-- An image with the bytes that its metadata is packed to.
abbrev pub camera_shot : Protobuf → List ℕ → Shot
camera_shot lib image = record {
  meta = packed_bytes lib metadata (new_meta (length image));
  image = image;
}

-- The bytes in `meta_buf` are those of protobuf-c.
pub pack_metadata-packed_bytes :
    (lib : Protobuf) (size : ℕ)
    → Codes lib metadata (new_meta size)
    → pack_metadata lib (new_meta size).contents ≡ packed_bytes lib metadata (new_meta size)
pack_metadata-packed_bytes lib size codable =
    let (measured, packed, unpacked, freed) =
      pack-unpack lib metadata (new_meta size) refl codable in
    ap written packed

-- From these bytes DIPP reads the metadata.
pub unpack_metadata-packed_bytes :
    (lib : Protobuf) (heap : History → lib.Heap) (env : Env) (size : ℕ)
    → Codes lib metadata (new_meta size)
    → ((bytes : List ℕ) (h : History)
        → env.unpack_metadata bytes h
          ≡ contents_of (metadata_unpack lib none (length bytes) bytes (heap h)).0)
    → (h : History)
    → env.unpack_metadata (packed_bytes lib metadata (new_meta size)) h
      ≡ some (new_meta size).contents
unpack_metadata-packed_bytes lib heap env size codable reads h =
    let (measured, packed, unpacked, freed) =
      pack-unpack lib metadata (new_meta size) refl codable in
    reads (packed_bytes lib metadata (new_meta size)) h ∙ ap contents_of (unpacked none (heap h))
