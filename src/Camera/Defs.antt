-- ===== src/Camera/Defs.antt =====
-- `main` of sim/camera_control.c: the metadata, the segment that it fills, and the message. The
-- result is `none` where the program ends without a message or does what C leaves undefined.
use dipp.Base.{
  ℕ, zero, suc, ◌+◌, ◌-◌, ◌*◌, ◌%◌, ◌^◌, List, [], ◌++◌, Option, none, some, leb, ltb, ◌&&◌,
  if◌then◌else◌, length, take, drop, replicate,
}
use dipp.Base.Int.{ℤ, pos, negsuc, to_i32}
use dipp.Base.Text.{codes}
use dipp.Base.Word.{le_bytes}
use dipp.Types.{Metadata}

infixl 5 ◌>>=◌
abbrev pub ◌>>=◌ : {A B : Type 0} → Option A → (A → Option B) → Option B
none >>= f = none
some a >>= f = f a

abbrev pub image_height : ℕ
image_height = 2056

abbrev pub image_width : ℕ
image_width = 2464

abbrev pub image_size : ℕ
image_size = image_height * image_width * 1 * 2

-- `new_meta`, for an image of `size` bytes.
abbrev pub camera_metadata : ℕ → Metadata
camera_metadata size = record {
  size = pos size;
  height = pos image_height;
  width = pos image_width;
  channels = pos 1;
  timestamp = pos 0;
  bits_pixel = pos 12;
  obid = pos 0;
  camera = codes "rgb";
  items = [];
}

-- A `size_t` of an `int`.
abbrev pub to_size : ℤ → ℕ
to_size (pos n) = n
to_size (negsuc n) = (2 ^ 64 - 1) - n

-- Bytes written at an offset of a segment; a write behind its end, or an `int` offset that
-- overflows, has no defined result.
unfoldable pub write_at : List ℕ → ℕ → List ℕ → Option (List ℕ)
write_at memory offset bytes =
    if leb (offset + length bytes) (length memory) && ltb (offset + length bytes) (2 ^ 31)
    then some (take offset memory ++ (bytes ++ drop (offset + length bytes) memory))
    else none

module _ (meta_buf file : List ℕ) (size : ℕ) where
  -- The body of the loop: the segment and the offset behind it. `fread` writes what the file has,
  -- and the offset moves by the size of an image in any case.
  unfoldable pub insert_image : List ℕ → ℕ → Option (List ℕ × ℕ)
  unfolding write_at
  insert_image memory offset = do
    with_size ← write_at memory offset (le_bytes 4 (length meta_buf))
    with_meta ← write_at with_size (offset + 4) meta_buf
    with_image ← write_at with_meta (offset + 4 + length meta_buf) (take size file)
    some (with_image, offset + 4 + length meta_buf + size)

  -- The loop, for the images that are left.
  unfoldable pub insert_images : ℕ → List ℕ → ℕ → Option (List ℕ)
  unfolding insert_image
  insert_images zero memory offset = some memory
  insert_images (suc rounds) memory offset =
      insert_image memory offset >>= λ r. insert_images rounds r.0 r.1

-- `batch_size`, computed as `size_t` and cut to `uint32_t`.
unfoldable pub camera_batch_size : ℕ → ℕ → ℤ → ℕ
camera_batch_size size meta_size num_images =
    (size + 4 + meta_size) * to_size num_images % 2 ^ 64 % 2 ^ 32

-- The members of `data` that the program sets. Its type is the ImageBatch of camera_control.h, a
-- header that is not in the repository.
pub record CameraBatch : Type 0 where
  pub mtype : ℕ
  pub num_images : ℤ
  pub batch_size : ℤ
  pub shmid : ℤ
  pub pipeline_id : ℤ

-- The batch and the bytes of its segment, for an image of `size` bytes, which is `image_size`: `pack` is
-- `metadata__pack`, `shmget` gives the id of a new segment of the size that it takes, and `file` is the content of the
-- image file, `none` if it cannot be opened.
unfoldable pub camera :
    (Metadata → List ℕ) → (ℕ → Option ℤ) → Option (List ℕ) → ℕ → ℤ → Option (CameraBatch × List ℕ)
unfolding insert_images camera_batch_size
camera pack shmget file size num_images = do
  let meta_buf = pack (camera_metadata size)
  let batch_size = camera_batch_size size (length meta_buf) num_images
  contents ← file
  shmid ← shmget batch_size
  segment ← insert_images meta_buf contents size (to_size num_images) (replicate batch_size 0) 0
  some (
    record {
      mtype = 1;
      num_images = num_images;
      batch_size = to_i32 batch_size;
      shmid = shmid;
      pipeline_id = pos 1;
    },
    segment,
  )
