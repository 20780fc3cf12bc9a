-- ===== src/Process/Save.antt =====
-- `save_images`, which writes each image of a batch into a file of its own.
use dipp.Base.{
  ℕ, zero, suc, ◌+◌, ◌/◌, ◌%◌, ◌^◌, List, [], ◌∷◌, ◌++◌, Option, none, some, ltb, if◌then◌else◌,
  length,
}
use dipp.Base.Int.{ℤ, pos, negsuc, pos_part, to_u32}
use dipp.Base.Text.{codes}
use dipp.Base.Word.{read_bytes, read_u32}
use dipp.Types.{Text, Metadata}
use dipp.Machine.{Env, M, ◌>>=◌, ◌>>◌, pure, fault, ask, emit, unpack, fopen, fwrite, fclose}
use dipp.Upload.{loaded}

-- `%d` of a number that is not negative; ten digits are enough for an `int`.
unfoldable pub digits : ℕ → ℕ → Text
digits zero n = []
digits (suc fuel) n =
    let rest = digits fuel (n / 10) in
    if ltb n 10 then (48 + n) ∷ [] else rest ++ (48 + n % 10) ∷ []

unfoldable pub decimal : ℕ → Text
unfolding digits
decimal n = digits 10 n

-- `sprintf(filename, "%s%d.raw", …)`
unfoldable pub raw_name : Text → ℕ → Text
unfolding decimal
raw_name filename_base image_index = filename_base ++ (decimal image_index ++ codes ".raw")

-- The size of a `filename` with its final zero.
abbrev pub filename_size : ℕ
filename_size = 20

-- The bytes that `fwrite` reads: a negative size is a huge `size_t`, and leaves the memory.
unfoldable pub image_bytes : List ℕ → ℕ → ℤ → Option (List ℕ)
image_bytes memory offset (pos n) = read_bytes memory offset n
image_bytes memory offset (negsuc n) = none

module _ (env : Env) (memory : List ℕ) (filename_base : Text) where
  -- `sprintf` into the 20 bytes of `filename`, and `fopen`.
  unfoldable pub open_file : ℕ → M (Option Text)
  unfolding raw_name
  open_file image_index =
      if ltb (length (raw_name filename_base image_index)) filename_size
      then (do
        opened ←
            ask (env.fopen_ok (raw_name filename_base image_index))
              (fopen (raw_name filename_base image_index))
        pure (if opened then some (raw_name filename_base image_index) else none))
      else fault

  -- What follows `fopen`: the offset of the next image, `none` for the return.
  unfoldable pub write_image : ℕ → Metadata → Option Text → M (Option ℕ)
  unfolding image_bytes
  write_image start metadata none = pure none
  write_image start metadata (some file) = do
    bytes ← loaded (image_bytes memory start metadata.size)
    emit (fwrite file bytes)
    emit (fclose file)
    pure (some ((start + to_u32 metadata.size) % 2 ^ 32))

  -- The body of the loop.
  unfoldable pub save_image : ℕ → ℕ → M (Option ℕ)
  unfolding open_file write_image
  save_image image_index offset = do
    meta_size ← loaded (read_u32 memory offset)
    meta_bytes ← loaded (read_bytes memory ((offset + 4) % 2 ^ 32) meta_size)
    unpacked ← ask (env.unpack_metadata meta_bytes) unpack
    metadata ← loaded unpacked
    file ← open_file image_index
    write_image (((offset + 4) % 2 ^ 32 + meta_size) % 2 ^ 32) metadata file

  -- The loop, with `rounds` the images that `image_index` has not reached.
  unfoldable pub save_loop : ℤ → ℕ → ℕ → ℕ → M (Unit {0})
  save_loop batch_size zero image_index offset = pure tt
  save_loop batch_size (suc rounds) image_index offset =
      if ltb offset (to_u32 batch_size)
      then (save_image image_index offset >>= λ next. elim next [
        | none ↦ pure tt
        | some start ↦ save_loop batch_size rounds (image_index + 1) start
      ])
      else pure tt

  unfoldable pub save_images : ℤ → ℤ → M (Unit {0})
  unfolding save_loop
  save_images num_images batch_size = save_loop batch_size (pos_part num_images) 0 0
