-- ===== src/Upload/Defs.antt =====
-- `upload`. A `uint32_t` offset wraps around, and `offset < len` compares with `len` converted to
-- `uint32_t`.
use dipp.Base.{ℕ, zero, suc, ◌+◌, ◌-◌, ◌%◌, ◌^◌, List, Option, none, some, ltb, if◌then◌else◌}
use dipp.Base.Int.{ℤ, pos_part, to_u32}
use dipp.Base.Word.{read_bytes, read_u32}
use dipp.Types.{Metadata}
use dipp.Machine.{Env, M, ◌>>=◌, ◌>>◌, pure, fault, ask, emit, unpack, ring_write}

-- Where the next image starts: behind the size word, the metadata and the image.
unfoldable pub block_end : ℕ → ℕ → Metadata → ℕ
block_end start meta_size metadata =
    ((start + 4) % 2 ^ 32 + meta_size + to_u32 metadata.size) % 2 ^ 32

-- A value read from memory; a read behind the memory has no defined result.
abbrev pub loaded : {A : Type 0} → Option A → M A
loaded none = fault
loaded (some a) = pure a

module _ (env : Env) (memory : List ℕ) where
  -- The body of the loop: from the offset of one image to that of the next. A NULL of
  -- `metadata__unpack` is read through.
  unfoldable pub upload_image : ℕ → M ℕ
  unfolding block_end
  upload_image start = do
    meta_size ← loaded (read_u32 memory start)
    meta_bytes ← loaded (read_bytes memory ((start + 4) % 2 ^ 32) meta_size)
    unpacked ← ask (env.unpack_metadata meta_bytes) unpack
    metadata ← loaded unpacked
    block ←
        loaded
          (read_bytes memory start ((block_end start meta_size metadata + 2 ^ 32 - start) % 2 ^ 32))
    emit (ring_write block)
    pure (block_end start meta_size metadata)

  -- The loop, with `rounds` the images that `image_index` has not reached.
  unfoldable pub upload_images : ℤ → ℕ → ℕ → M (Unit {0})
  upload_images len zero offset = pure tt
  upload_images len (suc rounds) offset =
      if ltb offset (to_u32 len)
      then (upload_image offset >>= λ next. upload_images len rounds next)
      else pure tt

  unfoldable pub upload : ℤ → ℤ → M (Unit {0})
  upload num len = upload_images len (pos_part num) 0
