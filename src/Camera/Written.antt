-- ===== src/Camera/Written.antt =====
-- What the camera leaves in the segment, and what becomes of it.
use native.Mathlib.Nat.{suc-mul, mul_comm}
use dipp.Base.{
  ℕ, zero, suc, ◌+◌, ◌-◌, ◌*◌, ◌^◌, ◌≡◌, ◌≤◌, ◌<◌, refl, sym, ap, ◌∙◌, List, [], ◌∷◌, ◌++◌, Option,
  some, true, ◌&&◌, arith, leb, ltb, length, take, drop, replicate, length-append, length-drop,
  take-append, drop-append, drop_add, append_assoc, length-replicate,
}
use dipp.Base.Int.{ℤ, pos, to_i32}
use dipp.Base.Word.{le_bytes, length-le_bytes}
use dipp.Types.{Metadata}
use dipp.Upload.Blocks.{Shot, block, layout}
use dipp.Camera.Defs.{
  camera_metadata, write_at, insert_image, insert_images, camera_batch_size, camera,
}

-- A write at the end of what has been written.
write_at-end :
    (before rest bytes : List ℕ) (offset : ℕ)
    → offset ≡ length before
    → length bytes ≤ length rest
    → length before + length bytes < 2 ^ 31
    → write_at (before ++ rest) offset bytes ≡ some ((before ++ bytes) ++ drop (length bytes) rest)
unfolding write_at
write_at-end before rest bytes offset e room small =
    rw
      (
        e,
        fits,
        drop_add (length before) (length bytes) (before ++ rest),
        take-append before rest,
        drop-append before rest,
      )
      (ap some (sym (append_assoc before bytes (drop (length bytes) rest))))
  where
    fits :
        (leb (length before + length bytes) (length (before ++ rest))
          && ltb (length before + length bytes) (2 ^ 31))
        ≡ true
    fits = ground (arith, length-append before rest)

-- The same image `n` times.
abbrev pub shots : Shot → ℕ → List Shot
shots shot n = replicate n shot

module _ (shot : Shot) (file : List ℕ) (size : ℕ) (content : take size file ≡ shot.image)
    (whole : length shot.image ≡ size) where
  word : List ℕ
  word = le_bytes 4 (length shot.meta)

  abbrev grown : List ℕ → List ℕ
  grown before = ((before ++ le_bytes 4 (length shot.meta)) ++ shot.meta) ++ shot.image

  abbrev left : List ℕ → List ℕ
  left rest =
      drop (length shot.image)
        (drop (length shot.meta) (drop (length (le_bytes 4 (length shot.meta))) rest))

  length-grown :
      (before : List ℕ)
      → length (grown before) ≡ length before + 4 + length shot.meta + length shot.image
  length-grown before = omega (
    arith,
    length-append ((before ++ le_bytes 4 (length shot.meta)) ++ shot.meta) shot.image,
    length-append (before ++ le_bytes 4 (length shot.meta)) shot.meta,
    length-append before (le_bytes 4 (length shot.meta)),
    length-le_bytes 4 (length shot.meta),
  )

  length-left :
      (rest : List ℕ)
      → length (left rest) ≡ length rest - (4 + length shot.meta + length shot.image)
  length-left rest = omega (
    arith,
    length-drop (length shot.image)
        (drop (length shot.meta) (drop (length (le_bytes 4 (length shot.meta))) rest)),
    length-drop (length shot.meta) (drop (length (le_bytes 4 (length shot.meta))) rest),
    length-drop (length (le_bytes 4 (length shot.meta))) rest,
    length-le_bytes 4 (length shot.meta),
  )

  insert_image-block :
      (before rest : List ℕ) (offset : ℕ)
      → offset ≡ length before
      → 4 + length shot.meta + length shot.image ≤ length rest
      → length before + length rest < 2 ^ 31
      → insert_image shot.meta file size (before ++ rest) offset
        ≡ some (grown before ++ left rest, offset + 4 + length shot.meta + size)
  unfolding insert_image
  insert_image-block before rest offset e room small =
      rw
        (
          content,
          write_at-end before rest w offset e (omega (arith, sizes)) (omega (arith, sizes)),
          write_at-end (before ++ w) (drop (length w) rest) shot.meta (offset + 4)
              (omega (arith, sizes)) (omega (arith, sizes)) (omega (arith, sizes)),
          write_at-end ((before ++ w) ++ shot.meta) (drop (length shot.meta) (drop (length w) rest))
              shot.image (offset + 4 + length shot.meta) (omega (arith, sizes))
              (omega (arith, sizes)) (omega (arith, sizes)),
        )
        refl
    where
      w : List ℕ
      w = le_bytes 4 (length shot.meta)

      sizes :
          (length w ≡ 4)
          × (length (before ++ w) ≡ length before + 4)
          × (length ((before ++ w) ++ shot.meta) ≡ length before + 4 + length shot.meta)
          × (length (drop (length w) rest) ≡ length rest - 4)
          × (length (drop (length shot.meta) (drop (length w) rest))
              ≡ length rest - 4 - length shot.meta)
      sizes = omega (
        arith,
        length-le_bytes 4 (length shot.meta),
        length-append before w,
        length-append (before ++ w) shot.meta,
        length-drop (length w) rest,
        length-drop (length shot.meta) (drop (length w) rest),
      )

  grown-eq : (before after : List ℕ) → grown before ++ after ≡ before ++ (block shot ++ after)
  grown-eq before after = simp append_assoc

  insert_images-layout :
      (n : ℕ) (before rest : List ℕ) (offset : ℕ)
      → offset ≡ length before
      → length rest ≡ n * (4 + length shot.meta + length shot.image)
      → length before + length rest < 2 ^ 31
      → insert_images shot.meta file size n (before ++ rest) offset
        ≡ some (before ++ layout (shots shot n))
  unfolding insert_images
  insert_images-layout zero before [] offset e room small = refl
  insert_images-layout zero before (x ∷ xs) offset e room small = absurd (omega arith)
  insert_images-layout (suc n) before rest offset e room small =
      rw (insert_image-block before rest offset e (omega (arith, room, fits)) small) (
        insert_images-layout n (grown before) (left rest) (offset + 4 + length shot.meta + size)
          (omega (arith, length-grown before, whole)) (omega (arith, length-left rest, room, fits))
          (omega (arith, length-grown before, length-left rest, room, fits))
        ∙ ap some (grown-eq before (layout (shots shot n))))
    where
      fits :
          suc n * (4 + length shot.meta + length shot.image)
          ≡ n * (4 + length shot.meta + length shot.image)
            + (4 + length shot.meta + length shot.image)
      fits = suc-mul n (4 + length shot.meta + length shot.image)

length-layout :
    (shot : Shot) (n : ℕ)
    → length (layout (shots shot n)) ≡ n * (4 + length shot.meta + length shot.image)
length-layout shot zero = omega arith
length-layout shot (suc n) = omega (
  arith,
  suc-mul n (4 + length shot.meta + length shot.image),
  length-layout shot n,
  length-append (block shot) (layout (shots shot n)),
  length-append (le_bytes 4 (length shot.meta)) (shot.meta ++ shot.image),
  length-append shot.meta shot.image,
  length-le_bytes 4 (length shot.meta),
)

-- An image file with at least one image, a segment that can be created, and a number of images
-- whose batch is shorter than 2^31 bytes: the camera sends a batch with this number of images, its
-- size and the id of the segment, and the segment holds that many observations in the layout that
-- `upload` reads, each the packed metadata and the image, and nothing else.
pub camera-layout :
    (pack : Metadata → List ℕ) (shmget : ℕ → Option ℤ) (file : List ℕ) (size n : ℕ) (id : ℤ)
    (shot : Shot)
    → pack (camera_metadata size) ≡ shot.meta
    → take size file ≡ shot.image
    → length shot.image ≡ size
    → shmget (length (layout (shots shot n))) ≡ some id
    → length (layout (shots shot n)) < 2 ^ 31
    → camera pack shmget (some file) size (pos n)
      ≡ some (
        record {
          mtype = 1;
          num_images = pos n;
          batch_size = pos (length (layout (shots shot n)));
          shmid = id;
          pipeline_id = pos 1;
        },
        layout (shots shot n),
      )
unfolding camera camera_batch_size
camera-layout pack shmget file size n id shot packed content whole created small =
    rw (packed, batch_size_eq, created, inserted, to_i32-small) refl
  where
    total : ℕ
    total = length (layout (shots shot n))

    batch_size_eq : camera_batch_size size (length shot.meta) (pos n) ≡ total
    batch_size_eq = omega (
      arith,
      length-layout shot n,
      ap (λ k. (k + 4 + length shot.meta) * n) (sym whole),
      mul_comm (length shot.image + 4 + length shot.meta) n,
      ap (λ k. n * k) regroup,
      small,
    )
      where
        regroup :
            length shot.image + 4 + length shot.meta ≡ 4 + length shot.meta + length shot.image
        regroup = omega arith

    to_i32-small : to_i32 total ≡ pos total
    to_i32-small = ground (arith, small)

    inserted :
        insert_images shot.meta file size n (replicate total 0) 0 ≡ some (layout (shots shot n))
    inserted =
        insert_images-layout shot file size content whole n [] (replicate total 0) 0 refl
          (length-replicate {A = ℕ} total 0 ∙ length-layout shot n)
          (omega (arith, length-replicate {A = ℕ} total 0, small))
