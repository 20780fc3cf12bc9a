-- ===== src/Upload/Blocks.antt =====
-- A batch in the layout that the camera writes: for each image the size of its metadata, the
-- metadata and the image. `upload` puts each into the ring buffer, whole and in order.
use dipp.Base.{
  ℕ, ◌+◌, ◌-◌, ◌%◌, ◌^◌, ◌≡◌, ◌<◌, refl, sym, ap, ◌∙◌, List, [], ◌∷◌, ◌++◌, append_assoc, some,
  arith, length, length-append, lt→ltb,
}
use dipp.Base.Int.{pos}
use dipp.Base.Word.{le_bytes, length-le_bytes, read_bytes, read_u32, read_bytes_at, read_u32_at}
use dipp.Types.{Metadata}
use dipp.Machine.{Env, State, History}
use dipp.Machine.Hoare.{Returns, Returns-bind, Returns-mono}
use dipp.Machine.Trace.{ring_writes, log_status}
use dipp.Upload.Defs.{block_end, upload_image, upload_images, upload}

-- An image with its packed metadata.
pub record Shot : Type 0 where
  pub meta : List ℕ
  pub image : List ℕ

abbrev pub block : Shot → List ℕ
block shot = le_bytes 4 (length shot.meta) ++ (shot.meta ++ shot.image)

abbrev pub layout : List Shot → List ℕ
layout [] = []
layout (shot ∷ shots) = block shot ++ layout shots

-- The blocks that are put onto a list one after another.
abbrev pub pushed : List Shot → List (List ℕ) → List (List ℕ)
pushed [] old = old
pushed (shot ∷ shots) old = pushed shots (block shot ∷ old)

-- The metadata unpacks, and states the size of the image behind it.
abbrev pub Unpacks : Env → List Shot → Type 0
Unpacks env [] = Unit
Unpacks env (shot ∷ shots) =
    ((h : History)
      → (m : Metadata) × (env.unpack_metadata shot.meta h ≡ some m)
        × (m.size ≡ pos (length shot.image)))
    × Unpacks env shots

pub length-block : (shot : Shot) → length (block shot) ≡ 4 + length shot.meta + length shot.image
length-block shot = omega (
  arith,
  length-append (le_bytes 4 (length shot.meta)) (shot.meta ++ shot.image),
  length-append shot.meta shot.image,
  length-le_bytes 4 (length shot.meta),
)

block_end-eq :
    (start meta_size k : ℕ) (m : Metadata)
    → m.size ≡ pos k
    → start + (4 + meta_size + k) < 2 ^ 32
    → block_end start meta_size m ≡ start + (4 + meta_size + k)
unfolding block_end
block_end-eq start meta_size k m size fits = rw size (omega arith)

module _ (memory before after : List ℕ) (shot : Shot) (e : memory ≡ before ++ (block shot ++ after))
    (fits : length before + length (block shot) < 2 ^ 32) where
  pub size_word : read_u32 memory (length before) ≡ some (length shot.meta)
  size_word =
      read_u32_at memory before ((shot.meta ++ shot.image) ++ after) (length before)
        (length shot.meta) (rw e (simp append_assoc)) refl (omega (arith, length-block shot))

  pub meta_bytes :
      read_bytes memory ((length before + 4) % 2 ^ 32) (length shot.meta) ≡ some shot.meta
  meta_bytes =
      read_bytes_at memory (before ++ le_bytes 4 (length shot.meta)) shot.meta (shot.image ++ after)
        ((length before + 4) % 2 ^ 32) (length shot.meta) (rw e (simp append_assoc))
        (omega (
          arith,
          length-append before (le_bytes 4 (length shot.meta)),
          length-le_bytes 4 (length shot.meta),
          length-block shot,
        ))
        refl

  whole_block :
      (end : ℕ)
      → end ≡ length before + length (block shot)
      → read_bytes memory (length before) ((end + 2 ^ 32 - length before) % 2 ^ 32)
        ≡ some (block shot)
  whole_block end h =
      read_bytes_at memory before (block shot) after (length before)
        ((end + 2 ^ 32 - length before) % 2 ^ 32) e refl (omega arith)

-- What a batch leaves: all its blocks in the ring buffer, and no error.
abbrev pub Pushes : List Shot → State → Unit {0} → State → Type 0
Pushes shots s r t =
    (ring_writes t.trace ≡ pushed shots (ring_writes s.trace))
    × (log_status t.trace ≡ log_status s.trace)

module _ (env : Env) (memory : List ℕ) where
  -- What an image leaves: the next offset, and one more observation.
  abbrev Uploaded : List ℕ → Shot → State → ℕ → State → Type 0
  Uploaded before shot s next t =
      (next ≡ length before + length (block shot))
      × (ring_writes t.trace ≡ block shot ∷ ring_writes s.trace)
      × (log_status t.trace ≡ log_status s.trace)

  upload_image-block :
      (before after : List ℕ) (shot : Shot) (s : State)
      → memory ≡ before ++ (block shot ++ after)
      → length before + length (block shot) < 2 ^ 32
      → (m : Metadata) → env.unpack_metadata shot.meta s.trace ≡ some m
      → m.size ≡ pos (length shot.image)
      → Returns (Uploaded before shot s) (upload_image env memory (length before) s)
  unfolding upload_image
  upload_image-block before after shot s e fits m unpacked size =
      let end : block_end (length before) (length shot.meta) m
          ≡ length before + length (block shot) =
        block_end_eq_block in
      rw
        (
          size_word memory before after shot e fits,
          meta_bytes memory before after shot e fits,
          unpacked,
          whole_block memory before after shot e fits _ end,
        )
        (end, refl, refl)
    where
      block_end_eq_block :
          block_end (length before) (length shot.meta) m ≡ length before + length (block shot)
      block_end_eq_block = omega (
        arith,
        length-block shot,
        block_end-eq (length before) (length shot.meta) (length shot.image) m size
            (omega (arith, length-block shot)),
      )

  -- The loop from the image at the end of `before` on.
  upload_images-layout :
      (shots : List Shot) (before slack : List ℕ) (len : ℕ) (s : State)
      → memory ≡ before ++ (layout shots ++ slack)
      → len ≡ length before + length (layout shots)
      → len < 2 ^ 31
      → Unpacks env shots
      → Returns
          (Pushes shots s)
          (upload_images env memory (pos len) (length shots) (length before) s)
  unfolding upload_images
  upload_images-layout [] before slack len s e n fits u = (refl, refl)
  upload_images-layout (shot ∷ shots) before slack len s e n fits u =
      let (m, unpacked, size) = u.0 s.trace in
      rw (lt→ltb (length before) (len % 2 ^ 32) (omega (arith, sizes, length-block shot))) (
        Returns-bind (Uploaded before shot s) (Pushes (shot ∷ shots) s)
          (upload_image env memory (length before))
          (λ next. upload_images env memory (pos len) (length shots) next) s
          (upload_image-block before (layout shots ++ slack) shot s (rw e (simp append_assoc))
            (omega (arith, sizes)) m unpacked size)
          (λ next t q. rw (q.0 ∙ sym (length-append before (block shot))) (
            Returns-mono (Pushes shots t) (Pushes (shot ∷ shots) s)
              (λ r v p. (p.0 ∙ ap (pushed shots) q.1, p.1 ∙ q.2)) _
              (upload_images-layout shots (before ++ block shot) slack len t
                (rw e (simp append_assoc)) (omega (arith, sizes, length-append before (block shot)))
                fits u.1))))
    where
      sizes : length (layout (shot ∷ shots)) ≡ length (block shot) + length (layout shots)
      sizes = length-append (block shot) (layout shots)

-- A memory that begins with a batch in the camera's layout, shorter than 2^31 bytes, each of whose
-- metadata unpacks to metadata that state the size of the image behind: `upload`, called with the
-- number of its images and its size, returns; it has written one observation for each image, the
-- size word, the metadata and the image together, in the order of the batch; and it has reported
-- no error.
pub upload-layout :
    (env : Env) (shots : List Shot) (slack : List ℕ) (s : State)
    → length (layout shots) < 2 ^ 31
    → Unpacks env shots
    → Returns
        (Pushes shots s)
        (upload env (layout shots ++ slack) (pos (length shots)) (pos (length (layout shots))) s)
unfolding upload
upload-layout env shots slack s fits u =
    upload_images-layout env (layout shots ++ slack) shots [] slack (length (layout shots)) s refl
      (omega arith) fits u
