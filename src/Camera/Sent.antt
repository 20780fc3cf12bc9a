-- ===== src/Camera/Sent.antt =====
-- The message of the simulated camera, as DIPP receives it.
use dipp.Base.{
  ℕ, suc, ◌+◌, ◌≡◌, ◌<◌, ◌^◌, ◌∙◌, ap, refl, List, ◌∷◌, ◌++◌, none, some, Bool, true, if◌then◌else◌,
  leb, length, take, drop, arith,
}
use dipp.Base.Int.{ℤ, pos, IsInt32}
use dipp.Types.{Text, ImageBatch}
use dipp.Machine.{Env, State, History}
use dipp.Machine.Hoare.{Returns}
use dipp.Upload.{upload}
use dipp.Upload.Blocks.{layout, Pushes}
use dipp.Messages.Descriptors.{metadata}
use dipp.Messages.Structs.{Protobuf}
use dipp.Messages.Functions.Image.{metadata_unpack}
use dipp.Messages.Functions.Codec.{Codes}
use dipp.Process.{batch_bytes, batch_of_bytes, copy_message}
use dipp.Process.Message.{IsSent, message-round_trip}
use dipp.Camera.Defs.{CameraBatch, camera}
use dipp.Camera.Main.{
  Answers, CameraEnd, crashed, clock_failed, finished, send_batch, image_path, after_images,
  write_images, camera_main,
}
use dipp.Camera.Written.{shots, camera-layout}
use dipp.Camera.Uploaded.{upload-shots}
use dipp.Camera.Generated.{
  new_meta, pack_metadata, contents_of, camera_shot, pack_metadata-packed_bytes,
  unpack_metadata-packed_bytes,
}

-- A batch of the camera as DIPP reads it, with some address for the member that the camera program
-- does not set.
abbrev pub dipp_batch : CameraBatch → ℕ → ImageBatch
dipp_batch b address = record {
  mtype = b.mtype;
  num_images = b.num_images;
  batch_size = b.batch_size;
  shmid = b.shmid;
  pipeline_id = b.pipeline_id;
  image_data = address;
}

-- All calls succeed, for this number of images and this image: the name fits into the buffer for the
-- path, the file begins with the image, the batch is shorter than 2^31 bytes, which are 211 images of
-- `image_size` bytes, and the numbers are in the range of their C types. The ImageBatch of
-- camera_control.h has the members of that of src/include/dipp_process.h, in the same order and of
-- the same types (`same_struct`).
pub record Succeeds (lib : Protobuf) (a : Answers) (number image_name : Text) (n : ℕ)
    (image : List ℕ) : Type 0 where
  pub clock : a.clock_gettime_ok ≡ true
  pub queue : a.msgget_ok ≡ true
  pub sends : a.msgsnd_ok ≡ true
  pub packs : a.pack ≡ pack_metadata lib
  pub name_short : length (image_path image_name) < 30
  pub number_read : a.atoi number ≡ pos (suc n)
  pub number_fits : suc n < 2 ^ 31
  pub contents : List ℕ
  pub opens : a.file (image_path image_name) ≡ some contents
  pub begins : take (length image) contents ≡ image
  pub id : ℤ
  pub creates : a.shmget (length (layout (shots (camera_shot lib image) (suc n)))) ≡ some id
  pub id_fits : IsInt32 id
  pub small : length (layout (shots (camera_shot lib image) (suc n))) < 2 ^ 31
  pub address : ℕ
  pub address_fits : address < 2 ^ 64
  pub same_struct : (b : CameraBatch) → a.struct_bytes b ≡ batch_bytes (dipp_batch b address)
  pub eight_behind : length a.behind ≡ 8

if_true : {A : Type 0} → {b : Bool} → (x y : A) → b ≡ true → (if b then x else y) ≡ x
if_true x y e = ap (λ c. if c then x else y) e

module _ (lib : Protobuf) (a : Answers) (number image_name : Text) (n : ℕ) (image : List ℕ)
    (ok : Succeeds lib a number image_name n image) where
  -- The bytes of the segment.
  abbrev pub segment : List ℕ
  segment = layout (shots (camera_shot lib image) (suc n))

  -- The batch that is sent, for the camera program and for DIPP.
  abbrev pub camera_batch : CameraBatch
  camera_batch = record {
    mtype = 1;
    num_images = pos (suc n);
    batch_size = pos (length segment);
    shmid = ok.id;
    pipeline_id = pos 1;
  }

  abbrev pub sent_batch : ImageBatch
  sent_batch = dipp_batch camera_batch ok.address

  pub sent_batch-IsSent : IsSent sent_batch
  sent_batch-IsSent = record {
    type_one = refl;
    num_images_fits = omega (arith, ok.number_fits);
    batch_size_fits = omega (arith, ok.small);
    shmid_fits = ok.id_fits;
    pipeline_id_fits = omega arith;
    address_fits = ok.address_fits;
  }

  -- The text of its message.
  abbrev pub text : List ℕ
  text = drop 8 (batch_bytes sent_batch) ++ a.behind

  send_batch-text : send_batch a camera_batch ≡ some text
  unfolding send_batch
  send_batch-text = rw (ok.queue, ok.sends, ok.same_struct camera_batch) refl

  camera-sent_batch :
      Codes lib metadata (new_meta (length image))
      → camera a.pack a.shmget (some ok.contents) (length image) (pos (suc n))
        ≡ some (camera_batch, segment)
  camera-sent_batch codable =
      camera-layout a.pack a.shmget ok.contents (length image) (suc n) ok.id (camera_shot lib image)
        (ap (λ pack. pack (new_meta (length image)).contents) ok.packs
          ∙ pack_metadata-packed_bytes lib (length image) codable)
        ok.begins refl ok.creates ok.small

  pub camera_main-finished :
      (program : Text) (rest : List Text)
      → Codes lib metadata (new_meta (length image))
      → camera_main a (length image) (program ∷ number ∷ image_name ∷ rest)
        ≡ finished segment (some text)
  unfolding camera_main
  camera_main-finished program rest codable =
      if_true (if leb (length (image_path image_name) + 1) 30 then end else crashed) clock_failed
        ok.clock
      ∙ if_true end crashed short
      ∙ ap (λ file. write_images a (length image) file (a.atoi number)) ok.opens
      ∙ ap (write_images a (length image) (some ok.contents)) ok.number_read
      ∙ ap (after_images a) (camera-sent_batch codable)
      ∙ ap (finished segment) send_batch-text
    where
      end : CameraEnd
      end = write_images a (length image) (a.file (image_path image_name)) (a.atoi number)

      short : leb (length (image_path image_name) + 1) 30 ≡ true
      short = ground (arith, ok.name_short)

  -- `upload` writes the images of the segment.
  upload-Pushes :
      (heap : History → lib.Heap) (env : Env) (s : State)
      → Codes lib metadata (new_meta (length image))
      → ((bytes : List ℕ) (h : History)
          → env.unpack_metadata bytes h
            ≡ contents_of (metadata_unpack lib none (length bytes) bytes (heap h)).0)
      → Returns
          (Pushes (shots (camera_shot lib image) (suc n)) s)
          (upload env segment (pos (suc n)) (pos (length segment)) s)
  upload-Pushes heap env s codable reads =
      upload-shots env (camera_shot lib image) (suc n) s
        (unpack_metadata-packed_bytes lib heap env (length image) codable reads) ok.small

-- Let the calls of the camera program succeed for an image, for a number of images from one on that
-- makes a batch of less than 2^31 bytes, and for a name of the image that fits into the buffer for
-- its path. Let the ImageBatch of camera_control.h, which is not in the repository, be that of
-- src/include/dipp_process.h. Let protobuf-c be able to pack the metadata, and let the program pack
-- with `metadata__pack` and DIPP unpack with `metadata__unpack`. Then the program ends with a
-- message in the queue. Whatever stood in the receiver's variable, what `get_message_from_queue`
-- copies there is the batch with this number of images and the size and id of the segment; and
-- `upload`, called with the bytes of the segment and with the number and the size in the batch,
-- returns and has written one observation for each image.
pub camera_main-received :
    (lib : Protobuf) (a : Answers) (number image_name : Text) (n : ℕ) (image : List ℕ)
    (ok : Succeeds lib a number image_name n image) (heap : History → lib.Heap) (env : Env)
    (program : Text) (rest : List Text) (datarcv : List ℕ) (s : State)
    → Codes lib metadata (new_meta (length image))
    → ((bytes : List ℕ) (h : History)
        → env.unpack_metadata bytes h
          ≡ contents_of (metadata_unpack lib none (length bytes) bytes (heap h)).0)
    → (bytes : List ℕ) × (camera_main a (length image) (program ∷ number ∷ image_name ∷ rest)
        ≡ finished (segment lib a number image_name n image ok) (some bytes))
      × (batch_of_bytes (copy_message bytes datarcv)
          ≡ sent_batch lib a number image_name n image ok)
      × Returns (Pushes (shots (camera_shot lib image) (suc n)) s) (
          upload env
            (segment lib a number image_name n image ok)
            (pos (suc n))
            (pos (length (segment lib a number image_name n image ok)))
            s)
camera_main-received lib a number image_name n image ok heap env program rest datarcv s codable
      reads =
    (
      text lib a number image_name n image ok,
      camera_main-finished lib a number image_name n image ok program rest codable,
      message-round_trip (sent_batch lib a number image_name n image ok) a.behind datarcv
          (sent_batch-IsSent lib a number image_name n image ok) ok.eight_behind,
      upload-Pushes lib a number image_name n image ok heap env s codable reads,
    )
