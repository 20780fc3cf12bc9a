-- ===== src/Camera/Uploaded.antt =====
-- The batch of the simulated camera, uploaded as it is.
use mathlib.Core.Path.{subst}
use dipp.Base.{
  Option, ℕ, zero, suc, ◌≡◌, ◌<◌, ◌^◌, refl, List, [], some, length, take, append-nil,
  length-replicate, ◌++◌,
}
use dipp.Base.Int.{ℤ, pos}
use dipp.Types.{Metadata}
use dipp.Machine.{Env, State, History}
use dipp.Machine.Hoare.{Returns}
use dipp.Upload.{upload}
use dipp.Upload.Blocks.{Shot, layout, Unpacks, Pushes, upload-layout}
use dipp.Camera.Defs.{CameraBatch, camera_metadata, camera}
use dipp.Camera.Written.{shots, camera-layout}

pub shots-Unpacks :
    (env : Env) (shot : Shot) (n : ℕ)
    → ((h : History) → env.unpack_metadata shot.meta h ≡ some (camera_metadata (length shot.image)))
    → Unpacks env (shots shot n)
shots-Unpacks env shot zero unpacks = tt
shots-Unpacks env shot (suc n) unpacks =
    (λ h. (camera_metadata (length shot.image), unpacks h, refl), shots-Unpacks env shot n unpacks)

-- `upload` of a segment with the same image some times.
pub upload-shots :
    (env : Env) (shot : Shot) (n : ℕ) (s : State)
    → ((h : History) → env.unpack_metadata shot.meta h ≡ some (camera_metadata (length shot.image)))
    → length (layout (shots shot n)) < 2 ^ 31
    → Returns
        (Pushes (shots shot n) s)
        (upload env (layout (shots shot n)) (pos n) (pos (length (layout (shots shot n)))) s)
upload-shots env shot n s unpacks small =
    subst
      (λ segment.
        Returns (Pushes (shots shot n) s)
          (upload env segment (pos n) (pos (length (layout (shots shot n)))) s))
      (append-nil (layout (shots shot n)))
      (subst
        (λ k. Returns (Pushes (shots shot n) s) (
          upload env (layout (shots shot n) ++ []) (pos k) (pos (length (layout (shots shot n))))
            s))
        (length-replicate n shot)
        (upload-layout env (shots shot n) [] s small (shots-Unpacks env shot n unpacks)))

-- Let protobuf-c unpack the camera's metadata to what was packed. Then, for an image file with at
-- least one image, a segment that can be created, and a batch shorter than 2^31 bytes, the camera
-- sends a batch, and `upload`, called with the segment and with the number and the size in the
-- batch, returns and has written one observation for each image.
pub camera-upload :
    (env : Env) (pack : Metadata → List ℕ) (shmget : ℕ → Option ℤ) (file : List ℕ) (n : ℕ) (id : ℤ)
    (shot : Shot) (s : State)
    → pack (camera_metadata (length shot.image)) ≡ shot.meta
    → ((h : History) → env.unpack_metadata shot.meta h ≡ some (camera_metadata (length shot.image)))
    → take (length shot.image) file ≡ shot.image
    → shmget (length (layout (shots shot n))) ≡ some id
    → length (layout (shots shot n)) < 2 ^ 31
    → (b : CameraBatch) × (segment : List ℕ) × (camera pack shmget
          (some file)
          (length shot.image)
          (pos n)
        ≡ some (b, segment))
      × (b.shmid ≡ id)
      × Returns (Pushes (shots shot n) s) (upload env segment b.num_images b.batch_size s)
camera-upload env pack shmget file n id shot s packed unpacks content created small = (
  record {
    mtype = 1;
    num_images = pos n;
    batch_size = pos (length (layout (shots shot n)));
    shmid = id;
    pipeline_id = pos 1;
  },
  layout (shots shot n),
  camera-layout pack shmget file (length shot.image) n id shot packed content refl created small,
  refl,
  upload-shots env shot n s unpacks small,
)
