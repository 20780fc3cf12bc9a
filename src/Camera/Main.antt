-- ===== src/Camera/Main.antt =====
-- `main` of sim/camera_control.c around the segment: the arguments, the clock, the name of the file
-- and the message.
use dipp.Base.{
  ℕ, zero, ◌+◌, List, [], ◌∷◌, ◌++◌, Option, none, some, Bool, leb, length, drop, if◌then◌else◌,
}
use dipp.Base.Int.{ℤ, pos, negsuc}
use dipp.Base.Text.{codes}
use dipp.Types.{Text, Metadata}
use dipp.Camera.Defs.{CameraBatch, camera}

-- What the libraries and the kernel answer. `file` is the content of a file, `none` if it cannot be
-- opened. `struct_bytes` is `data` in memory,
-- as camera_control.h lays it out, and `behind` is what follows it.
pub record Answers : Type 0 where
  pub atoi : Text → ℤ
  pub clock_gettime_ok : Bool
  pub pack : Metadata → List ℕ
  pub file : Text → Option (List ℕ)
  pub shmget : ℕ → Option ℤ
  pub msgget_ok : Bool
  pub msgsnd_ok : Bool
  pub struct_bytes : CameraBatch → List ℕ
  pub behind : List ℕ

-- How the program ends: a write through an address that it has not got is `crashed`; `finished` has
-- the segment, and the text of the message that the queue took.
pub data CameraEnd : Type 0 where
  missing_arguments clock_failed crashed : CameraEnd
  finished : List ℕ → Option (List ℕ) → CameraEnd

-- `msgsnd(msg_queue_id, &data, sizeof(data), 0)`: the text begins behind `mtype`, the first member. Without a
-- queue the id is -1, and the call fails.
unfoldable pub send_batch : Answers → CameraBatch → Option (List ℕ)
send_batch a data_sent =
    if a.msgget_ok
    then (if a.msgsnd_ok then some (drop 8 (a.struct_bytes data_sent) ++ a.behind) else none)
    else none

-- `sprintf(filename, "images/%s", image_name)`.
abbrev pub image_path : Text → Text
image_path image_name = codes "images/" ++ image_name

-- The id of a segment, -1 where `shmget` fails.
abbrev id_or_minus_one : Option ℤ → ℤ
id_or_minus_one none = negsuc 0
id_or_minus_one (some id) = id

-- The message where there are no images: nothing is read and nothing written.
abbrev empty_batch : Answers → CameraBatch
empty_batch a = record {
  mtype = 1;
  num_images = pos 0;
  batch_size = pos 0;
  shmid = id_or_minus_one (a.shmget 0);
  pipeline_id = pos 1;
}

-- What follows the loop over the images.
abbrev pub after_images : Answers → Option (CameraBatch × List ℕ) → CameraEnd
after_images a none = crashed
after_images a (some (b, segment)) = finished segment (send_batch a b)

abbrev pub write_images : Answers → ℕ → Option (List ℕ) → ℤ → CameraEnd
write_images a size file (pos zero) = finished [] (send_batch a (empty_batch a))
write_images a size file num_images = after_images a (camera a.pack a.shmget file size num_images)

-- For images of `size` bytes. The buffer for the path has 30 bytes, with the final zero.
unfoldable pub camera_main : Answers → ℕ → List Text → CameraEnd
camera_main a size (program ∷ number ∷ image_name ∷ rest) =
    if a.clock_gettime_ok
    then (if leb (length (image_path image_name) + 1) 30
        then write_images a size (a.file (image_path image_name)) (a.atoi number)
        else crashed)
    else clock_failed
camera_main a size _ = missing_arguments
