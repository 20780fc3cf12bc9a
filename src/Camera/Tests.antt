-- ===== src/Camera/Tests.antt =====
-- The theorems on sim/camera_control.c at an image of two bytes, instead of ten million.
pub mod Delivery
use dipp.Base.{ℕ, ◌≡◌, refl, List, [], ◌∷◌, none, some, true, length, replicate, arith}
use dipp.Base.Int.{pos}
use dipp.Types.{ImageBatch}
use dipp.Samples.{sample_env, start_state}
use dipp.Machine.{Env}
use dipp.Machine.Hoare.{Returns}
use dipp.Upload.{upload}
use dipp.Upload.Blocks.{Shot, layout, Pushes}
use dipp.Camera.Defs.{camera}
use dipp.Camera.Written.{shots}
use dipp.Camera.Main.{Answers, finished, camera_main}
use dipp.Camera.Sent.{Succeeds, dipp_batch, camera_main-received}
use dipp.Process.{batch_bytes, batch_of_bytes, copy_message}
use dipp.Base.Text.{codes}
use dipp.Camera.Generated.{new_meta, pack_metadata, contents_of}
use dipp.Messages.Descriptors.{metadata}
use dipp.Messages.Structs.{is_descriptor, Protobuf}
use dipp.Messages.Functions.Image.{metadata_get_packed_size, metadata_pack, metadata_unpack}
use dipp.Messages.Functions.Codec.{Codes}
use dipp.Messages.Samples.{sample_lib}

abbrev pub small_shot : Shot
small_shot = record { meta = 5 ∷ 6 ∷ 7 ∷ []; image = 1 ∷ 2 ∷ [] }

abbrev pub camera_lib : Protobuf
camera_lib = sample_lib (new_meta 2)

-- DIPP unpacks with the generated function.
abbrev camera_env : Env
camera_env = record sample_env {
  unpack_metadata =
      λ bytes h. contents_of (metadata_unpack camera_lib none (length bytes) bytes (length h)).0;
}

pub new_meta-Codes : Codes camera_lib metadata (new_meta 2)
new_meta-Codes = record {
  size_stated = refl;
  size_returned = refl;
  unpacks = λ allocator heap. refl;
}

abbrev pub camera_answers : Answers
camera_answers = record {
  atoi = λ number. pos (length number);
  clock_gettime_ok = true;
  pack = pack_metadata camera_lib;
  file = λ path. some (1 ∷ 2 ∷ 3 ∷ []);
  shmget = λ n. some (pos 12);
  msgget_ok = true;
  msgsnd_ok = true;
  struct_bytes = λ b. batch_bytes (dipp_batch b 99);
  behind = replicate 8 255;
}

-- The number is given by three characters, the name has nine.
camera_answers-Succeeds :
    Succeeds camera_lib camera_answers (codes "abc") (codes "image.raw") 2 (1 ∷ 2 ∷ [])
camera_answers-Succeeds = record {
  clock = refl;
  queue = refl;
  sends = refl;
  packs = refl;
  name_short = omega arith;
  number_read = refl;
  number_fits = omega arith;
  contents = 1 ∷ 2 ∷ 3 ∷ [];
  opens = refl;
  begins = refl;
  id = pos 12;
  creates = refl;
  id_fits = omega arith;
  small = omega arith;
  address = 99;
  address_fits = omega arith;
  same_struct = λ b. refl;
  eight_behind = refl;
}

camera_main-received_example :
    (bytes : List ℕ) × (camera_main camera_answers 2
        (codes "camera" ∷ codes "abc" ∷ codes "image.raw" ∷ [])
      ≡ finished (layout (shots small_shot 3)) (some bytes))
    × (batch_of_bytes (copy_message bytes (replicate 32 7)) ≡ record {
      mtype = 1;
      num_images = pos 3;
      batch_size = pos 27;
      shmid = pos 12;
      pipeline_id = pos 1;
      image_data = 99;
    })
    × Returns
        (Pushes (shots small_shot 3) start_state)
        (upload camera_env (layout (shots small_shot 3)) (pos 3) (pos 27) start_state)
unfolding camera_answers-Succeeds
camera_main-received_example =
    camera_main-received camera_lib camera_answers (codes "abc") (codes "image.raw") 2 (1 ∷ 2 ∷ [])
      camera_answers-Succeeds (λ h. length h) camera_env (codes "camera") [] (replicate 32 7)
      start_state new_meta-Codes (λ bytes h. refl)
