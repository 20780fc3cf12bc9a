-- ===== src/Camera/Tests/Delivery.antt =====
-- sim/camera_control.c and `process_all` of src/dipp_process.c with one queue and one segment.
use native.Mathlib.Nat.{zero-add}
use dipp.Base.{◌≡◌, refl, ap, ◌∙◌, List, [], ◌∷◌, ◌++◌, none, true, false, length, replicate, arith}
use dipp.Base.Int.{pos}
use dipp.Base.Text.{codes}
use dipp.Types.{Pipeline, ModuleParameterList}
use dipp.Samples.{start_state, numbering, blank_pipeline}
use dipp.Machine.{Env, attached}
use dipp.Machine.Hoare.{Returns}
use dipp.Machine.Trace.{ring_writes}
use dipp.Config.{library_path}
use dipp.Config.Start.{start_state-WellFormed}
use dipp.Config.Shape.{WellFormed-Kept}
use dipp.Config.Spec.{Configuration, encoded, cached_pipelines, cached_parameters, pipeline_entry}
use dipp.Upload.Blocks.{pushed}
use dipp.Messages.Functions.Image.{metadata_unpack}
use dipp.Process.{process_all}
use dipp.Process.Compose.{Steady, AllLoaded, compose}
use dipp.Process.Kept.{received}
use dipp.Process.Tests.Cold.{not_empty, cold_env, cold_configuration, cold_modules, cold_state}
use dipp.Camera.Main.{CameraEnd, camera_main}
use dipp.Camera.Generated.{contents_of}
use dipp.Camera.Sent.{Succeeds, sent_batch}
use dipp.Camera.Delivered.{segment_of, receipt_of, Served, camera_main-process_all}
use dipp.Camera.Tests.{small_shot, camera_lib, camera_answers, new_meta-Codes}

-- The number has two characters, so there are two images.
two_images-Succeeds :
    Succeeds camera_lib camera_answers (codes "ab") (codes "image.raw") 1 (1 ∷ 2 ∷ [])
two_images-Succeeds = record {
  clock = refl;
  queue = refl;
  sends = refl;
  packs = refl;
  name_short = omega arith;
  number_read = refl;
  number_fits = omega arith;
  contents = 1 ∷ 2 ∷ 3 ∷ [];
  opens = refl;
  begins = refl;
  id = pos 12;
  creates = refl;
  id_fits = omega arith;
  small = omega arith;
  address = 99;
  address_fits = omega arith;
  same_struct = λ b. refl;
  eight_behind = refl;
}

abbrev camera_end : CameraEnd
camera_end = camera_main camera_answers 2 (codes "camera" ∷ codes "ab" ∷ codes "image.raw" ∷ [])

abbrev shared_env : Env
shared_env = record cold_env {
  unpack_metadata =
      λ bytes h. contents_of (metadata_unpack camera_lib none (length bytes) bytes (length h)).0;
  receive = λ do_wait h. receipt_of camera_end (received h);
  attach = λ id h. attached 4096 (segment_of camera_end ++ []);
}

shared_env-Steady : Steady shared_env numbering
shared_env-Steady = record {
  works = record { forks = λ h. refl; reads = λ h. refl; writes = λ h. refl };
  pipes = λ h. refl;
  returns = λ a b c h. refl;
}

abbrev shared_configuration : Configuration shared_env
shared_configuration = record {
  allocates = cold_configuration.allocates;
  content = cold_configuration.content;
  holds = λ param.
      encoded 1 (param ∷ []) (param ∷ []) (λ h. refl) (not_empty param) (omega arith) (λ h. refl);
  pipelines = cold_configuration.pipelines;
  configs = cold_configuration.configs;
  unpacks_pipeline = cold_configuration.unpacks_pipeline;
  unpacks_config = cold_configuration.unpacks_config;
  few = cold_configuration.few;
  library = cold_configuration.library;
  symbol = cold_configuration.symbol;
  opens = cold_configuration.opens;
  finds = cold_configuration.finds;
}

abbrev shared_table : List Pipeline
shared_table = cached_pipelines shared_configuration start_state.pipelines

abbrev shared_lists : List ModuleParameterList
shared_lists = cached_parameters shared_configuration start_state.module_parameter_lists

loaded : AllLoaded cold_modules
unfolding library_path
loaded = ((1, refl), ((2, refl), tt))

-- The two modules number the images of a batch of two.
made :
    compose numbering shared_lists cold_modules (
      sent_batch camera_lib camera_answers
        (codes "ab")
        (codes "image.raw")
        1
        (1 ∷ 2 ∷ [])
        two_images-Succeeds)
    ≡ sent_batch camera_lib camera_answers
        (codes "ab")
        (codes "image.raw")
        1
        (1 ∷ 2 ∷ [])
        two_images-Succeeds
unfolding library_path
made = refl

camera_end-Served :
    Served shared_env numbering shared_table shared_lists
      (sent_batch camera_lib camera_answers
        (codes "ab")
        (codes "image.raw")
        1
        (1 ∷ 2 ∷ [])
        two_images-Succeeds)
      (segment_of camera_end)
unfolding library_path
camera_end-Served = record {
  earlier = [];
  later = replicate 5 blank_pipeline;
  pipeline = pipeline_entry shared_configuration 0 blank_pipeline;
  modules = cold_modules;
  in_table = refl;
  first = tt;
  named = refl;
  counted = refl;
  few = omega arith;
  listed = refl;
  loaded = loaded;
  handed_on = made;
  address = 4096;
  slack = [];
  attaches = λ h. refl;
  detaches = λ h. refl;
  removes = λ h. refl;
}

camera_main-process_all_example :
    Returns
      (λ ended t. (ended ≡ true) × (ring_writes t.trace ≡ pushed (small_shot ∷ small_shot ∷ []) []))
      (process_all shared_env 2 (replicate 32 0) false cold_state)
camera_main-process_all_example =
    camera_main-process_all camera_lib camera_answers (codes "ab") (codes "image.raw") 1
      (1 ∷ 2 ∷ []) two_images-Succeeds (λ h. length h) shared_env (codes "camera") [] new_meta-Codes
      (λ bytes h. refl) numbering shared_env-Steady shared_configuration start_state.pipelines
      start_state.module_parameter_lists (codes "dipp.log") (replicate 32 0) false [] 0 0 cold_state
      camera_end-Served (λ h. refl) (λ h i e. ap (receipt_of camera_end) (e ∙ zero-add i))
      (WellFormed-Kept start_state cold_state (refl, refl) start_state-WellFormed) refl refl
      (refl, refl, refl, refl, refl, refl, refl) (omega arith)
