-- ===== src/Process/Tests.antt =====
-- The theorems on src/dipp_process.c at small inputs.
pub mod Queue
pub mod Cold
use dipp.Base.{refl, arith, replicate, List, [], ◌∷◌, ◌≡◌, ◌++◌, drop}
use dipp.Base.Int.{pos}
use dipp.Samples.{
  sample_env, steady_env, start_state, loaded_state, sample_batch, sample_pipeline, some_module,
  numbering, sample_metadata, blank_pipeline,
}
use dipp.Machine.{Env, State, shmat, attached}
use dipp.Machine.Trace.{segment_events}
use dipp.Machine.Hoare.{Returns, IfReturns}
use dipp.Base.Text.{codes}
use dipp.Process.Save.{raw_name}
use dipp.Types.{ImageBatch}
use dipp.Upload.Blocks.{Shot, layout}
use dipp.Process.Delivery.{Delivered, process-Delivered}
use dipp.Config.Start.{start_state-WellFormed}
use dipp.Process.Lookup.{LookedUp, get_pipeline_by_id-LookedUp}
use dipp.Process.Batch.{get_pipeline_by_id}
use dipp.Process.Execute.{execute_pipeline}
use dipp.Process.Batch.{process}
use dipp.Process.Queue.{batch_bytes, batch_of_bytes, copy_message}
use dipp.Process.Compose.{Steady, Composed, compose, execute_pipeline-compose}
use dipp.Process.Segment.{Attached, Disposed, process-Disposed}
use dipp.Process.Message.{IsSent, message-round_trip}

steady_env-Steady : Steady steady_env numbering
steady_env-Steady = record {
  works = record { forks = λ h. refl; reads = λ h. refl; writes = λ h. refl };
  pipes = λ h. refl;
  returns = λ a b c h. refl;
}

execute_pipeline-compose_example :
    Returns
      (Composed steady_env numbering steady_env-Steady
        (compose numbering start_state.module_parameter_lists
          (some_module 0 ∷ some_module 2 ∷ [])
          sample_batch)
        start_state)
      (execute_pipeline steady_env sample_pipeline sample_batch start_state)
execute_pipeline-compose_example =
    execute_pipeline-compose steady_env numbering steady_env-Steady sample_pipeline
      (some_module 0 ∷ some_module 2 ∷ []) sample_batch start_state refl refl
      ((0, refl), ((2, refl), tt))

process-Disposed_example :
    IfReturns (Attached sample_env loaded_state) (process sample_env sample_batch loaded_state)
process-Disposed_example =
    process-Disposed sample_env sample_batch loaded_state (λ id h e. cc)
      (omega arith, (omega arith, (omega arith, (omega arith, (omega arith, (omega arith, tt))))))

sample_batch-IsSent : IsSent sample_batch
sample_batch-IsSent = record {
  type_one = refl;
  num_images_fits = omega arith;
  batch_size_fits = omega arith;
  shmid_fits = omega arith;
  pipeline_id_fits = omega arith;
  address_fits = omega arith;
}

message-round_trip_example :
    batch_of_bytes
      (copy_message (drop 8 (batch_bytes sample_batch) ++ replicate 8 5) (replicate 40 3))
    ≡ sample_batch
message-round_trip_example =
    message-round_trip sample_batch (replicate 8 5) (replicate 40 3) sample_batch-IsSent refl

-- A batch of two images, whose second pipeline is the one that it names.
abbrev two_images : List Shot
two_images =
    record { meta = 2 ∷ []; image = 7 ∷ 9 ∷ [] } ∷ record { meta = 1 ∷ []; image = 8 ∷ [] } ∷ []

abbrev camera_env : Env
camera_env = record steady_env { attach = λ id h. attached 4096 (layout two_images ++ []) }

camera_env-Steady : Steady camera_env numbering
camera_env-Steady = record {
  works = record { forks = λ h. refl; reads = λ h. refl; writes = λ h. refl };
  pipes = λ h. refl;
  returns = λ a b c h. refl;
}

abbrev camera_batch : ImageBatch
camera_batch = record sample_batch { batch_size = pos 13 }

camera_batch-IsSent : IsSent camera_batch
camera_batch-IsSent = record {
  type_one = refl;
  num_images_fits = omega arith;
  batch_size_fits = omega arith;
  shmid_fits = omega arith;
  pipeline_id_fits = omega arith;
  address_fits = omega arith;
}

abbrev camera_state : State
camera_state = record start_state {
  pipelines = blank_pipeline ∷ sample_pipeline ∷ replicate 4 blank_pipeline;
}

process-Delivered_example :
    Returns
      (Delivered camera_env two_images
        (record camera_batch { num_images = pos 2 })
        4096
        camera_state)
      (process camera_env camera_batch camera_state)
process-Delivered_example =
    process-Delivered camera_env numbering camera_env-Steady (blank_pipeline ∷ [])
      (replicate 4 blank_pipeline) sample_pipeline (some_module 0 ∷ some_module 2 ∷ []) camera_batch
      (record camera_batch { num_images = pos 2 }) two_images [] 4096 camera_state refl (refl, tt)
      refl refl (omega arith) refl ((0, refl), ((2, refl), tt)) refl refl refl (omega arith)
      (
        (λ h. (sample_metadata (2 ∷ []), refl, refl)),
        ((λ h. (sample_metadata (1 ∷ []), refl, refl)), tt),
      )
      (λ h. refl) (λ h. refl) (λ h. refl)

get_pipeline_by_id-LookedUp_example :
    Returns (LookedUp 2 start_state) (get_pipeline_by_id (pos 3) start_state)
get_pipeline_by_id-LookedUp_example =
    get_pipeline_by_id-LookedUp 2 start_state start_state-WellFormed

tenth_name : raw_name (codes "output") 10 ≡ codes "output10.raw"
unfolding raw_name
tenth_name = refl
