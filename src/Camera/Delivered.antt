-- ===== src/Camera/Delivered.antt =====
-- From the arguments of sim/camera_control.c to the ring buffer of DIPP.
use dipp.Base.{
  ℕ, zero, suc, ◌+◌, ◌≡◌, ◌≤◌, ◌∙◌, ap, sym, refl, List, [], ◌∷◌, ◌++◌, none, some, Bool, true,
  length, length-replicate, take,
}
use dipp.Base.Int.{pos, eq_ℤ}
use dipp.Types.{Text, ImageBatch, Module, Pipeline, ModuleParameterList}
use dipp.Machine.{Env, State, History, Receipt, message, no_message, attached}
use dipp.Machine.Hoare.{Returns}
use dipp.Machine.Trace.{ring_writes}
use dipp.Logger.{buffer_size}
use dipp.Config.{max_modules, max_pipelines}
use dipp.Config.Shape.{WellFormed}
use dipp.Config.Spec.{Configuration, cached_pipelines, cached_parameters}
use dipp.Upload.Blocks.{pushed}
use dipp.Messages.Descriptors.{metadata}
use dipp.Messages.Structs.{Protobuf}
use dipp.Messages.Functions.Image.{metadata_unpack}
use dipp.Messages.Functions.Codec.{Codes}
use dipp.Process.{process_all}
use dipp.Process.Compose.{ModuleFunctions, Steady, AllLoaded, compose}
use dipp.Process.Delivery.{NoneHas}
use dipp.Process.Kept.{received}
use dipp.Process.Rounds.{Job}
use dipp.Process.Drained.{answer}
use dipp.Process.Cold.{Stale, process_all-Configured}
use dipp.Camera.Main.{Answers, CameraEnd, finished, camera_main}
use dipp.Camera.Written.{shots}
use dipp.Camera.Uploaded.{shots-Unpacks}
use dipp.Camera.Generated.{new_meta, contents_of, camera_shot, unpack_metadata-packed_bytes}
use dipp.Camera.Sent.{Succeeds, segment, sent_batch, sent_batch-IsSent, text, camera_main-finished}

-- The segment that the camera program has filled.
abbrev pub segment_of : CameraEnd → List ℕ
segment_of (finished bytes sent) = bytes
segment_of _ = []

-- A queue with the message of the camera program alone: what the i-th receipt gives.
abbrev pub receipt_of : CameraEnd → ℕ → Receipt
receipt_of (finished bytes (some content)) zero = message content
receipt_of _ i = no_message

-- The tables have a pipeline for a batch whose modules hand the batch on, and the kernel attaches
-- the segment of the batch, with what the camera program has left in it.
pub record Served (env : Env) (f : ModuleFunctions) (table : List Pipeline)
    (lists : List ModuleParameterList) (batch : ImageBatch) (bytes : List ℕ) : Type 0 where
  pub earlier : List Pipeline
  pub later : List Pipeline
  pub pipeline : Pipeline
  pub modules : List Module
  pub in_table : table ≡ earlier ++ pipeline ∷ later
  pub first : NoneHas batch.pipeline_id earlier
  pub named : eq_ℤ pipeline.pipeline_id batch.pipeline_id ≡ true
  pub counted : pipeline.num_modules ≡ length modules
  pub few : length modules ≤ 255
  pub listed : take (length modules) pipeline.modules ≡ modules
  pub loaded : AllLoaded modules
  pub handed_on : compose f lists modules batch ≡ batch
  pub address : ℕ
  pub slack : List ℕ
  pub attaches : (h : History) → env.attach batch.shmid h ≡ attached address (bytes ++ slack)
  pub detaches : (h : History) → env.detach_ok h ≡ true
  pub removes : (h : History) → env.remove_ok batch.shmid h ≡ true

module _ (lib : Protobuf) (a : Answers) (number image_name : Text) (n : ℕ) (image : List ℕ)
    (ok : Succeeds lib a number image_name n image) (heap : History → lib.Heap) (env : Env)
    (program : Text) (rest : List Text) (codable : Codes lib metadata (new_meta (length image)))
    (reads : (bytes : List ℕ) (h : History)
      → env.unpack_metadata bytes h
        ≡ contents_of (metadata_unpack lib none (length bytes) bytes (heap h)).0) where
  -- The end of the camera program, and what it sends.
  abbrev pub end : CameraEnd
  end = camera_main a (length image) (program ∷ number ∷ image_name ∷ rest)

  abbrev pub batch : ImageBatch
  batch = sent_batch lib a number image_name n image ok

  pub end-finished :
      end
      ≡ finished
          (segment lib a number image_name n image ok)
          (some (text lib a number image_name n image ok))
  end-finished = camera_main-finished lib a number image_name n image ok program rest codable

  module _ (f : ModuleFunctions) (table : List Pipeline) (lists : List ModuleParameterList)
      (served : Served env f table lists batch (segment_of end)) where
    -- The batch of the camera as a job of `process_all`.
    abbrev pub camera_job : Job env f table lists
    camera_job = record {
      batch = batch;
      extra = a.behind;
      earlier = served.earlier;
      later = served.later;
      pipeline = served.pipeline;
      modules = served.modules;
      result = batch;
      shots = shots (camera_shot lib image) (suc n);
      slack = served.slack;
      address = served.address;
      sent = sent_batch-IsSent lib a number image_name n image ok;
      extra_bytes = ok.eight_behind;
      in_table = served.in_table;
      first = served.first;
      named = served.named;
      counted = served.counted;
      few = served.few;
      listed = served.listed;
      loaded = served.loaded;
      made = served.handed_on;
      num_images = ap pos (sym (length-replicate (suc n) (camera_shot lib image)));
      batch_size = refl;
      fits = ok.small;
      unpacks =
          shots-Unpacks env (camera_shot lib image) (suc n)
            (unpack_metadata-packed_bytes lib heap env (length image) codable reads);
      attaches = λ h.
          served.attaches h
          ∙ ap (λ e. attached served.address (segment_of e ++ served.slack)) end-finished;
      detaches = served.detaches;
      removes = served.removes;
    }

    -- The message of the camera program is that of the job.
    receipt_of-answer :
        (steady : Steady env f) (file : Text) (i : ℕ)
        → receipt_of end i ≡ answer env f steady table lists file (camera_job ∷ []) i
    receipt_of-answer steady file zero = ap (λ e. receipt_of e zero) end-finished
    receipt_of-answer steady file (suc i) = ap (λ e. receipt_of e (suc i)) end-finished

-- Let the calls of the camera program succeed for an image, for a number of images from one on that
-- makes a batch of less than 2^31 bytes, and for a name of the image that fits into the buffer for
-- its path. Let the ImageBatch of camera_control.h, which is not in the repository, be that of
-- src/include/dipp_process.h. Let protobuf-c be able to pack the metadata, and let the program pack
-- with `metadata__pack` and DIPP unpack with `metadata__unpack`. Let DIPP's kernel work, every
-- module return its function's value, and the libraries answer for what stands in the parameters;
-- let the cache, not yet set up, have six pipelines and the parameters of twenty modules in
-- well-formed tables, a log file be open and the log have room for three entries. If the parameters
-- hold a pipeline for the batch of the camera whose modules hand it on, the queue gives the message
-- that the camera program has sent and then no more, and the kernel attaches the segment that it
-- has filled: then `process_all` ends within two rounds, and the ring buffer has got one
-- observation for each image, whole and in order.
pub camera_main-process_all :
    (lib : Protobuf) (a : Answers) (number image_name : Text) (n : ℕ) (image : List ℕ)
    (ok : Succeeds lib a number image_name n image) (heap : History → lib.Heap) (env : Env)
    (program : Text) (rest : List Text) (codable : Codes lib metadata (new_meta (length image)))
    (reads : (bytes : List ℕ) (h : History)
      → env.unpack_metadata bytes h
        ≡ contents_of (metadata_unpack lib none (length bytes) bytes (heap h)).0)
    (f : ModuleFunctions) (steady : Steady env f) (conf : Configuration env) (old : List Pipeline)
    (old_lists : List ModuleParameterList) (file : Text) (datarcv : List ℕ) (do_wait : Bool)
    (writes : List (List ℕ)) (k m : ℕ) (s : State)
    → Served env f
        (cached_pipelines conf old)
        (cached_parameters conf old_lists)
        (sent_batch lib a number image_name n image ok)
        (segment_of (camera_main a (length image) (program ∷ number ∷ image_name ∷ rest)))
    → ((h : History) → env.msgget_ok h ≡ true)
    → ((h : History) (i : ℕ)
        → received h ≡ k + i
        → env.receive do_wait h
          ≡ receipt_of (camera_main a (length image) (program ∷ number ∷ image_name ∷ rest)) i)
    → WellFormed s
    → length old ≡ max_pipelines
    → length old_lists ≡ max_modules
    → Stale env f steady conf old old_lists file writes k m s
    → m + 3 ≤ buffer_size
    → Returns
        (λ ended t.
          (ended ≡ true)
          × (ring_writes t.trace ≡ pushed (shots (camera_shot lib image) (suc n)) writes))
        (process_all env 2 datarcv do_wait s)
camera_main-process_all lib a number image_name n image ok heap env program rest codable reads f
      steady conf old old_lists file datarcv do_wait writes k m s served found queue w six twenty
      at_s room =
    process_all-Configured env f steady conf old old_lists file
      (camera_job lib a number image_name n image ok heap env program rest codable reads f
          (cached_pipelines conf old) (cached_parameters conf old_lists) served
        ∷ [])
      datarcv do_wait writes k m s found
      (λ h i counted.
        queue h i counted
        ∙ receipt_of-answer lib a number image_name n image ok heap env program rest codable reads f
            (cached_pipelines conf old) (cached_parameters conf old_lists) served steady file i)
      w six twenty at_s room
