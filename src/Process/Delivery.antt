-- ===== src/Process/Delivery.antt =====
-- The whole way of a batch, from the message to the ring buffer.
use mathlib.Core.Path.{subst}
use dipp.Base.{
  ℕ, ◌%◌, ◌^◌, ◌≡◌, ◌<◌, ◌≤◌, refl, sym, ap, ◌∙◌, List, [], ◌∷◌, ◌++◌, some, arith, length, take,
  true, false,
}
use dipp.Base.Int.{ℤ, pos, to_u32, eq_ℤ}
use dipp.Types.{Status, success, ImageBatch, Module, Pipeline}
use dipp.Machine.{Env, State, History, ShmAddr, attached, shmat, shmdt}
use dipp.Machine.Hoare.{Returns, Returns-bind, Returns-mono, Returns-both}
use dipp.Machine.Trace.{segment_events, ring_writes, log_status, Untouched}
use dipp.Upload.{upload}
use dipp.Process.Kept.{Kept, Kept-trans, Untouched-received, Put, upload-Put}
use dipp.Upload.Blocks.{Shot, layout, pushed, Unpacks, Pushes, upload-layout}
use dipp.Process.Execute.{execute_pipeline}
use dipp.Process.Batch.{
  find_pipeline, get_pipeline_by_id, load_pipeline_and_execute, upload_result, free_segment,
  address_value, use_segment, process,
}
use dipp.Process.Compose.{
  ModuleFunctions, Steady, AllLoaded, Composed, compose, execute_pipeline-compose,
}
use dipp.Process.Pipeline.{Executed, execute_pipeline-Executed}
use dipp.Process.Segment.{Executed-Untouched}

-- No pipeline of the list has this id.
abbrev pub NoneHas : ℤ → List Pipeline → Type 0
NoneHas id [] = Unit
NoneHas id (p ∷ ps) = (eq_ℤ p.pipeline_id id ≡ false) × NoneHas id ps

find_pipeline-append :
    (id : ℤ) (before after : List Pipeline) (p : Pipeline)
    → NoneHas id before
    → eq_ℤ p.pipeline_id id ≡ true
    → find_pipeline id (before ++ p ∷ after) ≡ some p
unfolding find_pipeline
find_pipeline-append id [] after p n e = rw e refl
find_pipeline-append id (q ∷ qs) after p n e = rw n.0 (find_pipeline-append id qs after p n.1 e)

ring_writes-segment_events : (h : History) → ring_writes (segment_events h) ≡ ring_writes h
ring_writes-segment_events [] = refl
ring_writes-segment_events (e ∷ h) = ground (arith, ring_writes-segment_events h)

module _ (env : Env) where
  upload-layout_of :
      (shots : List Shot) (slack : List ℕ) (num size : ℤ) (s : State)
      → num ≡ pos (length shots)
      → size ≡ pos (length (layout shots))
      → length (layout shots) < 2 ^ 31
      → Unpacks env shots
      → Returns (Put shots s) (upload env (layout shots ++ slack) num size s)
  upload-layout_of shots slack num size s n k fits u =
      upload-Put env (layout shots ++ slack) num size shots s
        (rw (n, k) (upload-layout env shots slack s fits u))

  -- What stays behind a call that neither uploads nor reports.
  abbrev Silent : State → State → Type 0
  Silent s t =
      (ring_writes t.trace ≡ ring_writes s.trace)
      × (log_status t.trace ≡ log_status s.trace)
      × Kept s t

  pub Untouched-ring_writes : (h k : History) → Untouched h k → ring_writes k ≡ ring_writes h
  Untouched-ring_writes h k u =
      sym (ring_writes-segment_events k) ∙ ap ring_writes u ∙ ring_writes-segment_events h

  free_segment-Silent :
      (address : ShmAddr) (id : ℤ) (s : State)
      → ((h : History) → env.detach_ok h ≡ true)
      → ((h : History) → env.remove_ok id h ≡ true)
      → Returns (λ r t. Silent s t) (free_segment env address id s)
  unfolding free_segment
  free_segment-Silent address id s d r =
      ground (arith, d s.trace, r (shmdt (address_value address) ∷ s.trace))

  -- The batch `b`, with the address of the segment, and its images in the ring buffer; the cache and
  -- the log as they were.
  abbrev pub Delivered : List Shot → ImageBatch → ℕ → State → ImageBatch → State → Type 0
  Delivered shots result address s b t =
      (b ≡ record result { image_data = address }) × Pushes shots s tt t × Kept s t

  -- From the attached segment on.
  use_segment-Delivered :
      (address : ℕ) (shots : List Shot) (slack : List ℕ) (result : ImageBatch) (s : State)
      → result.num_images ≡ pos (length shots)
      → result.batch_size ≡ pos (length (layout shots))
      → length (layout shots) < 2 ^ 31
      → Unpacks env shots
      → ((h : History) → env.detach_ok h ≡ true)
      → ((h : History) → env.remove_ok result.shmid h ≡ true)
      → Returns
          (Delivered shots result address s)
          (use_segment env success (attached address (layout shots ++ slack)) result s)
  unfolding use_segment upload_result
  use_segment-Delivered address shots slack result s n k fits u d r =
      Returns-bind (Delivered shots result address s) (Delivered shots result address s)
        (upload_result env success (attached address (layout shots ++ slack)) result) _ s
        (Returns-bind (Put shots s) (Delivered shots result address s)
          (upload env (layout shots ++ slack) result.num_images result.batch_size) _ s
          (upload-layout_of shots slack result.num_images result.batch_size s n k fits u)
          (λ v t p. (refl, p.0, p.1)))
        (λ b t p. rw p.0 (
          Returns-bind (λ v. Silent t) (Delivered shots result address s)
            (free_segment env (attached address (layout shots ++ slack)) result.shmid) _ t
            (free_segment-Silent (attached address (layout shots ++ slack)) result.shmid t d r)
            (λ v w q. (refl, (q.0 ∙ p.1.0, q.1 ∙ p.1.1), Kept-trans s t w p.2 q.2))))

  -- The pipeline of the batch has run.
  abbrev Loaded : ImageBatch → State → Status × ImageBatch → State → Type 0
  Loaded result s r t = (r ≡ (success, result)) × Silent s t

module _ (env : Env) (f : ModuleFunctions) (steady : Steady env f) where
  load_pipeline-Loaded :
      (before after : List Pipeline) (pipeline : Pipeline) (ms : List Module) (batch : ImageBatch)
      (s : State)
      → s.pipelines ≡ before ++ pipeline ∷ after
      → NoneHas batch.pipeline_id before
      → eq_ℤ pipeline.pipeline_id batch.pipeline_id ≡ true
      → pipeline.num_modules ≡ length ms
      → length ms ≤ 255
      → take (length ms) pipeline.modules ≡ ms
      → AllLoaded ms
      → Returns
          (Loaded env (compose f s.module_parameter_lists ms batch) s)
          (load_pipeline_and_execute env batch s)
  unfolding load_pipeline_and_execute get_pipeline_by_id
  load_pipeline-Loaded before after pipeline ms batch s table none_has has n few e l =
      rw
        (
          ap (find_pipeline batch.pipeline_id) table
              ∙ find_pipeline-append batch.pipeline_id before after pipeline none_has has,
          Returns,
        )
        (Returns-mono
          (λ r t.
            Composed env f steady result at_pipeline r t × Executed env pipeline at_pipeline r t)
          (Loaded env result s)
          (λ r t q. (
            q.0.0,
            (
              Untouched-ring_writes env s.trace t.trace
                  (Executed-Untouched env pipeline at_pipeline r t q.1),
              q.0.1.1,
              (
                Untouched-received s.trace t.trace
                    (Executed-Untouched env pipeline at_pipeline r t q.1),
                q.0.1.0,
                q.0.1.2,
                q.0.1.3,
                q.0.1.4,
                q.0.1.5,
              ),
            ),
          ))
          _
          (Returns-both (Composed env f steady result at_pipeline)
            (Executed env pipeline at_pipeline) (execute_pipeline env pipeline batch at_pipeline)
            (execute_pipeline-compose env f steady pipeline ms batch at_pipeline n e l)
            (execute_pipeline-Executed env pipeline batch at_pipeline (omega arith))))
    where
      result : ImageBatch
      result = compose f s.module_parameter_lists ms batch

      at_pipeline : State
      at_pipeline = record s { err_current_pipeline = to_u32 pipeline.pipeline_id % 256 }

  -- While the kernel works and every module returns its function's value: take a batch whose
  -- pipeline is the first with its id, and holds at most 255 modules, all with a function; and let
  -- the batch that the functions make, applied one after another, name a segment in the camera's
  -- layout, with the number and the size of its images. Then `process` returns; its batch is that
  -- batch, with the address of the segment; the ring buffer has got one observation for each image,
  -- whole and in order; no error has been reported, no message received, and the cache and the log are
  -- as they were.
  pub process-Delivered :
      (before after : List Pipeline) (pipeline : Pipeline) (ms : List Module)
      (batch result : ImageBatch) (shots : List Shot) (slack : List ℕ) (address : ℕ) (s : State)
      → s.pipelines ≡ before ++ pipeline ∷ after
      → NoneHas batch.pipeline_id before
      → eq_ℤ pipeline.pipeline_id batch.pipeline_id ≡ true
      → pipeline.num_modules ≡ length ms
      → length ms ≤ 255
      → take (length ms) pipeline.modules ≡ ms
      → AllLoaded ms
      → compose f s.module_parameter_lists ms batch ≡ result
      → result.num_images ≡ pos (length shots)
      → result.batch_size ≡ pos (length (layout shots))
      → length (layout shots) < 2 ^ 31
      → Unpacks env shots
      → ((h : History) → env.attach result.shmid h ≡ attached address (layout shots ++ slack))
      → ((h : History) → env.detach_ok h ≡ true)
      → ((h : History) → env.remove_ok result.shmid h ≡ true)
      → Returns (Delivered env shots result address s) (process env batch s)
  unfolding process
  process-Delivered before after pipeline ms batch result shots slack address s table none_has has n
        few e l made num size fits u at d r =
      Returns-bind (Loaded env result s) (Delivered env shots result address s)
        (load_pipeline_and_execute env batch) _ s
        (subst (λ b. Returns (Loaded env b s) (load_pipeline_and_execute env batch s)) made
          (load_pipeline-Loaded before after pipeline ms batch s table none_has has n few e l))
        (λ p t q.
          rw (q.0, at t.trace)
            (Returns-mono (Delivered env shots result address (attached_at t))
              (Delivered env shots result address s)
              (λ b v w.
                (w.0, (w.1.0 ∙ ap (pushed shots) q.1.0, w.1.1 ∙ q.1.1), Kept-trans s t v q.1.2 w.2))
              _
              (use_segment-Delivered env address shots slack result (attached_at t) num size fits u
                d r)))
    where
      attached_at : State → State
      attached_at t = record t {
        err_current_pipeline = 0;
        err_current_module = 0;
        trace = shmat result.shmid address ∷ t.trace;
      }
