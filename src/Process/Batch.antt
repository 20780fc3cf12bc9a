-- ===== src/Process/Batch.antt =====
-- `get_pipeline_by_id`, `load_pipeline_and_execute` and `process`.
use dipp.Base.{ℕ, ◌%◌, ◌-◌, ◌^◌, List, [], ◌∷◌, Option, none, some, if◌then◌else◌}
use dipp.Base.Int.{ℤ, eq_ℤ, to_u32}
use dipp.Types.{Status, success, failure, ImageBatch, Pipeline}
use dipp.Machine.{
  Env, M, ◌>>=◌, ◌>>◌, pure, gets, modify, ask, ask_with, ShmAddr, null, minus_one, attached, shmat,
  shmdt, shmctl_rmid,
}
use dipp.Errors.{
  code_value, set_error_param, internal_pid_not_found, shm_attach, shm_detach, shm_remove,
}
use dipp.Upload.{upload}
use dipp.Process.Execute.{execute_pipeline}

-- The loop over `pipelines`: the first with this id.
unfoldable pub find_pipeline : ℤ → List Pipeline → Option Pipeline
find_pipeline id [] = none
find_pipeline id (p ∷ ps) = if eq_ℤ p.pipeline_id id then some p else find_pipeline id ps

unfoldable pub get_pipeline_by_id : ℤ → M (Option Pipeline)
get_pipeline_by_id id = do
  found ← gets (λ s. find_pipeline id s.pipelines)
  elim found [
    | none ↦ set_error_param (code_value internal_pid_not_found) >> pure none
    | some pipeline ↦ pure (some pipeline)
  ]

-- The bytes behind an address; (void *)-1 and NULL have none that may be read.
abbrev pub memory_at : ShmAddr → List ℕ
memory_at (attached address bytes) = bytes
memory_at null = []
memory_at minus_one = []

abbrev pub address_value : ShmAddr → ℕ
address_value (attached address bytes) = address
address_value null = 0
address_value minus_one = 2 ^ 64 - 1

module _ (env : Env) where
  unfoldable pub load_pipeline_and_execute : ImageBatch → M (Status × ImageBatch)
  load_pipeline_and_execute batch = do
    found ← get_pipeline_by_id batch.pipeline_id
    elim found [
      | none ↦ pure (failure, batch)
      | some pipeline ↦ do
        modify (λ s. record s { err_current_pipeline = to_u32 pipeline.pipeline_id % 256 })
        execute_pipeline env pipeline batch
    ]

  -- The upload of a batch whose pipeline succeeded.
  unfoldable pub upload_result : Status → ShmAddr → ImageBatch → M ImageBatch
  upload_result failure address batch = pure batch
  upload_result success address batch = do
    upload env (memory_at address) batch.num_images batch.batch_size
    pure (record batch { image_data = address_value address })

  -- The calls that detach the segment and remove it; a failure of either is reported.
  unfoldable pub free_segment : ShmAddr → ℤ → M (Unit {0})
  free_segment address shmid = do
    detached ← ask env.detach_ok (shmdt (address_value address))
    if detached then pure tt else set_error_param (code_value shm_detach)
    removed ← ask (env.remove_ok shmid) (shmctl_rmid shmid)
    if removed then pure tt else set_error_param (code_value shm_remove)

  -- What `process` does with the address that `shmat` gave.
  unfoldable pub use_segment : Status → ShmAddr → ImageBatch → M ImageBatch
  use_segment status null batch = set_error_param (code_value shm_attach) >> pure batch
  use_segment status address batch = do
    uploaded ← upload_result status address batch
    free_segment address uploaded.shmid
    pure uploaded

  -- The batch comes back as the call has left it.
  unfoldable pub process : ImageBatch → M ImageBatch
  process batch = do
    (status, result) ← load_pipeline_and_execute batch
    modify (λ s. record s { err_current_pipeline = 0; err_current_module = 0 })
    address ← ask_with (env.attach result.shmid) (λ a. shmat result.shmid (address_value a))
    use_segment status address result
