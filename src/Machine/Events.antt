-- ===== src/Machine/Events.antt =====
-- The calls that leave the program, as the history that each run writes, the newest first.
use dipp.Base.{ℕ, Bool, List}
use dipp.Base.Int.{ℤ}
use dipp.Types.{Text}

-- The four ends of `output_pipe` and `error_pipe`.
pub data PipeEnd : Type 0 where
  output_read output_write error_read error_write : PipeEnd

pub data Event : Type 0 where
  set_log_status : ℕ → Event  -- param_set_uint32(&log_status, …)
  set_pipeline_run : ℕ → Event  -- param_set_uint8(&pipeline_run, …)
  get_data : ℕ → Event  -- param_get_data of the parameter with this id
  malloc : ℕ → Event
  strdup : Text → Event
  free : ℕ → Event  -- of a block of this size
  brotli : Event
  unpack : Event
  dlopen : Text → Event
  dlsym : Event
  dlclose : Event
  pipe_output pipe_error : Event
  close : PipeEnd → Event
  fork : Event
  alarm : ℕ → Event
  run : ℕ → Event  -- the call of a module's function
  write_output : Event
  write_error : ℕ → Event
  read_output read_error : Event
  waitpid : Event
  msgget : Event
  msgrcv : Bool → Event
  shmat : ℤ → ℕ → Event  -- of the segment with this id, which gives this address
  shmdt : ℕ → Event  -- of this address
  shmctl_rmid : ℤ → Event
  ring_write : List ℕ → Event  -- vmem_ring_write of these bytes
  clock : Event
  print : Text → Event
  fopen : Text → Event
  fprintf : Text → Text → Event  -- this text into this file
  fwrite : Text → List ℕ → Event  -- of these bytes into this file
  fflush : Text → Event
  fclose : Text → Event
  vmem_find : ℕ → Event  -- vmem_client_find on this node
  pull : ℕ → Event  -- param_pull_single of the parameter with this id
  push : ℕ → ℤ → ℕ → Event  -- param_push_single of an index of a parameter, with this value
  vmem_upload : ℕ → List ℕ → Event  -- of these bytes to an address of the other node
