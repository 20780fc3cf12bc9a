-- ===== src/Machine/Answers.antt =====
-- What the code outside the program answers. Every answer may depend on the whole history, so a
-- theorem for all `Env` holds however the kernel, the libraries and the modules behave.
use dipp.Base.{ℕ, Bool, List, Option}
use dipp.Base.Int.{ℤ}
use dipp.Types.{Text, ImageBatch, ModuleParameterList, PipelineDefinition, ModuleConfig, Metadata}
use dipp.Machine.Events.{Event}

abbrev pub History : Type 0
History = List Event

-- How the run of a module's function ends, with the words that it has written to the error pipe:
-- it returns a batch, the alarm interrupts it, it calls `exit`, or a signal kills it.
pub data ModuleRun : Type 0 where
  returned : List ℕ → ImageBatch → ModuleRun
  timed_out : List ℕ → ModuleRun
  exited : List ℕ → ℕ → ModuleRun
  killed : List ℕ → ModuleRun

-- `shmat` gives an address with the bytes that stand there, or (void *)-1. The program tests for
-- NULL.
pub data ShmAddr : Type 0 where
  null : ShmAddr
  minus_one : ShmAddr
  attached : ℕ → List ℕ → ShmAddr

-- `msgrcv` fails, waits for ever, or delivers the bytes of `mtext` of a message of type 1.
pub data Receipt : Type 0 where
  no_message : Receipt
  waits : Receipt
  message : List ℕ → Receipt

pub record Env : Type 0 where
  -- libparam
  pub param_data : ℕ → History → List ℕ
  pub module_timeout : History → ℕ
  -- the allocator
  pub malloc_ok : ℕ → History → Bool
  -- brotli, protobuf-c
  pub decompress : ℕ → List ℕ → History → Option (List ℕ)
  pub unpack_pipeline : List ℕ → History → Option PipelineDefinition
  pub unpack_config : List ℕ → History → Option ModuleConfig
  pub unpack_metadata : List ℕ → History → Option Metadata
  -- the dynamic linker and the modules
  pub open_library : Text → History → Option ℕ
  pub symbol_run : ℕ → History → Option ℕ
  pub run_module : ℕ → ImageBatch → Option ModuleParameterList → History → ModuleRun
  -- the kernel
  pub pipe_ok : History → Bool
  pub fork_ok : History → Bool
  pub read_ok : History → Bool
  pub write_ok : History → Bool
  pub msgget_ok : History → Bool
  pub receive : Bool → History → Receipt
  pub attach : ℤ → History → ShmAddr
  pub detach_ok : History → Bool
  pub remove_ok : ℤ → History → Bool
  -- the clock: the time as `strftime` prints it, and the nanoseconds
  pub time_text : History → Text
  pub nanoseconds : History → ℕ
  -- files
  pub fopen_ok : Text → History → Bool
  -- the node of the radio: the address of its buffer, its parameters, and what it takes
  pub radio_node_id : History → ℕ
  pub find_vmem : ℕ → History → Option ℕ
  pub pull_value : ℕ → History → Option ℕ
  pub pull_list : ℕ → History → Option (List ℕ)
  pub push_ok : ℕ → History → Bool
  pub vmem_upload_ok : History → Bool
