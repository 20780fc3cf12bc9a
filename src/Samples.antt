-- ===== src/Samples.antt =====
-- A small outside world and a start state, for the tests of every component.
use dipp.Base.{ℕ, Option, zero, suc, List, [], ◌∷◌, none, some, true, false, replicate}
use dipp.Base.Int.{pos}
use dipp.Base.Word.{le_value}
use dipp.Types.{ImageBatch, Module, Pipeline, ModuleParameterList, Metadata, null_array}
use dipp.Machine.{Env, State, ModuleRun, returned, timed_out, exited, killed, no_message, attached}

-- Module 0 returns its input, module 1 takes too long, module 2 exits with error 7, module 3 exits
-- without a word, and all others crash.
abbrev pub sample_run : ℕ → ImageBatch → ModuleRun
sample_run zero input = returned [] input
sample_run (suc zero) input = timed_out []
sample_run (suc (suc zero)) input = exited (7 ∷ []) 1
sample_run (suc (suc (suc zero))) input = exited [] 1
sample_run _ input = killed []

-- Metadata of one byte, the size of the image behind it.
abbrev pub sample_metadata : List ℕ → Metadata
sample_metadata bytes = record {
  size = pos (le_value bytes);
  height = pos 1;
  width = pos 1;
  channels = pos 1;
  timestamp = pos 0;
  bits_pixel = pos 8;
  obid = pos 4;
  camera = [];
  items = [];
}

-- Every call succeeds; the parameters are empty, the queue has no message, and the segment holds
-- one image of two bytes.
abbrev pub sample_env : Env
sample_env = record {
  param_data = λ param h. replicate 188 0;
  module_timeout = λ h. 10;
  malloc_ok = λ n h. true;
  decompress = λ n input h. some input;
  unpack_pipeline = λ bytes h. some (record { modules = [] });
  unpack_config = λ bytes h. some (record { parameters = [] });
  unpack_metadata = λ bytes h. some (sample_metadata bytes);
  open_library = λ path h. some 0;
  symbol_run = λ library h. some 0;
  run_module = λ address input config h. sample_run address input;
  pipe_ok = λ h. true;
  fork_ok = λ h. true;
  read_ok = λ h. true;
  write_ok = λ h. true;
  msgget_ok = λ h. true;
  receive = λ do_wait h. no_message;
  attach = λ id h. attached 4096 (1 ∷ 0 ∷ 0 ∷ 0 ∷ 2 ∷ 7 ∷ 9 ∷ []);
  detach_ok = λ h. true;
  remove_ok = λ id h. true;
  time_text = λ h. [];
  nanoseconds = λ h. 0;
  fopen_ok = λ file h. true;
  radio_node_id = λ h. 9;
  find_vmem = λ node h. some 65536;
  pull_value = λ id h. some 1;
  pull_list = λ id h. some (replicate 10 0);
  push_ok = λ id h. true;
  vmem_upload_ok = λ h. true;
}

abbrev pub no_module : Module
no_module = record { module_name = none; module_function = none; module_param_id = pos 0 }

abbrev pub blank_pipeline : Pipeline
blank_pipeline = record { pipeline_id = pos 0; modules = replicate 20 no_module; num_modules = 0 }

-- The state in which the program starts: the global variables are zero.
abbrev pub start_state : State
start_state = record {
  err_current_pipeline = 0;
  err_current_module = 0;
  pipelines = replicate 6 blank_pipeline;
  module_parameter_lists = replicate 20 (record { n_parameters = 0; parameters = null_array });
  is_setup = false;
  output_pipe = record { queue = []; writable = true };
  error_pipe = record { queue = []; writable = true };
  open_ends = [];
  logger = none;
  log_entries = [];
  vmem_vaddr = 0;
  buffer_node_id = 0;
  trace = [];
}

abbrev pub sample_batch : ImageBatch
sample_batch = record {
  mtype = 1;
  num_images = pos 1;
  batch_size = pos 7;
  shmid = pos 5;
  pipeline_id = pos 1;
  image_data = 0;
}

abbrev pub some_module : ℕ → Module
some_module address = record {
  module_name = some (97 ∷ []);
  module_function = some address;
  module_param_id = pos 0;
}

-- A pipeline of two modules: the first passes its input on, the second exits with error 7.
abbrev pub sample_pipeline : Pipeline
sample_pipeline = record {
  pipeline_id = pos 1;
  modules = some_module 0 ∷ some_module 2 ∷ replicate 18 no_module;
  num_modules = 2;
}

abbrev pub loaded_state : State
loaded_state = record start_state { pipelines = sample_pipeline ∷ replicate 5 blank_pipeline }

-- Each module sets the number of images to its address.
abbrev pub numbering : ℕ → ImageBatch → Option ModuleParameterList → ImageBatch
numbering address input config = record input { num_images = pos address }

abbrev pub steady_env : Env
steady_env = record sample_env {
  run_module = λ address input config h. returned [] (numbering address input config);
}
