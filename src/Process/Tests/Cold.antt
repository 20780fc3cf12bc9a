-- ===== src/Process/Tests/Cold.antt =====
-- A run of `process_all` of src/dipp_process.c that begins with a cache that is not set up.
use native.Mathlib.Nat.{zero-add}
use dipp.Base.{
  ℕ, zero, suc, ◌+◌, ◌-◌, ◌≡◌, ◌≤◌, refl, ap, ◌∙◌, none, some, arith, replicate, Bool, false, List,
  [], ◌∷◌, map, length, Option, ◌==◌, if◌then◌else◌,
}
use dipp.Base.Int.{pos}
use dipp.Base.Text.{codes}
use dipp.Types.{Module, Pipeline, ModuleParameterList, PipelineDefinition, ModuleConfig, value_int}
use dipp.Samples.{start_state, numbering, sample_metadata, blank_pipeline}
use dipp.Machine.{Env, State, History}
use dipp.Machine.Hoare.{Returns}
use dipp.Config.{is_buffer_empty, library_path}
use dipp.Config.Start.{start_state-WellFormed}
use dipp.Config.Shape.{WellFormed-Kept}
use dipp.Config.Spec.{
  Configuration, encoded, cached_pipelines, cached_parameters, module_of, pipeline_entry,
}
use dipp.Process.Kept.{received}
use dipp.Process.Loop.{process_all}
use dipp.Process.Compose.{Steady, AllLoaded, compose}
use dipp.Process.Rounds.{Job}
use dipp.Process.Drained.{Drained, answer}
use dipp.Process.Cold.{process_all-Configured}
use dipp.Process.Tests.{two_images, camera_batch, camera_batch-IsSent}
use dipp.Process.Tests.Queue.{queue_env, one_message}

-- The parameter 10 holds a pipeline of two modules, the parameter 31 one number for the second.
abbrev two_modules : PipelineDefinition
two_modules = record {
  modules =
      record { order = pos 0; name = codes "a"; param_id = pos 1 }
      ∷ record { order = pos 1; name = codes "ab"; param_id = pos 2 }
      ∷ [];
}

abbrev one_number : ModuleConfig
one_number = record { parameters = record { key = codes "k"; value = value_int (pos 4) } ∷ [] }

abbrev pipeline_message : List ℕ → Option PipelineDefinition
pipeline_message [] = none
pipeline_message (id ∷ bytes) = if id == 10 then some two_modules else none

abbrev config_message : List ℕ → Option ModuleConfig
config_message [] = none
config_message (id ∷ bytes) = if id == 31 then some one_number else none

-- A library has its function at the length of its name.
abbrev pub cold_env : Env
cold_env = record queue_env {
  param_data = λ param h. 1 ∷ param ∷ [];
  unpack_pipeline = λ bytes h. pipeline_message bytes;
  unpack_config = λ bytes h. config_message bytes;
  open_library = λ path h. some (length path);
  symbol_run = λ library h. some (library - 23);
}

cold_env-Steady : Steady cold_env numbering
cold_env-Steady = record {
  works = record { forks = λ h. refl; reads = λ h. refl; writes = λ h. refl };
  pipes = λ h. refl;
  returns = λ a b c h. refl;
}

pub pipeline_message-few :
    (id : ℕ) (pdef : PipelineDefinition)
    → pipeline_message (id ∷ []) ≡ some pdef
    → length pdef.modules ≤ 20
pipeline_message-few id pdef e = ground arith

pub not_empty : (param : ℕ) → is_buffer_empty (1 ∷ param ∷ []) ≡ false
unfolding is_buffer_empty
not_empty param = refl

abbrev pub cold_configuration : Configuration cold_env
cold_configuration = record {
  allocates = λ size h. refl;
  content = λ param. param ∷ [];
  holds = λ param.
      encoded 1 (param ∷ []) (param ∷ []) (λ h. refl) (not_empty param) (omega arith) (λ h. refl);
  pipelines = λ i. pipeline_message ((10 + i) ∷ []);
  configs = λ j. config_message ((30 + j) ∷ []);
  unpacks_pipeline = λ i h. refl;
  unpacks_config = λ j h. refl;
  few = λ i. pipeline_message-few (10 + i);
  library = λ path. some (length path);
  symbol = λ handle. some (handle - 23);
  opens = λ path h. refl;
  finds = λ handle h. refl;
}

abbrev pub cold_state : State
cold_state = record start_state { logger = some (codes "dipp.log") }

abbrev cold_table : List Pipeline
cold_table = cached_pipelines cold_configuration start_state.pipelines

abbrev cold_lists : List ModuleParameterList
cold_lists = cached_parameters cold_configuration start_state.module_parameter_lists

abbrev pub cold_modules : List Module
cold_modules = map (module_of cold_configuration) two_modules.modules

cold_loaded : AllLoaded cold_modules
unfolding library_path
cold_loaded = ((1, refl), ((2, refl), tt))

cold_made :
    compose numbering cold_lists cold_modules camera_batch
    ≡ record camera_batch { num_images = pos 2 }
unfolding library_path
cold_made = refl

abbrev cold_job : Job cold_env numbering cold_table cold_lists
cold_job = record {
  batch = camera_batch;
  extra = replicate 8 5;
  earlier = [];
  later = replicate 5 blank_pipeline;
  pipeline = pipeline_entry cold_configuration 0 blank_pipeline;
  modules = cold_modules;
  result = record camera_batch { num_images = pos 2 };
  shots = two_images;
  slack = [];
  address = 4096;
  sent = camera_batch-IsSent;
  extra_bytes = refl;
  in_table = refl;
  first = tt;
  named = refl;
  counted = refl;
  few = omega arith;
  listed = refl;
  loaded = cold_loaded;
  made = cold_made;
  num_images = refl;
  batch_size = refl;
  fits = omega arith;
  unpacks = (
    (λ h. (sample_metadata (2 ∷ []), refl, refl)),
    ((λ h. (sample_metadata (1 ∷ []), refl, refl)), tt),
  );
  attaches = λ h. refl;
  detaches = λ h. refl;
  removes = λ h. refl;
}

abbrev ColdQueue : List (List ℕ) → Bool → State → Type 0
ColdQueue =
    Drained cold_env numbering cold_env-Steady cold_table cold_lists (codes "dipp.log")
      (cold_job ∷ [])

cold_answers :
    (h : History) (n : ℕ)
    → received h ≡ 0 + n
    → one_message (received h)
      ≡ answer cold_env numbering cold_env-Steady cold_table cold_lists
          (codes "dipp.log")
          (cold_job ∷ [])
          n
cold_answers h zero e = ap one_message e
cold_answers h (suc n) e = ap one_message (e ∙ zero-add (suc n))

process_all-Configured_example :
    Returns (ColdQueue []) (process_all cold_env 2 (replicate 32 0) false cold_state)
process_all-Configured_example =
    process_all-Configured cold_env numbering cold_env-Steady cold_configuration
      start_state.pipelines start_state.module_parameter_lists (codes "dipp.log") (cold_job ∷ [])
      (replicate 32 0) false [] 0 0 cold_state (λ h. refl) cold_answers
      (WellFormed-Kept start_state cold_state (refl, refl) start_state-WellFormed) refl refl
      (refl, refl, refl, refl, refl, refl, refl) (omega arith)
