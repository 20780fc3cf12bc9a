-- ===== src/Config/Tests.antt =====
-- The theorems on src/dipp_config.c at small messages.
use dipp.Base.{ℕ, ◌≡◌, refl, List, [], ◌∷◌, some, arith, replicate, true, Option, length, ◌≤◌}
use dipp.Base.Int.{pos}
use dipp.Types.{
  ModuleDefinition, PipelineDefinition, ConfigParameter, value_string, value_int,
  ModuleParameterList, null_array,
}
use dipp.Samples.{sample_env, start_state, blank_pipeline}
use dipp.Machine.{History}
use dipp.Machine.{Env, undefined}
use dipp.Machine.Hoare.{Returns}
use dipp.Config.Pipelines.{fill_pipeline}
use dipp.Config.Stored.{Configured, fill_pipeline-Configured, fill_pipeline-overflow}
use dipp.Config.Cache.{setup_cache_if_needed}
use dipp.Config.Shape.{Bounded}
use dipp.Config.Ready.{SetUp, setup_cache_if_needed-SetUp}
use dipp.Config.Buffer.{is_buffer_empty}
use dipp.Config.Spec.{Configuration, empty}
use dipp.Config.Refined.{Cached, setup_cache_if_needed-Cached}
use dipp.Config.Start.{start_state-WellFormed}

abbrev crop : ModuleDefinition
crop = record { order = pos 0; name = 99 ∷ []; param_id = pos 3 }

abbrev modules : ℕ → PipelineDefinition
modules n = record { modules = replicate n crop }

fill_pipeline-Configured_example :
    Returns
      (λ r t. Configured sample_env 2 (modules 2) start_state t)
      (fill_pipeline sample_env (pos 2) (modules 2) start_state)
fill_pipeline-Configured_example =
    fill_pipeline-Configured sample_env 2 (modules 2) blank_pipeline start_state (omega arith) refl
      refl (omega arith)

fill_pipeline-overflow_example :
    fill_pipeline sample_env (pos 2) (modules 21) start_state ≡ undefined
fill_pipeline-overflow_example =
    fill_pipeline-overflow sample_env 2 (modules 21) start_state (omega arith) (omega arith)

abbrev two_parameters : List ConfigParameter
two_parameters =
    record { key = 107 ∷ []; value = value_int (pos 4) }
    ∷ record { key = 109 ∷ []; value = value_string (110 ∷ []) }
    ∷ []

abbrev no_parameters : ModuleParameterList
no_parameters = record { n_parameters = 0; parameters = null_array }

-- Every message of this outside world has two modules.
abbrev two_modules_env : Env
two_modules_env = record sample_env { unpack_pipeline = λ bytes h. some (modules 2) }

two_modules_env-few :
    (bytes : List ℕ) (h : History) (pdef : PipelineDefinition)
    → two_modules_env.unpack_pipeline bytes h ≡ some pdef
    → length pdef.modules ≤ 20
two_modules_env-few bytes h pdef e = ground arith

two_modules_env-Bounded : Bounded two_modules_env
two_modules_env-Bounded = ((λ param h. omega arith), two_modules_env-few)

setup_cache_if_needed-SetUp_example :
    Returns (SetUp start_state) (setup_cache_if_needed two_modules_env start_state)
setup_cache_if_needed-SetUp_example =
    setup_cache_if_needed-SetUp two_modules_env two_modules_env-Bounded start_state
      start_state-WellFormed

-- All parameters are empty, and an empty message has two modules.
empty_buffer : is_buffer_empty (replicate 188 0) ≡ true
unfolding is_buffer_empty
empty_buffer = refl

abbrev same_modules : ℕ → Option PipelineDefinition
same_modules i = some (modules 2)

same_modules-few :
    (i : ℕ) (pdef : PipelineDefinition) → same_modules i ≡ some pdef → length pdef.modules ≤ 20
same_modules-few i pdef e = ground arith

abbrev two_modules_configuration : Configuration two_modules_env
two_modules_configuration = record {
  allocates = λ size h. refl;
  content = λ param. [];
  holds = λ param. empty (λ h. empty_buffer);
  pipelines = same_modules;
  configs = λ j. some (record { parameters = [] });
  unpacks_pipeline = λ i h. refl;
  unpacks_config = λ j h. refl;
  few = same_modules-few;
  library = λ path. some 0;
  symbol = λ handle. some 0;
  opens = λ path h. refl;
  finds = λ handle h. refl;
}

setup_cache_if_needed-Cached_example :
    Returns
      (Cached two_modules_configuration start_state)
      (setup_cache_if_needed two_modules_env start_state)
setup_cache_if_needed-Cached_example =
    setup_cache_if_needed-Cached two_modules_configuration start_state refl start_state-WellFormed
      refl refl
