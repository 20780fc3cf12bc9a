-- ===== src/Config/Spec.antt =====
-- What the cache of src/dipp_config.c stands for: the tables as a function of the messages that
-- ground control has stored in the parameters.
use dipp.Base.{
  ℕ, ◌+◌, ◌≡◌, ◌≤◌, List, [], ◌∷◌, ◌++◌, Option, none, some, true, false, length, drop, map,
}
use dipp.Base.Int.{pos, pred_ℤ}
use dipp.Base.Update.{map_from}
use dipp.Types.{
  Text, Module, Pipeline, ParameterValue, ModuleParameter, ModuleParameterList, ModuleDefinition,
  PipelineDefinition, ConfigValue, ConfigParameter, ModuleConfig, filled, not_set, bool_value,
  int_value, float_value, string_value, value_not_set, value_bool, value_int, value_float,
  value_string,
}
use dipp.Machine.{Env, History}
use dipp.Config.Params.{max_modules, pipeline_paramid_offset, module_paramid_offset}
use dipp.Config.Buffer.{is_buffer_empty, library_path}

-- The parameter with this id holds these bytes, compressed, behind a size that counts at most the bytes
-- that follow it; or it is empty.
pub data Holds (env : Env) (param : ℕ) : List ℕ → Type 0 where
  empty : ((h : History) → is_buffer_empty (env.param_data param h) ≡ true) → Holds env param []
  encoded :
      (size : ℕ) (input bytes : List ℕ)
      → ((h : History) → env.param_data param h ≡ size ∷ input)
      → is_buffer_empty (size ∷ input) ≡ false
      → size ≤ length input
      → ((h : History) → env.decompress size input h ≡ some bytes)
      → Holds env param bytes

-- The allocator has memory, and the parameters, protobuf-c and the dynamic linker answer the same
-- at all times: what stands in the parameters, which messages these are (`none` if it is none), and
-- which library has which function.
pub record Configuration (env : Env) : Type 0 where
  pub allocates : (size : ℕ) (h : History) → env.malloc_ok size h ≡ true
  pub content : ℕ → List ℕ
  pub holds : (param : ℕ) → Holds env param (content param)
  pub pipelines : ℕ → Option PipelineDefinition
  pub configs : ℕ → Option ModuleConfig
  pub unpacks_pipeline :
      (i : ℕ) (h : History)
      → env.unpack_pipeline (content (pipeline_paramid_offset + i)) h ≡ pipelines i
  pub unpacks_config :
      (j : ℕ) (h : History) → env.unpack_config (content (module_paramid_offset + j)) h ≡ configs j
  pub few :
      (i : ℕ) (pdef : PipelineDefinition)
      → pipelines i ≡ some pdef
      → length pdef.modules ≤ max_modules
  pub library : Text → Option ℕ
  pub symbol : ℕ → Option ℕ
  pub opens : (path : Text) (h : History) → env.open_library path h ≡ library path
  pub finds : (handle : ℕ) (h : History) → env.symbol_run handle h ≡ symbol handle

-- The parameters of a module, copied.
abbrev pub value_of : ConfigValue → ParameterValue
value_of value_not_set = not_set
value_of (value_bool b) = bool_value b
value_of (value_int n) = int_value n
value_of (value_float x) = float_value x
value_of (value_string text) = string_value (some text)

abbrev pub parameter_of : ConfigParameter → ModuleParameter
parameter_of c = record { key = some c.key; value = value_of c.value }

abbrev pub list_of : List ConfigParameter → ModuleParameterList
list_of cs = record { n_parameters = length cs; parameters = filled (map parameter_of cs) }

abbrev pub or_old : {A B : Type 0} → Option A → B → (A → B) → B
or_old none old f = old
or_old (some a) old f = f a

module _ {env : Env} (conf : Configuration env) where
  -- The function `run` of the library of this name.
  abbrev pub function_of : Text → Option ℕ
  function_of name = or_old (conf.library (library_path env name)) none conf.symbol

  abbrev pub module_of : ModuleDefinition → Module
  module_of mdef = record {
    module_name = some mdef.name;
    module_function = function_of mdef.name;
    module_param_id = pred_ℤ mdef.param_id;
  }

  -- The places behind the modules of the message are as they were.
  abbrev pub with_definition : ℕ → PipelineDefinition → Pipeline → Pipeline
  with_definition i pdef p = record {
    pipeline_id = pos (i + 1);
    modules = map module_of pdef.modules ++ drop (length pdef.modules) p.modules;
    num_modules = length pdef.modules;
  }

  abbrev pub pipeline_entry : ℕ → Pipeline → Pipeline
  pipeline_entry i p = or_old (conf.pipelines i) p (λ pdef. with_definition i pdef p)

  abbrev pub config_entry : ℕ → ModuleParameterList → ModuleParameterList
  config_entry j l = or_old (conf.configs j) l (λ config. list_of config.parameters)

  -- The tables of the cache, from what stood in them before.
  abbrev pub cached_pipelines : List Pipeline → List Pipeline
  cached_pipelines old = map_from pipeline_entry 0 old

  abbrev pub cached_parameters : List ModuleParameterList → List ModuleParameterList
  cached_parameters old = map_from config_entry 0 old
