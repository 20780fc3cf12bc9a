-- ===== src/Config/Aside.antt =====
-- Setting up the cache leaves segments, ring buffer and message queue alone.
use dipp.Base.{
  ℕ, ◌+◌, ◌++◌, ◌*◌, List, [], ◌∷◌, none, some, Bool, true, false, arith, length, refl, ltb,
}
use dipp.Base.Int.{ℤ, pos, negsuc, sub_ℕ}
use dipp.Types.{
  Text, ModuleDefinition, PipelineDefinition, ModuleParameter, ConfigValue, ConfigParameter,
  ModuleConfig, filled, freed, null_array, value_not_set, value_bool, value_int, value_float,
  value_string,
}
use dipp.Machine.{Env, M, ◌>>◌, pure, ask, emit, modify, gets, unpack, malloc, free}
use dipp.Machine.Aside.{Aside, Aside-bind, Aside-if, Aside-elim}
use dipp.Errors.{code_value, set_error_param, memory_malloc}
use dipp.Config.Params.{
  max_pipelines, max_modules, pipeline_paramid_offset, module_paramid_offset,
  pipeline_config_params, module_config_params,
}
use dipp.Config.Buffer.{get_param_buffer, decode_buffer, copy_buffer, strdup_text, load_module}
use dipp.Config.Pipelines.{
  update_pipeline, store_module, load_definition, setup_modules, fill_pipeline, setup_pipeline,
}
use dipp.Config.Modules.{
  set_parameters, set_n_parameters, free_parameter, free_parameters, copy_value, copy_parameter,
  fill_parameters, store_config, fill_config, setup_module_config,
}
use dipp.Config.Cache.{
  for_params, setup_all_pipelines, setup_all_module_configs, setup_cache_if_needed,
}

set_error_param-Aside : (code : ℕ) → Aside (set_error_param code)
unfolding set_error_param
set_error_param-Aside code s = refl

for_params-Aside :
    (setup : ℕ → M (Unit {0}))
    → ((param : ℕ) → Aside (setup param))
    → (params : List ℕ) → Aside (for_params setup params)
unfolding for_params
for_params-Aside setup each [] = λ s. refl
for_params-Aside setup each (param ∷ params) =
    Aside-bind (setup param) (λ r. for_params setup params) (each param)
      (λ r. for_params-Aside setup each params)

free_parameters-Aside : (ps : List ModuleParameter) → Aside (free_parameters ps)
unfolding free_parameters free_parameter
free_parameters-Aside [] = λ s. refl
free_parameters-Aside (p ∷ ps) =
    Aside-bind (free_parameter p) (λ r. free_parameters ps) (λ s. ground arith)
      (λ r. free_parameters-Aside ps)

module _ (env : Env) where
  get_param_buffer-Aside : (param : ℕ) → Aside (get_param_buffer env param)
  unfolding get_param_buffer decode_buffer copy_buffer set_error_param
  get_param_buffer-Aside param s = ground arith

  load_definition-Aside : (mdef : ModuleDefinition) → Aside (load_definition env mdef)
  unfolding load_definition strdup_text load_module set_error_param
  load_definition-Aside mdef s = ground arith

  setup_modules-Aside :
      (i k : ℕ) (mdefs : List ModuleDefinition) → Aside (setup_modules env i k mdefs)
  unfolding setup_modules store_module
  setup_modules-Aside i k [] = λ s. refl
  setup_modules-Aside i k (mdef ∷ mdefs) =
      Aside-bind (load_definition env mdef)
        (λ m. store_module i k m >> setup_modules env i (k + 1) mdefs) (load_definition-Aside mdef)
        (λ m.
          Aside-bind (store_module i k m) (λ r. setup_modules env i (k + 1) mdefs)
            (λ s. ground arith) (λ r. setup_modules-Aside i (k + 1) mdefs))

  fill_pipeline-Aside : (i : ℤ) (pdef : PipelineDefinition) → Aside (fill_pipeline env i pdef)
  unfolding fill_pipeline update_pipeline
  fill_pipeline-Aside (negsuc i) pdef = λ s. tt
  fill_pipeline-Aside (pos i) pdef =
      Aside-if (ltb i max_pipelines) _ _
        (Aside-bind (modify _) (λ r. setup_modules env i 0 pdef.modules) (λ s. refl)
          (λ r. setup_modules-Aside i 0 pdef.modules))
        (λ s. tt)

  setup_pipeline-Aside : (param : ℕ) → Aside (setup_pipeline env param)
  unfolding setup_pipeline
  setup_pipeline-Aside param =
      Aside-bind (get_param_buffer env param) _ (get_param_buffer-Aside param) (λ buffer.
        Aside-bind (ask (env.unpack_pipeline buffer) unpack)
          (λ d. elim d [
            | none ↦ pure tt
            | some pdef ↦ fill_pipeline env (sub_ℕ param pipeline_paramid_offset) pdef
          ])
          (λ s. refl)
          (λ d.
            Aside-elim d (pure tt) (fill_pipeline env (sub_ℕ param pipeline_paramid_offset))
              (λ s. refl) (fill_pipeline-Aside (sub_ℕ param pipeline_paramid_offset))))

  strdup_text-Aside : (text : Text) → Aside (strdup_text env text)
  unfolding strdup_text
  strdup_text-Aside text s = refl

  copy_value-Aside : (v : ConfigValue) → Aside (copy_value env v)
  unfolding copy_value
  copy_value-Aside value_not_set = λ s. refl
  copy_value-Aside (value_bool b) = λ s. refl
  copy_value-Aside (value_int n) = λ s. refl
  copy_value-Aside (value_float x) = λ s. refl
  copy_value-Aside (value_string text) =
      Aside-bind (strdup_text env text) _ (strdup_text-Aside text) (λ copy s. refl)

  copy_parameter-Aside : (c : ConfigParameter) → Aside (copy_parameter env c)
  unfolding copy_parameter
  copy_parameter-Aside c =
      Aside-bind (strdup_text env c.key) _ (strdup_text-Aside c.key)
        (λ key. Aside-bind (copy_value env c.value) _ (copy_value-Aside c.value) (λ value s. refl))

  -- The two ends of a round of `fill_parameters`.
  Aside-allocated :
      (allocated : Bool) (m k : M (Unit {0}))
      → Aside m
      → Aside k
      → Aside (elim allocated [ true ↦ m | false ↦ k ])
  Aside-allocated true m k first second = first
  Aside-allocated false m k first second = second

  fill_parameters-Aside :
      (id n : ℕ) (old : List ModuleParameter) (cs : List ConfigParameter)
      → Aside (fill_parameters env id n old cs)
  unfolding fill_parameters set_parameters
  fill_parameters-Aside id n old [] = λ s. refl
  fill_parameters-Aside id n old (c ∷ cs) =
      Aside-bind (ask (env.malloc_ok 24) (malloc 24)) _ (λ s. refl)
        (λ allocated.
          Aside-allocated allocated _ _
            (Aside-bind (copy_parameter env c) _ (copy_parameter-Aside c) (λ p.
              Aside-bind (set_parameters id (filled (old ++ p ∷ []))) _ (λ s. refl)
                (λ r. fill_parameters-Aside id n (old ++ p ∷ []) cs)))
            (Aside-bind (set_error_param (code_value memory_malloc)) _
              (set_error_param-Aside (code_value memory_malloc))
              (λ r.
                Aside-bind (free_parameters old)
                  (λ r. emit (free (8 * n)) >> set_parameters id freed) (free_parameters-Aside old)
                  (λ r s. refl))))

  store_config-Aside : (id : ℕ) (cs : List ConfigParameter) → Aside (store_config env id cs)
  unfolding store_config set_parameters set_n_parameters
  store_config-Aside id cs =
      Aside-bind (set_n_parameters id (length cs)) _ (λ s. refl)
        (λ r.
          Aside-bind (ask (env.malloc_ok (8 * length cs)) (malloc (8 * length cs))) _ (λ s. refl)
            (λ allocated.
              Aside-allocated allocated _ _
                (Aside-bind (set_parameters id (filled [])) _ (λ s. refl)
                  (λ r. fill_parameters-Aside id (length cs) [] cs))
                (Aside-bind (set_parameters id null_array) _ (λ s. refl)
                  (λ r. set_error_param-Aside (code_value memory_malloc)))))

  fill_config-Aside : (id : ℤ) (config : ModuleConfig) → Aside (fill_config env id config)
  unfolding fill_config
  fill_config-Aside (negsuc n) config = λ s. tt
  fill_config-Aside (pos id) config =
      Aside-if (ltb id max_modules) _ _ (store_config-Aside id config.parameters) (λ s. tt)

  setup_module_config-Aside : (param : ℕ) → Aside (setup_module_config env param)
  unfolding setup_module_config
  setup_module_config-Aside param =
      Aside-bind (get_param_buffer env param) _ (get_param_buffer-Aside param) (λ buffer.
        Aside-bind (ask (env.unpack_config buffer) unpack)
          (λ d. elim d [
            | none ↦ pure tt
            | some config ↦ fill_config env (sub_ℕ param module_paramid_offset) config
          ])
          (λ s. refl)
          (λ d.
            Aside-elim d (pure tt) (fill_config env (sub_ℕ param module_paramid_offset)) (λ s. refl)
              (fill_config-Aside (sub_ℕ param module_paramid_offset))))

  pub setup_cache_if_needed-Aside : Aside (setup_cache_if_needed env)
  unfolding setup_cache_if_needed setup_all_pipelines setup_all_module_configs
  setup_cache_if_needed-Aside =
      Aside-bind (gets (λ s. s.is_setup)) _ (λ s. refl)
        (λ is_ready.
          Aside-if is_ready _ _ (λ s. refl)
            (Aside-bind (for_params (setup_pipeline env) pipeline_config_params) _
              (for_params-Aside (setup_pipeline env) setup_pipeline-Aside pipeline_config_params)
              (λ r.
                Aside-bind (for_params (setup_module_config env) module_config_params)
                  (λ r. modify (λ s. record s { is_setup = true }))
                  (for_params-Aside (setup_module_config env) setup_module_config-Aside
                    module_config_params)
                  (λ r s. refl))))
