-- ===== src/Config/Pipelines.antt =====
-- `setup_pipeline` of src/dipp_config.c.
use dipp.Base.{ℕ, ◌+◌, List, [], ◌∷◌, none, some, ltb, if◌then◌else◌, length, set, modify_elem}
use dipp.Base.Int.{ℤ, pos, negsuc, sub_ℕ, pred_ℤ}
use dipp.Types.{Module, Pipeline, ModuleDefinition, PipelineDefinition}
use dipp.Machine.{Env, State, M, ◌>>=◌, ◌>>◌, pure, fault, ask, modify, unpack}
use dipp.Config.Params.{max_modules, max_pipelines, pipeline_paramid_offset}
use dipp.Config.Buffer.{get_param_buffer, strdup_text, load_module}

-- An assignment to `pipelines[i]`.
unfoldable pub update_pipeline : ℕ → (Pipeline → Pipeline) → State → State
update_pipeline i f s = record s { pipelines = modify_elem s.pipelines i f }

-- The assignments to `pipelines[i].modules[module_idx]`; behind the array they hit other memory.
unfoldable pub store_module : ℕ → ℕ → Module → M (Unit {0})
unfolding update_pipeline
store_module i module_idx m =
    if ltb module_idx max_modules
    then modify (update_pipeline i (λ p. record p { modules = set p.modules module_idx m }))
    else fault

module _ (env : Env) where
  unfoldable pub load_definition : ModuleDefinition → M Module
  load_definition mdef = do
    name ← strdup_text env mdef.name
    function ← load_module env mdef.name
    pure (record {
      module_name = name;
      module_function = function;
      module_param_id = pred_ℤ mdef.param_id;
    })

  -- The loop over the definitions, from index `module_idx` on.
  unfoldable pub setup_modules : ℕ → ℕ → List ModuleDefinition → M (Unit {0})
  setup_modules i module_idx [] = pure tt
  setup_modules i module_idx (mdef ∷ mdefs) = do
    m ← load_definition mdef
    store_module i module_idx m
    setup_modules i (module_idx + 1) mdefs

  unfoldable pub fill_pipeline : ℤ → PipelineDefinition → M (Unit {0})
  fill_pipeline (negsuc n) pdef = fault
  fill_pipeline (pos i) pdef =
      if ltb i max_pipelines
      then (modify (
            update_pipeline i
              (λ p. record p { pipeline_id = pos (i + 1); num_modules = length pdef.modules }))
          >> setup_modules i 0 pdef.modules)
      else fault

  unfoldable pub setup_pipeline : ℕ → M (Unit {0})
  setup_pipeline param = do
    buffer ← get_param_buffer env param
    pdef ← ask (env.unpack_pipeline buffer) unpack
    elim pdef [
      | none ↦ pure tt
      | some definition ↦ fill_pipeline (sub_ℕ param pipeline_paramid_offset) definition
    ]
