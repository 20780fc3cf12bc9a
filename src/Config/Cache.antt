-- ===== src/Config/Cache.antt =====
-- The cache of the configuration: `setup_all_pipelines`, `setup_all_module_configs`,
-- `setup_cache_if_needed` and `invalidate_cache` of src/dipp_config.c.
use dipp.Base.{ℕ, List, [], ◌∷◌, true, false, if◌then◌else◌}
use dipp.Machine.{Env, M, ◌>>=◌, ◌>>◌, pure, gets, modify}
use dipp.Config.Params.{pipeline_config_params, module_config_params}
use dipp.Config.Pipelines.{setup_pipeline}
use dipp.Config.Modules.{setup_module_config}

-- A loop over a table of parameters.
unfoldable pub for_params : (ℕ → M (Unit {0})) → List ℕ → M (Unit {0})
for_params setup [] = pure tt
for_params setup (param ∷ params) = setup param >> for_params setup params

module _ (env : Env) where
  unfoldable pub setup_all_pipelines : M (Unit {0})
  setup_all_pipelines = for_params (setup_pipeline env) pipeline_config_params

  unfoldable pub setup_all_module_configs : M (Unit {0})
  setup_all_module_configs = for_params (setup_module_config env) module_config_params

  unfoldable pub setup_cache_if_needed : M (Unit {0})
  setup_cache_if_needed = do
    is_ready ← gets (λ s. s.is_setup)
    if is_ready
        then pure tt
        else (setup_all_pipelines
            >> (setup_all_module_configs >> modify (λ s. record s { is_setup = true })))

unfoldable pub invalidate_cache : M (Unit {0})
invalidate_cache = modify (λ s. record s { is_setup = false })
