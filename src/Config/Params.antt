-- ===== src/Config/Params.antt =====
-- The parameters that hold the configuration: src/include/param/dipp_paramids.h and
-- dipp_config_param.h.
use dipp.Base.{ℕ, List, [], ◌∷◌}

abbrev pub max_modules : ℕ
max_modules = 20

abbrev pub max_pipelines : ℕ
max_pipelines = 6

abbrev pub pipeline_paramid_offset : ℕ
pipeline_paramid_offset = 10

abbrev pub module_paramid_offset : ℕ
module_paramid_offset = 30

abbrev pub data_param_size : ℕ
data_param_size = 188

-- The ids of the parameters in the two tables, in their order.
abbrev pub pipeline_config_params : List ℕ
pipeline_config_params = 10 ∷ 11 ∷ 12 ∷ 13 ∷ 14 ∷ 15 ∷ []

abbrev pub module_config_params : List ℕ
module_config_params =
    30 ∷ 31 ∷ 32 ∷ 33 ∷ 34 ∷ 35 ∷ 36 ∷ 37 ∷ 38 ∷ 39 ∷ 40 ∷ 41 ∷ 42 ∷ 43 ∷ 44 ∷ 45 ∷ 46 ∷ 47 ∷ 48
    ∷ 49 ∷ []
