-- ===== src/Storage/Defs.antt =====
-- The parameters that lie in the storage file: PARAM_DEFINE_STATIC_VMEM in
-- src/include/param/dipp_config_param.h, dipp_error_param.h, vmem_upload_param.h and
-- dipp_process_param.h, with the ids of dipp_paramids.h and the addresses of
-- src/include/vmem/vmem_storage.h.
use dipp.Base.{ℕ, List, [], ◌∷◌, ◌++◌}
use dipp.Config.{data_param_size}

pub record Param : Type 0 where
  pub id : ℕ
  pub address : ℕ
  pub size : ℕ

-- A parameter of `DATA_PARAM_SIZE` bytes.
abbrev pub data_param : ℕ → ℕ → Param
data_param id address = record { id = id; address = address; size = data_param_size }

abbrev pub pipeline_config : List Param
pipeline_config =
    data_param 10 0
    ∷ data_param 11 188
    ∷ data_param 12 376
    ∷ data_param 13 564
    ∷ data_param 14 752
    ∷ data_param 15 940
    ∷ []

abbrev pub module_param : List Param
module_param =
    data_param 30 1128
    ∷ data_param 31 1316
    ∷ data_param 32 1504
    ∷ data_param 33 1692
    ∷ data_param 34 1880
    ∷ data_param 35 2068
    ∷ data_param 36 2256
    ∷ data_param 37 2444
    ∷ data_param 38 2632
    ∷ data_param 39 2820
    ∷ data_param 40 3008
    ∷ data_param 41 3196
    ∷ data_param 42 3384
    ∷ data_param 43 3572
    ∷ data_param 44 3760
    ∷ data_param 45 3948
    ∷ data_param 46 4136
    ∷ data_param 47 4324
    ∷ data_param 48 4512
    ∷ data_param 49 4700
    ∷ []

abbrev pub log_status : Param
log_status = record { id = 2; address = 4888; size = 4 }

abbrev pub radio_node_id : Param
radio_node_id = record { id = 3; address = 4892; size = 1 }

abbrev pub module_timeout : Param
module_timeout = record { id = 4; address = 4893; size = 4 }

-- All of them, by their addresses, and the size of the file in src/vmem/vmem_storage.c.
abbrev pub stored_params : List Param
stored_params =
    pipeline_config ++ (module_param ++ log_status ∷ radio_node_id ∷ module_timeout ∷ [])

abbrev pub storage_size : ℕ
storage_size = 10000
