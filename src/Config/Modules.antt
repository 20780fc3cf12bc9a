-- ===== src/Config/Modules.antt =====
-- `setup_module_config` of src/dipp_config.c.
use dipp.Base.{
  ℕ, ◌+◌, ◌*◌, List, [], ◌∷◌, ◌++◌, Option, none, some, true, false, ltb, if◌then◌else◌, length,
  modify_elem,
}
use dipp.Base.Int.{ℤ, pos, negsuc, sub_ℕ}
use dipp.Types.{
  Text, ParameterValue, ModuleParameter, Parameters, ConfigValue, ConfigParameter, ModuleConfig,
  null_array, filled, freed, not_set, bool_value, int_value, float_value, string_value,
  value_not_set, value_bool, value_int, value_float, value_string,
}
use dipp.Machine.{Env, M, ◌>>=◌, ◌>>◌, pure, fault, ask, emit, modify, unpack, malloc, free}
use dipp.Errors.{code_value, set_error_param, memory_malloc}
use dipp.Config.Params.{max_modules, module_paramid_offset}
use dipp.Config.Buffer.{get_param_buffer, strdup_text}

-- `module_parameter_lists[module_id].parameters = …`
unfoldable pub set_parameters : ℕ → Parameters → M (Unit {0})
set_parameters module_id ps = modify (λ s. record s {
  module_parameter_lists =
      modify_elem s.module_parameter_lists module_id (λ l. record l { parameters = ps });
})

-- `module_parameter_lists[module_id].n_parameters = …`
unfoldable pub set_n_parameters : ℕ → ℕ → M (Unit {0})
set_n_parameters module_id n = modify (λ s. record s {
  module_parameter_lists =
      modify_elem s.module_parameter_lists module_id (λ l. record l { n_parameters = n });
})

unfoldable pub free_string : Option Text → M (Unit {0})
free_string none = pure tt
free_string (some text) = emit (free (length text + 1))

-- The string of a parameter is freed, its key is not.
unfoldable pub free_parameter : ModuleParameter → M (Unit {0})
unfolding free_string
free_parameter p = elim p.value [
  | string_value text ↦ free_string text >> emit (free 24)
  | _ ↦ emit (free 24)
]

-- The clean-up loop over the parameters that are filled.
unfoldable pub free_parameters : List ModuleParameter → M (Unit {0})
free_parameters [] = pure tt
free_parameters (p ∷ ps) = free_parameter p >> free_parameters ps

module _ (env : Env) where
  -- The `switch` over the case of the value.
  unfoldable pub copy_value : ConfigValue → M ParameterValue
  copy_value value_not_set = pure not_set
  copy_value (value_bool b) = pure (bool_value b)
  copy_value (value_int n) = pure (int_value n)
  copy_value (value_float x) = pure (float_value x)
  copy_value (value_string text) = do copy ← strdup_text env text; pure (string_value copy)

  unfoldable pub copy_parameter : ConfigParameter → M ModuleParameter
  copy_parameter c = do
    key ← strdup_text env c.key
    value ← copy_value c.value
    pure (record { key = key; value = value })

  -- The loop over the parameters of the message; `done_ones` are those copied so far, `n` the
  -- number of all.
  unfoldable pub fill_parameters :
      ℕ → ℕ → List ModuleParameter → List ConfigParameter → M (Unit {0})
  fill_parameters module_id n done_ones [] = pure tt
  fill_parameters module_id n done_ones (c ∷ cs) = do
    allocated ← ask (env.malloc_ok 24) (malloc 24)
    elim allocated [
      | true ↦ do
        p ← copy_parameter c
        set_parameters module_id (filled (done_ones ++ p ∷ []))
        fill_parameters module_id n (done_ones ++ p ∷ []) cs
      | false ↦ do
        set_error_param (code_value memory_malloc)
        free_parameters done_ones
        emit (free (8 * n))
        set_parameters module_id freed
    ]

  unfoldable pub store_config : ℕ → List ConfigParameter → M (Unit {0})
  store_config module_id cs = do
    set_n_parameters module_id (length cs)
    allocated ← ask (env.malloc_ok (8 * length cs)) (malloc (8 * length cs))
    elim allocated [
      | true ↦ set_parameters module_id (filled []) >> fill_parameters module_id (length cs) [] cs
      | false ↦ set_parameters module_id null_array >> set_error_param (code_value memory_malloc)
    ]

  unfoldable pub fill_config : ℤ → ModuleConfig → M (Unit {0})
  fill_config (negsuc n) mcon = fault
  fill_config (pos module_id) mcon =
      if ltb module_id max_modules then store_config module_id mcon.parameters else fault

  unfoldable pub setup_module_config : ℕ → M (Unit {0})
  setup_module_config param = do
    buffer ← get_param_buffer env param
    mcon ← ask (env.unpack_config buffer) unpack
    elim mcon [
      | none ↦ pure tt
      | some config ↦ fill_config (sub_ℕ param module_paramid_offset) config
    ]
