-- ===== src/Config/Copied.antt =====
-- The copies that `setup_module_config` makes of parameters, and what its entry holds afterwards.
use dipp.Base.{
  ℕ, ◌≡◌, ◌≢◌, ◌⊎◌, ◌+◌, false, if◌then◌else◌, length, refl, ◌∙◌, List, [], ◌∷◌, ◌++◌, Option, none,
  some, arith, get_elem?,
}
use dipp.Types.{
  Text, ParameterValue, ModuleParameter, ModuleParameterList, ConfigValue, ConfigParameter,
  null_array, filled, freed, not_set, bool_value, int_value, float_value, string_value,
  value_not_set, value_bool, value_int, value_float, value_string,
}
use dipp.Machine.{Env, State, History}
use dipp.Machine.Trace.{log_status}
use dipp.Machine.Hoare.{Returns, Returns-bind, Returns-mono}
use dipp.Errors.{code_value, memory_malloc, get_error_as_uint32}
use dipp.Config.Buffer.{strdup_text}
use dipp.Config.Modules.{free_parameter, free_parameters, copy_value, copy_parameter}

-- A string that was copied, or NULL because the allocator has refused it.
abbrev pub StringCopied : Env → Text → Option Text → Type 0
StringCopied env text copy =
    (h : History) × (copy ≡ (if env.malloc_ok (length text + 1) h then some text else none))

-- The same case with the same value.
abbrev pub ValueCopied : Env → ConfigValue → ParameterValue → Type 0
ValueCopied env value_not_set not_set = Unit
ValueCopied env (value_bool b) (bool_value c) = c ≡ b
ValueCopied env (value_int n) (int_value k) = k ≡ n
ValueCopied env (value_float x) (float_value y) = y ≡ x
ValueCopied env (value_string text) (string_value copy) = StringCopied env text copy
ValueCopied env _ _ = ⊥

abbrev pub Copied : Env → List ConfigParameter → List ModuleParameter → Type 0
Copied env [] [] = Unit
Copied env (c ∷ cs) (p ∷ ps) =
    StringCopied env c.key p.key × ValueCopied env c.value p.value × Copied env cs ps
Copied env _ _ = ⊥

-- What the copying of a parameter leaves alone.
abbrev pub Same : State → State → Type 0
Same s t =
    (t.module_parameter_lists ≡ s.module_parameter_lists)
    × (t.pipelines ≡ s.pipelines)
    × (t.err_current_pipeline ≡ s.err_current_pipeline)
    × (t.err_current_module ≡ s.err_current_module)
    × (log_status t.trace ≡ log_status s.trace)

-- How the parameters of an entry can stand behind the call: `old` and copies of all that were left,
-- with no error; or a block that the allocator has refused, with that error reported and the pointer to an array that has been
-- freed, or NULL.
abbrev pub ParametersOf :
    Env → List ModuleParameter → List ConfigParameter → State → ModuleParameterList → State → Type 0
ParametersOf env old cs s l t =
    ((ps : List ModuleParameter) × (l.parameters ≡ filled (old ++ ps))
      × Copied env cs ps
      × (log_status t.trace ≡ log_status s.trace))
    ⊎ (((l.parameters ≡ freed) ⊎ (l.parameters ≡ null_array))
        × ((size : ℕ) × (h : History) × (env.malloc_ok size h ≡ false))
        × (log_status t.trace
            ≡ some (
                get_error_as_uint32 (code_value memory_malloc) s.err_current_pipeline
                  s.err_current_module)))

-- The entry at `id` has `n` parameters, and the others are as they were.
abbrev pub EntryAt :
    Env → ℕ → ℕ → List ModuleParameter → List ConfigParameter → State → State → Type 0
EntryAt env id n old cs s t =
    ((l : ModuleParameterList) × (get_elem? t.module_parameter_lists id ≡ some l)
      × (l.n_parameters ≡ n)
      × ParametersOf env old cs s l t)
    × (((j : ℕ)
          → id ≢ j
          → get_elem? t.module_parameter_lists j ≡ get_elem? s.module_parameter_lists j)
        × (t.pipelines ≡ s.pipelines))

module _ (env : Env) where
  strdup_text-StringCopied :
      (text : Text) (s : State)
      → Returns (λ copy t. StringCopied env text copy × Same s t) (strdup_text env text s)
  unfolding strdup_text
  strdup_text-StringCopied text s = ((s.trace, refl), (refl, refl, refl, refl, refl))

  copy_value-ValueCopied :
      (v : ConfigValue) (s : State)
      → Returns (λ w t. ValueCopied env v w × Same s t) (copy_value env v s)
  unfolding copy_value
  copy_value-ValueCopied value_not_set s = ground arith
  copy_value-ValueCopied (value_bool b) s = ground arith
  copy_value-ValueCopied (value_int n) s = ground arith
  copy_value-ValueCopied (value_float x) s = ground arith
  copy_value-ValueCopied (value_string text) s = ground (arith, strdup_text-StringCopied text s)

  pub Same-trans : (s t u : State) → Same s t → Same t u → Same s u
  Same-trans s t u p q = (q.0 ∙ p.0, q.1 ∙ p.1, q.2 ∙ p.2, q.3 ∙ p.3, q.4 ∙ p.4)

  pub copy_parameter-Copied :
      (c : ConfigParameter) (s : State)
      → Returns
          (λ p t. (StringCopied env c.key p.key × ValueCopied env c.value p.value) × Same s t)
          (copy_parameter env c s)
  unfolding copy_parameter
  copy_parameter-Copied c s =
      Returns-bind (λ copy t. StringCopied env c.key copy × Same s t) _ (strdup_text env c.key) _ s
        (strdup_text-StringCopied c.key s)
        (λ key t k.
          Returns-bind (λ w u. ValueCopied env c.value w × Same t u) _ (copy_value env c.value) _ t
            (copy_value-ValueCopied c.value t) (λ w u v. ((k.0, v.0), Same-trans s t u k.1 v.1)))

  free_parameter-Same :
      (p : ModuleParameter) (s : State) → Returns (λ r t. Same s t) (free_parameter p s)
  unfolding free_parameter
  free_parameter-Same p s = ground arith

  -- The clean-up calls `free` alone.
  pub free_parameters-Same :
      (ps : List ModuleParameter) (s : State) → Returns (λ r t. Same s t) (free_parameters ps s)
  unfolding free_parameters
  free_parameters-Same [] s = (refl, refl, refl, refl, refl)
  free_parameters-Same (p ∷ ps) s =
      Returns-bind (λ r t. Same s t) (λ r t. Same s t) (free_parameter p) _ s
        (free_parameter-Same p s)
        (λ r t q.
          Returns-mono (λ r. Same t) (λ r. Same s) (λ r u v. Same-trans s t u q v) _
            (free_parameters-Same ps t))
