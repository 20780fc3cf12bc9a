-- ===== src/Config/Entries.antt =====
-- What `setup_module_config` leaves in the table of module parameters.
use dipp.Base.{
  ℕ, ◌*◌, ◌≡◌, refl, ◌∙◌, List, [], ◌∷◌, some, length, get_elem?, modify_elem,
  get_elem?-modify_elem_self, get_elem?-modify_elem_ne, Bool-cases, inl, inr,
}
use dipp.Types.{Parameters, ModuleParameterList, ConfigParameter, null_array, filled}
use dipp.Machine.{Env, State, malloc, set_log_status}
use dipp.Machine.Hoare.{Returns, Returns-mono}
use dipp.Errors.{set_error_param, code_value, memory_malloc, get_error_as_uint32}
use dipp.Config.Modules.{set_parameters, set_n_parameters, store_config}
use dipp.Config.Copied.{EntryAt}
use dipp.Config.Filled.{assigned, with_parameters, fill_parameters-EntryAt}

module _ (env : Env) where
  -- The state behind the assignment of the count and the first allocation.
  abbrev counted : ℕ → List ConfigParameter → State → State
  counted id cs s = record s {
    module_parameter_lists =
        modify_elem s.module_parameter_lists id (λ l. record l { n_parameters = length cs });
    trace = malloc (8 * length cs) ∷ s.trace;
  }

  abbrev without_array : ℕ → List ConfigParameter → State → State
  without_array id cs s =
      let t = assigned id null_array (counted id cs s) in
      record t {
        trace =
            set_log_status (
              get_error_as_uint32 (code_value memory_malloc) s.err_current_pipeline
                s.err_current_module)
            ∷ t.trace;
      }

  abbrev with_count : ℕ → ModuleParameterList → ModuleParameterList
  with_count n l = record l { n_parameters = n }

  EntryAt-counted :
      (id : ℕ) (cs : List ConfigParameter) (ps : Parameters) (s t : State)
      → EntryAt env id (length cs) [] cs (assigned id ps (counted id cs s)) t
      → EntryAt env id (length cs) [] cs s t
  EntryAt-counted id cs ps s t (entry, (others, pipes)) = (
    entry,
    (
      (λ j m.
          others j m
          ∙ get_elem?-modify_elem_ne (counted id cs s).module_parameter_lists id j _ m
          ∙ get_elem?-modify_elem_ne s.module_parameter_lists id j _ m),
      pipes,
    ),
  )

  pub store_config-EntryAt :
      (id : ℕ) (cs : List ConfigParameter) (l : ModuleParameterList) (s : State)
      → get_elem? s.module_parameter_lists id ≡ some l
      → Returns (λ r t. EntryAt env id (length cs) [] cs s t) (store_config env id cs s)
  unfolding store_config set_n_parameters set_parameters set_error_param
  store_config-EntryAt id cs l s found = elim (Bool-cases (env.malloc_ok (8 * length cs) s.trace)) [
    | inl allocated ↦ rw allocated (
        Returns-mono
          (λ r t. EntryAt env id (length cs) [] cs (assigned id (filled []) (counted id cs s)) t)
          (λ r t. EntryAt env id (length cs) [] cs s t)
          (λ r t e. EntryAt-counted id cs (filled []) s t e) _
          (fill_parameters-EntryAt env id (length cs) [] cs
            (with_parameters (filled []) (with_count (length cs) l))
            (assigned id (filled []) (counted id cs s)) (at_entry (filled [])) refl refl))
    | inr no_memory ↦ rw no_memory (
        EntryAt-counted id cs null_array s (without_array id cs s) (
          (
            with_parameters null_array (with_count (length cs) l),
            at_entry null_array,
            refl,
            inr (inr refl, (8 * length cs, s.trace, no_memory), refl),
          ),
          ((λ j m. refl), refl),
        ))
  ]
    where
      at_entry :
          (ps : Parameters)
          → get_elem? (assigned id ps (counted id cs s)).module_parameter_lists id
            ≡ some (with_parameters ps (with_count (length cs) l))
      at_entry ps =
          get_elem?-modify_elem_self (counted id cs s).module_parameter_lists id
            (with_parameters ps) (with_count (length cs) l)
            (get_elem?-modify_elem_self s.module_parameter_lists id (with_count (length cs)) l
              found)
