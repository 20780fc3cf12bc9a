-- ===== src/Config/Slots.antt =====
-- What `load_module` and one round of the loop of `setup_pipeline` make of a module of a message.
use dipp.Base.{
  ℕ, ◌+◌, ◌≡◌, refl, ap, ◌∙◌, List, [], ◌∷◌, Option, none, some, length, ◌++◌, take, if◌then◌else◌,
  Option-cases, sym, get_elem?, inl, inr,
}
use dipp.Base.Text.{codes}
use dipp.Base.Int.{pred_ℤ}
use dipp.Types.{Text, Module, ModuleDefinition}
use dipp.Machine.{Env, State, History, strdup, dlopen}
use dipp.Machine.Hoare.{Returns, Returns-bind}
use dipp.Errors.{set_error_param}
use dipp.Config.Buffer.{library_path, strdup_text, load_module}
use dipp.Config.Pipelines.{load_definition}

-- The function `run` of a library, NULL if there is no library or it has none.
abbrev pub symbol_of : Env → History → Option ℕ → Option ℕ
symbol_of env h none = none
symbol_of env h (some library) = env.symbol_run library h

abbrev pub loaded_function : Env → Text → History → Option ℕ
loaded_function env path h = symbol_of env (dlopen path ∷ h) (env.open_library path h)

-- The path of a library, of which 255 characters are kept.
abbrev pub path_of : Text → Text
path_of name = take 255 (codes "/usr/share/pipeline/" ++ (name ++ codes ".so"))

-- A slot holds what a definition asks for: the parameter id minus one; the name, NULL if the
-- allocator has refused its copy; and then what its library gives for a function.
abbrev pub HoldsIn : Env → ModuleDefinition → Module → Type 0
HoldsIn env mdef m =
    (m.module_param_id ≡ pred_ℤ mdef.param_id)
    × ((h : History) × (m.module_name
          ≡ (if env.malloc_ok (length mdef.name + 1) h then some mdef.name else none))
        × (m.module_function ≡ loaded_function env (path_of mdef.name) (strdup mdef.name ∷ h)))

-- From index `k` on the slots hold the definitions, in their order.
abbrev pub HoldFrom : Env → ℕ → List ModuleDefinition → List Module → Type 0
HoldFrom env k [] ms = Unit
HoldFrom env k (mdef ∷ mdefs) ms =
    ((m : Module) × (get_elem? ms k ≡ some m) × HoldsIn env mdef m) × HoldFrom env (k + 1) mdefs ms

module _ (env : Env) where
  load_module-loaded_function :
      (name : Text) (s : State)
      → Returns
          (λ f t.
            (f ≡ loaded_function env (path_of name) s.trace)
            × (t.pipelines ≡ s.pipelines)
            × (t.module_parameter_lists ≡ s.module_parameter_lists))
          (load_module env name s)
  unfolding load_module library_path set_error_param
  load_module-loaded_function name s =
      elim (Option-cases (env.open_library (path_of name) s.trace)) [
        | inl missing ↦
            rw (missing, Returns)
              (sym (ap (symbol_of env (dlopen (path_of name) ∷ s.trace)) missing), refl, refl)
        | inr (library, found) ↦
            rw (found, Returns)
              (elim (Option-cases (env.symbol_run library (dlopen (path_of name) ∷ s.trace))) [
                | inl nothing ↦
                    rw (nothing, Returns)
                      (
                        sym (ap (symbol_of env (dlopen (path_of name) ∷ s.trace)) found ∙ nothing),
                        refl,
                        refl,
                      )
                | inr (address, there) ↦
                    rw (there, Returns)
                      (
                        sym (ap (symbol_of env (dlopen (path_of name) ∷ s.trace)) found ∙ there),
                        refl,
                        refl,
                      )
              ])
      ]

  pub load_definition-HoldsIn :
      (mdef : ModuleDefinition) (s : State)
      → Returns
          (λ m t.
            HoldsIn env mdef m
            × (t.pipelines ≡ s.pipelines)
            × (t.module_parameter_lists ≡ s.module_parameter_lists))
          (load_definition env mdef s)
  unfolding load_definition strdup_text
  load_definition-HoldsIn mdef s =
      Returns-bind
        (λ f t.
          (f ≡ loaded_function env (path_of mdef.name) (strdup mdef.name ∷ s.trace))
          × (t.pipelines ≡ s.pipelines)
          × (t.module_parameter_lists ≡ s.module_parameter_lists))
        (λ m t.
          HoldsIn env mdef m
          × (t.pipelines ≡ s.pipelines)
          × (t.module_parameter_lists ≡ s.module_parameter_lists))
        (load_module env mdef.name) _ (record s { trace = strdup mdef.name ∷ s.trace })
        (load_module-loaded_function mdef.name (record s { trace = strdup mdef.name ∷ s.trace }))
        (λ f t q. ((refl, (s.trace, refl, q.0)), q.1, q.2))
