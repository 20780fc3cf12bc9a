-- ===== src/Config/Listed.antt =====
-- One message with the parameters of a module into the cache, under a configuration.
use mathlib.Core.Path.{subst}
use dipp.Base.{
  ℕ, ◌+◌, ◌*◌, ◌≡◌, ◌<◌, refl, ap, sym, ◌∙◌, List, [], ◌∷◌, ◌++◌, length, map, modify_elem, lt→ltb,
  append_assoc, append-nil, Option-cases, inl, inr,
}
use dipp.Base.Int.{pos}
use dipp.Base.Update.{modify_elem-modify_elem, modify_elem-id}
use dipp.Types.{
  ModuleParameter, Parameters, ModuleParameterList, ConfigParameter, ModuleConfig, filled,
}
use dipp.Machine.{Env, State, malloc, ◌>>◌}
use dipp.Machine.Hoare.{Returns, Returns-bind, Returns-mono}
use dipp.Upload.Vars.{SameVars, SameVars-trans}
use dipp.Config.Params.{max_modules, module_paramid_offset}
use dipp.Config.Buffer.{get_param_buffer}
use dipp.Config.Modules.{
  set_parameters, set_n_parameters, copy_parameter, fill_parameters, store_config, fill_config,
  setup_module_config,
}
use dipp.Config.Spec.{Configuration, or_old, parameter_of, list_of, config_entry}
use dipp.Config.Calls.{get_param_buffer-Holds, copy_parameter-parameter_of}
use dipp.Config.Filled.{assigned}
use dipp.Config.Cached.{asked, sub_ℕ-offset}

abbrev pub WithParameters :
    (List ModuleParameterList → List ModuleParameterList) → State → State → Type 0
WithParameters f s t =
    t ≡ record s { module_parameter_lists = f s.module_parameter_lists; trace = t.trace }

WithParameters-SameVars :
    (f g : List ModuleParameterList → List ModuleParameterList) (s t u : State)
    → SameVars s t
    → WithParameters f t u
    → f s.module_parameter_lists ≡ g s.module_parameter_lists
    → WithParameters g s u
WithParameters-SameVars f g s t u same later e =
    later
    ∙ ap {A = State}
        (λ v. record v { module_parameter_lists = f v.module_parameter_lists; trace = u.trace })
        same
    ∙ ap {A = List ModuleParameterList}
        (λ ls. record s { module_parameter_lists = ls; trace = u.trace }) e

-- The pointer of one entry.
abbrev pointed : ℕ → Parameters → List ModuleParameterList → List ModuleParameterList
pointed id ps ls = modify_elem ls id (λ l. record l { parameters = ps })

module _ {env : Env} (conf : Configuration env) where
  fill_parameters-listed :
      (id n : ℕ) (old : List ModuleParameter) (cs : List ConfigParameter) (s : State)
      → Returns
          (λ r t. WithParameters (pointed id (filled (old ++ map parameter_of cs))) s t)
          (fill_parameters env id n old cs (assigned id (filled old) s))
  unfolding fill_parameters set_parameters
  fill_parameters-listed id n old [] s =
      ap {A = List ModuleParameter} (λ ps. assigned id (filled ps) s) (sym (append-nil old))
  fill_parameters-listed id n old (c ∷ cs) s = rw (conf.allocates 24 s.trace) (
      Returns-bind (λ p t. (p ≡ parameter_of c) × SameVars (allocated s) t)
        (λ r t. WithParameters (pointed id (filled (old ++ map parameter_of (c ∷ cs)))) s t)
        (copy_parameter env c)
        (λ p.
          set_parameters id (filled (old ++ p ∷ [])) >> fill_parameters env id n (old ++ p ∷ []) cs)
        (allocated s) (copy_parameter-parameter_of conf c (allocated s))
        (λ p t (e, same). rw e (
          subst
            (λ v.
              Returns
                (λ r u. WithParameters (pointed id (filled (old ++ map parameter_of (c ∷ cs)))) s u)
                (fill_parameters env id n (old ++ parameter_of c ∷ []) cs v))
            (sym (reassigned t same))
            (Returns-mono
              (λ r u.
                WithParameters
                  (pointed id (filled ((old ++ parameter_of c ∷ []) ++ map parameter_of cs)))
                  (base t) u)
              (λ r u. WithParameters (pointed id (filled (old ++ map parameter_of (c ∷ cs)))) s u)
              (λ r u later.
                later
                ∙ ap {A = List ModuleParameter}
                    (λ ps. record s {
                      module_parameter_lists = pointed id (filled ps) s.module_parameter_lists;
                      trace = u.trace;
                    })
                    (append_assoc old (parameter_of c ∷ []) (map parameter_of cs)))
              _ (fill_parameters-listed id n (old ++ parameter_of c ∷ []) cs (base t))))))
    where
      allocated : State → State
      allocated v = record (assigned id (filled old) v) { trace = malloc 24 ∷ v.trace }

      base : State → State
      base t = record s { trace = t.trace }

      reassigned :
          (t : State)
          → SameVars (allocated s) t
          → assigned id (filled (old ++ parameter_of c ∷ [])) t
            ≡ assigned id (filled (old ++ parameter_of c ∷ [])) (base t)
      reassigned t same =
          ap (assigned id (filled (old ++ parameter_of c ∷ []))) same
          ∙ ap {A = List ModuleParameterList}
              (λ ls. record s { module_parameter_lists = ls; trace = t.trace })
              (modify_elem-modify_elem s.module_parameter_lists id _ _)

  fill_config-listed :
      (id : ℕ) (config : ModuleConfig) (s : State)
      → id < max_modules
      → Returns
          (λ r t. WithParameters (λ ls. modify_elem ls id (λ l. list_of config.parameters)) s t)
          (fill_config env (pos id) config s)
  unfolding fill_config store_config set_n_parameters set_parameters
  fill_config-listed id config s lt =
      rw (lt→ltb id max_modules lt, conf.allocates (8 * length config.parameters) s.trace)
        (Returns-mono
          (λ r t.
            WithParameters (pointed id (filled (map parameter_of config.parameters))) counted t)
          (λ r t. WithParameters (λ ls. modify_elem ls id (λ l. list_of config.parameters)) s t)
          (λ r t later.
            later
            ∙ ap {A = List ModuleParameterList}
                (λ ls. record s { module_parameter_lists = ls; trace = t.trace })
                (modify_elem-modify_elem s.module_parameter_lists id _ _))
          _ (fill_parameters-listed id (length config.parameters) [] config.parameters counted))
    where
      counted : State
      counted = record s {
        module_parameter_lists =
            modify_elem s.module_parameter_lists id
              (λ l. record l { n_parameters = length config.parameters });
        trace = malloc (8 * length config.parameters) ∷ s.trace;
      }

  pub setup_module_config-listed :
      (j : ℕ) (s : State)
      → j < max_modules
      → Returns
          (λ r t. WithParameters (λ ls. modify_elem ls j (config_entry conf j)) s t)
          (setup_module_config env (module_paramid_offset + j) s)
  unfolding setup_module_config
  setup_module_config-listed j s lt =
      Returns-bind (λ b t. (b ≡ conf.content (module_paramid_offset + j)) × SameVars s t)
        (λ r t. WithParameters (λ ls. modify_elem ls j (config_entry conf j)) s t)
        (get_param_buffer env (module_paramid_offset + j)) _ s
        (get_param_buffer-Holds conf (module_paramid_offset + j) _ s
          (conf.holds (module_paramid_offset + j)))
        (λ b t (e, same).
          rw (e, conf.unpacks_config j t.trace)
            (elim (Option-cases (conf.configs j)) [
              | inl nothing ↦
                  rw (nothing, Returns)
                    (WithParameters-SameVars (λ ls. ls)
                      (λ ls. modify_elem ls j (config_entry conf j)) s t (asked t) same refl
                      (sym (
                        ap
                          (λ o.
                            modify_elem s.module_parameter_lists j
                              (λ l. or_old o l (λ d. list_of d.parameters)))
                          nothing
                        ∙ modify_elem-id s.module_parameter_lists j)))
              | inr (config, found) ↦
                  rw (found, sub_ℕ-offset module_paramid_offset j, Returns)
                    (Returns-mono
                      (λ r u.
                        WithParameters (λ ls. modify_elem ls j (λ l. list_of config.parameters))
                          (asked t) u)
                      (λ r u. WithParameters (λ ls. modify_elem ls j (config_entry conf j)) s u)
                      (λ r u later.
                        WithParameters-SameVars
                          (λ ls. modify_elem ls j (λ l. list_of config.parameters))
                          (λ ls. modify_elem ls j (config_entry conf j)) s (asked t) u
                          (SameVars-trans s t (asked t) same refl) later
                          (sym (
                            ap
                              (λ o.
                                modify_elem s.module_parameter_lists j
                                  (λ l. or_old o l (λ d. list_of d.parameters)))
                              found)))
                      _ (fill_config-listed j config (asked t) lt))
            ]))
