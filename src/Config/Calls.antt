-- ===== src/Config/Calls.antt =====
-- The calls of the set-up under a configuration.
use dipp.Base.{
  le→ltb_false, ℕ, ◌+◌, ◌≡◌, refl, ap, sym, ◌∙◌, List, ◌∷◌, none, some, length, Option-cases, inl,
  inr,
}
use dipp.Base.Int.{pred_ℤ}
use dipp.Types.{
  string_value, Text, ModuleDefinition, ConfigValue, ConfigParameter, value_not_set, value_bool,
  value_int, value_float, value_string,
}
use dipp.Machine.{pure, Env, State, get_data, brotli, dlopen}
use dipp.Machine.Hoare.{Returns, Returns-bind}
use dipp.Errors.{set_error_param}
use dipp.Upload.Vars.{SameVars, SameVars-trans}
use dipp.Config.Buffer.{
  get_param_buffer, decode_buffer, copy_buffer, strdup_text, load_module, library_path,
}
use dipp.Config.Pipelines.{load_definition}
use dipp.Config.Modules.{copy_value, copy_parameter}
use dipp.Config.Spec.{
  Holds, empty, encoded, Configuration, value_of, parameter_of, or_old, function_of, module_of,
}

module _ {env : Env} (conf : Configuration env) where
  pub get_param_buffer-Holds :
      (param : ℕ) (bytes : List ℕ) (s : State)
      → Holds env param bytes
      → Returns (λ b t. (b ≡ bytes) × SameVars s t) (get_param_buffer env param s)
  unfolding get_param_buffer decode_buffer copy_buffer
  get_param_buffer-Holds param bytes s (empty e) = rw (e s.trace, Returns) (refl, refl)
  get_param_buffer-Holds param bytes s (encoded size input b e full within d) =
      rw
        (
          e s.trace,
          full,
          le→ltb_false (length input) size within,
          d (get_data param ∷ s.trace),
          conf.allocates (length bytes) (brotli ∷ get_data param ∷ s.trace),
          decode_buffer,
          Returns,
        )
        (refl, refl)

  strdup_text-some :
      (text : Text) (s : State)
      → Returns (λ copy t. (copy ≡ some text) × SameVars s t) (strdup_text env text s)
  unfolding strdup_text
  strdup_text-some text s = rw (conf.allocates (length text + 1) s.trace) (refl, refl)

  load_module-function_of :
      (name : Text) (s : State)
      → Returns (λ a t. (a ≡ function_of conf name) × SameVars s t) (load_module env name s)
  unfolding load_module set_error_param
  load_module-function_of name s = elim (Option-cases (conf.library (library_path env name))) [
    | inl missing ↦
        rw (conf.opens (library_path env name) s.trace, missing, Returns)
          (sym (ap (λ o. or_old o none conf.symbol) missing), refl)
    | inr (handle, found) ↦
        let of_handle : function_of conf name ≡ conf.symbol handle =
          ap (λ o. or_old o none conf.symbol) found in
        rw
          (
            conf.opens (library_path env name) s.trace,
            found,
            conf.finds handle (dlopen (library_path env name) ∷ s.trace),
            Returns,
          )
          (elim (Option-cases (conf.symbol handle)) [
            | inl missing ↦ rw (missing, Returns) (sym (of_handle ∙ missing), refl)
            | inr (address, named) ↦ rw (named, Returns) (sym (of_handle ∙ named), refl)
          ])
  ]

  pub load_definition-module_of :
      (mdef : ModuleDefinition) (s : State)
      → Returns (λ m t. (m ≡ module_of conf mdef) × SameVars s t) (load_definition env mdef s)
  unfolding load_definition
  load_definition-module_of mdef s =
      Returns-bind (λ copy t. (copy ≡ some mdef.name) × SameVars s t) _ (strdup_text env mdef.name)
        _ s (strdup_text-some mdef.name s)
        (λ copy t (e, same).
          Returns-bind (λ a u. (a ≡ function_of conf mdef.name) × SameVars t u) _
            (load_module env mdef.name) _ t (load_module-function_of mdef.name t)
            (λ a u (g, later). (
              λ i. record {
                module_name = e i;
                module_function = g i;
                module_param_id = pred_ℤ mdef.param_id;
              },
              SameVars-trans s t u same later,
            )))

  copy_value-value_of :
      (v : ConfigValue) (s : State)
      → Returns (λ w t. (w ≡ value_of v) × SameVars s t) (copy_value env v s)
  unfolding copy_value strdup_text
  copy_value-value_of value_not_set s = (refl, refl)
  copy_value-value_of (value_bool b) s = (refl, refl)
  copy_value-value_of (value_int n) s = (refl, refl)
  copy_value-value_of (value_float x) s = (refl, refl)
  copy_value-value_of (value_string text) s =
      Returns-bind (λ copy t. (copy ≡ some text) × SameVars s t)
        (λ w t. (w ≡ string_value (some text)) × SameVars s t) (strdup_text env text)
        (λ copy. pure (string_value copy)) s (strdup_text-some text s)
        (λ copy t (e, same). (ap string_value e, same))

  pub copy_parameter-parameter_of :
      (c : ConfigParameter) (s : State)
      → Returns (λ p t. (p ≡ parameter_of c) × SameVars s t) (copy_parameter env c s)
  unfolding copy_parameter
  copy_parameter-parameter_of c s =
      Returns-bind (λ copy t. (copy ≡ some c.key) × SameVars s t) _ (strdup_text env c.key) _ s
        (strdup_text-some c.key s)
        (λ key t (e, same).
          Returns-bind (λ w u. (w ≡ value_of c.value) × SameVars t u) _ (copy_value env c.value) _ t
            (copy_value-value_of c.value t)
            (λ w u (g, later).
              (λ i. record { key = e i; value = g i }, SameVars-trans s t u same later)))
