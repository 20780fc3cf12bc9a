-- ===== src/Config/Filled.antt =====
-- What `fill_parameters` leaves in an entry of the table of module parameters.
use mathlib.Core.Path.{ap₂}
use dipp.Base.{
  ℕ, ◌*◌, ◌≡◌, refl, sym, ap, ◌∙◌, List, [], ◌∷◌, ◌++◌, some, get_elem?, modify_elem, append_assoc,
  append-nil, get_elem?-modify_elem_self, get_elem?-modify_elem_ne, Bool-cases, inl, inr,
}
use dipp.Types.{ModuleParameter, Parameters, ModuleParameterList, ConfigParameter, filled, freed}
use dipp.Machine.{Env, State, malloc, free, emit, set_log_status, ◌>>◌}
use dipp.Machine.Hoare.{Returns, Returns-bind, Returns-mono}
use dipp.Errors.{set_error_param, code_value, memory_malloc, get_error_as_uint32}
use dipp.Config.Modules.{set_parameters, free_parameters, copy_parameter, fill_parameters}
use dipp.Config.Copied.{
  StringCopied, ValueCopied, Same, EntryAt, copy_parameter-Copied, free_parameters-Same,
}

-- The state behind an assignment to the parameters.
abbrev pub assigned : ℕ → Parameters → State → State
assigned id ps s = record s {
  module_parameter_lists =
      modify_elem s.module_parameter_lists id (λ l. record l { parameters = ps });
}

abbrev pub with_parameters : Parameters → ModuleParameterList → ModuleParameterList
with_parameters ps l = record l { parameters = ps }

module _ (env : Env) where
  EntryAt-step :
      (id n : ℕ) (old : List ModuleParameter) (p : ModuleParameter) (c : ConfigParameter)
      (cs : List ConfigParameter) (s t u : State)
      → StringCopied env c.key p.key × ValueCopied env c.value p.value
      → Same s t
      → EntryAt env id n (old ++ p ∷ []) cs (assigned id (filled (old ++ p ∷ [])) t) u
      → EntryAt env id n old (c ∷ cs) s u
  EntryAt-step id n old p c cs s t u k same
        ((l, found, num, inl (ps, e, copied, quiet)), (others, pipes)) =
      (
        (
          l,
          found,
          num,
          inl (
            p ∷ ps,
            e ∙ ap filled (append_assoc old (p ∷ []) ps),
            (k.0, k.1, copied),
            quiet ∙ same.4,
          ),
        ),
        (
          (λ j m.
              others j m
              ∙ get_elem?-modify_elem_ne t.module_parameter_lists id j _ m
              ∙ ap (λ ls. get_elem? ls j) same.0),
          pipes ∙ same.1,
        ),
      )
  EntryAt-step id n old p c cs s t u k same
        ((l, found, num, inr (lost, refused, logged)), (others, pipes)) =
      (
        (
          l,
          found,
          num,
          inr (
            lost,
            refused,
            logged ∙ ap₂ (λ x y. some (get_error_as_uint32 100 x y)) same.2 same.3,
          ),
        ),
        (
          (λ j m.
              others j m
              ∙ get_elem?-modify_elem_ne t.module_parameter_lists id j _ m
              ∙ ap (λ ls. get_elem? ls j) same.0),
          pipes ∙ same.1,
        ),
      )

  -- The state behind a failed allocation.
  abbrev reported : State → State
  reported s = record s {
    trace =
        set_log_status (
          get_error_as_uint32 (code_value memory_malloc) s.err_current_pipeline
            s.err_current_module)
        ∷ malloc 24
        ∷ s.trace;
  }

  pub fill_parameters-EntryAt :
      (id n : ℕ) (old : List ModuleParameter) (cs : List ConfigParameter) (l : ModuleParameterList)
      (s : State)
      → get_elem? s.module_parameter_lists id ≡ some l
      → l.n_parameters ≡ n
      → l.parameters ≡ filled old
      → Returns (λ r t. EntryAt env id n old cs s t) (fill_parameters env id n old cs s)
  unfolding fill_parameters set_parameters set_error_param
  fill_parameters-EntryAt id n old [] l s found num e = (
    (l, found, num, inl ([], e ∙ ap filled (sym (append-nil old)), tt, refl)),
    ((λ j m. refl), refl),
  )
  fill_parameters-EntryAt id n old (c ∷ cs) l s found num e =
      elim (Bool-cases (env.malloc_ok 24 s.trace)) [
        | inl allocated ↦ rw allocated (
            Returns-bind
              (λ p t. (StringCopied env c.key p.key × ValueCopied env c.value p.value) × Same s t)
              (λ r u. EntryAt env id n old (c ∷ cs) s u) (copy_parameter env c)
              (λ p.
                set_parameters id (filled (old ++ p ∷ []))
                >> fill_parameters env id n (old ++ p ∷ []) cs)
              (record s { trace = malloc 24 ∷ s.trace }) (copy_parameter-Copied env c _)
              (λ p t k.
                Returns-mono
                  (λ r u.
                    EntryAt env id n (old ++ p ∷ []) cs (assigned id (filled (old ++ p ∷ [])) t) u)
                  (λ r u. EntryAt env id n old (c ∷ cs) s u)
                  (λ r u f. EntryAt-step id n old p c cs s t u k.0 k.1 f) _
                  (fill_parameters-EntryAt id n (old ++ p ∷ []) cs
                    (with_parameters (filled (old ++ p ∷ [])) l)
                    (assigned id (filled (old ++ p ∷ [])) t)
                    (get_elem?-modify_elem_self t.module_parameter_lists id
                      (with_parameters (filled (old ++ p ∷ []))) l
                      (ap (λ ls. get_elem? ls id) k.1.0 ∙ found))
                    num refl)))
        | inr no_memory ↦ rw no_memory (
            Returns-bind (λ r t. Same (reported s) t) (λ r u. EntryAt env id n old (c ∷ cs) s u)
              (free_parameters old) (λ r. emit (free (8 * n)) >> set_parameters id freed)
              (reported s) (free_parameters-Same env old (reported s))
              (λ r t q. (
                (
                  with_parameters freed l,
                  get_elem?-modify_elem_self t.module_parameter_lists id (with_parameters freed) l
                      (ap (λ ls. get_elem? ls id) q.0 ∙ found),
                  num,
                  inr (inl refl, (24, s.trace, no_memory), q.4),
                ),
                (
                  (λ j m.
                      get_elem?-modify_elem_ne t.module_parameter_lists id j _ m
                      ∙ ap (λ ls. get_elem? ls j) q.0),
                  q.1,
                ),
              )))
      ]
