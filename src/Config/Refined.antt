-- ===== src/Config/Refined.antt =====
-- Setting up the cache under a configuration makes the tables that it stands for.
use dipp.Base.{
  ℕ, suc, ◌+◌, ◌≡◌, ◌<◌, refl, ap, sym, ◌∙◌, List, [], ◌∷◌, ◌++◌, Option, none, some, true, false,
  length, map, drop, modify_elem, get_elem?, if◌then◌else◌, arith,
}
use mathlib.Core.Path.{ap₂, subst}
use dipp.Base.Int.{pos}
use dipp.Base.Update.{map_from, indices, modify_all, modify_all-map_from, store_from-drop}
use dipp.Types.{Module, Pipeline, PipelineDefinition, ModuleParameterList}
use dipp.Machine.{Env, State, M, ◌>>◌, pure, modify}
use dipp.Machine.Hoare.{Returns, Returns-bind, Returns-mono}
use dipp.Config.Params.{
  max_modules, max_pipelines, pipeline_paramid_offset, module_paramid_offset,
  pipeline_config_params, module_config_params,
}
use dipp.Config.Pipelines.{setup_pipeline}
use dipp.Config.Modules.{setup_module_config}
use dipp.Config.Cache.{
  for_params, setup_all_pipelines, setup_all_module_configs, setup_cache_if_needed,
}
use dipp.Config.Shape.{WellFormed}
use dipp.Config.Spec.{
  Configuration, or_old, module_of, with_definition, pipeline_entry, config_entry, cached_pipelines,
  cached_parameters,
}
use dipp.Config.Cached.{WithPipelines, with_stored, stored_entry, setup_pipeline-stored}
use dipp.Config.Listed.{WithParameters, setup_module_config-listed}

-- All of these are below a bound.
abbrev AllBelow : ℕ → List ℕ → Type 0
AllBelow n [] = Unit
AllBelow n (i ∷ is) = (i < n) × AllBelow n is

-- All pipelines of the table have 20 places.
abbrev AllSized : List Pipeline → Type 0
AllSized [] = Unit
AllSized (p ∷ ps) = (length p.modules ≡ max_modules) × AllSized ps

AllSized-get_elem? :
    (ps : List Pipeline)
    → ((j : ℕ) (p : Pipeline) → get_elem? ps j ≡ some p → length p.modules ≡ max_modules)
    → AllSized ps
AllSized-get_elem? [] each = tt
AllSized-get_elem? (p ∷ ps) each =
    (each 0 p refl, AllSized-get_elem? ps (λ j q e. each (suc j) q e))

length-map : {A B : Type 0} (f : A → B) (xs : List A) → length (map f xs) ≡ length xs
length-map f [] = refl
length-map f (x ∷ xs) = ap suc (length-map f xs)

module _ {env : Env} (conf : Configuration env) where
  for_params-stored :
      (is : List ℕ) (s : State)
      → AllBelow max_pipelines is
      → Returns
          (λ r t. WithPipelines (modify_all (stored_entry conf) is) s t)
          (for_params (setup_pipeline env) (map (λ i. pipeline_paramid_offset + i) is) s)
  unfolding for_params
  for_params-stored [] s all = refl
  for_params-stored (i ∷ is) s all =
      Returns-bind (λ r t. WithPipelines (λ ps. modify_elem ps i (stored_entry conf i)) s t)
        (λ r t. WithPipelines (modify_all (stored_entry conf) (i ∷ is)) s t)
        (setup_pipeline env (pipeline_paramid_offset + i)) _ s
        (setup_pipeline-stored conf i s all.0)
        (λ r t e.
          Returns-mono (λ r u. WithPipelines (modify_all (stored_entry conf) is) t u)
            (λ r u. WithPipelines (modify_all (stored_entry conf) (i ∷ is)) s u)
            (λ r u later.
              later
              ∙ ap {A = State}
                  (λ v. record v {
                    pipelines = modify_all (stored_entry conf) is v.pipelines;
                    trace = u.trace;
                  })
                  e)
            _ (for_params-stored is t all.1))

  for_params-listed :
      (js : List ℕ) (s : State)
      → AllBelow max_modules js
      → Returns
          (λ r t. WithParameters (modify_all (config_entry conf) js) s t)
          (for_params (setup_module_config env) (map (λ j. module_paramid_offset + j) js) s)
  unfolding for_params
  for_params-listed [] s all = refl
  for_params-listed (j ∷ js) s all =
      Returns-bind (λ r t. WithParameters (λ ls. modify_elem ls j (config_entry conf j)) s t)
        (λ r t. WithParameters (modify_all (config_entry conf) (j ∷ js)) s t)
        (setup_module_config env (module_paramid_offset + j)) _ s
        (setup_module_config-listed conf j s all.0)
        (λ r t e.
          Returns-mono (λ r u. WithParameters (modify_all (config_entry conf) js) t u)
            (λ r u. WithParameters (modify_all (config_entry conf) (j ∷ js)) s u)
            (λ r u later.
              later
              ∙ ap {A = State}
                  (λ v. record v {
                    module_parameter_lists =
                        modify_all (config_entry conf) js v.module_parameter_lists;
                    trace = u.trace;
                  })
                  e)
            _ (for_params-listed js t all.1))

  -- The modules of a message, stored one after another, are the first of the pipeline.
  entries_agree :
      (i : ℕ) (p : Pipeline) (o : Option PipelineDefinition)
      → conf.pipelines i ≡ o
      → length p.modules ≡ max_modules
      → or_old o p (λ pdef. with_stored conf i pdef p)
        ≡ or_old o p (λ pdef. with_definition conf i pdef p)
  entries_agree i p none e sized = refl
  entries_agree i p (some pdef) e sized =
      ap {A = List Module}
        (λ ms. record {
          pipeline_id = pos (i + 1);
          modules = ms;
          num_modules = length pdef.modules;
        })
        (store_from-drop (map (module_of conf) pdef.modules) p.modules
            (omega (arith, conf.few i pdef e, length-map (module_of conf) pdef.modules))
          ∙ ap (λ n. map (module_of conf) pdef.modules ++ drop n p.modules)
              (length-map (module_of conf) pdef.modules))

  map_from-stored_entry :
      (k : ℕ) (ps : List Pipeline)
      → AllSized ps
      → map_from (stored_entry conf) k ps ≡ map_from (pipeline_entry conf) k ps
  map_from-stored_entry k [] all = refl
  map_from-stored_entry k (p ∷ ps) all =
      ap₂ (λ q qs. q ∷ qs) (entries_agree k p (conf.pipelines k) refl all.0)
        (map_from-stored_entry (suc k) ps all.1)

  modify_all-cached_pipelines :
      (ps : List Pipeline)
      → length ps ≡ max_pipelines
      → AllSized ps
      → modify_all (stored_entry conf) (indices 0 max_pipelines) ps ≡ cached_pipelines conf ps
  modify_all-cached_pipelines ps six all =
      ap (λ n. modify_all (stored_entry conf) (indices 0 n) ps) (sym six)
      ∙ modify_all-map_from (stored_entry conf) ps
      ∙ map_from-stored_entry 0 ps all

  modify_all-cached_parameters :
      (ls : List ModuleParameterList)
      → length ls ≡ max_modules
      → modify_all (config_entry conf) (indices 0 max_modules) ls ≡ cached_parameters conf ls
  modify_all-cached_parameters ls twenty =
      ap (λ n. modify_all (config_entry conf) (indices 0 n) ls) (sym twenty)
      ∙ modify_all-map_from (config_entry conf) ls

  -- The state of the specification.
  abbrev pub Cached : State → Unit {0} → State → Type 0
  Cached s r t = t ≡ record s {
    pipelines = cached_pipelines conf s.pipelines;
    module_parameter_lists = cached_parameters conf s.module_parameter_lists;
    is_setup = true;
    trace = t.trace;
  }

  -- Under a configuration, with six pipelines and the parameters of twenty modules in well-formed
  -- tables: if the cache is not marked, `setup_cache_if_needed` returns, and its effect on the
  -- variables of the program is to replace the two tables by those of the specification and to mark
  -- the cache. For each message of a pipeline that is the entry with the index plus one for its id
  -- and the message's modules in order, each with its name, the function of its library and its
  -- parameter id minus one; for each message of parameters it is a copy of them; an entry without a
  -- message stays as it was.
  pub setup_cache_if_needed-Cached :
      (s : State)
      → s.is_setup ≡ false
      → WellFormed s
      → length s.pipelines ≡ max_pipelines
      → length s.module_parameter_lists ≡ max_modules
      → Returns (Cached s) (setup_cache_if_needed env s)
  unfolding setup_cache_if_needed setup_all_pipelines setup_all_module_configs
  setup_cache_if_needed-Cached s stale w six twenty =
      subst (λ b. Returns (Cached s) ((if b then pure tt else fill) s)) (sym stale)
        (Returns-bind
          (λ r t. WithPipelines (modify_all (stored_entry conf) (indices 0 max_pipelines)) s t)
          (Cached s) (for_params (setup_pipeline env) pipeline_config_params) _ s
          (for_params-stored (indices 0 max_pipelines) s (omega arith))
          (λ r t e.
            Returns-bind
              (λ r u. WithParameters (modify_all (config_entry conf) (indices 0 max_modules)) t u)
              (Cached s) (for_params (setup_module_config env) module_config_params)
              (λ r. modify (λ v. record v { is_setup = true })) t
              (for_params-listed (indices 0 max_modules) t (omega arith))
              (λ r u later.
                ap {A = State} (λ v. record v { is_setup = true }) later
                ∙ ap {A = State}
                    (λ v. record v {
                      module_parameter_lists =
                          modify_all (config_entry conf) (indices 0 max_modules)
                            v.module_parameter_lists;
                      is_setup = true;
                      trace = u.trace;
                    })
                    e
                ∙ ap₂ {A = List Pipeline} {B = List ModuleParameterList}
                    (λ ps ls. record s {
                      pipelines = ps;
                      module_parameter_lists = ls;
                      is_setup = true;
                      trace = u.trace;
                    })
                    (modify_all-cached_pipelines s.pipelines six
                      (AllSized-get_elem? s.pipelines (λ j p e₁. (w.entries j p e₁).1)))
                    (modify_all-cached_parameters s.module_parameter_lists twenty))))
    where
      fill : M (Unit {0})
      fill =
          setup_all_pipelines env
          >> (setup_all_module_configs env >> modify (λ v. record v { is_setup = true }))
