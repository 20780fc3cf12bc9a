-- ===== src/Config/Cached.antt =====
-- One message into the cache, under a configuration.
use dipp.Base.{
  ℕ, ◌+◌, ◌≡◌, ◌≤◌, ◌<◌, refl, ap, sym, ◌∙◌, List, [], ◌∷◌, length, map, set, modify_elem, arith,
  lt→ltb, Option-cases, inl, inr,
}
use dipp.Base.Int.{pos, sub_ℕ}
use dipp.Base.Update.{store_from, modify_elem-modify_elem, modify_elem-id}
use dipp.Types.{Module, Pipeline, ModuleDefinition, PipelineDefinition}
use dipp.Machine.{Env, State, unpack, ◌>>◌}
use dipp.Machine.Hoare.{Returns, Returns-bind, Returns-mono}
use dipp.Upload.Vars.{SameVars, SameVars-trans}
use dipp.Config.Params.{max_modules, max_pipelines, pipeline_paramid_offset}
use dipp.Config.Buffer.{get_param_buffer}
use dipp.Config.Pipelines.{
  setup_pipeline, update_pipeline, store_module, load_definition, setup_modules, fill_pipeline,
}
use dipp.Config.Spec.{Configuration, or_old, module_of}
use dipp.Config.Calls.{get_param_buffer-Holds, load_definition-module_of}

-- The tables after these updates, and nothing else has changed but what has been called.
abbrev pub WithPipelines : (List Pipeline → List Pipeline) → State → State → Type 0
WithPipelines f s t = t ≡ record s { pipelines = f s.pipelines; trace = t.trace }

pub sub_ℕ-offset : (low i : ℕ) → sub_ℕ (low + i) low ≡ pos i
sub_ℕ-offset low i = ground arith

-- The state behind the call of `unpack`.
abbrev pub asked : State → State
asked t = record t { trace = unpack ∷ t.trace }

module _ {env : Env} (conf : Configuration env) where
  -- The modules of one pipeline from an index on.
  abbrev stored_from : ℕ → ℕ → List ModuleDefinition → List Pipeline → List Pipeline
  stored_from i k mdefs ps =
      modify_elem ps i
        (λ p. record p { modules = store_from k (map (module_of conf) mdefs) p.modules })

  setup_modules-stored :
      (i k : ℕ) (mdefs : List ModuleDefinition) (s : State)
      → k + length mdefs ≤ max_modules
      → Returns (λ r t. WithPipelines (stored_from i k mdefs) s t) (setup_modules env i k mdefs s)
  unfolding setup_modules store_module update_pipeline
  setup_modules-stored i k [] s fits =
      ap {A = List Pipeline} (λ ps. record s { pipelines = ps })
        (sym (modify_elem-id s.pipelines i))
  setup_modules-stored i k (mdef ∷ mdefs) s fits =
      Returns-bind (λ m t. (m ≡ module_of conf mdef) × SameVars s t)
        (λ r t. WithPipelines (stored_from i k (mdef ∷ mdefs)) s t) (load_definition env mdef)
        (λ m. store_module i k m >> setup_modules env i (k + 1) mdefs) s
        (load_definition-module_of conf mdef s)
        (λ m t (e, same). rw (lt→ltb k max_modules (omega arith)) (
          Returns-mono (λ r u. WithPipelines (stored_from i (k + 1) mdefs) (placed m t) u)
            (λ r u. WithPipelines (stored_from i k (mdef ∷ mdefs)) s u)
            (λ r u later.
              later
              ∙ ap (λ x. all_placed u x t) e
              ∙ ap (all_placed u (module_of conf mdef)) same
              ∙ ap {A = List Pipeline} (λ ps. record s { pipelines = ps; trace = u.trace })
                  (modify_elem-modify_elem s.pipelines i _ _))
            _ (setup_modules-stored i (k + 1) mdefs (placed m t) (omega arith))))
    where
      placed : Module → State → State
      placed m t = record t {
        pipelines = modify_elem t.pipelines i (λ p. record p { modules = set p.modules k m });
      }

      all_placed : State → Module → State → State
      all_placed u m t = record t {
        pipelines = stored_from i (k + 1) mdefs (placed m t).pipelines;
        trace = u.trace;
      }

  fill_pipeline-stored :
      (i : ℕ) (pdef : PipelineDefinition) (s : State)
      → i < max_pipelines
      → length pdef.modules ≤ max_modules
      → Returns
          (λ r t.
            WithPipelines
              (λ ps. modify_elem ps i (λ p. record {
                pipeline_id = pos (i + 1);
                modules = store_from 0 (map (module_of conf) pdef.modules) p.modules;
                num_modules = length pdef.modules;
              }))
              s
              t)
          (fill_pipeline env (pos i) pdef s)
  unfolding fill_pipeline update_pipeline
  fill_pipeline-stored i pdef s lt few = rw (lt→ltb i max_pipelines lt) (
      Returns-mono (λ r t. WithPipelines (stored_from i 0 pdef.modules) headed t) _
        (λ r t later.
          later
          ∙ ap {A = List Pipeline} (λ ps. record s { pipelines = ps; trace = t.trace })
              (modify_elem-modify_elem s.pipelines i _ _))
        _ (setup_modules-stored i 0 pdef.modules headed (omega arith)))
    where
      headed : State
      headed = record s {
        pipelines =
            modify_elem s.pipelines i
              (λ p. record p { pipeline_id = pos (i + 1); num_modules = length pdef.modules });
      }

  -- The entry of a message, its modules stored one after another.
  abbrev pub with_stored : ℕ → PipelineDefinition → Pipeline → Pipeline
  with_stored i pdef p = record {
    pipeline_id = pos (i + 1);
    modules = store_from 0 (map (module_of conf) pdef.modules) p.modules;
    num_modules = length pdef.modules;
  }

  abbrev pub stored_entry : ℕ → Pipeline → Pipeline
  stored_entry i p = or_old (conf.pipelines i) p (λ pdef. with_stored i pdef p)

  -- The table after an update, from one that has other calls behind it.
  WithPipelines-SameVars :
      (f g : List Pipeline → List Pipeline) (s t u : State)
      → SameVars s t
      → WithPipelines f t u
      → f s.pipelines ≡ g s.pipelines
      → WithPipelines g s u
  WithPipelines-SameVars f g s t u same later e =
      later
      ∙ ap {A = State} (λ v. record v { pipelines = f v.pipelines; trace = u.trace }) same
      ∙ ap {A = List Pipeline} (λ ps. record s { pipelines = ps; trace = u.trace }) e

  pub setup_pipeline-stored :
      (i : ℕ) (s : State)
      → i < max_pipelines
      → Returns
          (λ r t. WithPipelines (λ ps. modify_elem ps i (stored_entry i)) s t)
          (setup_pipeline env (pipeline_paramid_offset + i) s)
  unfolding setup_pipeline
  setup_pipeline-stored i s lt =
      Returns-bind (λ b t. (b ≡ conf.content (pipeline_paramid_offset + i)) × SameVars s t)
        (λ r t. WithPipelines (λ ps. modify_elem ps i (stored_entry i)) s t)
        (get_param_buffer env (pipeline_paramid_offset + i)) _ s
        (get_param_buffer-Holds conf (pipeline_paramid_offset + i) _ s
          (conf.holds (pipeline_paramid_offset + i)))
        (λ b t (e, same).
          rw (e, conf.unpacks_pipeline i t.trace)
            (elim (Option-cases (conf.pipelines i)) [
              | inl nothing ↦
                  rw (nothing, Returns)
                    (WithPipelines-SameVars (λ ps. ps) (λ ps. modify_elem ps i (stored_entry i)) s t
                      (record t { trace = unpack ∷ t.trace }) same refl
                      (sym (
                        ap
                          (λ o.
                            modify_elem s.pipelines i
                              (λ p. or_old o p (λ pdef. with_stored i pdef p)))
                          nothing
                        ∙ modify_elem-id s.pipelines i)))
              | inr (pdef, found) ↦
                  rw (found, sub_ℕ-offset pipeline_paramid_offset i, Returns)
                    (Returns-mono
                      (λ r u.
                        WithPipelines (λ ps. modify_elem ps i (with_stored i pdef)) (asked t) u)
                      (λ r u. WithPipelines (λ ps. modify_elem ps i (stored_entry i)) s u)
                      (λ r u later.
                        WithPipelines-SameVars (λ ps. modify_elem ps i (with_stored i pdef))
                          (λ ps. modify_elem ps i (stored_entry i)) s (asked t) u
                          (SameVars-trans s t (asked t) same refl) later
                          (sym (
                            ap
                              (λ o.
                                modify_elem s.pipelines i
                                  (λ p. or_old o p (λ d. with_stored i d p)))
                              found)))
                      _ (fill_pipeline-stored i pdef (asked t) lt (conf.few i pdef found)))
            ]))
