-- ===== src/Config/Stored.antt =====
-- What `setup_pipeline` leaves in the table of pipelines.
use dipp.Base.{
  ℕ, ◌+◌, ◌≡◌, ◌≢◌, ◌≤◌, ◌<◌, refl, ap, ◌∙◌, List, [], ◌∷◌, some, arith, length, get_elem?, set,
  modify_elem, ltb, lt→ltb, length-set, length-modify_elem, get_elem?-set_self, get_elem?-set_ne,
  get_elem?-modify_elem_self, get_elem?-modify_elem_ne, Bool-cases, inl, inr,
}
use dipp.Base.Int.{pos}
use dipp.Types.{Module, Pipeline, ModuleDefinition, PipelineDefinition}
use dipp.Machine.{Env, State, undefined, ◌>>◌}
use dipp.Machine.Hoare.{Returns, Returns-bind, Returns-mono, Returns-done, bind-done}
use dipp.Config.Params.{max_modules, max_pipelines}
use dipp.Config.Pipelines.{
  update_pipeline, store_module, load_definition, setup_modules, fill_pipeline,
}
use dipp.Config.Slots.{HoldsIn, HoldFrom, load_definition-HoldsIn}

-- Only the pipeline at index `i` differs.
abbrev pub OnlyAt : ℕ → State → State → Type 0
OnlyAt i s t =
    ((j : ℕ) → i ≢ j → get_elem? t.pipelines j ≡ get_elem? s.pipelines j)
    × (length t.pipelines ≡ length s.pipelines)
    × (t.module_parameter_lists ≡ s.module_parameter_lists)

module _ (env : Env) where
  -- The pipeline at index `i` was `p`, and its slots from `k` on have been filled.
  abbrev pub Filled : ℕ → Pipeline → ℕ → List ModuleDefinition → State → State → Type 0
  Filled i p k mdefs s t =
      ((q : Pipeline) × (get_elem? t.pipelines i ≡ some q)
        × (q.pipeline_id ≡ p.pipeline_id)
        × (q.num_modules ≡ p.num_modules)
        × (length q.modules ≡ length p.modules)
        × ((j : ℕ) → j < k → get_elem? q.modules j ≡ get_elem? p.modules j)
        × HoldFrom env k mdefs q.modules)
      × OnlyAt i s t

  -- The state behind one assignment, and the pipeline in it.
  abbrev stored : ℕ → ℕ → Module → State → State
  stored i k m s = record s {
    pipelines = modify_elem s.pipelines i (λ p. record p { modules = set p.modules k m });
  }

  abbrev with_module : ℕ → Module → Pipeline → Pipeline
  with_module k m p = record p { modules = set p.modules k m }

  Filled-step :
      (i k : ℕ) (mdef : ModuleDefinition) (mdefs : List ModuleDefinition) (m : Module)
      (p : Pipeline) (s t u : State)
      → k < length p.modules
      → HoldsIn env mdef m
      → t.pipelines ≡ s.pipelines
      → t.module_parameter_lists ≡ s.module_parameter_lists
      → Filled i (with_module k m p) (k + 1) mdefs (stored i k m t) u
      → Filled i p k (mdef ∷ mdefs) s u
  Filled-step i k mdef mdefs m p s t u lt h e l
        ((q, found, id, num, len, below, hold), (others, same_length, lists)) =
      (
        (
          q,
          found,
          id,
          num,
          len ∙ length-set p.modules k m,
          λ j b. below j (omega arith) ∙ get_elem?-set_ne p.modules k j m (omega arith),
          ((m, below k (omega arith) ∙ get_elem?-set_self p.modules k m lt, h), hold),
        ),
        (
          λ j n.
              others j n
              ∙ get_elem?-modify_elem_ne t.pipelines i j _ n
              ∙ ap (λ ps. get_elem? ps j) e,
          same_length ∙ length-modify_elem t.pipelines i _ ∙ ap length e,
          lists ∙ l,
        ),
      )

  setup_modules-Filled :
      (i k : ℕ) (mdefs : List ModuleDefinition) (p : Pipeline) (s : State)
      → get_elem? s.pipelines i ≡ some p
      → length p.modules ≡ max_modules
      → k + length mdefs ≤ max_modules
      → Returns (λ r t. Filled i p k mdefs s t) (setup_modules env i k mdefs s)
  unfolding setup_modules store_module
  setup_modules-Filled i k [] p s found len fits =
      ((p, found, refl, refl, refl, λ j b. refl, tt), ((λ j n. refl), refl, refl))
  setup_modules-Filled i k (mdef ∷ mdefs) p s found len fits =
      Returns-bind
        (λ m t.
          HoldsIn env mdef m
          × (t.pipelines ≡ s.pipelines)
          × (t.module_parameter_lists ≡ s.module_parameter_lists))
        (λ r t. Filled i p k (mdef ∷ mdefs) s t) (load_definition env mdef)
        (λ m. store_module i k m >> setup_modules env i (k + 1) mdefs) s
        (load_definition-HoldsIn env mdef s)
        (λ m t h. rw (lt→ltb k max_modules (omega arith)) (
          Returns-mono (λ r u. Filled i (with_module k m p) (k + 1) mdefs (stored i k m t) u)
            (λ r u. Filled i p k (mdef ∷ mdefs) s u)
            (λ r u f. Filled-step i k mdef mdefs m p s t u (omega arith) h.0 h.1 h.2 f) _
            (setup_modules-Filled i (k + 1) mdefs (with_module k m p) (stored i k m t)
              (get_elem?-modify_elem_self t.pipelines i (with_module k m) p
                (ap (λ ps. get_elem? ps i) h.1 ∙ found))
              (length-set p.modules k m ∙ len) (omega arith))))

  -- The entry of the table that belongs to a message.
  abbrev pub Configured : ℕ → PipelineDefinition → State → State → Type 0
  Configured i pdef s t =
      ((q : Pipeline) × (get_elem? t.pipelines i ≡ some q)
        × (q.pipeline_id ≡ pos (i + 1))
        × (q.num_modules ≡ length pdef.modules)
        × (length q.modules ≡ max_modules)
        × HoldFrom env 0 pdef.modules q.modules)
      × OnlyAt i s t

  abbrev headed : ℕ → ℕ → Pipeline → Pipeline
  headed i n p = record p { pipeline_id = pos (i + 1); num_modules = n }

  -- For an index of the table and a message of at most 20 modules, `fill_pipeline` returns; the
  -- entry at the index has the index plus one for its id, the number of the message's modules, and
  -- in its slots, from the first on, the message's modules in order: the parameter id minus one,
  -- the name, or NULL if the allocator has refused its copy, and the function that the library of
  -- the name gives at the time, or NULL. The other entries, their number and the parameters of the
  -- modules are as they were.
  pub fill_pipeline-Configured :
      (i : ℕ) (pdef : PipelineDefinition) (p : Pipeline) (s : State)
      → i < max_pipelines
      → get_elem? s.pipelines i ≡ some p
      → length p.modules ≡ max_modules
      → length pdef.modules ≤ max_modules
      → Returns (λ r t. Configured i pdef s t) (fill_pipeline env (pos i) pdef s)
  unfolding fill_pipeline update_pipeline
  fill_pipeline-Configured i pdef p s lt found len fits = rw (lt→ltb i max_pipelines lt) (
      Returns-mono (λ r t. Filled i (headed i (length pdef.modules) p) 0 pdef.modules start t)
        (λ r t. Configured i pdef s t) convert _
        (setup_modules-Filled i 0 pdef.modules (headed i (length pdef.modules) p) start
          (get_elem?-modify_elem_self s.pipelines i (headed i (length pdef.modules)) p found) len
          (omega arith)))
    where
      start : State
      start = record s { pipelines = modify_elem s.pipelines i (headed i (length pdef.modules)) }

      convert :
          (r : Unit {0}) (t : State)
          → Filled i (headed i (length pdef.modules) p) 0 pdef.modules start t
          → Configured i pdef s t
      convert r t ((q, f, id, num, same, below, hold), (others, size, lists)) = (
        (q, f, id, num, same ∙ len, hold),
        (
          (λ j n. others j n ∙ get_elem?-modify_elem_ne s.pipelines i j _ n),
          size ∙ length-modify_elem s.pipelines i _,
          lists,
        ),
      )

  setup_modules-overflow :
      (i k : ℕ) (mdefs : List ModuleDefinition) (s : State)
      → k ≤ max_modules
      → max_modules < k + length mdefs
      → setup_modules env i k mdefs s ≡ undefined
  unfolding setup_modules store_module
  setup_modules-overflow i k [] s h over = absurd (omega arith)
  setup_modules-overflow i k (mdef ∷ mdefs) s h over =
      let (m, t, loads, _) =
        Returns-done _ (load_definition env mdef s) (load_definition-HoldsIn env mdef s) in
      bind-done (load_definition env mdef)
        (λ m. store_module i k m >> setup_modules env i (k + 1) mdefs) s loads
      ∙ elim (Bool-cases (ltb k max_modules)) [
        | inl room ↦
            rw room
              (setup_modules-overflow i (k + 1) mdefs (stored i k m t) (ground arith) (omega arith))
        | inr full ↦ rw full refl
      ]

  -- A message with more than 20 modules makes `fill_pipeline` write behind the table of modules,
  -- whatever the libraries answer: nothing limits the number of modules that a message may have.
  pub fill_pipeline-overflow :
      (i : ℕ) (pdef : PipelineDefinition) (s : State)
      → i < max_pipelines
      → max_modules < length pdef.modules
      → fill_pipeline env (pos i) pdef s ≡ undefined
  unfolding fill_pipeline
  fill_pipeline-overflow i pdef s lt over =
      rw (lt→ltb i max_pipelines lt)
        (setup_modules-overflow i 0 pdef.modules _ (omega arith) (omega arith))
