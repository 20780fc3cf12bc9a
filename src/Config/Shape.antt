-- ===== src/Config/Shape.antt =====
-- The tables of the cache: their shape, which setting it up keeps.
use native.Mathlib.Decide.{ℕ_discrete}
use dipp.Base.{
  ℕ, ◌+◌, ◌-◌, ◌≡◌, ◌≤◌, ◌<◌, ◌⊎◌, sym, ap, ◌∙◌, List, [], ◌∷◌, some, arith, length, get_elem?,
  lt→ltb, le→ltb_false, Option-cases, Bool-cases, refl, inl, inr,
}
use dipp.Base.Int.{pos, sub_ℕ}
use dipp.Types.{ConfigParameter, ModuleConfig, Pipeline, ModuleParameterList, PipelineDefinition}
use dipp.Machine.{Env, State, History, unpack, get_data}
use dipp.Machine.Hoare.{Returns, Returns-bind, Returns-mono}
use dipp.Errors.{set_error_param}
use dipp.Config.Params.{max_modules, max_pipelines, pipeline_paramid_offset, module_paramid_offset}
use dipp.Config.Buffer.{is_buffer_empty, get_param_buffer, decode_buffer, copy_buffer}
use dipp.Config.Pipelines.{fill_pipeline, setup_pipeline}
use dipp.Config.Modules.{fill_config, setup_module_config}
use dipp.Config.Stored.{Configured, fill_pipeline-Configured}
use dipp.Config.Copied.{EntryAt}
use dipp.Config.Entries.{store_config-EntryAt}

-- The entry at index `j` has the number `j + 1`, or it has never been set; it has 20 places, and
-- uses no more.
abbrev pub IsEntry : ℕ → Pipeline → Type 0
IsEntry j p =
    ((p.pipeline_id ≡ pos (j + 1)) ⊎ (p.pipeline_id ≡ pos 0))
    × (length p.modules ≡ max_modules)
    × (p.num_modules ≤ max_modules)

-- Six pipelines, and the parameters of twenty modules.
pub record WellFormed (s : State) : Type 0 where
  pub six : (j : ℕ) → j < max_pipelines → (p : Pipeline) × (get_elem? s.pipelines j ≡ some p)
  pub entries : (j : ℕ) (p : Pipeline) → get_elem? s.pipelines j ≡ some p → IsEntry j p
  pub twenty :
      (j : ℕ)
      → j < max_modules
      → (l : ModuleParameterList) × (get_elem? s.module_parameter_lists j ≡ some l)

-- The size at the begin of a parameter counts at most the bytes that follow it.
abbrev pub FitsSize : List ℕ → Type 0
FitsSize [] = Unit
FitsSize (size ∷ input) = size ≤ length input

-- No message has more than 20 modules, and the sizes of the parameters fit.
abbrev pub Bounded : Env → Type 0
Bounded env =
    ((param : ℕ) (h : History) → FitsSize (env.param_data param h))
    × ((bytes : List ℕ) (h : History) (pdef : PipelineDefinition)
        → env.unpack_pipeline bytes h ≡ some pdef
        → length pdef.modules ≤ max_modules)

-- The number of a parameter in its table.
sub_ℕ-pos : (a b : ℕ) → b ≤ a → sub_ℕ a b ≡ pos (a - b)
sub_ℕ-pos a b h = ground arith

-- The state behind the call of `unpack`.
abbrev asked : State → State
asked t = record t { trace = unpack ∷ t.trace }

-- The tables are as they were.
abbrev Kept : State → State → Type 0
Kept s t = (t.pipelines ≡ s.pipelines) × (t.module_parameter_lists ≡ s.module_parameter_lists)

pub WellFormed-Kept : (s t : State) → Kept s t → WellFormed s → WellFormed t
WellFormed-Kept s t k w = record {
  six = λ j lt. rw k.0 (w.six j lt);
  entries = λ j p e. w.entries j p (ap (λ ps. get_elem? ps j) (sym k.0) ∙ e);
  twenty = λ j lt. rw k.1 (w.twenty j lt);
}

module _ (env : Env) where
  decode_buffer-Kept :
      (content : List ℕ) (s : State)
      → FitsSize content
      → Returns (λ bytes t. Kept s t) (decode_buffer env content s)
  unfolding decode_buffer copy_buffer set_error_param
  decode_buffer-Kept [] s fits = (refl, refl)
  decode_buffer-Kept (size ∷ input) s fits =
      rw (le→ltb_false (length input) size fits, Returns) (ground arith)

  get_param_buffer-Kept :
      (bounded : Bounded env) (param : ℕ) (s : State)
      → Returns (λ bytes t. Kept s t) (get_param_buffer env param s)
  unfolding get_param_buffer
  get_param_buffer-Kept bounded param s =
      elim (Bool-cases (is_buffer_empty (env.param_data param s.trace))) [
        | inl blank ↦ rw (blank, Returns) (refl, refl)
        | inr full ↦
            rw (full, Returns)
              (decode_buffer-Kept (env.param_data param s.trace)
                (record s { trace = get_data param ∷ s.trace }) (bounded.0 param s.trace))
      ]

  Configured-WellFormed :
      (i : ℕ) (pdef : PipelineDefinition) (s t : State)
      → length pdef.modules ≤ max_modules
      → WellFormed s
      → Configured env i pdef s t
      → WellFormed t
  Configured-WellFormed i pdef s t few w ((q, found, id, num, len, hold), (others, size, lists)) =
      record { six = at; entries = entry; twenty = λ j lt. rw lists (w.twenty j lt) }
    where
      at : (j : ℕ) → j < max_pipelines → (p : Pipeline) × (get_elem? t.pipelines j ≡ some p)
      at j lt = elim (ℕ_discrete i j) [
        | yes e ↦ (q, ap (get_elem? t.pipelines) (sym e) ∙ found)
        | no n ↦ let (p, e) = w.six j lt in (p, others j n ∙ e)
      ]

      entry : (j : ℕ) (p : Pipeline) → get_elem? t.pipelines j ≡ some p → IsEntry j p
      entry j p e = elim (ℕ_discrete i j) [
        | yes same ↦ ground arith
        | no n ↦ w.entries j p (sym (others j n) ∙ e)
      ]

  fill_pipeline-WellFormed :
      (i : ℕ) (pdef : PipelineDefinition) (s : State)
      → i < max_pipelines
      → length pdef.modules ≤ max_modules
      → WellFormed s
      → Returns (λ r t. WellFormed t) (fill_pipeline env (pos i) pdef s)
  fill_pipeline-WellFormed i pdef s lt few w =
      let (p, found) = w.six i lt in
      Returns-mono (λ r t. Configured env i pdef s t) (λ r t. WellFormed t)
        (λ r t c. Configured-WellFormed i pdef s t few w c) _
        (fill_pipeline-Configured env i pdef p s lt found (w.entries i p found).1 few)

  pub setup_pipeline-WellFormed :
      (bounded : Bounded env) (param : ℕ) (s : State)
      → pipeline_paramid_offset ≤ param
      → param < pipeline_paramid_offset + max_pipelines
      → WellFormed s
      → Returns (λ r t. WellFormed t) (setup_pipeline env param s)
  unfolding setup_pipeline
  setup_pipeline-WellFormed bounded param s low high w =
      Returns-bind (λ bytes t. Kept s t) (λ r t. WellFormed t) (get_param_buffer env param) _ s
        (get_param_buffer-Kept bounded param s)
        (λ bytes t k. elim (Option-cases (env.unpack_pipeline bytes t.trace)) [
          | inl nothing ↦ rw (nothing, Returns) (WellFormed-Kept s (asked t) k w)
          | inr (pdef, e) ↦
              rw (e, sub_ℕ-pos param pipeline_paramid_offset low, Returns)
                (fill_pipeline-WellFormed (param - pipeline_paramid_offset) pdef (asked t)
                  (omega arith) (bounded.1 bytes t.trace pdef e) (WellFormed-Kept s (asked t) k w))
        ])

  EntryAt-WellFormed :
      (id n : ℕ) (cs : List ConfigParameter) (s t : State)
      → WellFormed s
      → EntryAt env id n [] cs s t
      → WellFormed t
  EntryAt-WellFormed id n cs s t w ((l, found, num, copies), (others, pipes)) = record {
    six = λ j lt. rw pipes (w.six j lt);
    entries = λ j p e. w.entries j p (ap (λ ps. get_elem? ps j) (sym pipes) ∙ e);
    twenty = λ j lt. elim (ℕ_discrete id j) [
      | yes e ↦ (l, ap (get_elem? t.module_parameter_lists) (sym e) ∙ found)
      | no m ↦ let (k, e) = w.twenty j lt in (k, others j m ∙ e)
    ];
  }

  fill_config-WellFormed :
      (id : ℕ) (config : ModuleConfig) (s : State)
      → id < max_modules
      → WellFormed s
      → Returns (λ r t. WellFormed t) (fill_config env (pos id) config s)
  unfolding fill_config
  fill_config-WellFormed id config s lt w =
      let (l, found) = w.twenty id lt in
      rw (lt→ltb id max_modules lt, Returns)
        (Returns-mono (λ r t. EntryAt env id (length config.parameters) [] config.parameters s t)
          (λ r t. WellFormed t)
          (λ r t e. EntryAt-WellFormed id (length config.parameters) config.parameters s t w e) _
          (store_config-EntryAt env id config.parameters l s found))

  pub setup_module_config-WellFormed :
      (bounded : Bounded env) (param : ℕ) (s : State)
      → module_paramid_offset ≤ param
      → param < module_paramid_offset + max_modules
      → WellFormed s
      → Returns (λ r t. WellFormed t) (setup_module_config env param s)
  unfolding setup_module_config
  setup_module_config-WellFormed bounded param s low high w =
      Returns-bind (λ bytes t. Kept s t) (λ r t. WellFormed t) (get_param_buffer env param) _ s
        (get_param_buffer-Kept bounded param s)
        (λ bytes t k. elim (Option-cases (env.unpack_config bytes t.trace)) [
          | inl nothing ↦ rw (nothing, Returns) (WellFormed-Kept s (asked t) k w)
          | inr (config, e) ↦
              rw (e, sub_ℕ-pos param module_paramid_offset low, Returns)
                (fill_config-WellFormed (param - module_paramid_offset) config (asked t)
                  (omega arith) (WellFormed-Kept s (asked t) k w))
        ])
