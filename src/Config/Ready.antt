-- ===== src/Config/Ready.antt =====
-- Setting up the cache: the tables afterwards, and its mark.
use dipp.Base.{
  ℕ, ◌+◌, ◌≡◌, ◌≤◌, ◌<◌, refl, List, [], ◌∷◌, true, false, arith, Bool, ◌⊎◌, inl, inr,
  if◌then◌else◌,
}
use dipp.Machine.{Env, State, M, pure, modify, ◌>>◌}
use dipp.Machine.Hoare.{Returns, Returns-bind}
use dipp.Config.Params.{
  max_modules, max_pipelines, pipeline_paramid_offset, module_paramid_offset,
  pipeline_config_params, module_config_params,
}
use dipp.Config.Pipelines.{setup_pipeline}
use dipp.Config.Modules.{setup_module_config}
use dipp.Config.Cache.{
  for_params, setup_all_pipelines, setup_all_module_configs, setup_cache_if_needed,
}
use dipp.Config.Shape.{
  WellFormed, Bounded, WellFormed-Kept, setup_pipeline-WellFormed, setup_module_config-WellFormed,
}

-- All ids of a table lie in a range.
abbrev AllIn : ℕ → ℕ → List ℕ → Type 0
AllIn low size [] = Unit
AllIn low size (param ∷ params) = (low ≤ param) × (param < low + size) × AllIn low size params

for_params-WellFormed :
    (low size : ℕ) (setup : ℕ → M (Unit {0}))
    → ((param : ℕ) (s : State)
        → low ≤ param
        → param < low + size
        → WellFormed s
        → Returns (λ r t. WellFormed t) (setup param s))
    → (params : List ℕ) (s : State) → AllIn low size params
    → WellFormed s
    → Returns (λ r t. WellFormed t) (for_params setup params s)
unfolding for_params
for_params-WellFormed low size setup keeps [] s all w = w
for_params-WellFormed low size setup keeps (param ∷ params) s all w =
    Returns-bind (λ r t. WellFormed t) (λ r t. WellFormed t) (setup param) _ s
      (keeps param s all.0 all.1 w)
      (λ r t v. for_params-WellFormed low size setup keeps params t all.2 v)

abbrev marked : State → State
marked s = record s { is_setup = true }

-- What the set-up leaves.
abbrev pub SetUp : State → Unit {0} → State → Type 0
SetUp s r t = WellFormed t × (t.is_setup ≡ true) × ((t ≡ s) ⊎ (s.is_setup ≡ false))

module _ (env : Env) (bounded : Bounded env) where
  -- Both tables, and the mark.
  both_tables-SetUp :
      (s : State)
      → s.is_setup ≡ false
      → WellFormed s
      → Returns (SetUp s) (
          (setup_all_pipelines env
              >> (setup_all_module_configs env >> modify (λ t. record t { is_setup = true })))
            s)
  unfolding setup_all_pipelines setup_all_module_configs
  both_tables-SetUp s stale w =
      Returns-bind (λ r t. WellFormed t) (SetUp s)
        (for_params (setup_pipeline env) pipeline_config_params) _ s
        (for_params-WellFormed pipeline_paramid_offset max_pipelines (setup_pipeline env)
          (λ param t low high v. setup_pipeline-WellFormed env bounded param t low high v)
          pipeline_config_params s (omega arith) w)
        (λ r t v.
          Returns-bind (λ r u. WellFormed u) (SetUp s)
            (for_params (setup_module_config env) module_config_params) _ t
            (for_params-WellFormed module_paramid_offset max_modules (setup_module_config env)
              (λ param u low high x. setup_module_config-WellFormed env bounded param u low high x)
              module_config_params t (omega arith) v)
            (λ r u x. (WellFormed-Kept u (marked u) (refl, refl) x, refl, inr stale)))

  -- Let the tables be well-formed: six pipelines, each of which has its number or has never been
  -- set and uses at most its 20 places, and the parameters of 20 modules. If no message has more
  -- than 20 modules, and the size at the begin of each parameter counts at most the bytes behind
  -- it, `setup_cache_if_needed` returns, however the libraries and the allocator answer; the tables
  -- are well-formed again, and the cache is marked as set up. If it was marked before, nothing has
  -- changed.
  pub setup_cache_if_needed-SetUp :
      (s : State) → WellFormed s → Returns (SetUp s) (setup_cache_if_needed env s)
  unfolding setup_cache_if_needed
  setup_cache_if_needed-SetUp s w = go s.is_setup refl
    where
      go :
          (b : Bool)
          → s.is_setup ≡ b
          → Returns (SetUp s) (
              (if b
                  then pure tt
                  else (setup_all_pipelines env
                      >> (setup_all_module_configs env
                          >> modify (λ t. record t { is_setup = true }))))
                s)
      go true e = (w, e, inl refl)
      go false e = both_tables-SetUp s e w
