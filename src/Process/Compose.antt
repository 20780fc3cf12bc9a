-- ===== src/Process/Compose.antt =====
-- A pipeline whose modules all return is the composition of their functions.
use dipp.Base.{
  ℕ, ◌+◌, ◌%◌, ◌≡◌, List, [], ◌∷◌, Option, none, some, true, arith, length, get_elem?, take, drop,
  get_elem?-take-drop, take-drop-suc,
}
use dipp.Types.{Status, success, ImageBatch, Module, Pipeline, ModuleParameterList}
use dipp.Machine.{Env, State, History, returned, alarm, run, pipe_output, fork}
use dipp.Machine.Hoare.{Returns, Returns-bind, Returns-mono}
use dipp.Machine.Trace.{log_status}
use dipp.Process.Pipes.{create_pipes, close_pipes, read_output_pipe}
use dipp.Process.Child.{exit_code, run_child, finish_child, write_result}
use dipp.Process.Execute.{
  parameter_list_at, copy_result, judge_child, execute_module_in_process, collect_result,
  run_module_at, on_success, run_modules, execute_pipeline,
}
use dipp.Process.Verdict.{Works}

-- What each module computes from a batch and its parameters.
abbrev pub ModuleFunctions : Type 0
ModuleFunctions = ℕ → ImageBatch → Option ModuleParameterList → ImageBatch

-- The kernel works, and every module returns its function's value and writes no error.
pub record Steady (env : Env) (f : ModuleFunctions) : Type 0 where
  pub works : Works env
  pub pipes : (h : History) → env.pipe_ok h ≡ true
  pub returns :
      (a : ℕ) (b : ImageBatch) (c : Option ModuleParameterList) (h : History)
      → env.run_module a b c h ≡ returned [] (f a b c)

-- The value of one module, and of a list of modules from the left. A batch keeps its message type
-- and its address; the rest is the module's.
abbrev pub adopt : ImageBatch → ImageBatch → ImageBatch
adopt batch output = record {
  mtype = batch.mtype;
  num_images = output.num_images;
  batch_size = output.batch_size;
  shmid = output.shmid;
  pipeline_id = output.pipeline_id;
  image_data = batch.image_data;
}

abbrev pub apply_module :
    ModuleFunctions → List ModuleParameterList → Module → ImageBatch → ImageBatch
apply_module f lists m batch = elim m.module_function [
  | none ↦ batch
  | some address ↦ adopt batch (f address batch (parameter_list_at m.module_param_id lists))
]

abbrev pub compose :
    ModuleFunctions → List ModuleParameterList → List Module → ImageBatch → ImageBatch
compose f lists [] batch = batch
compose f lists (m ∷ ms) batch = compose f lists ms (apply_module f lists m batch)

-- Every module has a function.
abbrev pub AllLoaded : List Module → Type 0
AllLoaded [] = Unit
AllLoaded (m ∷ ms) = ((address : ℕ) × (m.module_function ≡ some address)) × AllLoaded ms

-- What a round needs of the state, and keeps.
abbrev Ready : State → Type 0
Ready s = (s.output_pipe.queue ≡ []) × (s.error_pipe.writable ≡ true)

abbrev pub Quiet : State → State → Type 0
Quiet s t =
    (t.module_parameter_lists ≡ s.module_parameter_lists)
    × (log_status t.trace ≡ log_status s.trace)
    × (t.is_setup ≡ s.is_setup)
    × (t.pipelines ≡ s.pipelines)
    × (t.logger ≡ s.logger)
    × (t.log_entries ≡ s.log_entries)

module _ (env : Env) (f : ModuleFunctions) (steady : Steady env f) where
  open steady use {works, pipes, returns}

  -- The process of the module: its result is alone in the output pipe.
  run_child-Returns :
      (a : ℕ) (b : ImageBatch) (c : Option ModuleParameterList) (s : State)
      → Ready s
      → Returns
          (λ status t.
            (status ≡ exit_code 0)
            × (t.output_pipe.queue ≡ f a b c ∷ [])
            × (t.error_pipe.writable ≡ true)
            × Quiet s t)
          (run_child env (some a) b c s)
  unfolding run_child finish_child write_result
  run_child-Returns a b c s ready =
      rw (returns a b c (alarm (env.module_timeout s.trace) ∷ s.trace)) (
        ground
          (arith, works.writes (alarm 0 ∷ run a ∷ alarm (env.module_timeout s.trace) ∷ s.trace)))

  execute_module-Returns :
      (a : ℕ) (b : ImageBatch) (c : Option ModuleParameterList) (s : State)
      → Ready s
      → Returns
          (λ status t.
            (status ≡ success)
            × (t.output_pipe.queue ≡ f a b c ∷ [])
            × (t.error_pipe.writable ≡ true)
            × Quiet s t)
          (execute_module_in_process env (some a) b c s)
  unfolding execute_module_in_process judge_child
  execute_module-Returns a b c s ready = ground (
    arith,
    works.forks s.trace,
    run_child-Returns a b c (record s { trace = fork ∷ s.trace }) ready,
  )

  -- A batch, and a state that is ready for the next module.
  abbrev Passed : ImageBatch → State → Status × ImageBatch → State → Type 0
  Passed batch s r t = (r ≡ (success, batch)) × Ready t × Quiet s t

  collect_result-Passed :
      (b output : ImageBatch) (s : State)
      → s.output_pipe.queue ≡ output ∷ []
      → s.error_pipe.writable ≡ true
      → Returns (Passed (adopt b output) s) (collect_result env b success s)
  unfolding collect_result read_output_pipe copy_result
  collect_result-Passed b output s e w = ground (arith, works.reads s.trace)

  run_module_at-Passed :
      (pipeline : Pipeline) (i : ℕ) (m : Module) (a : ℕ) (b : ImageBatch) (s : State)
      → get_elem? pipeline.modules i ≡ some m
      → m.module_function ≡ some a
      → Ready s
      → Returns
          (Passed (apply_module f s.module_parameter_lists m b) s)
          (run_module_at env pipeline i b s)
  unfolding run_module_at
  run_module_at-Passed pipeline i m a b s found loaded ready =
      rw (found, loaded)
        (Returns-bind
          (λ status t.
            (status ≡ success)
            × (t.output_pipe.queue ≡ output ∷ [])
            × (t.error_pipe.writable ≡ true)
            × Quiet s t)
          (Passed (adopt b output) s) (execute_module_in_process env (some a) b config)
          (collect_result env b) at_module (execute_module-Returns a b config at_module ready)
          (λ status t q. rw q.0 (
            Returns-mono (Passed (adopt b output) t) (Passed (adopt b output) s)
              (λ r u p. ground arith) _ (collect_result-Passed b output t q.1 q.2))))
    where
      config : Option ModuleParameterList
      config = parameter_list_at m.module_param_id s.module_parameter_lists

      output : ImageBatch
      output = f a b config

      at_module : State
      at_module = record s { err_current_module = (i + 1) % 256 }

  -- The result of the whole, and what stays.
  abbrev pub Composed : ImageBatch → State → Status × ImageBatch → State → Type 0
  Composed batch s r t = (r ≡ (success, batch)) × Quiet s t

  run_modules-Passed :
      (pipeline : Pipeline) (i : ℕ) (ms : List Module) (b : ImageBatch) (s : State)
      → take (length ms) (drop i pipeline.modules) ≡ ms
      → AllLoaded ms
      → Ready s
      → Returns
          (Composed (compose f s.module_parameter_lists ms b) s)
          (run_modules env pipeline i (length ms) b s)
  unfolding run_modules close_pipes on_success
  run_modules-Passed pipeline i [] b s e l ready = ground arith
  run_modules-Passed pipeline i (m ∷ ms) b s e ((a, loaded), l) ready =
      Returns-bind (Passed next s) (Composed (compose f s.module_parameter_lists ms next) s)
        (run_module_at env pipeline i b)
        (on_success (λ c. run_modules env pipeline (i + 1) (length ms) c)) s
        (run_module_at-Passed pipeline i m a b s
          (get_elem?-take-drop pipeline.modules i (length ms) m ms e) loaded ready)
        (λ r t q. rw q.0 (
          Returns-mono (Composed (compose f t.module_parameter_lists ms next) t)
            (Composed (compose f s.module_parameter_lists ms next) s) (λ p u c. ground arith) _
            (run_modules-Passed pipeline (i + 1) ms next t
              (take-drop-suc pipeline.modules i (length ms) m ms e) l q.1)))
    where
      next : ImageBatch
      next = apply_module f s.module_parameter_lists m b

  run_rounds :
      (pipeline : Pipeline) (rounds : ℕ) (ms : List Module) (b : ImageBatch) (s : State)
      → rounds ≡ length ms
      → take (length ms) pipeline.modules ≡ ms
      → AllLoaded ms
      → Ready s
      → Returns
          (Composed (compose f s.module_parameter_lists ms b) s)
          (run_modules env pipeline 0 rounds b s)
  run_rounds pipeline rounds ms b s n e l ready =
      rw n (run_modules-Passed pipeline 0 ms b s e l ready)

  create_pipes-Ready :
      (s : State) → Returns (λ ok t. (ok ≡ true) × Ready t × Quiet s t) (create_pipes env s)
  unfolding create_pipes
  create_pipes-Ready s = ground (arith, pipes s.trace, pipes (pipe_output ∷ s.trace))

  -- While the kernel works and every module returns its function's value with no word in the error
  -- pipe, `execute_pipeline` returns SUCCESS, and the batch is that of the modules' functions
  -- applied one after another, each to its own parameters; the error parameter and the cache are
  -- untouched.
  pub execute_pipeline-compose :
      (pipeline : Pipeline) (ms : List Module) (batch : ImageBatch) (s : State)
      → pipeline.num_modules ≡ length ms
      → take (length ms) pipeline.modules ≡ ms
      → AllLoaded ms
      → Returns
          (Composed (compose f s.module_parameter_lists ms batch) s)
          (execute_pipeline env pipeline batch s)
  unfolding execute_pipeline
  execute_pipeline-compose pipeline ms batch s n e l =
      (Returns-bind (λ ok t. (ok ≡ true) × Ready t × Quiet s t)
        (Composed (compose f s.module_parameter_lists ms batch) s) (create_pipes env) _ s
        (create_pipes-Ready s)
        (λ ok t q. rw q.0 (
          Returns-mono (Composed (compose f t.module_parameter_lists ms batch) t)
            (Composed (compose f s.module_parameter_lists ms batch) s) (λ p u c. ground arith) _
            (run_rounds pipeline pipeline.num_modules ms batch t n e l q.1))))
