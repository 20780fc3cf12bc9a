-- ===== src/Process/Pipeline.antt =====
-- `execute_pipeline`, however the kernel and the modules behave: how far it gets, and which
-- descriptors it leaves open.
use dipp.Base.{
  ℕ, zero, suc, ◌+◌, refl, List, ◌∷◌, ◌%◌, ◌≡◌, ◌≤◌, ◌<◌, arith, Bool, if◌then◌else◌, inl, inr, ◌⊎◌,
  true, false, get_elem?, Option-cases,
}
use dipp.Types.{Status, success, failure, ImageBatch, Pipeline}
use dipp.Machine.{
  Env, State, pure, ◌>>◌, PipeEnd, output_read, output_write, error_read, error_write,
}
use dipp.Machine.Trace.{Untouched}
use dipp.Machine.Hoare.{IfReturns, IfReturns-bind, IfReturns-mono}
use dipp.Errors.{code_value, set_error_param, pipe_create}
use dipp.Process.Pipes.{remove_end, create_pipes, close_pipes, read_output_pipe}
use dipp.Process.Execute.{
  parameter_list_at, execute_module_in_process, collect_result, run_module_at, on_success,
  run_modules, execute_pipeline,
}
use dipp.Process.Frame.{forks, Forked, execute_module_in_process-Forked}

-- The four ends behind the creation of the pipes.
abbrev pub opened : List PipeEnd → List PipeEnd
opened ends = error_read ∷ error_write ∷ output_read ∷ output_write ∷ ends

-- What `close_pipes` leaves.
unfoldable all_closed : List PipeEnd → List PipeEnd
unfolding remove_end
all_closed ends =
    remove_end error_write
      (remove_end error_read (remove_end output_write (remove_end output_read ends)))

all_closed-opened : (ends : List PipeEnd) → all_closed (opened ends) ≡ ends
unfolding all_closed
all_closed-opened ends = refl

-- Nothing has been done to segments, ring buffer and queue, and the tables are as they were.
abbrev pub Held : State → State → Type 0
Held s t =
    Untouched s.trace t.trace
    × (t.pipelines ≡ s.pipelines)
    × (t.module_parameter_lists ≡ s.module_parameter_lists)

-- The state in which the module at index `i` runs.
abbrev at_module : ℕ → State → State
at_module i s = record s { err_current_module = (i + 1) % 256 }

module _ (env : Env) where
  -- What one round of the loop does to the state.
  abbrev Round : ℕ → State → Status × ImageBatch → State → Type 0
  Round i s (success, b) t =
      (t.open_ends ≡ s.open_ends)
      × (forks t ≡ suc (forks s))
      × (t.err_current_module ≡ (i + 1) % 256)
      × Held s t
  Round i s (failure, b) t =
      ((t.open_ends ≡ all_closed s.open_ends) ⊎ (t.open_ends ≡ s.open_ends))
      × (forks t ≡ suc (forks s))
      × (t.err_current_module ≡ (i + 1) % 256)
      × Held s t

  collect_result-Round :
      (i : ℕ) (batch : ImageBatch) (status : Status) (s t : State)
      → t.open_ends ≡ s.open_ends
      → forks t ≡ suc (forks s)
      → t.err_current_module ≡ (i + 1) % 256
      → Held s t
      → IfReturns (Round i s) (collect_result env batch status t)
  unfolding collect_result all_closed close_pipes read_output_pipe set_error_param
  collect_result-Round i batch success s t e f g u = ground arith
  collect_result-Round i batch failure s t e f g u = ground arith

  run_module_at-Round :
      (pipeline : Pipeline) (i : ℕ) (batch : ImageBatch) (s : State)
      → IfReturns (Round i s) (run_module_at env pipeline i batch s)
  unfolding run_module_at
  run_module_at-Round pipeline i batch s = elim (Option-cases (get_elem? pipeline.modules i)) [
    | inl missing ↦ rw missing tt
    | inr (m, found) ↦ rw found (
        IfReturns-bind (λ status. Forked (suc (forks s)) (at_module i s)) (Round i s)
          (execute_module_in_process env m.module_function batch
            (parameter_list_at m.module_param_id s.module_parameter_lists))
          (collect_result env batch) (at_module i s)
          (execute_module_in_process-Forked env m.module_function batch
            (parameter_list_at m.module_param_id s.module_parameter_lists) (at_module i s))
          (λ status t f.
            collect_result-Round i batch status s t (ground arith) (ground arith) (ground arith)
              (f.0.7, f.0.2, f.0.3)))
  ]

  -- Behind the loop that began at index `i`, with `base` processes forked before the pipeline.
  abbrev Ran : ℕ → ℕ → ℕ → State → Status × ImageBatch → State → Type 0
  Ran i rounds base s (success, b) t =
      (t.open_ends ≡ all_closed s.open_ends) × (forks t ≡ i + rounds + base) × Held s t
  Ran i rounds base s (failure, b) t =
      ((t.open_ends ≡ all_closed s.open_ends) ⊎ (t.open_ends ≡ s.open_ends))
      × (forks t ≡ t.err_current_module + base)
      × (i < t.err_current_module)
      × (t.err_current_module ≤ i + rounds)
      × Held s t

  -- What a later start of the loop gives the earlier one.
  widen :
      (i rounds base : ℕ) (s t : State)
      → t.open_ends ≡ s.open_ends
      → Held s t
      → (r : Status × ImageBatch) (u : State) → Ran (i + 1) rounds base t r u
      → Ran i (suc rounds) base s r u
  widen i rounds base s t e v (success, c) u w = ground arith
  widen i rounds base s t e v (failure, c) u w = ground arith

  -- The loop behind one round.
  later_rounds :
      (pipeline : Pipeline) (i rounds base : ℕ) (s : State)
      → i + suc rounds ≤ 255
      → forks s ≡ i + base
      → ((b : ImageBatch) (t : State)
          → forks t ≡ i + 1 + base
          → IfReturns (Ran (i + 1) rounds base t) (run_modules env pipeline (i + 1) rounds b t))
      → (r : Status × ImageBatch) (t : State) → Round i s r t
      → IfReturns
          (Ran i (suc rounds) base s)
          (on_success (λ next. run_modules env pipeline (i + 1) rounds next) r t)
  unfolding on_success
  later_rounds pipeline i rounds base s h e later (failure, b) t q = ground arith
  later_rounds pipeline i rounds base s h e later (success, b) t q =
      IfReturns-mono (Ran (i + 1) rounds base t) (Ran i (suc rounds) base s)
        (widen i rounds base s t q.0 q.3) _ (later b t (omega arith))

  run_modules-Ran :
      (pipeline : Pipeline) (i rounds base : ℕ) (batch : ImageBatch) (s : State)
      → i + rounds ≤ 255
      → forks s ≡ i + base
      → IfReturns (Ran i rounds base s) (run_modules env pipeline i rounds batch s)
  unfolding run_modules all_closed close_pipes
  run_modules-Ran pipeline i zero base batch s h e = ground arith
  run_modules-Ran pipeline i (suc rounds) base batch s h e =
      IfReturns-bind (Round i s) (Ran i (suc rounds) base s) (run_module_at env pipeline i batch)
        (on_success (λ next. run_modules env pipeline (i + 1) rounds next)) s
        (run_module_at-Round pipeline i batch s)
        (later_rounds pipeline i rounds base s h e
          (λ b t q. run_modules-Ran pipeline (i + 1) rounds base b t (omega arith) q))

  -- What `execute_pipeline` has done when it returns.
  abbrev pub Executed : Pipeline → State → Status × ImageBatch → State → Type 0
  Executed pipeline s (success, b) t =
      (t.open_ends ≡ s.open_ends) × (forks t ≡ pipeline.num_modules + forks s) × Held s t
  Executed pipeline s (failure, b) t =
      ((forks t ≡ forks s) × (t.err_current_module ≡ s.err_current_module) × Held s t)
      ⊎ ((forks t ≡ t.err_current_module + forks s)
          × (0 < t.err_current_module)
          × (t.err_current_module ≤ pipeline.num_modules)
          × ((t.open_ends ≡ s.open_ends) ⊎ (t.open_ends ≡ opened s.open_ends))
          × Held s t)

  -- What the creation of the pipes leaves.
  abbrev Created : State → Bool → State → Type 0
  Created s true t = (t.open_ends ≡ opened s.open_ends) × (forks t ≡ forks s) × Held s t
  Created s false t = (forks t ≡ forks s) × (t.err_current_module ≡ s.err_current_module) × Held s t

  create_pipes-Created : (s : State) → IfReturns (Created s) (create_pipes env s)
  unfolding create_pipes
  create_pipes-Created s = ground arith

  finish :
      (pipeline : Pipeline) (s t : State)
      → Created s true t
      → (r : Status × ImageBatch) (u : State) → Ran 0 pipeline.num_modules (forks s) t r u
      → Executed pipeline s r u
  finish pipeline s t c (success, b) u q =
      let closed : all_closed (opened s.open_ends) ≡ s.open_ends = all_closed-opened s.open_ends in
      ground arith
  finish pipeline s t c (failure, b) u q =
      let closed : all_closed (opened s.open_ends) ≡ s.open_ends = all_closed-opened s.open_ends in
      ground arith

  behind_pipes :
      (pipeline : Pipeline) (batch : ImageBatch) (s : State)
      → pipeline.num_modules ≤ 255
      → (ok : Bool) (t : State) → Created s ok t
      → IfReturns (Executed pipeline s) (
          (if ok
              then run_modules env pipeline 0 pipeline.num_modules batch
              else (set_error_param (code_value pipe_create) >> pure (failure, batch)))
            t)
  unfolding set_error_param
  behind_pipes pipeline batch s h true t c =
      IfReturns-mono (Ran 0 pipeline.num_modules (forks s) t) (Executed pipeline s)
        (finish pipeline s t c) _
        (run_modules-Ran pipeline 0 pipeline.num_modules (forks s) batch t (omega arith)
          (omega arith))
  behind_pipes pipeline batch s h false t c = inl c

  pub execute_pipeline-Executed :
      (pipeline : Pipeline) (batch : ImageBatch) (s : State)
      → pipeline.num_modules ≤ 255
      → IfReturns (Executed pipeline s) (execute_pipeline env pipeline batch s)
  unfolding execute_pipeline
  execute_pipeline-Executed pipeline batch s h =
      IfReturns-bind (Created s) (Executed pipeline s) (create_pipes env) _ s
        (create_pipes-Created s) (behind_pipes pipeline batch s h)
