-- ===== src/Machine/Monad.antt =====
-- The global variables, and functions over them as state passing.
use dipp.Base.{ℕ, Bool, List, ◌∷◌, Option}
use dipp.Types.{Text, ImageBatch, Pipeline, ModuleParameterList}
use dipp.Machine.Events.{Event, PipeEnd}
use dipp.Machine.Answers.{History}

-- A pipe of the kernel. `writable` says that the parent holds the write end open.
pub record Pipe (A : Type 0) : Type 0 where
  pub queue : List A
  pub writable : Bool

pub record State : Type 0 where
  -- dipp_error.c
  pub err_current_pipeline : ℕ
  pub err_current_module : ℕ
  -- dipp_config.c
  pub pipelines : List Pipeline
  pub module_parameter_lists : List ModuleParameterList
  pub is_setup : Bool
  -- dipp_process.c, with the pipe ends that the process holds open
  pub output_pipe : Pipe ImageBatch
  pub error_pipe : Pipe ℕ
  pub open_ends : List PipeEnd
  -- logger.c: the log file of the global `logger`, `none` for NULL, and the entries of `log_buffer`
  pub logger : Option Text
  pub log_entries : List Text
  -- vmem_upload.c: the address of the remote buffer, 0 while it is not known, and its node
  pub vmem_vaddr : ℕ
  pub buffer_node_id : ℕ
  -- what has been called
  pub trace : History

-- A call returns, waits for ever, or does what C leaves undefined.
pub data Outcome (A : Type 0) : Type 0 where
  done : A → State → Outcome A
  blocked : State → Outcome A
  undefined : Outcome A

abbrev pub M : Type 0 → Type 0
M A = State → Outcome A

abbrev pub pure : {A : Type 0} → A → M A
pure a s = done a s

abbrev pub fault : {A : Type 0} → M A
fault s = undefined

abbrev pub wait : {A : Type 0} → M A
wait s = blocked s

infixl 5 ◌>>=◌ ◌>>◌
abbrev pub ◌>>=◌ : {A B : Type 0} → M A → (A → M B) → M B
◌>>=◌ m f s = elim (m s) [ done a s' ↦ f a s' | blocked s' ↦ blocked s' | undefined ↦ undefined ]

abbrev pub ◌>>◌ : {A B : Type 0} → M A → M B → M B
m >> k = m >>= λ _. k

abbrev pub gets : {A : Type 0} → (State → A) → M A
gets f s = done (f s) s

abbrev pub modify : (State → State) → M (Unit {0})
modify f s = done tt (f s)

-- A call that leaves the program: the answer, which the history decides, and one more event.
abbrev pub ask : {A : Type 0} → (History → A) → Event → M A
ask f e s = done (f s.trace) (record s { trace = e ∷ s.trace })

-- The same, where the event has the answer.
abbrev pub ask_with : {A : Type 0} → (History → A) → (A → Event) → M A
ask_with f e s = done (f s.trace) (record s { trace = e (f s.trace) ∷ s.trace })

abbrev pub emit : Event → M (Unit {0})
emit e s = done tt (record s { trace = e ∷ s.trace })
