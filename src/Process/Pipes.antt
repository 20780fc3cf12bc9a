-- ===== src/Process/Pipes.antt =====
-- The two pipes between the program and the process of a module. A pipe is a queue; a read of an
-- empty pipe waits while a write end is open, as pipe(7) says, and the program holds its own.
use dipp.Base.{ℕ, List, [], ◌∷◌, Bool, true, false, if◌then◌else◌}
use dipp.Types.{ImageBatch}
use dipp.Machine.{
  Env, State, Pipe, done, blocked, M, ◌>>=◌, ◌>>◌, pure, ask, emit, modify, PipeEnd, output_read,
  output_write, error_read, error_write, close, pipe_output, pipe_error, read_output, read_error,
}

-- What `read` gives: -1, 0 bytes, or a whole item.
pub data ReadResult (A : Type 0) : Type 0 where
  read_failed : ReadResult A
  end_of_file : ReadResult A
  got : A → ReadResult A

abbrev pub empty_pipe : {A : Type 0} → Pipe A
empty_pipe = record { queue = []; writable = true }

abbrev pub set_output : Pipe ImageBatch → State → State
set_output p s = record s { output_pipe = p }

abbrev pub set_error : Pipe ℕ → State → State
set_error p s = record s { error_pipe = p }

abbrev same_end : PipeEnd → PipeEnd → Bool
same_end output_read output_read = true
same_end output_write output_write = true
same_end error_read error_read = true
same_end error_write error_write = true
same_end _ _ = false

-- The newest end of this kind is taken out.
unfoldable pub remove_end : PipeEnd → List PipeEnd → List PipeEnd
remove_end end [] = []
remove_end end (e ∷ ends) =
    let rest = remove_end end ends in if same_end end e then ends else e ∷ rest

unfoldable pub close_end : PipeEnd → M (Unit {0})
close_end output_write =
    emit (close output_write)
    >> modify (λ s. record s {
      output_pipe = record { queue = s.output_pipe.queue; writable = false };
      open_ends = remove_end output_write s.open_ends;
    })
close_end error_write =
    emit (close error_write)
    >> modify (λ s. record s {
      error_pipe = record { queue = s.error_pipe.queue; writable = false };
      open_ends = remove_end error_write s.open_ends;
    })
close_end end =
    emit (close end) >> modify (λ s. record s { open_ends = remove_end end s.open_ends })

unfoldable pub close_pipes : M (Unit {0})
unfolding close_end
close_pipes = do
  close_end output_read
  close_end output_write
  close_end error_read
  close_end error_write

-- The head of a pipe's queue, and the state without it.
unfoldable pub take_output : M (ReadResult ImageBatch)
take_output s = elim s.output_pipe.queue [
  | [] ↦ if s.output_pipe.writable then blocked s else done end_of_file s
  | batch ∷ rest ↦
      done (got batch) (set_output (record { queue = rest; writable = s.output_pipe.writable }) s)
]

unfoldable pub take_error : M (ReadResult ℕ)
take_error s = elim s.error_pipe.queue [
  | [] ↦ if s.error_pipe.writable then blocked s else done end_of_file s
  | word ∷ rest ↦
      done (got word) (set_error (record { queue = rest; writable = s.error_pipe.writable }) s)
]

module _ (env : Env) where
  -- `pipe(output_pipe) == -1 || pipe(error_pipe) == -1`, negated.
  unfoldable pub create_pipes : M Bool
  create_pipes = do
    first ← ask env.pipe_ok pipe_output
    if first
        then (do
          modify (λ s. record s {
            output_pipe = empty_pipe;
            open_ends = output_read ∷ output_write ∷ s.open_ends;
          })
          second ← ask env.pipe_ok pipe_error
          if second
              then (do
                modify (λ s. record s {
                  error_pipe = empty_pipe;
                  open_ends = error_read ∷ error_write ∷ s.open_ends;
                })
                pure true)
              else pure false)
        else pure false

  unfoldable pub read_output_pipe : M (ReadResult ImageBatch)
  unfolding take_output
  read_output_pipe = do
    readable ← ask env.read_ok read_output
    if readable then take_output else pure read_failed

  unfoldable pub read_error_pipe : M (ReadResult ℕ)
  unfolding take_error
  read_error_pipe = do
    readable ← ask env.read_ok read_error
    if readable then take_error else pure read_failed
