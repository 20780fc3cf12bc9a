-- ===== src/Process/Loop.antt =====
-- `process_one` and `process_all`. The uninitialised local `datarcv` is an argument, 32 bytes.
use dipp.Base.{ℕ, zero, suc, List, none, some, Bool, true, false}
use dipp.Base.Text.{codes}
use dipp.Machine.{Env, M, ◌>>=◌, ◌>>◌, pure, gets}
use dipp.Config.{setup_cache_if_needed}
use dipp.Logger.{log_info, logger_log_print}
use dipp.Types.{Text}
use dipp.Process.Batch.{process}
use dipp.Process.Queue.{batch_bytes, batch_of_bytes, get_message_from_queue}

module _ (env : Env) where
  unfoldable pub process_one : List ℕ → Bool → M (Unit {0})
  process_one datarcv do_wait = do
    setup_cache_if_needed env
    received ← get_message_from_queue env datarcv do_wait
    elim received [ none ↦ pure tt | some bytes ↦ process env (batch_of_bytes bytes) >> pure tt ]

  -- A message to the global logger.
  unfoldable pub log_global : Text → M (Unit {0})
  log_global text = gets (λ s. s.logger) >>= λ logger. logger_log_print env logger log_info text

  -- The body of the loop: the bytes of the struct afterwards.
  unfoldable pub process_message : List ℕ → M (List ℕ)
  unfolding log_global
  process_message bytes = do
    log_global (codes "Batch processing started")
    setup_cache_if_needed env
    log_global (codes "Cache rebuilt")
    batch ← process env (batch_of_bytes bytes)
    log_global (codes "Batch processing started")
    pure (batch_bytes batch)

  -- The loop for at most `fuel` calls of `get_message_from_queue`: `true` if it has ended.
  unfoldable pub process_all : ℕ → List ℕ → Bool → M Bool
  process_all zero datarcv do_wait = pure false
  process_all (suc fuel) datarcv do_wait = do
    received ← get_message_from_queue env datarcv do_wait
    elim received [
      | none ↦ pure true
      | some bytes ↦ process_message bytes >>= λ next. process_all fuel next do_wait
    ]
