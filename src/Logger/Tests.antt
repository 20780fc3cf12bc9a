-- ===== src/Logger/Tests.antt =====
-- The theorem on src/logger.c at two messages.
use dipp.Base.{List, [], ◌∷◌, arith}
use dipp.Base.Text.{codes}
use dipp.Samples.{sample_env, start_state}
use dipp.Machine.{◌>>◌}
use dipp.Base.{some}
use dipp.Machine.Hoare.{Returns}
use dipp.Logger.Defs.{log_info, log_error, logger_flush}
use dipp.Logger.Flush.{Message, log_all, Flushed, logger_flush-log_all}

abbrev two_messages : List Message
two_messages =
    record { level = log_info; text = codes "Processing started" }
    ∷ record { level = log_error; text = codes "no memory" }
    ∷ []

logger_flush-log_all_example :
    Returns (Flushed sample_env (codes "dipp.txt") two_messages start_state) (
      (log_all sample_env (codes "dipp.txt") two_messages >> logger_flush (some (codes "dipp.txt")))
        start_state)
logger_flush-log_all_example =
    logger_flush-log_all sample_env (codes "dipp.txt") two_messages start_state (omega arith)
