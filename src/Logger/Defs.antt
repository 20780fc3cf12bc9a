-- ===== src/Logger/Defs.antt =====
-- `level_to_string`, `logger_create`, `logger_log`, `logger_log_print`, `logger_flush` and
-- `logger_destroy`. A `Logger *` is `none` for NULL, or the name of its open file.
use dipp.Base.{
  ℕ, ◌+◌, ◌/◌, ◌%◌, List, [], ◌∷◌, ◌++◌, Option, none, some, ltb, if◌then◌else◌, length, take,
}
use dipp.Base.Text.{codes}
use dipp.Types.{Text}
use dipp.Machine.{
  Env, History, M, ◌>>=◌, ◌>>◌, pure, fault, gets, modify, ask, emit, malloc, free, clock, print,
  fopen, fprintf, fflush, fclose,
}

pub data LogLevel : Type 0 where
  log_debug log_info log_warning log_error log_critical : LogLevel

abbrev pub level_to_string : LogLevel → Text
level_to_string log_debug = codes "DEBUG"
level_to_string log_info = codes "INFO"
level_to_string log_warning = codes "WARNING"
level_to_string log_error = codes "ERROR"
level_to_string log_critical = codes "CRITICAL"

abbrev pub max_log_length : ℕ
max_log_length = 1024

abbrev pub timestamp_size : ℕ
timestamp_size = 35

abbrev pub buffer_size : ℕ
buffer_size = 10000

-- `%06ld` of a number below a million.
unfoldable pub six_digits : ℕ → Text
six_digits n =
    (48 + n / 100000 % 10)
    ∷ (48 + n / 10000 % 10)
    ∷ (48 + n / 1000 % 10)
    ∷ (48 + n / 100 % 10)
    ∷ (48 + n / 10 % 10)
    ∷ (48 + n % 10)
    ∷ []

-- The time and the microseconds, in a buffer of `timestamp_size` bytes with the final zero.
unfoldable pub timestamp : Text → ℕ → Text
timestamp time nanoseconds = take 34 (time ++ b'.' ∷ six_digits (nanoseconds / 1000))

-- `snprintf` cuts the entry to the size of its place in the buffer.
unfoldable pub format_entry : Text → LogLevel → Text → Text
format_entry time level message = take 1023 (
    codes "["
    ++ (time ++ (codes "] " ++ (level_to_string level ++ (codes ": " ++ (message ++ 10 ∷ []))))))

-- The write to `log_entries[count]` and `count++`; nothing tests the count.
unfoldable pub add_entry : Text → M (Unit {0})
add_entry entry = do
  count ← gets (λ s. length s.log_entries)
  if ltb count buffer_size
      then modify (λ s. record s { log_entries = s.log_entries ++ entry ∷ [] })
      else fault

module _ (env : Env) where
  unfoldable pub logger_create : Text → M (Option Text)
  logger_create filename = do
    allocated ← ask (env.malloc_ok 8) (malloc 8)
    if allocated
        then (do
          opened ← ask (env.fopen_ok filename) (fopen filename)
          if opened then pure (some filename) else (emit (free 8) >> pure none))
        else pure none

  unfoldable pub entry_at : History → LogLevel → Text → Text
  unfolding format_entry timestamp six_digits
  entry_at history level message =
      format_entry (timestamp (env.time_text history) (env.nanoseconds history)) level message

  unfoldable pub logger_log : Option Text → LogLevel → Text → M (Unit {0})
  logger_log none level message = pure tt
  logger_log (some file) level message = do
    entry ← ask (λ h. entry_at h level message) clock
    add_entry entry

  unfoldable pub logger_log_print : Option Text → LogLevel → Text → M (Unit {0})
  logger_log_print none level message = pure tt
  logger_log_print (some file) level message = do
    entry ← ask (λ h. entry_at h level message) clock
    add_entry entry
    emit (print entry)

-- The loop over the entries of the buffer.
unfoldable pub write_entries : Text → List Text → M (Unit {0})
write_entries file [] = pure tt
write_entries file (entry ∷ entries) = emit (fprintf file entry) >> write_entries file entries

unfoldable pub logger_flush : Option Text → M (Unit {0})
logger_flush none = pure tt
logger_flush (some file) = do
  entries ← gets (λ s. s.log_entries)
  write_entries file entries
  emit (fflush file)
  modify (λ s. record s { log_entries = [] })

unfoldable pub logger_destroy : Option Text → M (Unit {0})
logger_destroy none = pure tt
logger_destroy (some file) = emit (fclose file) >> emit (free 8)
