-- ===== src/Logger/Flush.antt =====
-- What reaches the log file.
use mathlib.Core.Path.{ap₂}
use dipp.Base.{
  ℕ, ◌/◌, ◌%◌, ◌+◌, ◌≡◌, ◌≤◌, ◌<◌, refl, sym, ap, ◌∙◌, List, [], ◌∷◌, ◌++◌, some, arith, length,
  take, lt→ltb, length-append, length-take, append_assoc, append-nil,
}
use dipp.Base.Text.{codes, number_of}
use dipp.Types.{Text}
use dipp.Machine.{Env, State, History, M, ◌>>◌, pure, fprintf}
use dipp.Machine.Hoare.{Returns, Returns-bind, Returns-mono}
use dipp.Logger.Defs.{
  LogLevel, log_debug, log_info, log_warning, log_error, log_critical, six_digits, buffer_size,
  max_log_length, level_to_string, timestamp, format_entry, entry_at, add_entry, logger_log_print,
  write_entries, logger_flush,
}

pub record Message : Type 0 where
  pub level : LogLevel
  pub text : Text

-- What has been printed into which file, the oldest first.
abbrev pub printed : History → List (Text × Text)
printed [] = []
printed (fprintf file text ∷ h) = printed h ++ (file, text) ∷ []
printed (e ∷ h) = printed h

-- Entries in this file.
abbrev pub in_file : Text → List Text → List (Text × Text)
in_file file [] = []
in_file file (entry ∷ entries) = (file, entry) ∷ in_file file entries

abbrev level_name : LogLevel → Text
level_name log_debug = codes "DEBUG"
level_name log_info = codes "INFO"
level_name log_warning = codes "WARNING"
level_name log_error = codes "ERROR"
level_name log_critical = codes "CRITICAL"

-- The line of a message, with the time and the microseconds, of which six digits are kept.
abbrev pub line : Text → Text → Message → Text
line time micros m =
    codes "["
    ++ (take 34 (time ++ (codes "." ++ micros))
        ++ (codes "] " ++ (level_name m.level ++ (codes ": " ++ (m.text ++ codes "\n")))))

-- The entry of a message: its line at some time, of which 1023 characters are kept.
abbrev pub IsEntryOf : Env → Message → Text → Type 0
IsEntryOf env m entry =
    (h : History) × (micros : Text) × (entry ≡ take 1023 (line (env.time_text h) micros m))
    × (length micros ≡ 6)
    × (number_of micros ≡ env.nanoseconds h / 1000 % 1000000)

-- Each entry is that of its message, and fits into its place with the final zero.
abbrev pub AreEntries : Env → List Message → List Text → Type 0
AreEntries env [] [] = Unit
AreEntries env (m ∷ ms) (entry ∷ entries) =
    IsEntryOf env m entry × (length entry < max_log_length) × AreEntries env ms entries
AreEntries env _ _ = ⊥

number_of-six_digits : (n : ℕ) → number_of (six_digits n) ≡ n % 1000000
unfolding six_digits
number_of-six_digits n = omega arith

six_digits-length : (n : ℕ) → length (six_digits n) ≡ 6
unfolding six_digits
six_digits-length n = refl

level_to_string-level_name : (level : LogLevel) → level_to_string level ≡ level_name level
level_to_string-level_name log_debug = refl
level_to_string-level_name log_info = refl
level_to_string-level_name log_warning = refl
level_to_string-level_name log_error = refl
level_to_string-level_name log_critical = refl

entry_at-line :
    (env : Env) (h : History) (m : Message)
    → entry_at env h m.level m.text
      ≡ take 1023 (line (env.time_text h) (six_digits (env.nanoseconds h / 1000)) m)
unfolding entry_at format_entry timestamp
entry_at-line env h m = rw (level_to_string-level_name m.level) refl

entry_at-IsEntryOf :
    (env : Env) (h : History) (m : Message) → IsEntryOf env m (entry_at env h m.level m.text)
unfolding entry_at
entry_at-IsEntryOf env h m = (
  h,
  six_digits (env.nanoseconds h / 1000),
  entry_at-line env h m,
  six_digits-length (env.nanoseconds h / 1000),
  number_of-six_digits (env.nanoseconds h / 1000),
)

length-cut : (text : Text) → length (take 1023 text) < max_log_length
length-cut text = omega (arith, length-take 1023 text)

length-format_entry :
    (time : Text) (level : LogLevel) (message : Text)
    → length (format_entry time level message) < max_log_length
unfolding format_entry
length-format_entry time level message = length-cut (
    codes "["
    ++ (time ++ (codes "] " ++ (level_to_string level ++ (codes ": " ++ (message ++ 10 ∷ []))))))

length-entry_at :
    (env : Env) (h : History) (level : LogLevel) (text : Text)
    → length (entry_at env h level text) < max_log_length
unfolding entry_at
length-entry_at env h level text =
    length-format_entry (timestamp (env.time_text h) (env.nanoseconds h)) level text

printed-write_entries :
    (file : Text) (entries : List Text) (s : State)
    → Returns
        (λ r t. (printed t.trace ≡ printed s.trace ++ in_file file entries))
        (write_entries file entries s)
unfolding write_entries
printed-write_entries file [] s = sym (append-nil (printed s.trace))
printed-write_entries file (entry ∷ entries) s =
    Returns-mono
      (λ r t. printed t.trace ≡ (printed s.trace ++ (file, entry) ∷ []) ++ in_file file entries)
      (λ r t. printed t.trace ≡ printed s.trace ++ in_file file (entry ∷ entries))
      (λ r t e. e ∙ append_assoc (printed s.trace) ((file, entry) ∷ []) (in_file file entries)) _
      (printed-write_entries file entries (record s { trace = fprintf file entry ∷ s.trace }))

module _ (env : Env) (file : Text) where
  -- Messages one after another.
  abbrev pub log_all : List Message → M (Unit {0})
  log_all [] = pure tt
  log_all (m ∷ ms) = logger_log_print env (some file) m.level m.text >> log_all ms

  logger_log_print-Returns :
      (level : LogLevel) (text : Text) (s : State)
      → length s.log_entries < buffer_size
      → Returns
          (λ r t.
            (t.log_entries ≡ s.log_entries ++ entry_at env s.trace level text ∷ [])
            × (printed t.trace ≡ printed s.trace))
          (logger_log_print env (some file) level text s)
  unfolding logger_log_print add_entry
  logger_log_print-Returns level text s room =
      rw (lt→ltb (length s.log_entries) buffer_size room, Returns) (refl, refl)

  -- The entries of the messages stand in the buffer, behind those that were there.
  abbrev Buffered : List Message → State → Unit {0} → State → Type 0
  Buffered ms s r t =
      (entries : List Text) × AreEntries env ms entries
      × (t.log_entries ≡ s.log_entries ++ entries)
      × (printed t.trace ≡ printed s.trace)

  log_all-Buffered :
      (ms : List Message) (s : State)
      → length s.log_entries + length ms ≤ buffer_size
      → Returns (Buffered ms s) (log_all ms s)
  log_all-Buffered [] s room = ([], tt, sym (append-nil s.log_entries), refl)
  log_all-Buffered (m ∷ ms) s room =
      Returns-bind
        (λ r t.
          (t.log_entries ≡ s.log_entries ++ entry_at env s.trace m.level m.text ∷ [])
          × (printed t.trace ≡ printed s.trace))
        (Buffered (m ∷ ms) s) (logger_log_print env (some file) m.level m.text) _ s
        (logger_log_print-Returns m.level m.text s (omega arith))
        (λ r t q.
          Returns-mono (Buffered ms t) (Buffered (m ∷ ms) s)
            (λ r u (entries, are, stored, quiet). (
              entry_at env s.trace m.level m.text ∷ entries,
              (entry_at-IsEntryOf env s.trace m, length-entry_at env s.trace m.level m.text, are),
              stored ∙ ap (λ es. es ++ entries) q.0 ∙ append_assoc s.log_entries _ entries,
              quiet ∙ q.1,
            ))
            _
            (log_all-Buffered ms t (
              omega (
                arith,
                ap length q.0,
                length-append s.log_entries (entry_at env s.trace m.level m.text ∷ []),
              ))))

  -- What a log file has got, and an empty buffer.
  abbrev pub Flushed : List Message → State → Unit {0} → State → Type 0
  Flushed ms s r t =
      ((entries : List Text) × AreEntries env ms entries
        × (printed t.trace ≡ printed s.trace ++ in_file file (s.log_entries ++ entries)))
      × (t.log_entries ≡ [])

  -- While the buffer has room for them, messages that are logged one after another and then flushed
  -- reach the log file: the calls return, the file has got the entries that stood in the buffer
  -- before and an entry for each message, in order: the time and the microseconds, the level and the
  -- text, cut to 1023 characters. Nothing else has been printed into a file, and the buffer is empty.
  pub logger_flush-log_all :
      (ms : List Message) (s : State)
      → length s.log_entries + length ms ≤ buffer_size
      → Returns (Flushed ms s) ((log_all ms >> logger_flush (some file)) s)
  unfolding logger_flush
  logger_flush-log_all ms s room =
      Returns-bind (Buffered ms s) (Flushed ms s) (log_all ms) _ s (log_all-Buffered ms s room)
        (λ r t (entries, are, stored, quiet).
          Returns-bind (λ r u. printed u.trace ≡ printed t.trace ++ in_file file t.log_entries)
            (Flushed ms s) (write_entries file t.log_entries) _ t
            (printed-write_entries file t.log_entries t)
            (λ r u e. ((entries, are, e ∙ ap₂ (λ p q. p ++ in_file file q) quiet stored), refl)))
