-- ===== src/Machine/Trace.antt =====
-- Readings of a history: the error parameter, and the events of one kind.
use mathlib.Core.Path.{◌≡◌}
use dipp.Base.{ℕ, suc, List, [], ◌∷◌, Option, none, some, if◌then◌else◌, Bool, true, false}
use dipp.Machine.Events.{Event, set_log_status, fork, ring_write, shmat, shmdt, shmctl_rmid, msgrcv}
use dipp.Machine.Answers.{History}

-- What `param_get_uint32(&log_status)` gives: the value that was written last.
abbrev pub log_status : History → Option ℕ
log_status [] = none
log_status (set_log_status v ∷ h) = some v
log_status (e ∷ h) = log_status h

-- How many events of the history pass a test.
abbrev pub count_events : (Event → Bool) → History → ℕ
count_events test [] = 0
count_events test (e ∷ h) = (if test e then suc else (λ n. n)) (count_events test h)

abbrev pub is_fork : Event → Bool
is_fork fork = true
is_fork e = false

-- The observations that went into the ring buffer, the newest first.
abbrev pub ring_writes : History → List (List ℕ)
ring_writes [] = []
ring_writes (ring_write bytes ∷ h) = bytes ∷ ring_writes h
ring_writes (e ∷ h) = ring_writes h

abbrev pub is_segment : Event → Bool
is_segment (shmat id address) = true
is_segment (shmdt address) = true
is_segment (shmctl_rmid id) = true
is_segment (ring_write bytes) = true
is_segment (msgrcv do_wait) = true
is_segment e = false

abbrev keep_if : Bool → Event → History → History
keep_if true e h = e ∷ h
keep_if false e h = h

-- What has been done to the shared memory segments, to the ring buffer and to the message queue, the
-- newest first.
abbrev pub segment_events : History → History
segment_events [] = []
segment_events (e ∷ h) = keep_if (is_segment e) e (segment_events h)

-- Two histories in which the same has been done to segments, ring buffer and message queue.
abbrev pub Untouched : History → History → Type 0
Untouched h k = segment_events k ≡ segment_events h
