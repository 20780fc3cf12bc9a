-- ===== src/Process/Queue.antt =====
-- `get_message_from_queue`, and an `ImageBatch` as the 32 bytes that travel through the queue.
use dipp.Base.{ℕ, List, ◌++◌, Option, none, some, Bool, ltb, if◌then◌else◌, length, take, drop}
use dipp.Base.Int.{ℤ, to_u32, to_i32}
use dipp.Base.Word.{le_value, le_bytes}
use dipp.Types.{ImageBatch}
use dipp.Machine.{Env, M, ◌>>=◌, ◌>>◌, pure, wait, ask, no_message, waits, message, msgget, msgrcv}
use dipp.Errors.{code_value, set_error_param, msgq_not_found, msgq_empty}

abbrev pub batch_struct_size : ℕ
batch_struct_size = 32

-- The struct in memory: a long, four ints and a pointer, little-endian.
unfoldable pub batch_bytes : ImageBatch → List ℕ
batch_bytes b =
    le_bytes 8 b.mtype
    ++ (le_bytes 4 (to_u32 b.num_images)
        ++ (le_bytes 4 (to_u32 b.batch_size)
            ++ (le_bytes 4 (to_u32 b.shmid)
                ++ (le_bytes 4 (to_u32 b.pipeline_id) ++ le_bytes 8 b.image_data))))

-- The `int` at an offset of the struct.
abbrev pub int_at : ℕ → List ℕ → ℤ
int_at offset bytes = to_i32 (le_value (take 4 (drop offset bytes)))

unfoldable pub batch_of_bytes : List ℕ → ImageBatch
batch_of_bytes bytes = record {
  mtype = le_value (take 8 bytes);
  num_images = int_at 8 bytes;
  batch_size = int_at 12 bytes;
  shmid = int_at 16 bytes;
  pipeline_id = int_at 20 bytes;
  image_data = le_value (take 8 (drop 24 bytes));
}

-- `memcpy(datarcv, &msg_buffer, msg_size)`: the buffer begins with the type of the message, 1, and
-- `msg_size` counts the bytes of its text alone.
unfoldable pub copy_message : List ℕ → List ℕ → List ℕ
copy_message text datarcv = take (length text) (le_bytes 8 1 ++ text) ++ drop (length text) datarcv

module _ (env : Env) where
  -- The bytes of `*datarcv` behind the call, `none` for FAILURE.
  unfoldable pub get_message_from_queue : List ℕ → Bool → M (Option (List ℕ))
  get_message_from_queue datarcv do_wait = do
    found ← ask env.msgget_ok msgget
    if found
        then (do
          receipt ← ask (env.receive do_wait) (msgrcv do_wait)
          elim receipt [
            | no_message ↦ set_error_param (code_value msgq_empty) >> pure none
            | waits ↦ wait
            | message text ↦
                if ltb batch_struct_size (length text)
                then (set_error_param (code_value msgq_empty) >> pure none)
                else pure (some (copy_message text datarcv))
          ])
        else (set_error_param (code_value msgq_not_found) >> pure none)
