-- ===== src/Process/Message.antt =====
-- A batch that is sent through the message queue arrives as it was sent.
use dipp.Base.{ℕ, ◌^◌, ◌≡◌, ◌<◌, refl, ap, ◌∙◌, List, ◌++◌, arith, length, take, drop}
use dipp.Base.Int.{ℤ, IsInt32, to_i32, to_u32, to_i32-to_u32, to_u32-lt}
use dipp.Base.Word.{le_bytes, le_value, le_value-le_bytes}
use dipp.Types.{ImageBatch}
use dipp.Process.Queue.{batch_bytes, batch_of_bytes, copy_message}

-- The values that the fields of the struct can have; messages have type 1.
pub record IsSent (b : ImageBatch) : Type 0 where
  pub type_one : b.mtype ≡ 1
  pub num_images_fits : IsInt32 b.num_images
  pub batch_size_fits : IsInt32 b.batch_size
  pub shmid_fits : IsInt32 b.shmid
  pub pipeline_id_fits : IsInt32 b.pipeline_id
  pub address_fits : b.image_data < 2 ^ 64

int_round_trip : (a : ℤ) → IsInt32 a → to_i32 (le_value (le_bytes 4 (to_u32 a))) ≡ a
int_round_trip a h = ap to_i32 (le_value-le_bytes 4 (to_u32 a) (to_u32-lt a)) ∙ to_i32-to_u32 a h

batch_of_bytes-batch_bytes :
    (b : ImageBatch) (rest : List ℕ) → IsSent b → batch_of_bytes (batch_bytes b ++ rest) ≡ b
unfolding batch_of_bytes batch_bytes
batch_of_bytes-batch_bytes b rest v = λ i. record {
  mtype = le_value-le_bytes 8 b.mtype (rw v.type_one (omega arith)) i;
  num_images = int_round_trip b.num_images v.num_images_fits i;
  batch_size = int_round_trip b.batch_size v.batch_size_fits i;
  shmid = int_round_trip b.shmid v.shmid_fits i;
  pipeline_id = int_round_trip b.pipeline_id v.pipeline_id_fits i;
  image_data = le_value-le_bytes 8 b.image_data (omega (arith, v.address_fits)) i;
}

copy_message_of_32 :
    (text datarcv : List ℕ)
    → length text ≡ 32
    → copy_message text datarcv ≡ take 32 (le_bytes 8 1 ++ text) ++ drop 32 datarcv
unfolding copy_message
copy_message_of_32 text datarcv e = rw e

-- The message as the buffer of the receiver holds it begins with the struct.
buffer-batch_bytes :
    (b : ImageBatch) (extra : List ℕ)
    → b.mtype ≡ 1
    → take 32 (le_bytes 8 1 ++ (drop 8 (batch_bytes b) ++ extra)) ≡ batch_bytes b
unfolding batch_bytes
buffer-batch_bytes b extra t = rw t refl

pub length-text :
    (b : ImageBatch) (extra : List ℕ)
    → length extra ≡ 8
    → length (drop 8 (batch_bytes b) ++ extra) ≡ 32
unfolding batch_bytes
length-text b extra e = rw e refl

-- A sender that calls `msgsnd` with the size of the whole struct makes the kernel take the struct
-- behind its message type and 8 bytes that follow it. Whatever these are, and whatever stood in the
-- receiver's variable, the batch that `get_message_from_queue` copies is the batch that was sent,
-- if it has type 1 and its fields are in the range of their C types.
pub message-round_trip :
    (b : ImageBatch) (extra datarcv : List ℕ)
    → IsSent b
    → length extra ≡ 8
    → batch_of_bytes (copy_message (drop 8 (batch_bytes b) ++ extra) datarcv) ≡ b
message-round_trip b extra datarcv v e =
    ap batch_of_bytes (
      copy_message_of_32 (drop 8 (batch_bytes b) ++ extra) datarcv (length-text b extra e)
      ∙ ap (λ bytes. bytes ++ drop 32 datarcv) (buffer-batch_bytes b extra v.type_one))
    ∙ batch_of_bytes-batch_bytes b (drop 32 datarcv) v
