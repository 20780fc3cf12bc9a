-- ===== src/Remote/Outcome.antt =====
-- What `upload` of src/vmem/vmem_upload.c has done when it returns.
use dipp.Base.{ℕ, ◌≡◌, List, ◌∷◌, some, Bool, true, false, length, ◌==◌}
use dipp.Base.Int.{pos}
use dipp.Machine.{Env, State, History, pull}
use dipp.Remote.Plan.{Plan, planned, plan}
use dipp.Remote.Defs.{paramid_buffer_head, paramid_buffer_tail, paramid_buffer_list}
use dipp.Remote.Sending.{Uploaded, Kept}

-- The parameters of the other node, if they can be pulled, and the address of its buffer.
pub record Keeps (env : Env) (head tail : ℕ) (list : List ℕ) : Type 0 where
  pub head_pulled : (h : History) (v : ℕ) → env.pull_value paramid_buffer_head h ≡ some v → v ≡ head
  pub tail_pulled : (h : History) (v : ℕ) → env.pull_value paramid_buffer_tail h ≡ some v → v ≡ tail
  pub list_pulled :
      (h : History) (l : List ℕ) → env.pull_list paramid_buffer_list h ≡ some l → l ≡ list
  pub address_found :
      (node : ℕ) (h : History) (a : ℕ) → env.find_vmem node h ≡ some a → (a == 0) ≡ false

module _ (env : Env) (head tail : ℕ) (list : List ℕ) (keeps : Keeps env head tail list)
    (bytes : List ℕ) (p : Plan)
    (planned_so : plan list 10 head tail (pos (length bytes)) ≡ planned p) (s : State) where
  -- The state behind a pull.
  abbrev pulled : ℕ → State → State
  pulled id t = record t { trace = pull id ∷ t.trace }

  -- Behind the search: the address is known, or the error has been reported.
  abbrev Located : Bool → State → Type 0
  Located true t = Kept s t × ((t.vmem_vaddr == 0) ≡ false)
  Located false t = Uploaded env p bytes s tt t
