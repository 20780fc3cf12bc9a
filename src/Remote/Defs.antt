-- ===== src/Remote/Defs.antt =====
-- `upload` of src/vmem/vmem_upload.c. Its `while` loop runs on fuel; a loop without end waits.
use dipp.Base.{
  ℕ, ◌+◌, List, Option, none, some, Bool, true, false, ◌==◌, ◌||◌, not, if◌then◌else◌, length,
}
use dipp.Base.Int.{ℤ, pos, negsuc}
use dipp.Machine.{
  Env, M, ◌>>=◌, ◌>>◌, pure, fault, wait, gets, modify, ask, get_data, vmem_find, pull, push,
  vmem_upload,
}
use dipp.Errors.{
  code_value, set_error_param, internal_vmem_not_found, internal_remote_param_pull,
  internal_remote_param_push, internal_vmem_upload,
}
use dipp.Remote.Plan.{Plan, Planned, planned, out_of_list, out_of_fuel, plan}

-- The ids of the parameters on the other node, and of `radio_node_id` here.
abbrev pub paramid_buffer_list : ℕ
paramid_buffer_list = 100

abbrev pub paramid_buffer_head : ℕ
paramid_buffer_head = 101

abbrev pub paramid_buffer_tail : ℕ
paramid_buffer_tail = 102

abbrev pub paramid_radio_node_id : ℕ
paramid_radio_node_id = 3

-- The index for a parameter that is no array.
abbrev pub minus_one : ℤ
minus_one = negsuc 0

module _ (env : Env) where
  -- The search for the buffer: `false` for the early return. The answer to a search that succeeds
  -- is the address, which may be 0.
  unfoldable pub locate : ℕ → M Bool
  locate node = do
    vaddr ← gets (λ s. s.vmem_vaddr)
    known ← gets (λ s. s.buffer_node_id)
    if vaddr == 0 || not (node == known)
        then (do
          found ← ask (env.find_vmem node) (vmem_find node)
          elim found [
            | none ↦ set_error_param (code_value internal_vmem_not_found) >> pure false
            | some address ↦
                modify (λ s. record s { vmem_vaddr = address; buffer_node_id = node }) >> pure true
          ])
        else pure true

  -- The second test of the address, which does not return.
  unfoldable pub check_address : M (Unit {0})
  check_address = do
    vaddr ← gets (λ s. s.vmem_vaddr)
    if vaddr == 0
        then (modify (λ s. record s { buffer_node_id = 0 })
            >> set_error_param (code_value internal_vmem_not_found))
        else pure tt

  -- A result, or the error of a pull that failed.
  abbrev pub or_pull_error : {A : Type 0} → Option A → (A → M (Unit {0})) → M (Unit {0})
  or_pull_error none f = set_error_param (code_value internal_remote_param_pull)
  or_pull_error (some a) f = f a

  -- A push, and what follows it.
  unfoldable pub push_then : ℕ → ℤ → ℕ → M (Unit {0}) → M (Unit {0})
  push_then id index value k = do
    ok ← ask (env.push_ok id) (push id index value)
    if ok then k else set_error_param (code_value internal_remote_param_push)

  -- The three pushes, and the data.
  unfoldable pub send : List ℕ → Plan → M (Unit {0})
  unfolding push_then
  send bytes p = push_then paramid_buffer_head minus_one p.new_head (
      push_then paramid_buffer_tail minus_one p.new_tail (
        push_then paramid_buffer_list (pos p.new_head) p.new_head_offset (do
          vaddr ← gets (λ s. s.vmem_vaddr)
          ok ← ask env.vmem_upload_ok (vmem_upload (vaddr + p.insert_offset) bytes)
          if ok then pure tt else set_error_param (code_value internal_vmem_upload))))

  unfoldable pub send_planned : List ℕ → Planned Plan → M (Unit {0})
  unfolding send
  send_planned bytes (planned p) = send bytes p
  send_planned bytes out_of_list = fault
  send_planned bytes out_of_fuel = wait

  -- The three pulls, and what they are used for.
  unfoldable pub exchange : ℕ → List ℕ → M (Unit {0})
  unfolding send_planned
  exchange fuel bytes = do
    head ← ask (env.pull_value paramid_buffer_head) (pull paramid_buffer_head)
    or_pull_error head (λ head. do
      tail ← ask (env.pull_value paramid_buffer_tail) (pull paramid_buffer_tail)
      or_pull_error tail (λ tail. do
        list ← ask (env.pull_list paramid_buffer_list) (pull paramid_buffer_list)
        or_pull_error list
            (λ list. send_planned bytes (plan list fuel head tail (pos (length bytes))))))

  -- `upload(data, len)`, with the `len` bytes at `data`.
  unfoldable pub upload : ℕ → List ℕ → M (Unit {0})
  unfolding locate check_address exchange
  upload fuel bytes = do
    node ← ask env.radio_node_id (get_data paramid_radio_node_id)
    found ← locate node
    if found then (check_address >> exchange fuel bytes) else pure tt
