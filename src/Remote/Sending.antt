-- ===== src/Remote/Sending.antt =====
-- The calls that can fail in `upload` of src/vmem/vmem_upload.c, and its pushes and transfer.
use mathlib.Core.Path.{ap₂}
use dipp.Base.{
  Bool-cases, ap, ℕ, ◌+◌, ◌≡◌, ◌⊎◌, refl, List, [], ◌∷◌, none, true, false, inl, inr, if◌then◌else◌,
}
use dipp.Base.Int.{ℤ, pos}
use dipp.Machine.{Env, M, State, History, vmem_upload, vmem_find, push, pull, pure, set_log_status}
use dipp.Machine.Hoare.{Returns}
use dipp.Machine.Trace.{log_status}
use dipp.Errors.{
  ErrorCode, code_value, get_error_as_uint32, set_error_param, internal_vmem_not_found,
  internal_remote_param_pull, internal_remote_param_push, internal_vmem_upload,
}
use dipp.Remote.Plan.{Plan}
use dipp.Remote.Defs.{
  push_then, send, paramid_buffer_head, paramid_buffer_tail, paramid_buffer_list, minus_one,
}

-- The uploads to the other node, the newest first.
abbrev pub uploads : History → List (ℕ × List ℕ)
uploads [] = []
uploads (vmem_upload address bytes ∷ h) = (address, bytes) ∷ uploads h
uploads (e ∷ h) = uploads h

-- Why a code has been reported: the call that failed is the last one before.
pub data Cause (env : Env) : ErrorCode → History → Type 0 where
  not_found :
      (node : ℕ) (h : History)
      → env.find_vmem node h ≡ none
      → Cause env internal_vmem_not_found (vmem_find node ∷ h)
  no_value :
      (id : ℕ) (h : History)
      → env.pull_value id h ≡ none
      → Cause env internal_remote_param_pull (pull id ∷ h)
  no_list :
      (id : ℕ) (h : History)
      → env.pull_list id h ≡ none
      → Cause env internal_remote_param_pull (pull id ∷ h)
  no_push :
      (id : ℕ) (index : ℤ) (value : ℕ) (h : History)
      → env.push_ok id h ≡ false
      → Cause env internal_remote_param_push (push id index value ∷ h)
  no_upload :
      (address : ℕ) (bytes : List ℕ) (h : History)
      → env.vmem_upload_ok h ≡ false
      → Cause env internal_vmem_upload (vmem_upload address bytes ∷ h)

-- The error of a call that failed has been reported, and nothing has been called since.
abbrev pub Reported : Env → State → State → Type 0
Reported env s t =
    (code : ErrorCode) × (h : History) × Cause env code h
    × (t.trace
        ≡ set_log_status
            (get_error_as_uint32 (code_value code) s.err_current_pipeline s.err_current_module)
          ∷ h)

-- The three pushes.
abbrev pub with_head : Plan → History → History
with_head p h = push paramid_buffer_head minus_one p.new_head ∷ h

abbrev pub with_tail : Plan → History → History
with_tail p h = push paramid_buffer_tail minus_one p.new_tail ∷ with_head p h

abbrev pub with_list : Plan → History → History
with_list p h = push paramid_buffer_list (pos p.new_head) p.new_head_offset ∷ with_tail p h

-- The indices of the plan have been pushed, and the data has been sent to its place, each with
-- success; there has been no other upload, and nothing has been reported.
abbrev pub Sent : Env → Plan → List ℕ → State → State → Type 0
Sent env p bytes s t =
    (h : History) × (env.push_ok paramid_buffer_head h ≡ true)
    × (env.push_ok paramid_buffer_tail (with_head p h) ≡ true)
    × (env.push_ok paramid_buffer_list (with_tail p h) ≡ true)
    × (env.vmem_upload_ok (with_list p h) ≡ true)
    × (t.trace ≡ vmem_upload (t.vmem_vaddr + p.insert_offset) bytes ∷ with_list p h)
    × (uploads t.trace ≡ (t.vmem_vaddr + p.insert_offset, bytes) ∷ uploads s.trace)
    × (log_status t.trace ≡ log_status s.trace)

abbrev pub Uploaded : Env → Plan → List ℕ → State → Unit {0} → State → Type 0
Uploaded env p bytes s r t = Reported env s t ⊎ Sent env p bytes s t

-- What has been known and reported is as it was, and nothing has been sent.
abbrev pub Kept : State → State → Type 0
Kept s t =
    (uploads t.trace ≡ uploads s.trace)
    × (log_status t.trace ≡ log_status s.trace)
    × (t.err_current_pipeline ≡ s.err_current_pipeline)
    × (t.err_current_module ≡ s.err_current_module)

module _ (env : Env) (p : Plan) (bytes : List ℕ) (s : State) where
  pub set_error_param-Uploaded :
      (code : ErrorCode) (t : State)
      → Cause env code t.trace
      → (t.err_current_pipeline ≡ s.err_current_pipeline)
        × (t.err_current_module ≡ s.err_current_module)
      → Returns (Uploaded env p bytes s) (set_error_param (code_value code) t)
  unfolding set_error_param
  set_error_param-Uploaded code t cause k = inl (
    code,
    t.trace,
    cause,
    ap₂ (λ x y. set_log_status (get_error_as_uint32 (code_value code) x y) ∷ t.trace) k.0 k.1,
  )

  push_then-Uploaded :
      (id : ℕ) (index : ℤ) (value : ℕ) (k : M (Unit {0})) (t : State)
      → Kept s t
      → (env.push_ok id t.trace ≡ true
          → Returns
              (Uploaded env p bytes s)
              (k (record t { trace = push id index value ∷ t.trace })))
      → Returns (Uploaded env p bytes s) (push_then env id index value k t)
  unfolding push_then
  push_then-Uploaded id index value k t kept later = elim (Bool-cases (env.push_ok id t.trace)) [
    | inl ok ↦ rw (ok, push_then) (later ok)
    | inr fails ↦
        rw (fails, push_then)
          (set_error_param-Uploaded internal_remote_param_push
            (record t { trace = push id index value ∷ t.trace })
            (no_push id index value t.trace fails) (kept.2, kept.3))
  ]

  -- The transfer behind the pushes.
  sent_or_failed :
      (t : State)
      → Kept s t
      → env.push_ok paramid_buffer_head t.trace ≡ true
      → env.push_ok paramid_buffer_tail (with_head p t.trace) ≡ true
      → env.push_ok paramid_buffer_list (with_tail p t.trace) ≡ true
      → Returns (Uploaded env p bytes s) (
          (if env.vmem_upload_ok (with_list p t.trace)
              then pure tt
              else set_error_param (code_value internal_vmem_upload))
            (record t {
              trace = vmem_upload (t.vmem_vaddr + p.insert_offset) bytes ∷ with_list p t.trace;
            }))
  sent_or_failed t kept head tail list =
      elim (Bool-cases (env.vmem_upload_ok (with_list p t.trace))) [
        | inl ok ↦
            rw (ok, Returns)
              (inr (
                t.trace,
                head,
                tail,
                list,
                ok,
                refl,
                ap (λ us. (t.vmem_vaddr + p.insert_offset, bytes) ∷ us) kept.0,
                kept.1,
              ))
        | inr fails ↦
            rw (fails, Returns)
              (set_error_param-Uploaded internal_vmem_upload
                (record t {
                  trace = vmem_upload (t.vmem_vaddr + p.insert_offset) bytes ∷ with_list p t.trace;
                })
                (no_upload (t.vmem_vaddr + p.insert_offset) bytes (with_list p t.trace) fails)
                (kept.2, kept.3))
      ]

  pub send-Uploaded : (t : State) → Kept s t → Returns (Uploaded env p bytes s) (send env bytes p t)
  unfolding send
  send-Uploaded t kept =
      push_then-Uploaded paramid_buffer_head minus_one p.new_head _ t kept (λ head.
        push_then-Uploaded paramid_buffer_tail minus_one p.new_tail _
          (record t { trace = with_head p t.trace }) kept
          (λ tail.
            push_then-Uploaded paramid_buffer_list (pos p.new_head) p.new_head_offset _
              (record t { trace = with_tail p t.trace }) kept
              (λ list. sent_or_failed t kept head tail list)))
