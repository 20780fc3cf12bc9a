-- ===== src/Upload/Vars.antt =====
-- `upload` changes no variable of the program.
use dipp.Base.{
  ℕ, zero, suc, ◌+◌, ◌≡◌, refl, ap, ◌∙◌, List, ltb, Bool-cases, inl, inr, Option-cases, ◌-◌, ◌%◌,
  ◌^◌,
}
use dipp.Base.Int.{ℤ, pos_part, to_u32}
use dipp.Base.Word.{read_bytes, read_u32}
use dipp.Machine.{Env, State}
use dipp.Machine.Hoare.{IfReturns, IfReturns-bind, IfReturns-mono}
use dipp.Upload.Defs.{block_end, upload_image, upload_images, upload}

-- The same but for what has been called.
abbrev pub SameVars : State → State → Type 0
SameVars s t = t ≡ record s { trace = t.trace }

pub SameVars-trans : (s t u : State) → SameVars s t → SameVars t u → SameVars s u
SameVars-trans s t u first later = later ∙ ap {A = State} (λ v. record v { trace = u.trace }) first

module _ (env : Env) (memory : List ℕ) where
  upload_image-SameVars :
      (offset : ℕ) (s : State)
      → IfReturns (λ next t. SameVars s t) (upload_image env memory offset s)
  unfolding upload_image
  upload_image-SameVars offset s = elim (Option-cases (read_u32 memory offset)) [
    | inl e ↦ rw e tt
    | inr (n, e) ↦ rw e (elim (Option-cases (read_bytes memory ((offset + 4) % 2 ^ 32) n)) [
      | inl e₁ ↦ rw e₁ tt
      | inr (bytes, e₁) ↦ rw e₁ (elim (Option-cases (env.unpack_metadata bytes s.trace)) [
        | inl e₂ ↦ rw e₂ tt
        | inr (m, e₂) ↦
            rw e₂
              (elim (Option-cases
                (read_bytes memory offset ((block_end offset n m + 2 ^ 32 - offset) % 2 ^ 32))) [
                  | inl e₃ ↦ rw e₃ tt
                  | inr (block, e₃) ↦ rw e₃ refl
                ])
      ])
    ])
  ]

  upload_images-SameVars :
      (len : ℤ) (rounds offset : ℕ) (s : State)
      → IfReturns (λ r t. SameVars s t) (upload_images env memory len rounds offset s)
  unfolding upload_images
  upload_images-SameVars len zero offset s = refl
  upload_images-SameVars len (suc rounds) offset s = elim (Bool-cases (ltb offset (to_u32 len))) [
    | inl more ↦ rw more (
        IfReturns-bind (λ next t. SameVars s t) (λ r t. SameVars s t)
          (upload_image env memory offset) (λ next. upload_images env memory len rounds next) s
          (upload_image-SameVars offset s)
          (λ next t same.
            IfReturns-mono (λ r u. SameVars t u) (λ r u. SameVars s u)
              (λ r u later. SameVars-trans s t u same later) _
              (upload_images-SameVars len rounds next t)))
    | inr finished ↦ rw finished refl
  ]

-- However the libraries answer and whatever stands in memory.
pub upload-SameVars :
    (env : Env) (memory : List ℕ) (num len : ℤ) (s : State)
    → IfReturns (λ r t. SameVars s t) (upload env memory num len s)
unfolding upload
upload-SameVars env memory num len s = upload_images-SameVars env memory len (pos_part num) 0 s
