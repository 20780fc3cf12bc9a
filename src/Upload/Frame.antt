-- ===== src/Upload/Frame.antt =====
-- What `upload` does to the history, whatever stands in memory and however the libraries answer.
use dipp.Base.{
  ℕ, zero, suc, ◌+◌, ◌≡◌, ◌≤◌, refl, ap, ◌∙◌, List, [], ◌∷◌, ◌++◌, arith, ltb, length, Bool-cases,
  inl, inr, Option-cases, length-append, sym, ◌-◌, ◌%◌, ◌^◌,
}
use dipp.Base.Int.{ℤ, pos_part, to_u32}
use dipp.Base.Word.{read_bytes, read_u32}
use dipp.Machine.{Env, State, History, ring_write}
use dipp.Machine.Hoare.{IfReturns, IfReturns-bind, IfReturns-mono}
use dipp.Machine.Trace.{segment_events}
use dipp.Upload.Defs.{block_end, upload_image, upload_images, upload}

-- The writes of some observations, the last one first, onto a history.
abbrev pub writes_onto : List (List ℕ) → History → History
writes_onto [] h = h
writes_onto (bytes ∷ rest) h = ring_write bytes ∷ writes_onto rest h

writes_onto-append :
    (xs ys : List (List ℕ)) (h : History)
    → writes_onto (xs ++ ys) h ≡ writes_onto xs (writes_onto ys h)
writes_onto-append [] ys h = refl
writes_onto-append (x ∷ xs) ys h = ap (λ t. ring_write x ∷ t) (writes_onto-append xs ys h)

-- At most `n` observations have been written, and no segment has been touched; all else is as it
-- was.
abbrev pub Written : ℕ → State → State → Type 0
Written n s t =
    ((ws : List (List ℕ)) × (length ws ≤ n)
      × (segment_events t.trace ≡ writes_onto ws (segment_events s.trace)))
    × (t.err_current_pipeline ≡ s.err_current_pipeline)
    × (t.err_current_module ≡ s.err_current_module)

module _ (env : Env) (memory : List ℕ) where
  upload_image-Written :
      (offset : ℕ) (s : State)
      → IfReturns (λ next t. Written 1 s t) (upload_image env memory offset s)
  unfolding upload_image
  upload_image-Written offset s = elim (Option-cases (read_u32 memory offset)) [
    | inl e ↦ rw e tt
    | inr (n, e) ↦ rw e (elim (Option-cases (read_bytes memory ((offset + 4) % 2 ^ 32) n)) [
      | inl e₁ ↦ rw e₁ tt
      | inr (bytes, e₁) ↦ rw e₁ (elim (Option-cases (env.unpack_metadata bytes s.trace)) [
        | inl e₂ ↦ rw e₂ tt
        | inr (m, e₂) ↦
            rw e₂
              (elim (Option-cases
                (read_bytes memory offset ((block_end offset n m + 2 ^ 32 - offset) % 2 ^ 32))) [
                  | inl e₃ ↦ rw e₃ tt
                  | inr (block, e₃) ↦ rw e₃ ((block ∷ [], omega arith, refl), refl, refl)
                ])
      ])
    ])
  ]

  Written-trans :
      (m n : ℕ) (s t u : State)
      → Written m s t
      → Written n t u
      → (k : ℕ) → m + n ≡ k
      → Written k s u
  Written-trans m n s t u ((ws, l, e), p, q) ((vs, j, f), r, o) k h = (
    (
      vs ++ ws,
      omega (arith, length-append vs ws),
      f ∙ ap (writes_onto vs) e ∙ sym (writes_onto-append vs ws (segment_events s.trace)),
    ),
    r ∙ p,
    o ∙ q,
  )

  upload_images-Written :
      (len : ℤ) (rounds offset : ℕ) (s : State)
      → IfReturns (λ r t. Written rounds s t) (upload_images env memory len rounds offset s)
  unfolding upload_images
  upload_images-Written len zero offset s = (([], omega arith, refl), refl, refl)
  upload_images-Written len (suc rounds) offset s = elim (Bool-cases (ltb offset (to_u32 len))) [
    | inl more ↦ rw more (
        IfReturns-bind (λ next. Written 1 s) (λ r. Written (suc rounds) s)
          (upload_image env memory offset) (λ next. upload_images env memory len rounds next) s
          (upload_image-Written offset s)
          (λ next t w.
            IfReturns-mono (λ r. Written rounds t) (λ r. Written (suc rounds) s)
              (λ r u v. Written-trans 1 rounds s t u w v (suc rounds) (omega arith)) _
              (upload_images-Written len rounds next t)))
    | inr finished ↦ rw finished (([], omega arith, refl), refl, refl)
  ]

-- However the libraries answer and whatever stands in memory: if `upload` returns, all it has done
-- to segments and ring buffer is to write observations, at most as many as the number of images
-- says.
pub upload-Written :
    (env : Env) (memory : List ℕ) (num len : ℤ) (s : State)
    → IfReturns (λ r t. Written (pos_part num) s t) (upload env memory num len s)
unfolding upload
upload-Written env memory num len s = upload_images-Written env memory len (pos_part num) 0 s
