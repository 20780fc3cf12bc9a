-- ===== src/Upload/Tests.antt =====
-- The theorems on src/vmem/vmem_upload_local.c at a batch of two images.
use dipp.Base.{refl, List, [], ◌∷◌, ◌++◌, arith, replicate}
use dipp.Base.Int.{pos}
use dipp.Samples.{sample_env, sample_metadata, start_state}
use dipp.Machine.Hoare.{Returns, IfReturns}
use dipp.Upload.Defs.{upload}
use dipp.Upload.Blocks.{Shot, layout, Pushes, upload-layout}
use dipp.Upload.Frame.{Written, upload-Written}

-- Each has metadata of one byte, and as many bytes as that says.
abbrev two_shots : List Shot
two_shots =
    record { meta = 2 ∷ []; image = 7 ∷ 9 ∷ [] } ∷ record { meta = 1 ∷ []; image = 8 ∷ [] } ∷ []

upload-layout_example :
    Returns
      (Pushes two_shots start_state)
      (upload sample_env (layout two_shots ++ 5 ∷ []) (pos 2) (pos 13) start_state)
upload-layout_example = upload-layout sample_env two_shots (5 ∷ []) start_state (omega arith) (
  (λ h. (sample_metadata (2 ∷ []), refl, refl)),
  (λ h. (sample_metadata (1 ∷ []), refl, refl), tt),
)

upload-Written_example :
    IfReturns
      (λ r t. Written 2 start_state t)
      (upload sample_env (replicate 20 0) (pos 2) (pos 13) start_state)
upload-Written_example = upload-Written sample_env (replicate 20 0) (pos 2) (pos 13) start_state
