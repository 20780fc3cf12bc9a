-- ===== src/Config/Buffer.antt =====
-- `is_buffer_empty`, `get_param_buffer` and `load_module` of src/dipp_config.c.
use dipp.Base.{
  ℕ, ◌+◌, List, [], ◌∷◌, ◌++◌, Option, none, some, Bool, true, false, ◌==◌, ltb, if◌then◌else◌,
  length, take,
}
use dipp.Base.Text.{codes}
use dipp.Types.{Text}
use dipp.Machine.{
  Env, M, ◌>>=◌, ◌>>◌, pure, fault, ask, emit, get_data, brotli, malloc, strdup, dlopen, dlsym,
  dlclose,
}
use dipp.Errors.{
  code_value, set_error_param, internal_brotli_decode, memory_malloc, internal_so_not_found,
  internal_run_not_found,
}

unfoldable pub is_buffer_empty : List ℕ → Bool
is_buffer_empty [] = true
is_buffer_empty (b ∷ bs) = if b == 0 then is_buffer_empty bs else false

module _ (env : Env) where
  -- The copy of the decoded bytes into a block of their size.
  unfoldable pub copy_buffer : List ℕ → M (List ℕ)
  copy_buffer decoded = do
    allocated ← ask (env.malloc_ok (length decoded)) (malloc (length decoded))
    if allocated then pure decoded else (set_error_param (code_value memory_malloc) >> pure [])

  -- The first byte is the size of the compressed data that follows it; a size behind the end of the
  -- buffer makes brotli read what lies there.
  unfoldable pub decode_buffer : List ℕ → M (List ℕ)
  decode_buffer [] = pure []
  decode_buffer (size ∷ input) = if ltb (length input) size then fault else (do
    decoded ← ask (env.decompress size input) brotli
    elim decoded [
      | none ↦ set_error_param (code_value internal_brotli_decode) >> pure []
      | some bytes ↦ copy_buffer bytes
    ])

  -- The buffer and its size: the empty list for size 0, in which case the pointer may be NULL.
  unfoldable pub get_param_buffer : ℕ → M (List ℕ)
  get_param_buffer param = do
    buf ← ask (env.param_data param) (get_data param)
    if is_buffer_empty buf then pure [] else decode_buffer buf

  -- `strdup` gives NULL if it cannot allocate.
  unfoldable pub strdup_text : Text → M (Option Text)
  strdup_text text = do
    allocated ← ask (env.malloc_ok (length text + 1)) (strdup text)
    pure (if allocated then some text else none)

  -- The path is printed into 256 characters.
  unfoldable pub library_path : Text → Text
  library_path name = take 255 (codes "/usr/share/pipeline/" ++ (name ++ codes ".so"))

  unfoldable pub load_module : Text → M (Option ℕ)
  load_module name = do
    handle ← ask (env.open_library (library_path name)) (dlopen (library_path name))
    elim handle [
      | none ↦ set_error_param (code_value internal_so_not_found) >> pure none
      | some library ↦ do
        function ← ask (env.symbol_run library) dlsym
        elim function [
          | none ↦
              set_error_param (code_value internal_run_not_found) >> (emit dlclose >> pure none)
          | some address ↦ pure (some address)
        ]
    ]
