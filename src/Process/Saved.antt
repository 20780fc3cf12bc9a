-- ===== src/Process/Saved.antt =====
-- The files that `save_images` writes for a batch in the camera's layout.
use dipp.Base.{Option, ℕ, ◌+◌, ◌≡◌, ◌<◌, List, [], ◌∷◌, ◌++◌, some, true, length}
use dipp.Base.Text.{codes, number_of}
use dipp.Types.{Text}
use dipp.Machine.{Env, State, History, fwrite}
use dipp.Machine.Trace.{log_status}
use dipp.Upload.Blocks.{Shot, block}
use dipp.Process.Save.{filename_size, raw_name}

-- The files that have been written, with their contents, the newest first.
abbrev pub saved : History → List (Text × List ℕ)
saved [] = []
saved (fwrite file bytes ∷ h) = (file, bytes) ∷ saved h
saved (e ∷ h) = saved h

-- The files of some images, the first of which has this index, on top of older ones.
abbrev files_onto : Text → ℕ → List Shot → List (Text × List ℕ) → List (Text × List ℕ)
files_onto base i [] old = old
files_onto base i (shot ∷ shots) old =
    files_onto base (i + 1) shots ((raw_name base i, shot.image) ∷ old)

-- The names of some files fit into `filename`.
abbrev pub NamesFit : Text → ℕ → List Shot → Type 0
NamesFit base i [] = Unit
NamesFit base i (shot ∷ shots) =
    (length (raw_name base i) < filename_size) × NamesFit base (i + 1) shots

-- A file named by its index: the decimal digits between the base and the ending.
abbrev pub NamedBy : Text → ℕ → Text → Type 0
NamedBy base i file =
    (index : Text) × (file ≡ base ++ (index ++ codes ".raw")) × (number_of index ≡ i)

-- The files of some images, the first of which has this index, on top of older ones.
abbrev pub FilesOnto : Text → ℕ → List Shot → List (Text × List ℕ) → List (Text × List ℕ) → Type 0
FilesOnto base i [] old now = now ≡ old
FilesOnto base i (shot ∷ shots) old now =
    (file : Text) × NamedBy base i file
    × FilesOnto base (i + 1) shots ((file, shot.image) ∷ old) now

-- Each image has its file, and no error has been reported.
abbrev pub AllSaved : Text → List Shot → State → Unit {0} → State → Type 0
AllSaved base shots s r t =
    FilesOnto base 0 shots (saved s.trace) (saved t.trace)
    × (log_status t.trace ≡ log_status s.trace)

abbrev SavedAs : Text → ℕ → List Shot → State → Unit {0} → State → Type 0
SavedAs base i shots s r t =
    (saved t.trace ≡ files_onto base i shots (saved s.trace))
    × (log_status t.trace ≡ log_status s.trace)

module _ (env : Env) (memory : List ℕ) (base : Text)
    (opens : (file : Text) (h : History) → env.fopen_ok file h ≡ true) where
  -- One round: the next offset, and one more file.
  abbrev SavedOne : List ℕ → ℕ → Shot → State → Option ℕ → State → Type 0
  SavedOne before i shot s next t =
      (next ≡ some (length before + length (block shot)))
      × (saved t.trace ≡ (raw_name base i, shot.image) ∷ saved s.trace)
      × (log_status t.trace ≡ log_status s.trace)
