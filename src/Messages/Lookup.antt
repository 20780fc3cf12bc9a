-- ===== src/Messages/Lookup.antt =====
-- A field is found by its name, through the index table of its descriptor.
use dipp.Base.{ℕ, ltb, List, [], ◌∷◌, Bool, true, length, ◌&&◌}
use dipp.Types.{Text}
use dipp.Messages.Descriptors.{FieldDescriptor}
use dipp.Messages.Tables.{before}

-- The name stands before all of these.
unfoldable all_after : Text → List FieldDescriptor → Bool
unfolding before
all_after name [] = true
all_after name (f ∷ fs) = before name f.name && all_after name fs

-- Each name stands before all that follow.
unfoldable is_sorted : List FieldDescriptor → Bool
unfolding all_after
is_sorted [] = true
is_sorted (f ∷ fs) = all_after f.name fs && is_sorted fs

-- All of these are indices of the fields.
unfoldable are_indices : List FieldDescriptor → List ℕ → Bool
are_indices fields [] = true
are_indices fields (k ∷ ks) = ltb k (length fields) && are_indices fields ks
