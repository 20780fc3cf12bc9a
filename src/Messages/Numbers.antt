-- ===== src/Messages/Numbers.antt =====
-- A field is found by its number, through the ranges of its descriptor.
use native.Mathlib.Nat.{zero-add}
use dipp.Base.{
  ℕ, zero, suc, ◌+◌, ◌≡◌, ◌<◌, refl, List, [], ◌∷◌, some, Bool, true, length, get_elem?,
  get_elem?-lt, ◌==◌, ◌&&◌, arith, ap, ◌∙◌, sym,
}
use dipp.Messages.Descriptors.{
  Message, metadata_item, metadata, config_parameter, module_config, module_definition,
  pipeline_definition, dtpmetadata_item, dtpmetadata, FieldDescriptor, IntRange,
}
use dipp.Messages.Tables.{descriptor_of, leads_to}

-- The numbers of the fields lead to their places, from this one on.
unfoldable is_numbered : List IntRange → ℕ → List FieldDescriptor → Bool
unfolding leads_to
is_numbered ranges i [] = true
is_numbered ranges i (f ∷ fs) = leads_to ranges f.id i && is_numbered ranges (suc i) fs

is_numbered-leads_to :
    (ranges : List IntRange) (k : ℕ) (fs : List FieldDescriptor) (i : ℕ) (f : FieldDescriptor)
    → is_numbered ranges k fs ≡ true
    → get_elem? fs i ≡ some f
    → leads_to ranges f.id (k + i) ≡ true
unfolding is_numbered
is_numbered-leads_to ranges k [] i f e h = cc
is_numbered-leads_to ranges k (x ∷ fs) zero f e h = ground arith
is_numbered-leads_to ranges k (x ∷ fs) (suc i) f e h =
    let shift : k + suc i ≡ suc k + i = omega arith in
    rw shift (is_numbered-leads_to ranges (suc k) fs i f (ground arith) h)

-- The fields have the numbers behind this one, without a gap.
unfoldable is_dense : ℕ → List FieldDescriptor → Bool
is_dense k [] = true
is_dense k (f ∷ fs) = f.id == suc k && is_dense (suc k) fs

is_dense-id :
    (k : ℕ) (fs : List FieldDescriptor) (i : ℕ) (f : FieldDescriptor)
    → is_dense k fs ≡ true
    → get_elem? fs i ≡ some f
    → f.id ≡ suc (k + i)
unfolding is_dense
is_dense-id k [] i f e h = cc
is_dense-id k (x ∷ fs) zero f e h = ground arith
is_dense-id k (x ∷ fs) (suc i) f e h = omega (arith, is_dense-id (suc k) fs i f (ground arith) h)

-- One range for all fields.
abbrev one_range : ℕ → List IntRange
one_range n =
    record { start_value = 1; orig_index = 0 } ∷ record { start_value = 0; orig_index = n } ∷ []

leads_to-one_range :
    (n number i : ℕ) → leads_to (one_range n) number i ≡ true → (number ≡ suc i) × (i < n)
unfolding leads_to
leads_to-one_range n number i e = ground arith

descriptor_of_numbered :
    (m : Message) → is_numbered (descriptor_of m).field_ranges 0 (descriptor_of m).fields ≡ true
unfolding is_numbered
descriptor_of_numbered metadata_item = refl
descriptor_of_numbered metadata = refl
descriptor_of_numbered config_parameter = refl
descriptor_of_numbered module_config = refl
descriptor_of_numbered module_definition = refl
descriptor_of_numbered pipeline_definition = refl
descriptor_of_numbered dtpmetadata_item = refl
descriptor_of_numbered dtpmetadata = refl

descriptor_of_dense : (m : Message) → is_dense 0 (descriptor_of m).fields ≡ true
unfolding is_dense
descriptor_of_dense metadata_item = refl
descriptor_of_dense metadata = refl
descriptor_of_dense config_parameter = refl
descriptor_of_dense module_config = refl
descriptor_of_dense module_definition = refl
descriptor_of_dense pipeline_definition = refl
descriptor_of_dense dtpmetadata_item = refl
descriptor_of_dense dtpmetadata = refl

descriptor_of-one_range :
    (m : Message) → (descriptor_of m).field_ranges ≡ one_range (length (descriptor_of m).fields)
descriptor_of-one_range metadata_item = refl
descriptor_of-one_range metadata = refl
descriptor_of-one_range config_parameter = refl
descriptor_of-one_range module_config = refl
descriptor_of-one_range module_definition = refl
descriptor_of-one_range pipeline_definition = refl
descriptor_of-one_range dtpmetadata_item = refl
descriptor_of-one_range dtpmetadata = refl

-- For every message: the number of each field leads to its place through the ranges of the
-- descriptor.
pub leads_to-id :
    (m : Message) (i : ℕ) (f : FieldDescriptor)
    → get_elem? (descriptor_of m).fields i ≡ some f
    → leads_to (descriptor_of m).field_ranges f.id i ≡ true
leads_to-id m i f e =
    ap (leads_to (descriptor_of m).field_ranges f.id) (sym (zero-add i))
    ∙ is_numbered-leads_to (descriptor_of m).field_ranges 0 (descriptor_of m).fields i f
        (descriptor_of_numbered m) e

-- For every message: a number that leads to an index through the ranges of the descriptor is the
-- number of the field at that index; there is one.
pub leads_to-field :
    (m : Message) (number i : ℕ)
    → leads_to (descriptor_of m).field_ranges number i ≡ true
    → (f : FieldDescriptor) × (get_elem? (descriptor_of m).fields i ≡ some f) × (f.id ≡ number)
leads_to-field m number i e =
    let (number_eq, lt) =
      leads_to-one_range (length (descriptor_of m).fields) number i
        (sym (ap (λ r. leads_to r number i) (descriptor_of-one_range m)) ∙ e) in
    let (f, found) = get_elem?-lt (descriptor_of m).fields i lt in
    (
      f,
      found,
      is_dense-id 0 (descriptor_of m).fields i f (descriptor_of_dense m) found
          ∙ (ap suc (zero-add i) ∙ sym number_eq),
    )
