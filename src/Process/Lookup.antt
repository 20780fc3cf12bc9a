-- ===== src/Process/Lookup.antt =====
-- `get_pipeline_by_id` on a table that the cache has set up.
use dipp.Base.{
  ℕ, zero, suc, ◌+◌, ◌≡◌, ◌<◌, ◌⊎◌, refl, List, [], ◌∷◌, Option, none, some, arith, get_elem?,
  Option-cases, inl, inr,
}
use dipp.Base.Int.{ℤ, pos}
use dipp.Types.{Pipeline}
use dipp.Machine.{State}
use dipp.Machine.Trace.{log_status}
use dipp.Machine.Hoare.{Returns}
use dipp.Errors.{set_error_param, code_value, internal_pid_not_found, get_error_as_uint32}
use dipp.Config.Shape.{WellFormed}
use dipp.Process.Batch.{find_pipeline, get_pipeline_by_id}

-- The entries from index `k` on have their numbers, or none.
abbrev NumberedFrom : ℕ → List Pipeline → Type 0
NumberedFrom k ps =
    (j : ℕ) (p : Pipeline)
    → get_elem? ps j ≡ some p
    → (p.pipeline_id ≡ pos (k + j + 1)) ⊎ (p.pipeline_id ≡ pos 0)

-- What the loop gives for a number from `k + 1` on: the entry at its index, if that has been set.
abbrev FoundAt : ℤ → Option Pipeline → Option Pipeline → Type 0
FoundAt id none r = r ≡ none
FoundAt id (some p) r =
    ((p.pipeline_id ≡ id) × (r ≡ some p)) ⊎ ((p.pipeline_id ≡ pos 0) × (r ≡ none))

NumberedFrom-tail :
    (k : ℕ) (p : Pipeline) (ps : List Pipeline) → NumberedFrom k (p ∷ ps) → NumberedFrom (k + 1) ps
NumberedFrom-tail k p ps n j q e = ground (arith, n (suc j) q e)

beyond :
    (k n : ℕ) (ps : List Pipeline)
    → n < k
    → NumberedFrom k ps
    → find_pipeline (pos (n + 1)) ps ≡ none
unfolding find_pipeline
beyond k n [] h num = refl
beyond k n (p ∷ ps) h num =
    ground (arith, num 0 p refl, beyond (k + 1) n ps (omega arith) (NumberedFrom-tail k p ps num))

find_pipeline-FoundAt :
    (j k : ℕ) (ps : List Pipeline)
    → NumberedFrom k ps
    → FoundAt (pos (k + j + 1)) (get_elem? ps j) (find_pipeline (pos (k + j + 1)) ps)
unfolding find_pipeline
find_pipeline-FoundAt j k [] num = refl
find_pipeline-FoundAt zero k (p ∷ ps) num =
    ground (arith, num 0 p refl, beyond (k + 1) k ps (omega arith) (NumberedFrom-tail k p ps num))
find_pipeline-FoundAt (suc j) k (p ∷ ps) num =
    ground (arith, num 0 p refl, find_pipeline-FoundAt j (k + 1) ps (NumberedFrom-tail k p ps num))

-- There is no such entry, or it has never been set.
abbrev pub Unset : Option Pipeline → Type 0
Unset none = Unit
Unset (some p) = p.pipeline_id ≡ pos 0

FoundAt-Unset :
    (id : ℤ) (entry found : Option Pipeline) → FoundAt id entry found → found ≡ none → Unset entry
FoundAt-Unset id none found f e = tt
FoundAt-Unset id (some p) found (inl (at_id, is_found)) e = cc
FoundAt-Unset id (some p) found (inr (unset, nothing)) e = unset

FoundAt-some :
    (id : ℤ) (entry : Option Pipeline) (found : Option Pipeline) (p : Pipeline)
    → FoundAt id entry found
    → found ≡ some p
    → (entry ≡ some p) × (p.pipeline_id ≡ id)
FoundAt-some id none found p f e = cc
FoundAt-some id (some q) found p f e = ground arith

-- A pipeline has been found at index `j`; or there is none that has been set, and this error is
-- reported.
abbrev pub LookedUp : ℕ → State → Option Pipeline → State → Type 0
LookedUp j s (some p) t =
    (get_elem? s.pipelines j ≡ some p) × (p.pipeline_id ≡ pos (j + 1)) × (t ≡ s)
LookedUp j s none t =
    Unset (get_elem? s.pipelines j)
    × (log_status t.trace
        ≡ some (
            get_error_as_uint32 (code_value internal_pid_not_found) s.err_current_pipeline
              s.err_current_module))

-- On well-formed tables `get_pipeline_by_id`, called with the number `j + 1`, gives the pipeline at
-- index `j` and changes nothing; or that pipeline has never been set, and the error parameter says
-- that there is no such pipeline.
pub get_pipeline_by_id-LookedUp :
    (j : ℕ) (s : State) → WellFormed s → Returns (LookedUp j s) (get_pipeline_by_id (pos (j + 1)) s)
unfolding get_pipeline_by_id set_error_param
get_pipeline_by_id-LookedUp j s w = elim (Option-cases (find_pipeline (pos (j + 1)) s.pipelines)) [
  | inl nothing ↦
      rw (nothing, Returns)
        (FoundAt-Unset (pos (j + 1)) (get_elem? s.pipelines j) _ found nothing, refl)
  | inr (p, e) ↦
      rw (e, Returns)
        (let (at_index, numbered) =
            FoundAt-some (pos (j + 1)) (get_elem? s.pipelines j) _ p found e in
          (at_index, numbered, refl))
]
  where
    found :
        FoundAt (pos (j + 1)) (get_elem? s.pipelines j) (find_pipeline (pos (j + 1)) s.pipelines)
    found = ground (
      arith,
      find_pipeline-FoundAt j 0 s.pipelines (λ i p e. ground (arith, (w.entries i p e).0)),
    )
