-- ===== src/Config/Start.antt =====
-- The tables with which the program starts: static variables, all of them zero.
use dipp.Base.{ℕ, ◌≡◌, refl, arith, replicate, get_elem?-lt, get_elem?-replicate, inr}
use dipp.Types.{Pipeline}
use dipp.Samples.{start_state, blank_pipeline}
use dipp.Config.Shape.{IsEntry, WellFormed}

blank_pipeline-IsEntry : (j : ℕ) (p : Pipeline) → p ≡ blank_pipeline → IsEntry j p
blank_pipeline-IsEntry j p e = rw e (inr refl, refl, omega arith)

pub start_state-WellFormed : WellFormed start_state
start_state-WellFormed = record {
  six = λ j lt. get_elem?-lt (replicate 6 blank_pipeline) j lt;
  entries = λ j p e. blank_pipeline-IsEntry j p (get_elem?-replicate 6 blank_pipeline j p e);
  twenty = λ j lt. get_elem?-lt start_state.module_parameter_lists j lt;
}
