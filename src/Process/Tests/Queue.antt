-- ===== src/Process/Tests/Queue.antt =====
-- A run of `process_all` of src/dipp_process.c with one message in the queue.
use native.Mathlib.Nat.{zero-add}
use dipp.Base.{
  ℕ, zero, suc, ◌+◌, ◌≡◌, refl, ap, ◌∙◌, some, arith, replicate, Bool, true, false, List, [], ◌∷◌,
  ◌++◌, drop, length, ◌≤◌,
}
use dipp.Base.Int.{pos}
use dipp.Base.Text.{codes}
use dipp.Samples.{
  start_state, sample_pipeline, some_module, numbering, sample_metadata, blank_pipeline,
}
use dipp.Types.{PipelineDefinition}
use dipp.Machine.{Env, State, History, Receipt, message, no_message}
use dipp.Machine.Hoare.{Returns, IfReturns}
use dipp.Machine.Trace.{segment_events}
use dipp.Config.Shape.{WellFormed, Bounded}
use dipp.Config.Start.{start_state-WellFormed}
use dipp.Process.Between.{Clean, nothing}
use dipp.Process.Clean.{process_all-Clean}
use dipp.Process.Kept.{received}
use dipp.Process.Queue.{batch_bytes}
use dipp.Process.Loop.{process_one, process_all}
use dipp.Process.Compose.{Steady}
use dipp.Process.Rounds.{Job}
use dipp.Process.Drained.{Drained, answer, process_all-Drained}
use dipp.Process.Tests.{two_images, camera_env, camera_batch, camera_batch-IsSent, camera_state}

-- The same batch, alone in the queue.
abbrev camera_text : List ℕ
camera_text = drop 8 (batch_bytes camera_batch) ++ replicate 8 5

abbrev pub one_message : ℕ → Receipt
one_message zero = message camera_text
one_message (suc n) = no_message

abbrev pub queue_env : Env
queue_env = record camera_env { receive = λ do_wait h. one_message (received h) }

queue_env-Steady : Steady queue_env numbering
queue_env-Steady = record {
  works = record { forks = λ h. refl; reads = λ h. refl; writes = λ h. refl };
  pipes = λ h. refl;
  returns = λ a b c h. refl;
}

abbrev queue_state : State
queue_state = record camera_state { is_setup = true; logger = some (codes "dipp.log") }

abbrev camera_job : Job queue_env numbering queue_state.pipelines queue_state.module_parameter_lists
camera_job = record {
  batch = camera_batch;
  extra = replicate 8 5;
  earlier = blank_pipeline ∷ [];
  later = replicate 4 blank_pipeline;
  pipeline = sample_pipeline;
  modules = some_module 0 ∷ some_module 2 ∷ [];
  result = record camera_batch { num_images = pos 2 };
  shots = two_images;
  slack = [];
  address = 4096;
  sent = camera_batch-IsSent;
  extra_bytes = refl;
  in_table = refl;
  first = (refl, tt);
  named = refl;
  counted = refl;
  few = omega arith;
  listed = refl;
  loaded = ((0, refl), ((2, refl), tt));
  made = refl;
  num_images = refl;
  batch_size = refl;
  fits = omega arith;
  unpacks = (
    (λ h. (sample_metadata (2 ∷ []), refl, refl)),
    ((λ h. (sample_metadata (1 ∷ []), refl, refl)), tt),
  );
  attaches = λ h. refl;
  detaches = λ h. refl;
  removes = λ h. refl;
}

abbrev EmptyQueue : List (List ℕ) → Bool → State → Type 0
EmptyQueue =
    Drained queue_env numbering queue_env-Steady queue_state.pipelines
      queue_state.module_parameter_lists (codes "dipp.log") (camera_job ∷ [])

queue_answers :
    (h : History) (n : ℕ)
    → received h ≡ 0 + n
    → one_message (received h)
      ≡ answer queue_env numbering queue_env-Steady queue_state.pipelines
          queue_state.module_parameter_lists
          (codes "dipp.log")
          (camera_job ∷ [])
          n
queue_answers h zero e = ap one_message e
queue_answers h (suc n) e = ap one_message (e ∙ zero-add (suc n))

process_all-Drained_example :
    Returns (EmptyQueue []) (process_all queue_env 2 (replicate 32 0) false queue_state)
process_all-Drained_example =
    process_all-Drained queue_env numbering queue_env-Steady queue_state.pipelines
      queue_state.module_parameter_lists (codes "dipp.log") (camera_job ∷ []) (replicate 32 0) false
      [] 0 0 queue_state (λ h. refl) queue_answers (refl, refl, refl, refl, refl, refl, refl)
      (omega arith)

queue_env-few :
    (bytes : List ℕ) (h : History) (pdef : PipelineDefinition)
    → queue_env.unpack_pipeline bytes h ≡ some pdef
    → length pdef.modules ≤ 20
queue_env-few bytes h pdef e = ground arith

queue_env-Bounded : Bounded queue_env
queue_env-Bounded = ((λ param h. omega arith), queue_env-few)

process_all-Clean_example :
    IfReturns
      (λ r t. WellFormed t × Clean (segment_events t.trace))
      (process_one queue_env (replicate 32 0) false start_state)
    × IfReturns
        (λ r t. WellFormed t × Clean (segment_events t.trace))
        (process_all queue_env 3 (replicate 32 0) false start_state)
process_all-Clean_example =
    process_all-Clean queue_env (λ id h e. cc) queue_env-Bounded 3 (replicate 32 0) false
      start_state start_state-WellFormed nothing
