-- ===== src/Thread/Moves.antt =====
-- Sequences of steps that can be evaluated, for the tests.
use dipp.Base.{ℕ, ◌≡◌, refl, List, [], ◌∷◌, none, some, Bool, get_elem?, Option-cases, inl, inr}
use dipp.Thread.Defs.{
  CallbackPc, idle, World, callback_step, thread_step, set_pipeline_run, callback_goes_on,
  thread_goes_on, Reachable, behind,
}

-- The parameter is set, the callback goes on, or a thread does; a move that is not possible does
-- nothing.
pub data Move : Type 0 where
  press : ℕ → Move
  callback : Bool → Move
  thread : ℕ → Move

abbrev pressed : ℕ → CallbackPc → World → World
pressed value idle w = record w { pipeline_run = value; callback = CallbackPc.claiming value }
pressed value pc w = w

abbrev pub move : Move → World → World
move (press value) w = pressed value w.callback w
move (callback ok) w = callback_step ok w.callback w
move (thread i) w = elim (get_elem? w.threads i) [ none ↦ w | some pc ↦ thread_step i pc w ]

abbrev pub moves : List Move → World → World
moves [] w = w
moves (m ∷ ms) w = moves ms (move m w)

pressed-Reachable :
    (value : ℕ) (pc : CallbackPc) (w : World)
    → w.callback ≡ pc
    → Reachable w
    → Reachable (pressed value pc w)
pressed-Reachable value idle w e r = behind r (set_pipeline_run value w e)
pressed-Reachable value (CallbackPc.claiming v) w e r = r
pressed-Reachable value (CallbackPc.creating v) w e r = r
pressed-Reachable value (CallbackPc.greeting v) w e r = r
pressed-Reachable value (CallbackPc.allocating v) w e r = r
pressed-Reachable value (CallbackPc.starting v) w e r = r
pressed-Reachable value CallbackPc.leaving w e r = r

move-Reachable : (m : Move) (w : World) → Reachable w → Reachable (move m w)
move-Reachable (press value) w r = pressed-Reachable value w.callback w refl r
move-Reachable (callback ok) w r = behind r (callback_goes_on ok w)
move-Reachable (thread i) w r = elim (Option-cases (get_elem? w.threads i)) [
  | inl nothing ↦ rw (nothing, move) r
  | inr (pc, e) ↦ rw (e, move) (behind r (thread_goes_on i pc w e))
]

pub moves-Reachable : (ms : List Move) (w : World) → Reachable w → Reachable (moves ms w)
moves-Reachable [] w r = r
moves-Reachable (m ∷ ms) w r = moves-Reachable ms (move m w) (move-Reachable m w r)
