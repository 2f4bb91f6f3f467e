-- ===== src/Canvas/Sync/Refines.antt =====
-- What each handler of the builder does to the steps of its pipeline.
use jobrunner.Prelude.{
  ℕ, JsString, List, Option, none, some, Bool, true, false, not, filter, get_elem?, ◌≡◌, refl, sym,
  ap, ◌∙◌, ◌==◌, str_eq, if◌then◌else◌,
}
use mathlib.Core.Option
use mathlib.Core.Option.{some-injective}
use jobrunner.Types.Pipeline.{PipelineStep}
use jobrunner.Canvas.{
  Canvas, CanvasStep, StepType, StepUpdates, strip, add_step, remove_step, update_step,
  handle_drag_over, update_pipeline_from_canvas, move_step,
}
use jobrunner.Canvas.Sync.{IsSynced}
use jobrunner.Canvas.Sync.Commands.{
  Command, add, remove, update, move, keep, run, strip-append, length-strip, strip-filter,
  strip-map, strip-move, get_elem?-strip, run_move,
}

abbrev pub steps_of : Canvas → List PipelineStep
steps_of c = c.pipeline.spec.steps

pub add_step-run :
    (type : StepType) (c : Canvas)
    → IsSynced c
    → steps_of (add_step type c) ≡ run (add type) (steps_of c)
unfolding add_step update_pipeline_from_canvas run
add_step-run type c h =
    strip-append c.canvas_steps _ ∙ rw (h.steps, length-strip c.canvas_steps) refl

pub remove_step-run :
    (name : JsString) (c : Canvas)
    → IsSynced c
    → steps_of (remove_step name c) ≡ run (remove name) (steps_of c)
unfolding remove_step update_pipeline_from_canvas run
remove_step-run name c h = by_selection _
  where
    left : Canvas
    left =
        update_pipeline_from_canvas
          (record c { canvas_steps = filter (λ s. not (str_eq s.step.name name)) c.canvas_steps })

    by_selection :
        (b : Bool)
        → steps_of
            (if b then record left { selected_step = none; show_step_editor = false } else left)
          ≡ filter (λ s. not (str_eq s.name name)) (steps_of c)
    by_selection true = strip-filter name c.canvas_steps ∙ rw h.steps refl
    by_selection false = strip-filter name c.canvas_steps ∙ rw h.steps refl

pub update_step-run :
    (name : JsString) (u : StepUpdates) (c : Canvas)
    → IsSynced c
    → steps_of (update_step name u c) ≡ run (update name u) (steps_of c)
unfolding update_step update_pipeline_from_canvas run
update_step-run name u c h = strip-map name u c.canvas_steps ∙ rw h.steps refl

-- The move of a drag over the step of number `index`.
abbrev pub drag_command : Option ℕ → ℕ → Command
drag_command none index = keep
drag_command (some i) index = if i == index then keep else move i index

steps-move_step :
    (i index : ℕ) (dragged : CanvasStep) (c : Canvas)
    → IsSynced c
    → get_elem? c.canvas_steps i ≡ some dragged
    → steps_of (move_step i dragged index c) ≡ run (move i index) (steps_of c)
unfolding run update_pipeline_from_canvas
steps-move_step i index dragged c h there =
    strip-move i index dragged c.canvas_steps
    ∙ sym (run_move i index (strip c.canvas_steps) (get_elem?-strip i c.canvas_steps there))
    ∙ ap (run (move i index)) (sym h.steps)

moved :
    (i index : ℕ) (c d : Canvas) (held : Option CanvasStep)
    → get_elem? c.canvas_steps i ≡ held
    → Option.map (λ dragged. move_step i dragged index c) held ≡ some d
    → IsSynced c
    → steps_of d ≡ run (move i index) (steps_of c)
moved i index c d none there e h = cc
moved i index c d (some dragged) there e h =
    ap steps_of (sym (some-injective _ _ e)) ∙ steps-move_step i index dragged c h there

pub handle_drag_over-run :
    (index : ℕ) (c d : Canvas)
    → handle_drag_over index c ≡ some d
    → IsSynced c
    → steps_of d ≡ run (drag_command c.dragged_step_index index) (steps_of c)
unfolding run handle_drag_over
handle_drag_over-run index c d e h = by_held c.dragged_step_index e
  where
    by_test :
        (i : ℕ) (same : Bool)
        → (if same
            then some c
            else Option.map (λ dragged. move_step i dragged index c) (get_elem? c.canvas_steps i))
          ≡ some d
        → steps_of d ≡ run (if same then keep else move i index) (steps_of c)
    by_test i true f = ap steps_of (sym (some-injective _ _ f))
    by_test i false f = moved i index c d _ refl f h

    by_held :
        (held : Option ℕ)
        → elim held [
          | none ↦ some c
          | some i ↦
              if i == index
              then some c
              else Option.map (λ dragged. move_step i dragged index c) (get_elem? c.canvas_steps i)
        ]
          ≡ some d
        → steps_of d ≡ run (drag_command held index) (steps_of c)
    by_held none f = ap steps_of (sym (some-injective _ _ f))
    by_held (some i) f = by_test i (i == index) f
