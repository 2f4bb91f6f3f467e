-- ===== src/Canvas/Rename.antt =====
-- What the builder does to a step that is edited.
use jobrunner.Prelude.{
  JsString, List, [], ◌∷◌, Option, none, some, true, ◌≡◌, ◌≢◌, refl, arith, find, map, str_eq,
  str_eq_iff,
}
use mathlib.Core.Option
use jobrunner.Canvas.{CanvasStep, Canvas, StepUpdates, merge, update_one, update_step, edited_step}

-- The first step of a name.
abbrev pub step_named : JsString → List CanvasStep → Option CanvasStep
step_named name steps = find (λ s. str_eq s.step.name name) steps

step_named-test :
    (name : JsString) (steps : List CanvasStep) (s : CanvasStep)
    → step_named name steps ≡ some s
    → str_eq s.step.name name ≡ true
step_named-test name [] s e = cc
step_named-test name (t ∷ steps) s e = ground (arith, step_named-test name steps s)

step_named-update :
    (name : JsString) (u : StepUpdates) (steps : List CanvasStep)
    → u.name ≡ none
    → step_named name (map (update_one name u) steps)
      ≡ Option.map (update_one name u) (step_named name steps)
step_named-update name u [] e = refl
step_named-update name u (s ∷ steps) e = ground (arith, step_named-update name u steps e)

step_named-rename :
    (name new : JsString) (u : StepUpdates) (steps : List CanvasStep)
    → u.name ≡ some new
    → name ≢ new
    → step_named name (map (update_one name u) steps) ≡ none
step_named-rename name new u [] e different = refl
step_named-rename name new u (s ∷ steps) e different = ground (
  arith,
  step_named-rename name new u steps e different,
  str_eq_iff s.step.name name,
  str_eq_iff new name,
)

-- An update of the selected step that leaves its name alone reaches the step that the editor shows,
-- which goes on showing it with the update merged in.
pub edited_step-update_step :
    (name : JsString) (u : StepUpdates) (c : Canvas) (s : CanvasStep)
    → c.selected_step ≡ some name
    → u.name ≡ none
    → edited_step c ≡ some s
    → edited_step (update_step name u c) ≡ some (record s { step = merge s.step u })
unfolding update_step
edited_step-update_step name u c s chosen unnamed shown =
    let here : step_named name c.canvas_steps ≡ some s = ground arith in
    ground (
      arith,
      step_named-update name u c.canvas_steps unnamed,
      step_named-test name c.canvas_steps s here,
    )

-- After an update that renames the selected step, the editor has no step to show: the selection
-- still holds the old name.
pub edited_step-rename :
    (name new : JsString) (u : StepUpdates) (c : Canvas)
    → c.selected_step ≡ some name
    → u.name ≡ some new
    → name ≢ new
    → edited_step (update_step name u c) ≡ none
unfolding update_step
edited_step-rename name new u c chosen renamed different =
    ground (arith, step_named-rename name new u c.canvas_steps renamed different)
