-- ===== src/Canvas/Steps.antt =====
-- ui/src/components/builder/pipeline-canvas.ts: adding, removing, selecting, changing and dragging
-- the steps of the canvas. In `handle_drag_over`, `none` is a dragged index past the end, where the
-- code stores `undefined` among the steps.
use jobrunner.Prelude.{
  ℕ, suc, ◌+◌, ◌*◌, JsString, codes, List, [], ◌∷◌, ◌++◌, Option, none, some, Bool, true, false,
  not, map, length, filter, find, take, drop, get_elem?, if◌then◌else◌, ◌==◌, str_eq, to_decimal,
}
use mathlib.Core.Option
use jobrunner.Types.Pod.{Container}
use jobrunner.Types.Pipeline.{PipelineStep, RunIfCondition, JobSpec}
use jobrunner.Graph.{create_default_step}
use jobrunner.Canvas.State.{CanvasStep, Canvas, update_pipeline_from_canvas}

pub data StepType : Type 0 where
  bash python kubectl custom : StepType

abbrev set_command : JsString → List JsString → List JsString → Container → Container
set_command image command args container = record container {
  image = some image;
  command = some command;
  args = some args;
}

-- The `switch` of `addStep`.
abbrev pub customize : StepType → Container → Container
customize bash =
    set_command (codes "registry.access.redhat.com/ubi9/ubi-minimal:latest")
      (codes "sh" ∷ codes "-c" ∷ []) (codes "echo \"Hello from bash step\"" ∷ [])
customize python =
    set_command (codes "registry.access.redhat.com/ubi9/python-311:latest")
      (codes "python" ∷ codes "-c" ∷ []) (codes "print(\"Hello from Python step\")" ∷ [])
customize kubectl =
    set_command (codes "bitnami/kubectl:latest") (codes "sh" ∷ codes "-c" ∷ [])
      (codes "kubectl version --client" ∷ [])
customize custom = set_command [] [] []

abbrev pub map_first {ℓ} : {A : Type ℓ} → (A → A) → List A → List A
map_first f [] = []
map_first f (x ∷ xs) = f x ∷ xs

-- A change of `step.jobSpec.template.spec.containers[0]`; without a container nothing changes.
abbrev pub map_container : (Container → Container) → PipelineStep → PipelineStep
map_container f step =
    let containers = map_first f step.job_spec.template.spec.containers in
    record step {
      job_spec = record (step.job_spec) {
        template = record (step.job_spec.template) {
          spec = record (step.job_spec.template.spec) { containers = containers };
        };
      };
    }

-- `step-${n}`
abbrev pub step_name : ℕ → JsString
step_name n = codes "step-" ++ to_decimal n

unfoldable pub add_step : StepType → Canvas → Canvas
unfolding update_pipeline_from_canvas to_decimal create_default_step
add_step type c =
    let name = step_name (length c.canvas_steps + 1) in
    let added : CanvasStep = record {
      step = map_container (customize type) (create_default_step name);
      x = 100;
      y = length c.canvas_steps * 120 + 50;
    } in
    let c' =
      update_pipeline_from_canvas (record c { canvas_steps = c.canvas_steps ++ added ∷ [] }) in
    record c' { selected_step = some name; show_step_editor = true }

abbrev pub selects : Option JsString → JsString → Bool
selects none name = false
selects (some s) name = str_eq s name

unfoldable pub remove_step : JsString → Canvas → Canvas
unfolding update_pipeline_from_canvas
remove_step name c =
    let c' =
      update_pipeline_from_canvas
        (record c { canvas_steps = filter (λ s. not (str_eq s.step.name name)) c.canvas_steps }) in
    if selects c.selected_step name
    then record c' { selected_step = none; show_step_editor = false }
    else c'

unfoldable pub select_step : JsString → Canvas → Canvas
select_step name c = record c {
  selected_step = some name;
  show_step_editor = true;
  show_global_settings = false;
}

unfoldable pub close_drawer : Canvas → Canvas
close_drawer c = record c {
  show_step_editor = false;
  show_global_settings = false;
  selected_step = none;
}

-- `Partial<PipelineStep>`: none is a field that the update leaves out, and the inner none of
-- `run_if` is the value undefined.
pub record StepUpdates : Type 0 where
  pub name : Option JsString
  pub run_if : Option (Option RunIfCondition)
  pub job_spec : Option JobSpec

-- `{ ...step, ...updates }`
abbrev pub merge : PipelineStep → StepUpdates → PipelineStep
merge step updates = record {
  name = Option.get_or updates.name step.name;
  run_if = Option.get_or updates.run_if step.run_if;
  job_spec = Option.get_or updates.job_spec step.job_spec;
}

abbrev pub update_one : JsString → StepUpdates → CanvasStep → CanvasStep
update_one name updates s =
    if str_eq s.step.name name then record s { step = merge s.step updates } else s

unfoldable pub update_step : JsString → StepUpdates → Canvas → Canvas
unfolding update_pipeline_from_canvas
update_step name updates c =
    update_pipeline_from_canvas
      (record c { canvas_steps = map (update_one name updates) c.canvas_steps })

-- The step that the drawer hands to the step editor.
abbrev pub edited_step : Canvas → Option CanvasStep
edited_step c = elim c.selected_step [
  | none ↦ none
  | some name ↦ find (λ s. str_eq s.step.name name) c.canvas_steps
]

unfoldable pub handle_drag_start : ℕ → Canvas → Canvas
handle_drag_start index c = record c { dragged_step_index = some index }

unfoldable pub handle_drag_end : Canvas → Canvas
handle_drag_end c = record c { dragged_step_index = none }

-- `steps.splice(i, 1)` without its result, and `steps.splice(j, 0, x)`.
unfoldable pub remove_at {ℓ} : {A : Type ℓ} → ℕ → List A → List A
remove_at i xs = take i xs ++ drop (suc i) xs

unfoldable pub insert_at {ℓ} : {A : Type ℓ} → ℕ → A → List A → List A
insert_at j x xs = take j xs ++ x ∷ drop j xs

abbrev pub move_step : ℕ → CanvasStep → ℕ → Canvas → Canvas
move_step i dragged index c =
    record (update_pipeline_from_canvas
      (record c { canvas_steps = insert_at index dragged (remove_at i c.canvas_steps) })) {
        dragged_step_index = some index;
      }

unfoldable pub handle_drag_over : ℕ → Canvas → Option Canvas
unfolding update_pipeline_from_canvas remove_at insert_at
handle_drag_over index c = elim c.dragged_step_index [
  | none ↦ some c
  | some i ↦
      if i == index
      then some c
      else Option.map (λ dragged. move_step i dragged index c) (get_elem? c.canvas_steps i)
]

-- `template-type` of the drop; none is an empty or missing type.
unfoldable pub handle_canvas_drop : Option StepType → Canvas → Canvas
unfolding add_step
handle_canvas_drop none c = c
handle_canvas_drop (some type) c = add_step type c
