-- ===== src/Canvas/State.antt =====
-- ui/src/components/builder/pipeline-canvas.ts: the state of the builder, and the helpers that put
-- the steps of the canvas into the pipeline and back.
use jobrunner.Prelude.{
  ℕ, ◌+◌, ◌*◌, JsString, codes, List, [], ◌∷◌, Option, none, some, Bool, true, false, map,
}
use jobrunner.Types.Pipeline.{PipelineStep, Pipeline}
use jobrunner.Graph.{create_empty_pipeline}

pub data ViewMode : Type 0 where
  builder yaml : ViewMode

pub record CanvasStep : Type 0 where
  pub step : PipelineStep
  pub x : ℕ
  pub y : ℕ

pub record Canvas : Type 0 where
  pub pipeline : Pipeline
  pub canvas_steps : List CanvasStep
  pub selected_step : Option JsString
  pub show_step_editor : Bool
  pub show_global_settings : Bool
  pub saving : Bool
  pub error : Option JsString
  pub dragged_step_index : Option ℕ
  pub existing_pipeline_names : List JsString
  pub name_error : Option JsString
  pub view_mode : ViewMode
  pub yaml_content : JsString
  pub yaml_error : Option JsString

-- The field initialisers.
unfoldable pub new_canvas : Canvas
new_canvas = record {
  pipeline = create_empty_pipeline (codes "new-pipeline") (codes "default");
  canvas_steps = [];
  selected_step = none;
  show_step_editor = false;
  show_global_settings = false;
  saving = false;
  error = none;
  dragged_step_index = none;
  existing_pipeline_names = [];
  name_error = none;
  view_mode = builder;
  yaml_content = [];
  yaml_error = none;
}

abbrev pub set_steps : Pipeline → List PipelineStep → Pipeline
set_steps p steps = record p { spec = record (p.spec) { steps = steps } }

abbrev pub set_name : Pipeline → JsString → Pipeline
set_name p name = record p { metadata = record (p.metadata) { name = name } }

abbrev pub set_namespace : Pipeline → JsString → Pipeline
set_namespace p namespace = record p {
  metadata = record (p.metadata) { namespace = some namespace };
}

abbrev pub strip : List CanvasStep → List PipelineStep
strip steps = map (λ s. s.step) steps

unfoldable pub update_pipeline_from_canvas : Canvas → Canvas
update_pipeline_from_canvas c = record c { pipeline = set_steps c.pipeline (strip c.canvas_steps) }

-- `steps.map((step, index) => ({ ...step, x: 0, y: index * 120 }))`, from `index` on.
unfoldable pub lay_out_from : ℕ → List PipelineStep → List CanvasStep
lay_out_from index [] = []
lay_out_from index (step ∷ steps) =
    record { step = step; x = 0; y = index * 120 } ∷ lay_out_from (index + 1) steps

unfoldable pub lay_out : List PipelineStep → List CanvasStep
unfolding lay_out_from
lay_out steps = lay_out_from 0 steps

-- The click on 'Settings', and the `update` event of the settings form.
unfoldable pub open_settings : Canvas → Canvas
open_settings c = record c { show_global_settings = true; show_step_editor = false }

unfoldable pub update_settings : Pipeline → Canvas → Canvas
update_settings p c = record c { pipeline = p }

-- The `update` events of one handler of the form, in their order.
unfoldable pub receive_updates : List Pipeline → Canvas → Canvas
unfolding update_settings
receive_updates [] c = c
receive_updates (p ∷ sent) c = receive_updates sent (update_settings p c)
