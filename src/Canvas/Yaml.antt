-- ===== src/Canvas/Yaml.antt =====
-- ui/src/components/builder/pipeline-canvas.ts: the YAML view. `stringify` and `parse` of the package
-- yaml are parameters. What `parse` returns is read only as far as the code looks at it.
use jobrunner.Prelude.{or_else, JsString, codes, List, [], Option, none, some, false}
use mathlib.Core.Option
use jobrunner.Types.Pipeline.{
  ObjectMeta, PipelineStep, SharedVolumeSpec, PodTemplateDefaults, PipelineSpec, Pipeline,
}
use jobrunner.Types.Status.{PipelineStatus}
use jobrunner.Graph.{empty_meta}
use jobrunner.Canvas.State.{builder, yaml, Canvas, update_pipeline_from_canvas, lay_out}

pub record ParsedSpec : Type 0 where
  pub steps : Option (List PipelineStep)
  pub service_account_name : Option JsString
  pub shared_volume : Option SharedVolumeSpec
  pub pod_template : Option PodTemplateDefaults

pub record ParsedPipeline : Type 0 where
  pub api_version : Option JsString
  pub kind : Option JsString
  pub metadata : Option ObjectMeta
  pub spec : Option ParsedSpec
  pub status : Option PipelineStatus

-- An object, any other value, or a thrown error with its message.
pub data Parsed : Type 0 where
  object : ParsedPipeline → Parsed
  no_object : Parsed
  thrown : JsString → Parsed

abbrev pub completed_spec : Option ParsedSpec → PipelineSpec
completed_spec none = record {
  steps = [];
  service_account_name = none;
  shared_volume = none;
  pod_template = none;
}
completed_spec (some spec) = record {
  steps = Option.get_or spec.steps [];
  service_account_name = spec.service_account_name;
  shared_volume = spec.shared_volume;
  pod_template = spec.pod_template;
}

-- The part of `yamlToPipeline` that fills in the required fields.
abbrev pub completed : ParsedPipeline → Pipeline
completed p = record {
  api_version = or_else p.api_version (codes "pipeline.yaacov.io/v1");
  kind = or_else p.kind (codes "Pipeline");
  metadata = Option.get_or p.metadata (empty_meta (codes "new-pipeline") none);
  spec = completed_spec p.spec;
  status = p.status;
}

module _ (stringify : Pipeline → JsString) where
  unfoldable pub pipeline_to_yaml : Canvas → Canvas × JsString
  unfolding update_pipeline_from_canvas
  pipeline_to_yaml c = let c' = update_pipeline_from_canvas c in (c', stringify c'.pipeline)

  unfoldable pub switch_to_yaml_view : Canvas → Canvas
  unfolding pipeline_to_yaml
  switch_to_yaml_view c =
      let (c', text) = pipeline_to_yaml c in
      record c' {
        yaml_content = text;
        yaml_error = none;
        view_mode = yaml;
        show_step_editor = false;
        show_global_settings = false;
      }

-- What `yamlToPipeline` does with the result of `parse`, its `catch` included.
abbrev pub adopt : Parsed → Canvas → Canvas × Option Pipeline
adopt (object p) c = (record c { yaml_error = none }, some (completed p))
adopt no_object c = (record c { yaml_error = some (codes "Invalid YAML: must be an object") }, none)
adopt (thrown message) c = (record c { yaml_error = some message }, none)

-- The branch of `switchToBuilderView` on the parsed pipeline.
abbrev pub show_parsed : Option Pipeline → Canvas → Canvas
show_parsed none c = c
show_parsed (some p) c = record c {
  pipeline = p;
  canvas_steps = lay_out p.spec.steps;
  view_mode = builder;
}

module _ (parse : JsString → Parsed) where
  unfoldable pub yaml_to_pipeline : JsString → Canvas → Canvas × Option Pipeline
  yaml_to_pipeline text c = adopt (parse text) c

  unfoldable pub switch_to_builder_view : Canvas → Canvas
  unfolding yaml_to_pipeline lay_out
  switch_to_builder_view c =
      let (c', parsed) = yaml_to_pipeline c.yaml_content c in show_parsed parsed c'

  unfoldable pub handle_yaml_change : JsString → Canvas → Canvas
  unfolding yaml_to_pipeline
  handle_yaml_change text c = (yaml_to_pipeline text (record c { yaml_content = text })).0
