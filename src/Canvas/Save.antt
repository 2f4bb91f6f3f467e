-- ===== src/Canvas/Save.antt =====
-- ui/src/components/builder/pipeline-canvas.ts: `savePipeline`, up to its `await` and after it.
use jobrunner.Prelude.{
  Answer, ok, failed, or_else, JsString, codes, List, [], ◌∷◌, ◌++◌, Option, none, some, true,
  false,
}
use jobrunner.Types.Pipeline.{PipelineStep, Pipeline}
use jobrunner.Canvas.State.{ViewMode, builder, yaml, Canvas, update_pipeline_from_canvas}
use jobrunner.Canvas.Names.{validate_pipeline_name}
use jobrunner.Canvas.Yaml.{Parsed, yaml_to_pipeline}

-- `k8sClient.createPipeline(namespace, pipeline)`
pub record SaveRequest : Type 0 where
  pub namespace : JsString
  pub pipeline : Pipeline

-- The two checks of `savePipeline` and what follows them, on the result of the first and the steps.
abbrev pub submit_checked :
    Option JsString → List PipelineStep → Pipeline → Canvas → Canvas × Option SaveRequest
submit_checked (some message) steps p c = (
  record c { name_error = some message; error = some (codes "Pipeline name: " ++ message) },
  none,
)
submit_checked none [] p c =
    (record c { error = some (codes "Pipeline must have at least one step") }, none)
submit_checked none (step ∷ steps) p c = (
  record c { saving = true; error = none },
  some (record { namespace = or_else p.metadata.namespace (codes "default"); pipeline = p }),
)

-- The part after `pipelineToSave` is known.
unfoldable pub submit : Pipeline → Canvas → Canvas × Option SaveRequest
submit p c = submit_checked (validate_pipeline_name p.metadata.name c) p.spec.steps p c

-- `${this.yamlError}`
abbrev pub shown : Option JsString → JsString
shown none = codes "null"
shown (some s) = s

-- The branch of `savePipeline` on the parsed pipeline.
unfoldable pub save_parsed : Option Pipeline → Canvas → Canvas × Option SaveRequest
unfolding submit
save_parsed none c = (record c { error = some (codes "Cannot save: " ++ shown c.yaml_error) }, none)
save_parsed (some p) c = submit p c

module _ (parse : JsString → Parsed) where
  unfoldable pub save_in : ViewMode → Canvas → Canvas × Option SaveRequest
  unfolding save_parsed yaml_to_pipeline update_pipeline_from_canvas
  save_in yaml c =
      let (c', parsed) = yaml_to_pipeline parse c.yaml_content c in save_parsed parsed c'
  save_in builder c = let c' = update_pipeline_from_canvas c in submit c'.pipeline c'

  unfoldable pub save_pipeline : Canvas → Canvas × Option SaveRequest
  unfolding save_in
  save_pipeline c = save_in c.view_mode c

-- What follows the answer, with the path that is navigated to.
unfoldable pub save_answered : SaveRequest → Answer Pipeline → Canvas → Canvas × Option JsString
save_answered request (ok _) c = (
  record c { saving = false },
  some (codes "/pipelines/" ++ request.namespace ++ codes "/" ++ request.pipeline.metadata.name),
)
save_answered request (failed message) c = (record c { saving = false; error = some message }, none)
