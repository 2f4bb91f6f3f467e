-- ===== src/Pipelines/Row.antt =====
-- The rows of ui/src/components/monitor/pipeline-list.ts: the steps of a pipeline with their phases,
-- which are those of the nodes of its graph.
use jobrunner.Prelude.{
  ℕ, ◌+◌, ◌≡◌, refl, ap, JsString, codes, List, [], ◌∷◌, Option, none, some, Bool, map,
}
use jobrunner.Types.Pipeline.{Pipeline, PipelineStep}
use jobrunner.Types.Status.{StepPhase, StepStatus, PipelineStatus}
use jobrunner.Types.Graph.{PipelineNode}
use jobrunner.Graph.{find_status, nodes_from, pipeline_to_graph}
use jobrunner.Pipelines.{PipelineList, phase_or_pending, filtered_pipelines}
use jobrunner.Pipelines.Menu.{is_open}
use jobrunner.Paging.Rows.{created_text}
use jobrunner.Paging.View.{ListView, render_list}
use jobrunner.Sorting.{Sign}

pub record MergedStep : Type 0 where
  pub name : JsString
  pub phase : StepPhase

-- `statusStep?.phase || 'Pending'`
abbrev pub step_phase : Option StepStatus → StepPhase
step_phase none = StepPhase.pending
step_phase (some status) = status.phase

unfoldable pub merged_steps : Pipeline → List MergedStep
unfolding find_status
merged_steps p =
    map (λ step. record { name = step.name; phase = step_phase (find_status p.status step.name) })
      p.spec.steps

unfoldable pub step_color : StepPhase → JsString
step_color StepPhase.succeeded = codes "green"
step_color StepPhase.running = codes "cyan"
step_color StepPhase.failed = codes "red"
step_color _ = codes "gray"

pub record PipelineRow : Type 0 where
  pub name : JsString
  pub phase : JsString
  pub steps : List (MergedStep × JsString)
  pub created : JsString
  pub menu_open : Bool

unfoldable pub render_pipeline_row :
    ℕ → (JsString → ℕ) → (JsString → JsString) → PipelineList → Pipeline → PipelineRow
unfolding merged_steps step_color created_text
render_pipeline_row now time_of date_text s p = record {
  name = p.metadata.name;
  phase = phase_or_pending p.status;
  steps = map (λ step. (step, step_color step.phase)) (merged_steps p);
  created = created_text now time_of date_text p.metadata.creation_timestamp;
  menu_open = is_open s.open_menu_id p.metadata.name;
}

unfoldable pub pipelines_view :
    (JsString → JsString)
    → (JsString → JsString → Sign)
    → (JsString → ℕ)
    → PipelineList
    → ListView Pipeline
unfolding render_list filtered_pipelines
pipelines_view to_lower locale_compare time_of s =
    render_list s.loading s.error s.search_query s.current_page
      (filtered_pipelines to_lower locale_compare time_of s)

-- The name and the phase that a node of the graph stands for.
abbrev pub shown_node : PipelineNode → MergedStep
shown_node node = record { name = node.id; phase = step_phase node.status }

merged-nodes_from :
    (status : Option PipelineStatus) (index : ℕ) (steps : List PipelineStep)
    → map
        (λ step. record { name = step.name; phase = step_phase (find_status status step.name) })
        steps
      ≡ map shown_node (nodes_from status index steps)
unfolding nodes_from
merged-nodes_from status index [] = refl
merged-nodes_from status index (step ∷ steps) =
    ap (λ r. record { name = step.name; phase = step_phase (find_status status step.name) } ∷ r)
      (merged-nodes_from status (index + 1) steps)

-- The row of a pipeline has the steps of the nodes of its graph, in their order and with their
-- phases, where a step without a status is pending.
pub merged_steps-pipeline_to_graph :
    (p : Pipeline) → merged_steps p ≡ map shown_node (pipeline_to_graph p).nodes
unfolding merged_steps pipeline_to_graph
merged_steps-pipeline_to_graph p = merged-nodes_from p.status 0 p.spec.steps
