-- ===== src/Detail/Tests.antt =====
-- The page of a pipeline at concrete inputs.
use jobrunner.Prelude.{
  JsString, codes, [], ◌∷◌, Option, none, some, true, false, ◌≡◌, ◌≢◌, refl, Answer, ok, failed,
  All, length,
}
use jobrunner.Types.Pipeline.{PipelineStep, Pipeline}
use jobrunner.Types.Status.{StepPhase, PipelinePhase, JobStatus, StepStatus}
use jobrunner.Types.Graph.{PipelineGraph}
use jobrunner.Graph.{empty_meta, plain_container, step_of, pipeline_to_graph, layout_graph}
use jobrunner.Client.{PodSummary}
use jobrunner.Detail.{PipelineDetail, render, problem}
use jobrunner.Detail.Cache.{started}
use jobrunner.Detail.Loading.{polls, polls_lem}
use jobrunner.Detail.Step.{StepDetail, load_logs_with, LogsShown, render_logs, updated}
use jobrunner.Detail.Step.Logs.{later_load_same}
use jobrunner.Detail.Step.Follow.{updated_no_job}
use jobrunner.Detail.Drawing.{Arrow, draw_edges}
use jobrunner.Detail.Drawing.Complete.{draw_edges_complete}

abbrev build : PipelineStep
build = step_of (codes "build") (plain_container (codes "main") (codes "ubi9") [] [])

abbrev test : PipelineStep
test = step_of (codes "test") (plain_container (codes "main") (codes "ubi9") [] [])

abbrev job : JobStatus
job = record {
  active = some 1;
  succeeded = none;
  failed = none;
  start_time = none;
  completion_time = none;
  conditions = none;
}

abbrev running : StepStatus
running = record {
  name = codes "build";
  phase = StepPhase.running;
  job_name = some (codes "build-1");
  job_status = some job;
}

abbrev noon : Option JsString
noon = some (codes "2024-05-01T12:00:00Z")

-- A pipeline whose first step has just started.
abbrev nightly : Pipeline
nightly = record {
  api_version = codes "pipeline.yaacov.io/v1";
  kind = codes "Pipeline";
  metadata = empty_meta (codes "nightly") (some (codes "ci"));
  spec = record {
    steps = build ∷ test ∷ [];
    service_account_name = none;
    shared_volume = none;
    pod_template = none;
  };
  status = some (record {
    phase = PipelinePhase.running;
    start_time = none;
    completion_time = none;
    steps = started noon job running ∷ [];
    conditions = none;
  });
}

-- The page that shows the step as it was before.
abbrev page : PipelineDetail
page = record {
  location = none;
  pipeline = some nightly;
  loading = false;
  error = none;
  selected_step = some (codes "build");
  active_tab = 0;
  graph = none;
  open_menu_id = none;
  cached_step = some build;
  cached_status = some running;
  cached_step_name = some (codes "build");
}

abbrev name_of : Option PipelineStep → Option JsString
name_of none = none
name_of (some step) = some step.name

abbrev no_layout : PipelineGraph → Answer PipelineGraph
no_layout graph = failed (codes "no layout")

polls_lem_example :
    (render (polls no_layout (failed (codes "down") ∷ ok nightly ∷ []) page)
      ≡ problem (codes "no layout"))
    × ((polls no_layout (failed (codes "down") ∷ ok nightly ∷ []) page).pipeline ≡ some nightly)
    × ((polls no_layout (failed (codes "down") ∷ ok nightly ∷ []) page).graph
        ≡ (polls no_layout (failed (codes "down") ∷ []) page).graph)
polls_lem_example =
    polls_lem no_layout (failed (codes "down") ∷ []) (ok nightly) page refl (λ graph. refl)

draw_edges_complete_example :
    (g : PipelineGraph) × (layout_graph (λ graph. some none) (pipeline_to_graph nightly) ≡ some g)
    × (length (draw_edges g) ≡ length (pipeline_to_graph nightly).edges)
    × All (λ (a : Option Arrow). a ≢ none) (draw_edges g)
draw_edges_complete_example = draw_edges_complete (λ graph. some none) nightly none refl

abbrev pod : PodSummary
pod = record { name = codes "build-1-x"; namespace = codes "ci"; phase = codes "Running" }

-- The page of the first step, before and after its first load.
abbrev fresh : StepDetail
fresh = record {
  step = some build;
  status = some running;
  namespace = codes "ci";
  logs = [];
  logs_loading = false;
  logs_error = none;
  active_tab = 0;
  events = [];
  initial_logs_load = true;
  current_job_name = some (codes "build-1");
  polling = true;
}

abbrev troubled : StepDetail
troubled = record fresh {
  logs = codes "done";
  logs_error = some (codes "timeout");
  initial_logs_load = false;
}

later_load_same_example :
    render_logs (load_logs_with (ok (pod ∷ [])) (ok (codes "done")) troubled)
    ≡ LogsShown.problem (codes "timeout")
later_load_same_example =
    later_load_same pod [] b't' (codes "imeout") (codes "build-1") troubled refl refl refl

updated_no_job_example :
    (render_logs (updated (record troubled { status = none })).0
      ≡ render_logs (record troubled { status = none }))
    × ((updated (record troubled { status = none })).0.events ≡ [])
    × ((updated (record troubled { status = none })).1 ≡ (none, none))
updated_no_job_example =
    updated_no_job (record troubled { status = none }) (codes "build-1") refl refl

abbrev two_nodes : PipelineGraph
two_nodes = pipeline_to_graph nightly
