-- ===== src/Detail.antt =====
-- ui/src/components/monitor/pipeline-detail.ts: the page of one pipeline. A handler that waits is
-- split at each `await`, and what follows takes the answer; a request is returned beside the state.
pub mod Step
pub mod Duration
pub mod Drawing
pub mod Cache
pub mod Loading
pub mod Tests
use jobrunner.Prelude.{
  ℕ, ◌==◌, JsString, codes, List, [], ◌∷◌, ◌++◌, Option, none, some, Bool, true, false, not, ◌&&◌,
  ◌||◌, Answer, ok, failed, map, find, filter, length, or_else, str_eq, if◌then◌else◌,
}
use jobrunner.Types.Pod.{Container}
use jobrunner.Types.Pipeline.{PipelineStep, Pipeline}
use jobrunner.Types.Status.{StepPhase, JobStatus, StepStatus, PipelineStatus}
use jobrunner.Types.Graph.{PipelineGraph}
use jobrunner.Graph.{find_status, pipeline_to_graph}

pub record RouteLocation : Type 0 where
  pub namespace : Option JsString
  pub name : Option JsString

pub record PipelineDetail : Type 0 where
  pub location : Option RouteLocation
  pub pipeline : Option Pipeline
  pub loading : Bool
  pub error : Option JsString
  pub selected_step : Option JsString
  pub active_tab : ℕ
  pub graph : Option PipelineGraph
  pub open_menu_id : Option JsString
  pub cached_step : Option PipelineStep
  pub cached_status : Option StepStatus
  pub cached_step_name : Option JsString

unfoldable pub new_detail : Option RouteLocation → PipelineDetail
new_detail location = record {
  location = location;
  pipeline = none;
  loading = true;
  error = none;
  selected_step = none;
  active_tab = 0;
  graph = none;
  open_menu_id = none;
  cached_step = none;
  cached_status = none;
  cached_step_name = none;
}

abbrev is_text : Option JsString → JsString → Bool
is_text none name = false
is_text (some shown) name = str_eq shown name

unfoldable pub toggle_menu : JsString → PipelineDetail → PipelineDetail
toggle_menu name s = record s {
  open_menu_id = if is_text s.open_menu_id name then none else some name;
}

unfoldable pub close_menu : PipelineDetail → PipelineDetail
close_menu s = record s { open_menu_id = none }

-- `params`: the namespace and the name.
abbrev pub route_params : PipelineDetail → JsString × JsString
route_params s = elim s.location [
  | none ↦ (codes "default", [])
  | some l ↦ (or_else l.namespace (codes "default"), or_else l.name [])
]

-- `loadPipeline` up to its first `await`: what the client is asked for.
unfoldable pub load_pipeline : PipelineDetail → Option (JsString × JsString)
load_pipeline s =
    let (namespace, name) = route_params s in
    elim name [ [] ↦ none | c ∷ rest ↦ some (namespace, c ∷ rest) ]

-- Between the two `await`s, with the graph that is to be laid out.
unfoldable pub pipeline_loaded :
    Answer Pipeline → PipelineDetail → PipelineDetail × Option PipelineGraph
pipeline_loaded (ok p) s =
    (record s { pipeline = some p; error = none }, some (pipeline_to_graph p))
pipeline_loaded (failed message) s = (record s { error = some message; loading = false }, none)

-- Behind the second one.
unfoldable pub graph_laid_out : Answer PipelineGraph → PipelineDetail → PipelineDetail
graph_laid_out (ok graph) s = record s { graph = some graph; loading = false }
graph_laid_out (failed message) s = record s { error = some message; loading = false }

-- `loadPipeline` on the answer of the client, where no other handler comes in between.
unfoldable pub load_with :
    (PipelineGraph → Answer PipelineGraph) → Answer Pipeline → PipelineDetail → PipelineDetail
unfolding pipeline_loaded graph_laid_out
load_with layout answer s =
    let (t, to_lay_out) = pipeline_loaded answer s in
    elim to_lay_out [ none ↦ t | some graph ↦ graph_laid_out (layout graph) t ]

-- `deletePipeline` up to its `await`: the namespace and the name for the client.
unfoldable pub delete_pipeline : Bool → PipelineDetail → Option (JsString × JsString)
delete_pipeline confirmed s = elim s.pipeline [
  | none ↦ none
  | some p ↦
      if confirmed
      then some (or_else p.metadata.namespace (codes "default"), p.metadata.name)
      else none
]

-- What follows: the path that is navigated to, or the text of the alert.
pub data Deleted : Type 0 where
  navigated alerted : JsString → Deleted

unfoldable pub deleted : {A : Type 0} → Answer A → Deleted
deleted (ok _) = navigated (codes "/pipelines")
deleted (failed message) = alerted (codes "Failed to delete pipeline: " ++ message)

-- `container?.image || 'default'`
unfoldable pub get_step_image : PipelineStep → JsString
get_step_image step = elim step.job_spec.template.spec.containers [
  | [] ↦ codes "default"
  | c ∷ _ ↦ or_else c.image (codes "default")
]

unfoldable pub select_step : JsString → PipelineDetail → PipelineDetail
select_step name s = record s { selected_step = some name }

unfoldable pub close_drawer : PipelineDetail → PipelineDetail
close_drawer s = record s { selected_step = none }

-- `render` before the markup: what the page shows in place of the pipeline, if anything.
pub data Shown : Type 0 where
  spinner : Shown
  problem : JsString → Shown
  details : Pipeline → Shown

unfoldable pub render : PipelineDetail → Shown
render s = if s.loading then spinner else elim s.pipeline [
  | none ↦ problem (or_else s.error (codes "Pipeline not found"))
  | some p ↦ elim s.error [ some (c ∷ e) ↦ problem (c ∷ e) | _ ↦ details p ]
]

-- `===` on phases, and on optional texts and numbers.
abbrev pub same_phase : StepPhase → StepPhase → Bool
same_phase StepPhase.pending StepPhase.pending = true
same_phase StepPhase.running StepPhase.running = true
same_phase StepPhase.suspended StepPhase.suspended = true
same_phase StepPhase.succeeded StepPhase.succeeded = true
same_phase StepPhase.failed StepPhase.failed = true
same_phase StepPhase.skipped StepPhase.skipped = true
same_phase _ _ = false

abbrev pub same_text : Option JsString → Option JsString → Bool
same_text none none = true
same_text (some a) (some b) = str_eq a b
same_text _ _ = false

abbrev pub same_number : Option ℕ → Option ℕ → Bool
same_number none none = true
same_number (some a) (some b) = a == b
same_number _ _ = false

-- The fields of `status.jobStatus?`.
abbrev pub succeeded_of : StepStatus → Option ℕ
succeeded_of s = elim s.job_status [ none ↦ none | some j ↦ j.succeeded ]

abbrev pub failed_of : StepStatus → Option ℕ
failed_of s = elim s.job_status [ none ↦ none | some j ↦ j.failed ]

abbrev pub start_of : StepStatus → Option JsString
start_of s = elim s.job_status [ none ↦ none | some j ↦ j.start_time ]

abbrev pub completion_of : StepStatus → Option JsString
completion_of s = elim s.job_status [ none ↦ none | some j ↦ j.completion_time ]

abbrev pub same_shown : StepStatus → StepStatus → Bool
same_shown a b =
    same_phase a.phase b.phase
    && same_text a.job_name b.job_name
    && same_number (succeeded_of a) (succeeded_of b)
    && same_number (failed_of a) (failed_of b)
    && same_text (completion_of a) (completion_of b)

unfoldable pub has_status_changed : Option StepStatus → Option StepStatus → Bool
has_status_changed none none = false
has_status_changed (some a) (some b) = not (same_shown a b)
has_status_changed _ _ = true

-- What `renderStepDetails` gives the `step-detail`.
pub record StepView : Type 0 where
  pub step : Option PipelineStep
  pub status : Option StepStatus
  pub namespace : JsString

abbrev pub view_of : PipelineDetail → Pipeline → StepView
view_of s p = record {
  step = s.cached_step;
  status = s.cached_status;
  namespace = or_else p.metadata.namespace (codes "default");
}

abbrev pub is_none : {A : Type 0} → Option A → Bool
is_none none = true
is_none (some _) = false

-- The cache behind `renderStepDetails` on the step and the status of the selected name.
unfoldable pub refresh_cache :
    JsString → PipelineStep → Option StepStatus → PipelineDetail → PipelineDetail
unfolding has_status_changed
refresh_cache name step status s =
    if not (is_text s.cached_step_name name)
      || has_status_changed s.cached_status status
      || is_none s.cached_step
    then record s { cached_step = some step; cached_status = status; cached_step_name = some name }
    else s

abbrev pub show_step :
    JsString → Pipeline → Option PipelineStep → PipelineDetail → PipelineDetail × Option StepView
show_step name p none s = (s, none)
show_step name p (some step) s =
    let t = refresh_cache name step (find_status p.status name) s in (t, some (view_of t p))

unfoldable pub render_step_details : JsString → PipelineDetail → PipelineDetail × Option StepView
unfolding refresh_cache find_status
render_step_details name s = elim s.pipeline [
  | none ↦ (s, none)
  | some p ↦ show_step name p (find (λ step. str_eq step.name name) p.spec.steps) s
]

-- The content of the drawer.
unfoldable pub render_drawer : PipelineDetail → PipelineDetail × Option StepView
unfolding render_step_details
render_drawer s = elim s.selected_step [
  | none ↦ (s, none)
  | some name ↦ elim name [ [] ↦ (s, none) | c ∷ rest ↦ render_step_details (c ∷ rest) s ]
]

-- The rows of `renderTimeline`.
unfoldable pub timeline_rows : PipelineDetail → List (PipelineStep × Option StepStatus)
unfolding find_status
timeline_rows s = elim s.pipeline [
  | none ↦ []
  | some p ↦ map (λ step. (step, find_status p.status step.name)) p.spec.steps
]
