-- ===== src/Pipelines.antt =====
-- ui/src/components/monitor/pipeline-list.ts: the list of pipelines. `to_lower`, `locale_compare` and
-- the time of a date, which is valid and not before 1970, are the platform's; a request to the
-- cluster is returned beside the state.
use jobrunner.Prelude.{
  ℕ, zero, suc, ◌+◌, ◌-◌, ◌/◌, JsString, codes, List, [], ◌∷◌, ◌++◌, Option, none, some, Bool, true,
  false, ◌||◌, Answer, ok, failed, or_else, filter, length, str_eq, if◌then◌else◌, ltb, to_decimal,
  map,
}
use mathlib.Core.Option
use jobrunner.Types.Pipeline.{ObjectMeta, Pipeline}
use jobrunner.Types.Status.{PipelinePhase, StepPhase, StepStatus, PipelineStatus}
use jobrunner.Sorting.{SortDirection, asc, desc, Sign, directed, difference, matching, sort}
pub mod Menu
pub mod Order
pub mod Copy
pub mod Row
pub mod Polling
pub mod Badge
pub mod Tests

pub data SortColumn : Type 0 where
  by_name by_status by_created : SortColumn

pub record PipelineList : Type 0 where
  pub pipelines : List Pipeline
  pub loading : Bool
  pub error : Option JsString
  pub search_query : JsString
  pub namespace : JsString
  pub sort_column : SortColumn
  pub sort_direction : SortDirection
  pub open_menu_id : Option JsString
  pub current_page : ℕ

unfoldable pub new_pipelines : PipelineList
new_pipelines = record {
  pipelines = [];
  loading = true;
  error = none;
  search_query = [];
  namespace = codes "default";
  sort_column = by_created;
  sort_direction = desc;
  open_menu_id = none;
  current_page = 1;
}

-- `loadPipelines` after its `await`.
unfoldable pub pipelines_loaded : Answer (List Pipeline) → PipelineList → PipelineList
pipelines_loaded (ok pipelines) s = record s {
  pipelines = pipelines;
  error = none;
  loading = false;
}
pipelines_loaded (failed message) s = record s { error = some message; loading = false }

unfoldable pub pipeline_page : Pipeline → JsString
pipeline_page p =
    codes "/pipelines/"
    ++ or_else p.metadata.namespace (codes "default")
    ++ codes "/"
    ++ p.metadata.name

abbrev pub is_completed : StepPhase → Bool
is_completed StepPhase.succeeded = true
is_completed StepPhase.failed = true
is_completed StepPhase.skipped = true
is_completed _ = false

unfoldable pub get_completed_steps : List StepStatus → ℕ
get_completed_steps steps = length (filter (λ s. is_completed s.phase) steps)

pub data StepState : Type 0 where
  inactive active complete warn fail_state : StepState

unfoldable pub get_step_state : StepPhase → StepState
get_step_state StepPhase.succeeded = complete
get_step_state StepPhase.running = active
get_step_state StepPhase.failed = fail_state
get_step_state _ = inactive

abbrev pub phase_text : PipelinePhase → JsString
phase_text PipelinePhase.pending = codes "Pending"
phase_text PipelinePhase.running = codes "Running"
phase_text PipelinePhase.suspended = codes "Suspended"
phase_text PipelinePhase.succeeded = codes "Succeeded"
phase_text PipelinePhase.failed = codes "Failed"

-- `pipeline.status?.phase || 'Pending'`
abbrev pub phase_or_pending : Option PipelineStatus → JsString
phase_or_pending none = codes "Pending"
phase_or_pending (some status) = phase_text status.phase

module _ (to_lower : JsString → JsString) (locale_compare : JsString → JsString → Sign)
    (time_of : JsString → ℕ) where
  -- `new Date(timestamp).getTime()`, or 0 without a timestamp.
  abbrev pub created_at : Option JsString → ℕ
  created_at none = 0
  created_at (some []) = 0
  created_at (some (c ∷ s)) = time_of (c ∷ s)

  abbrev pub comparison : SortColumn → Pipeline → Pipeline → Sign
  comparison by_name a b = locale_compare a.metadata.name b.metadata.name
  comparison by_status a b = locale_compare (phase_or_pending a.status) (phase_or_pending b.status)
  comparison by_created a b =
      difference (created_at a.metadata.creation_timestamp)
        (created_at b.metadata.creation_timestamp)

  -- The filter by the search query.
  abbrev pub searched : JsString → List Pipeline → List Pipeline
  searched = matching to_lower (λ p. p.metadata.name)

  unfoldable pub filtered_pipelines : PipelineList → List Pipeline
  unfolding sort
  filtered_pipelines s =
      sort (λ a b. directed s.sort_direction (comparison s.sort_column a b))
        (searched s.search_query s.pipelines)
