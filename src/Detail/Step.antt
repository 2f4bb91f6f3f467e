-- ===== src/Detail/Step.antt =====
-- ui/src/components/monitor/step-detail.ts: the logs, the job and the events of one step.
pub mod Logs
pub mod Follow
use jobrunner.Prelude.{
  ℕ, ◌==◌, JsString, codes, List, [], ◌∷◌, ◌++◌, Option, none, some, Bool, true, false, not, ◌&&◌,
  Answer, ok, failed, filter, length, or_else, str_eq, if◌then◌else◌, split_lines, all_lines,
  to_decimal,
}
use jobrunner.Types.Pod.{Container}
use jobrunner.Types.Pipeline.{PipelineStep, RestartPolicy}
use jobrunner.Types.Status.{StepStatus}
use jobrunner.Client.{PodSummary, KubeEvent}
use jobrunner.Detail.{start_of, completion_of, same_text}
use jobrunner.Detail.Duration.{format_duration}

pub record StepDetail : Type 0 where
  pub step : Option PipelineStep
  pub status : Option StepStatus
  pub namespace : JsString
  pub logs : JsString
  pub logs_loading : Bool
  pub logs_error : Option JsString
  pub active_tab : ℕ
  pub events : List KubeEvent
  pub initial_logs_load : Bool
  pub current_job_name : Option JsString
  -- There is a poll interval.
  pub polling : Bool

unfoldable pub new_step_detail : Option PipelineStep → Option StepStatus → JsString → StepDetail
new_step_detail step status namespace = record {
  step = step;
  status = status;
  namespace = namespace;
  logs = [];
  logs_loading = false;
  logs_error = none;
  active_tab = 0;
  events = [];
  initial_logs_load = true;
  current_job_name = none;
  polling = false;
}

unfoldable pub step_connected : StepDetail → StepDetail
step_connected s = record s { polling = true }

unfoldable pub step_disconnected : StepDetail → StepDetail
step_disconnected s = record s { polling = false }

-- `this.status?.jobName || null`
abbrev pub job_of : Option StepStatus → Option JsString
job_of none = none
job_of (some status) = elim status.job_name [
  | none ↦ none
  | some name ↦ elim name [ [] ↦ none | c ∷ rest ↦ some (c ∷ rest) ]
]

-- A list that the cluster is asked for: the namespace and the selector.
pub record Ask : Type 0 where
  pub namespace : JsString
  pub selector : JsString

-- Only the first load of a job shows the spinner.
unfoldable pub load_started : StepDetail → StepDetail
load_started s =
    if s.initial_logs_load then record s { logs_loading = true; logs_error = none } else s

abbrev pub load_job : Option JsString → StepDetail → StepDetail × Option Ask
load_job none s = (s, none)
load_job (some job) s =
    (load_started s, some (record { namespace = s.namespace; selector = codes "job-name=" ++ job }))

-- `loadLogs` up to its first `await`.
unfoldable pub load_logs : StepDetail → StepDetail × Option Ask
unfolding load_started
load_logs s = load_job (job_of s.status) s

-- The `finally` of `loadLogs`.
unfoldable pub logs_done : StepDetail → StepDetail
logs_done s = record s { logs_loading = false; initial_logs_load = false }

unfoldable pub logs_failed : JsString → StepDetail → StepDetail
unfolding logs_done
logs_failed message s = logs_done (record s { logs_error = some message })

-- On the pods of the job, with the namespace and the pod whose last 50 lines are asked for.
unfoldable pub pods_listed :
    Answer (List PodSummary) → StepDetail → StepDetail × Option (JsString × JsString)
unfolding logs_done logs_failed
pods_listed (ok []) s = (logs_done (record s { logs = [] }), none)
pods_listed (ok (pod ∷ pods)) s = (s, some (s.namespace, pod.name))
pods_listed (failed message) s = (logs_failed message s, none)

abbrev pub log_tail_lines : ℕ
log_tail_lines = 50

-- On the log of the pod.
unfoldable pub logs_received : Answer JsString → StepDetail → StepDetail
unfolding logs_done logs_failed
logs_received (ok new_logs) s =
    logs_done
      (if str_eq new_logs s.logs then s else record s { logs = new_logs; logs_error = none })
logs_received (failed message) s = logs_failed message s

abbrev pub follow_pod : Answer JsString → StepDetail × Option (JsString × JsString) → StepDetail
follow_pod new_logs (s, none) = s
follow_pod new_logs (s, some pod) = logs_received new_logs s

abbrev pub follow_job :
    Option JsString → Answer (List PodSummary) → Answer JsString → StepDetail → StepDetail
follow_job none pods new_logs s = s
follow_job (some job) pods new_logs s = follow_pod new_logs (pods_listed pods (load_started s))

-- `loadLogs` on the two answers, where no other handler comes in between.
unfoldable pub load_logs_with : Answer (List PodSummary) → Answer JsString → StepDetail → StepDetail
unfolding load_started pods_listed logs_received
load_logs_with pods new_logs s = follow_job (job_of s.status) pods new_logs s

-- `loadEvents` up to its `await`, and behind it; an error is logged.
unfoldable pub load_events : StepDetail → Option Ask
load_events s = elim (job_of s.status) [
  | none ↦ none
  | some job ↦
      some (record { namespace = s.namespace; selector = codes "involvedObject.name=" ++ job })
]

unfoldable pub events_received : Answer (List KubeEvent) → StepDetail → StepDetail
events_received (ok events) s = record s { events = events }
events_received (failed message) s = s

-- What `updated` asks for: the pods for the logs, and the events. Without a job neither of the two
-- loads does anything, so that they are not under `if (newJobName)` here.
unfoldable pub updated : StepDetail → StepDetail × (Option Ask × Option Ask)
unfolding load_logs load_events
updated s =
    let job = job_of s.status in
    let t = record s { current_job_name = job; initial_logs_load = true } in
    let loading = load_logs t in
    if same_text job s.current_job_name
    then (s, (none, none))
    else (loading.0, (loading.1, load_events t))

-- The tick of the interval.
unfoldable pub polled : StepDetail → StepDetail × Option Ask
unfolding load_logs
polled s = elim (job_of s.status) [
  | none ↦ (s, none)
  | some job ↦ if s.polling && (s.active_tab == 0) then load_logs s else (s, none)
]

-- `formatDuration` on the status.
abbrev pub step_duration : (JsString → Option ℕ) → StepDetail → ℕ → JsString
step_duration time_of s now = elim s.status [
  | none ↦ codes "-"
  | some status ↦ format_duration time_of (start_of status) (completion_of status) now
]

abbrev first_container : Option PipelineStep → Option Container
first_container none = none
first_container (some step) = elim step.job_spec.template.spec.containers [
  | [] ↦ none
  | c ∷ _ ↦ some c
]

unfoldable pub get_image : StepDetail → JsString
get_image s = elim (first_container s.step) [
  | none ↦ codes "-"
  | some c ↦ or_else c.image (codes "-")
]

-- What `renderLogs` shows.
pub data LogsShown : Type 0 where
  spinner nothing_yet : LogsShown
  problem : JsString → LogsShown
  lines : ℕ → JsString → LogsShown

abbrev nonempty : JsString → Bool
nonempty [] = false
nonempty (c ∷ s) = true

-- `this.logs.split('\n').filter(l => l).length`
unfoldable pub line_count : JsString → ℕ
line_count logs = length (filter nonempty (all_lines (split_lines logs)))

abbrev pub logs_shown : JsString → LogsShown
logs_shown [] = nothing_yet
logs_shown (c ∷ logs) = lines (line_count (c ∷ logs)) (c ∷ logs)

unfoldable pub render_logs : StepDetail → LogsShown
unfolding line_count
render_logs s = if s.logs_loading then spinner else elim s.logs_error [
  | none ↦ logs_shown s.logs
  | some message ↦ elim message [ [] ↦ logs_shown s.logs | c ∷ rest ↦ problem (c ∷ rest) ]
]

-- The restart policy and the limit that `renderSpec` shows.
abbrev pub restart_policy_of : StepDetail → RestartPolicy
restart_policy_of s = elim s.step [
  | none ↦ RestartPolicy.never
  | some step ↦ step.job_spec.template.spec.restart_policy
]

abbrev pub backoff_limit_of : StepDetail → ℕ
backoff_limit_of s = elim s.step [
  | none ↦ 6
  | some step ↦ elim step.job_spec.backoff_limit [ none ↦ 6 | some n ↦ n ]
]
