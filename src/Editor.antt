-- ===== src/Editor.antt =====
-- ui/src/components/builder/step-editor.ts: the form of a step. A handler returns the detail of the
-- `update` event that it dispatches to the builder, or none where it dispatches nothing.
use jobrunner.Prelude.{
  ℕ, zero, suc, JsString, codes, List, [], ◌∷◌, ◌++◌, Option, none, some, Bool, true, false, not,
  map, filter, any, has, or_empty, str_eq, if◌then◌else◌, has_text, trim, is_space, split_lines,
  all_lines,
}
use mathlib.Core.Option
use jobrunner.Types.Pod.{EnvVar, EnvFromSource, SecretEnvSource, Container}
use jobrunner.Types.Pipeline.{PipelineStep, RunCondition, RunOperator, RunIfCondition}
use jobrunner.Graph.StepName.{Validation, validate_step_name}
use jobrunner.Canvas.{StepUpdates, map_container}
pub mod RunIf
pub mod EnvFrom
pub mod Offered
pub mod Tests

abbrev pub head_of : List Container → Option Container
head_of [] = none
head_of (container ∷ containers) = some container

abbrev pub get_container : PipelineStep → Option Container
get_container step = head_of step.job_spec.template.spec.containers

-- `container?.command || []`
abbrev pub command_of : Option Container → List JsString
command_of none = []
command_of (some container) = or_empty container.command

-- `command.length > 0 && command[command.length - 1] === '-c'`
abbrev pub ends_with_c : List JsString → Bool
ends_with_c [] = false
ends_with_c (last ∷ []) = str_eq last (codes "-c")
ends_with_c (word ∷ next ∷ rest) = ends_with_c (next ∷ rest)

unfoldable pub is_script_mode : PipelineStep → Bool
is_script_mode step = ends_with_c (command_of (get_container step))

-- The update of the job with its first container changed.
abbrev pub update_container : (Container → Container) → PipelineStep → StepUpdates
update_container f step = record {
  name = none;
  run_if = none;
  job_spec = some (map_container f step).job_spec;
}

abbrev shown_error : Validation → Option JsString
shown_error v = if v.valid then none else v.error

-- `updateName`, with `nameError`.
unfoldable pub update_name : JsString → Option JsString × StepUpdates
update_name name = (
  shown_error (validate_step_name name),
  record { name = some name; run_if = none; job_spec = none },
)

unfoldable pub update_image : JsString → PipelineStep → StepUpdates
update_image image step = update_container (λ (c : Container). record c { image = some image }) step

abbrev starts_with_space : JsString → Bool
starts_with_space [] = false
starts_with_space (c ∷ s) = is_space c

-- `text.split(/\s+/)`; `cur` is what stands before the text in its word.
unfoldable pub split_words : JsString → JsString → List JsString
split_words cur [] = cur ∷ []
split_words cur (c ∷ s) =
    let skipped = split_words cur s in
    let closed = split_words [] s in
    let longer = split_words (cur ++ c ∷ []) s in
    if is_space c then (if starts_with_space s then skipped else cur ∷ closed) else longer

unfoldable pub update_command : JsString → PipelineStep → StepUpdates
unfolding split_words
update_command text step =
    let words = if has_text text then split_words [] text else [] in
    update_container (λ (c : Container). record c { command = some words }) step

-- A script is one argument; otherwise each line with text is one.
abbrev pub script_args : JsString → List JsString
script_args [] = []
script_args (c ∷ script) = (c ∷ script) ∷ []

unfoldable pub update_args : JsString → PipelineStep → StepUpdates
unfolding is_script_mode
update_args text step =
    let args =
      if is_script_mode step
      then script_args (trim text)
      else filter has_text (all_lines (split_lines text)) in
    update_container (λ (c : Container). record c { args = some args }) step

abbrev pub env_of : Option Container → List EnvVar
env_of none = []
env_of (some container) = or_empty container.env

abbrev pub env_from_of : Option Container → List EnvFromSource
env_from_of none = []
env_from_of (some container) = or_empty container.env_from

unfoldable pub get_env_from : PipelineStep → List EnvFromSource
get_env_from step = env_from_of (get_container step)

-- `envFrom.length > 0 ? envFrom : undefined`
abbrev pub some_sources : List EnvFromSource → Option (List EnvFromSource)
some_sources [] = none
some_sources (source ∷ sources) = some (source ∷ sources)

unfoldable pub update_env_from : List EnvFromSource → PipelineStep → StepUpdates
update_env_from sources step =
    update_container (λ (c : Container). record c { env_from = some_sources sources }) step

abbrev pub names_secret : JsString → Option SecretEnvSource → Bool
names_secret name none = false
names_secret name (some source) = str_eq source.name name

-- `e.secretRef?.name === secretName`
abbrev pub is_from : JsString → EnvFromSource → Bool
is_from name source = names_secret name source.secret_ref

abbrev pub from_secret : JsString → EnvFromSource
from_secret name = record {
  prefix = none;
  secret_ref = some (record { name = name; optional = none });
  config_map_ref = none;
}

unfoldable pub add_secret_env_from : JsString → PipelineStep → Option StepUpdates
unfolding get_env_from update_env_from
add_secret_env_from [] step = none
add_secret_env_from (c ∷ name) step =
    let sources = get_env_from step in
    if any (is_from (c ∷ name)) sources
    then none
    else some (update_env_from (sources ++ from_secret (c ∷ name) ∷ []) step)

unfoldable pub remove_secret_env_from : JsString → PipelineStep → StepUpdates
unfolding get_env_from update_env_from
remove_secret_env_from name step =
    update_env_from (filter (λ e. not (is_from name e)) (get_env_from step)) step

unfoldable pub update_env_vars : List EnvVar → PipelineStep → StepUpdates
update_env_vars vars step = update_container (λ (c : Container). record c { env = some vars }) step

unfoldable pub add_env_var : PipelineStep → StepUpdates
unfolding update_env_vars
add_env_var step =
    update_env_vars
      (env_of (get_container step) ++ record { name = []; value = some []; value_from = none } ∷ [])
      step

-- The field of `updateRunIf` with its value.
pub data RunIfField : Type 0 where
  condition_field : RunCondition → RunIfField
  operator_field : RunOperator → RunIfField
  steps_field : List JsString → RunIfField

abbrev pub set_run_field : RunIfField → RunIfCondition → RunIfCondition
set_run_field (condition_field c) run = record run { condition = some c }
set_run_field (operator_field o) run = record run { operator = some o }
set_run_field (steps_field steps) run = record run { steps = steps }

-- `this.step.runIf || { steps: [] }`
abbrev pub run_or_empty : Option RunIfCondition → RunIfCondition
run_or_empty none = record { condition = none; operator = none; steps = [] }
run_or_empty (some run) = run

abbrev pub run_update : Option RunIfCondition → StepUpdates
run_update run = record { name = none; run_if = some run; job_spec = none }

unfoldable pub update_run_if : RunIfField → PipelineStep → StepUpdates
update_run_if field step = run_update (some (set_run_field field (run_or_empty step.run_if)))

-- The end of `toggleRunIfStep` on the new steps.
abbrev pub toggled_update : List JsString → PipelineStep → StepUpdates
toggled_update [] step = run_update none
toggled_update (s ∷ steps) step = update_run_if (steps_field (s ∷ steps)) step

unfoldable pub toggle_run_if_step : JsString → PipelineStep → StepUpdates
unfolding update_run_if
toggle_run_if_step name step =
    let current = (run_or_empty step.run_if).steps in
    toggled_update
      (if has current name then filter (λ s. not (str_eq s name)) current else current ++ name ∷ [])
      step
