-- ===== src/Editor/Offered.antt =====
-- ui/src/components/builder/step-editor.ts: the state of the form, the secrets that it offers, the
-- language that it guesses and its rows of variables.
use jobrunner.Prelude.{
  ℕ, zero, suc, JsString, codes, List, [], ◌∷◌, ◌++◌, Option, none, some, Bool, true, false, not,
  ◌||◌, map, filter, any, or_empty, str_eq, if◌then◌else◌, Answer, ok, failed,
}
use jobrunner.Types.Pod.{EnvVar}
use jobrunner.Types.Pipeline.{PipelineStep}
use jobrunner.Canvas.{StepUpdates}
use jobrunner.Client.{Secret}
use jobrunner.Sorting.{includes}
use jobrunner.Editor.{command_of, env_of, get_container, get_env_from, is_from, update_env_vars}

pub record SecretInfo : Type 0 where
  pub name : JsString
  pub keys : List JsString

pub data EditorLanguage : Type 0 where
  bash python yaml javascript text : EditorLanguage

pub record StepEditor : Type 0 where
  pub step : Option PipelineStep
  pub all_steps : List JsString
  pub namespace : JsString
  pub name_error : Option JsString
  pub show_advanced : Bool
  pub available_secrets : List SecretInfo
  pub loading_secrets : Bool
  pub editor_language : EditorLanguage

unfoldable pub new_editor : StepEditor
new_editor = record {
  step = none;
  all_steps = [];
  namespace = codes "default";
  name_error = none;
  show_advanced = false;
  available_secrets = [];
  loading_secrets = false;
  editor_language = bash;
}

-- `fetchSecrets` up to its `await`, with the namespace whose secrets are asked for.
unfoldable pub fetch_secrets : StepEditor → StepEditor × JsString
fetch_secrets s = (record s { loading_secrets = true }, s.namespace)

abbrev pub is_opaque : Secret → Bool
is_opaque secret = str_eq secret.type (codes "Opaque")

abbrev pub secret_info : Secret → SecretInfo
secret_info secret = record {
  name = secret.metadata.name;
  keys = map (λ e. e.0) (or_empty secret.entries);
}

-- Behind it; an error is logged.
unfoldable pub secrets_fetched : Answer (List Secret) → StepEditor → StepEditor
secrets_fetched (ok secrets) s = record s {
  available_secrets = map secret_info (filter is_opaque secrets);
  loading_secrets = false;
}
secrets_fetched (failed message) s = record s { available_secrets = []; loading_secrets = false }

-- `handleNamespaceChange`
unfoldable pub editor_namespace_changed : JsString → StepEditor → StepEditor × JsString
unfolding fetch_secrets
editor_namespace_changed namespace s = fetch_secrets (record s { namespace = namespace })

-- The secrets that the select lists: those that the step does not take yet.
unfoldable pub offered_secrets : StepEditor → List SecretInfo
unfolding get_env_from
offered_secrets s = elim s.step [
  | none ↦ s.available_secrets
  | some step ↦
      filter (λ (secret : SecretInfo). not (any (is_from secret.name) (get_env_from step)))
        s.available_secrets
]

-- `command.join(' ')`
abbrev pub join_words : List JsString → JsString
join_words [] = []
join_words (word ∷ []) = word
join_words (word ∷ next ∷ rest) = word ++ codes " " ++ join_words (next ∷ rest)

-- `detectLanguageFromCommand`; both last branches are bash.
unfoldable pub detect_language : (JsString → JsString) → PipelineStep → EditorLanguage
detect_language to_lower step =
    let command = to_lower (join_words (command_of (get_container step))) in
    if includes command (codes "python")
    then python
    else if includes command (codes "node") || includes command (codes "javascript")
    then javascript
    else bash

-- `updated`, when the step has changed.
unfoldable pub step_given : (JsString → JsString) → StepEditor → StepEditor
unfolding detect_language
step_given to_lower s = elim s.step [
  | none ↦ s
  | some step ↦ record s { editor_language = detect_language to_lower step }
]

unfoldable pub choose_language : EditorLanguage → StepEditor → StepEditor
choose_language language s = record s { editor_language = language }

-- `envVars.filter((_, i) => i !== index)`, and the change of one variable.
unfoldable pub without_var : ℕ → List EnvVar → List EnvVar
without_var index [] = []
without_var zero (env ∷ vars) = vars
without_var (suc index) (env ∷ vars) = env ∷ without_var index vars

unfoldable pub remove_env_var : ℕ → PipelineStep → StepUpdates
unfolding update_env_vars without_var
remove_env_var index step = update_env_vars (without_var index (env_of (get_container step))) step

pub data VarField : Type 0 where
  var_name var_value : VarField

abbrev pub set_var_field : VarField → JsString → EnvVar → EnvVar
set_var_field var_name value env = record env { name = value }
set_var_field var_value value env = record env { value = some value }

unfoldable pub change_var : ℕ → VarField → JsString → List EnvVar → List EnvVar
change_var index field value [] = []
change_var zero field value (env ∷ vars) = set_var_field field value env ∷ vars
change_var (suc index) field value (env ∷ vars) = env ∷ change_var index field value vars

unfoldable pub update_env_var : ℕ → VarField → JsString → PipelineStep → StepUpdates
unfolding update_env_vars change_var
update_env_var index field value step =
    update_env_vars (change_var index field value (env_of (get_container step))) step
