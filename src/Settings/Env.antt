-- ===== src/Settings/Env.antt =====
-- The variables of the environment that all steps share.
use jobrunner.Prelude.{JsString, List, [], ◌∷◌, ◌++◌, some, ◌≡◌, refl, ◌∙◌, or_empty, length}
use jobrunner.Types.Pod.{EnvVar}
use jobrunner.Types.Pipeline.{Pipeline}
use jobrunner.Settings.{
  GlobalSettings, changed, update_pod_template, update_env_vars, get_env_vars, add_env_var,
  remove_env_var, update_env_var, without_env, change_env, some_env, blank_env, EnvField,
  set_env_field, spread_pod,
}

or_empty-some_env : (vars : List EnvVar) → or_empty (some_env vars) ≡ vars
or_empty-some_env [] = refl
or_empty-some_env (env ∷ vars) = refl

abbrev with_env : List EnvVar → Pipeline → Pipeline
with_env vars p = record p {
  spec = record (p.spec) {
    pod_template = some (record (spread_pod p.spec.pod_template) { env = some_env vars });
  };
}

get_env_vars-update_env_vars :
    (vars : List EnvVar) (s : GlobalSettings) (p : Pipeline)
    → s.pipeline ≡ some p
    → get_env_vars (update_env_vars vars s).0 ≡ vars
unfolding get_env_vars update_env_vars update_pod_template changed
get_env_vars-update_env_vars vars s p h = rw h (or_empty-some_env vars)

pipeline-update_env_vars :
    (vars : List EnvVar) (s : GlobalSettings) (p : Pipeline)
    → s.pipeline ≡ some p
    → (update_env_vars vars s).0.pipeline ≡ some (with_env vars p)
unfolding update_env_vars update_pod_template changed
pipeline-update_env_vars vars s p h = rw h refl

without_env-append :
    (vars : List EnvVar) (env : EnvVar) → without_env (length vars) (vars ++ env ∷ []) ≡ vars
unfolding without_env
without_env-append [] env = refl
without_env-append (v ∷ vars) env = rw (without_env-append vars env) refl

without_env-append-cons :
    (before after : List EnvVar) (env : EnvVar)
    → without_env (length before) (before ++ env ∷ after) ≡ before ++ after
unfolding without_env
without_env-append-cons [] after env = refl
without_env-append-cons (v ∷ before) after env = rw (without_env-append-cons before after env) refl

change_env-append-cons :
    (before after : List EnvVar) (env : EnvVar) (field : EnvField) (value : JsString)
    → change_env (length before) field value (before ++ env ∷ after)
      ≡ before ++ set_env_field field value env ∷ after
unfolding change_env
change_env-append-cons [] after env field value = refl
change_env-append-cons (v ∷ before) after env field value =
    rw (change_env-append-cons before after env field value) refl

-- On a pipeline with the variables `before ++ env ∷ after`, the row of `env` edits and removes that
-- variable alone, a new variable comes last, and removing it again leaves the variables as they
-- were.
pub env_rows_lem :
    (before after : List EnvVar) (env : EnvVar) (field : EnvField) (value : JsString)
    (s : GlobalSettings) (p : Pipeline)
    → s.pipeline ≡ some p
    → get_env_vars s ≡ before ++ env ∷ after
    → (get_env_vars (update_env_var (length before) field value s).0
        ≡ before ++ set_env_field field value env ∷ after)
      × (get_env_vars (remove_env_var (length before) s).0 ≡ before ++ after)
      × (get_env_vars (add_env_var s).0 ≡ get_env_vars s ++ blank_env ∷ [])
      × (get_env_vars (remove_env_var (length (get_env_vars s)) (add_env_var s).0).0
          ≡ get_env_vars s)
unfolding update_env_var remove_env_var add_env_var
env_rows_lem before after env field value s p h e = (
  get_env_vars-update_env_vars _ s p h
      ∙ rw (e, change_env-append-cons before after env field value) refl,
  get_env_vars-update_env_vars _ s p h ∙ rw (e, without_env-append-cons before after env) refl,
  added,
  get_env_vars-update_env_vars _ _ _ (pipeline-update_env_vars _ s p h)
      ∙ rw (added, without_env-append) refl,
)
  where
    added : get_env_vars (add_env_var s).0 ≡ get_env_vars s ++ blank_env ∷ []
    added = get_env_vars-update_env_vars (get_env_vars s ++ blank_env ∷ []) s p h
