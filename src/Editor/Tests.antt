-- ===== src/Editor/Tests.antt =====
-- The form of a step at concrete inputs.
use jobrunner.Prelude.{
  JsString, codes, [], ◌∷◌, some, false, not, ◌||◌, ◌≡◌, refl, has, str_eq, if◌then◌else◌, is_space,
}
use jobrunner.Types.Pipeline.{PipelineStep}
use jobrunner.Graph.{step_of, plain_container}
use jobrunner.Canvas.{StepUpdates, merge}
use jobrunner.Editor.{split_words, get_env_from, add_secret_env_from, remove_secret_env_from}
use jobrunner.Editor.RunIf.{toggled, waits_for, IsProper, toggle_run_if_step_lem}
use jobrunner.Editor.EnvFrom.{takes, env_from_lem}

abbrev edited : PipelineStep
edited = step_of (codes "build") (plain_container (codes "main") (codes "ubi9") [] [])

words : split_words [] (codes "sh  -c ") ≡ codes "sh" ∷ codes "-c" ∷ [] ∷ []
unfolding split_words is_space
words = refl

toggle_run_if_step_lem_example :
    ((x : JsString)
      → has (waits_for (toggled (codes "fetch") edited)) x ≡ (
          if str_eq (codes "fetch") x
          then not (has (waits_for edited) x)
          else has (waits_for edited) x))
    × IsProper (toggled (codes "fetch") edited)
toggle_run_if_step_lem_example = toggle_run_if_step_lem (codes "fetch") edited

takes_none : takes (codes "api") edited ≡ false
unfolding get_env_from
takes_none = refl

env_from_lem_example :
    (updates : StepUpdates) × (add_secret_env_from (codes "api") edited ≡ some updates)
    × (takes (codes "db") (merge edited updates)
        ≡ (takes (codes "db") edited || str_eq (codes "api") (codes "db")))
    × (takes (codes "db") (
          merge
            (merge edited updates)
            (remove_secret_env_from (codes "api") (merge edited updates)))
        ≡ takes (codes "db") edited)
env_from_lem_example =
    env_from_lem (codes "api") (codes "db") edited
      (plain_container (codes "main") (codes "ubi9") [] []) (λ e. cc) takes_none refl
