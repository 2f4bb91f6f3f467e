-- ===== src/Canvas/Tests.antt =====
-- The builder at concrete inputs.
use mathlib.Core.Option.{some-injective}
use jobrunner.Prelude.{
  AreDistinct, ok, ℕ, JsString, codes, [], ◌∷◌, Option, none, some, true, false, ◌≡◌, refl, arith,
  has, str_eq, to_decimal, ap, sym,
}
use jobrunner.Types.Pipeline.{Pipeline, PipelineStep}
use jobrunner.Graph.{empty_meta, plain_container, step_of}
use jobrunner.Graph.StepName.{validate_step_name}
use jobrunner.Graph.StepName.Grammar.{IsLabel, validate_step_name_iff}
use jobrunner.Canvas.{
  Canvas, CanvasStep, new_canvas, builder, bash, strip, lay_out, add_step, remove_step, StepUpdates,
  update_step, edited_step, handle_drag_over, Parsed, object, thrown, load_existing_pipelines,
  load_from_copied_pipeline, set_name, numbered, copy_numbered, save_pipeline, connected,
}
use jobrunner.Canvas.Sync.{IsSynced}
use jobrunner.Canvas.Sync.Reach.{Reach, start, next, added, removed, Reach-IsSynced}
use jobrunner.Canvas.Sync.Commands.{add, remove, run}
use jobrunner.Canvas.Sync.Refines.{steps_of}
use jobrunner.Canvas.Sync.Runs.{Reach-run_all}
use jobrunner.Canvas.Drag.{IsMoved, handle_drag_over_lem}
use jobrunner.Canvas.StepNames.{names, add_step-remove_step_duplicate}
use jobrunner.Canvas.FreshName.{
  IsNamed, load_existing_pipelines-IsNamed, load_from_copied_pipeline-IsNamed,
}
use jobrunner.Canvas.Rename.{edited_step-rename}
use jobrunner.Canvas.YamlView.{parsed_of, there_and_back, there_and_back_lem}
use jobrunner.Canvas.Saving.{
  IsSavable, IsRefused, request_of, save_pipeline_savable, save_pipeline-IsRefused,
}

abbrev step : JsString → PipelineStep
step name = step_of name (plain_container (codes "main") (codes "ubi9") [] [])

abbrev placed : JsString → ℕ → CanvasStep
placed name y = record { step = step name; x = 0; y = y }

-- A canvas with the steps step-1 and step-2, of which the first is being dragged and edited.
abbrev two_steps : Canvas
two_steps = record {
  pipeline = record {
    api_version = codes "pipeline.yaacov.io/v1";
    kind = codes "Pipeline";
    metadata = empty_meta (codes "nightly") (some (codes "ci"));
    spec = record {
      steps = step (codes "step-1") ∷ step (codes "step-2") ∷ [];
      service_account_name = none;
      shared_volume = none;
      pod_template = none;
    };
    status = none;
  };
  canvas_steps = placed (codes "step-1") 0 ∷ placed (codes "step-2") 120 ∷ [];
  selected_step = some (codes "step-1");
  show_step_editor = true;
  show_global_settings = false;
  saving = false;
  error = none;
  dragged_step_index = some 0;
  existing_pipeline_names = codes "weekly" ∷ [];
  name_error = none;
  view_mode = builder;
  yaml_content = codes "steps: [";
  yaml_error = none;
}

abbrev rename_to : Option JsString → StepUpdates
rename_to name = record { name = name; run_if = none; job_spec = none }

abbrev unreadable : JsString → Parsed
unreadable text = thrown (codes "bad indentation")

nightly-IsLabel : IsLabel (codes "nightly")
unfolding validate_step_name
nightly-IsLabel = (validate_step_name_iff (codes "nightly")).0.0 refl

two_steps-IsSynced : IsSynced two_steps
two_steps-IsSynced = record { steps = refl; editor = λ e. cc }

two_steps-distinct : AreDistinct (names two_steps.canvas_steps)
unfolding has str_eq
two_steps-distinct = (refl, (refl, tt))

Reach-IsSynced_example : IsSynced (add_step bash (connected (codes "ci") new_canvas))
Reach-IsSynced_example =
    Reach-IsSynced (λ p. []) unreadable
      (next (start (codes "ci")) (added bash (connected (codes "ci") new_canvas)))

handle_drag_over_lem_example :
    (d : Canvas) × (handle_drag_over 1 two_steps ≡ some d) × IsMoved 0 1 two_steps d
handle_drag_over_lem_example = handle_drag_over_lem two_steps 0 1 refl (omega arith) (omega arith)

add_step-remove_step_duplicate_example :
    ¬ AreDistinct (names (add_step bash (remove_step (codes "step-1") two_steps)).canvas_steps)
unfolding has str_eq to_decimal
add_step-remove_step_duplicate_example =
    add_step-remove_step_duplicate bash (codes "step-1") two_steps two_steps-distinct refl refl
      (λ e. ground arith)

edited_step-rename_example :
    edited_step (update_step (codes "step-1") (rename_to (some (codes "build"))) two_steps) ≡ none
edited_step-rename_example =
    edited_step-rename (codes "step-1") (codes "build") (rename_to (some (codes "build"))) two_steps
      refl refl (λ e. ground arith)

there_and_back_lem_example :
    ((there_and_back (λ p. []) (λ t. object (parsed_of two_steps.pipeline)) two_steps).pipeline
      ≡ two_steps.pipeline)
    × ((there_and_back
          (λ p. [])
          (λ t. object (parsed_of two_steps.pipeline))
          two_steps).canvas_steps
        ≡ lay_out (strip two_steps.canvas_steps))
    × ((there_and_back (λ p. []) (λ t. object (parsed_of two_steps.pipeline)) two_steps).view_mode
        ≡ builder)
    × ((there_and_back (λ p. []) (λ t. object (parsed_of two_steps.pipeline)) two_steps).yaml_error
        ≡ none)
there_and_back_lem_example =
    there_and_back_lem (λ p. []) (λ t. object (parsed_of two_steps.pipeline)) two_steps refl
      two_steps-IsSynced (λ e. cc) (λ e. cc)

load_existing_pipelines-IsNamed_example :
    (d : Canvas) × (load_existing_pipelines (codes "ci") (ok (two_steps.pipeline ∷ [])) new_canvas
      ≡ some d)
    × (d.pipeline.metadata.namespace ≡ some (codes "ci"))
    × IsNamed (numbered (codes "new-pipeline")) (codes "new-pipeline") (two_steps.pipeline ∷ []) d
load_existing_pipelines-IsNamed_example =
    load_existing_pipelines-IsNamed (codes "ci") (two_steps.pipeline ∷ []) new_canvas

load_from_copied_pipeline-IsNamed_example :
    (d : Canvas) × (load_from_copied_pipeline two_steps.pipeline
        (ok (two_steps.pipeline ∷ []))
        new_canvas
      ≡ some d)
    × (d.pipeline ≡ set_name two_steps.pipeline d.pipeline.metadata.name)
    × IsNamed (copy_numbered (codes "nightly")) (codes "nightly") (two_steps.pipeline ∷ []) d
load_from_copied_pipeline-IsNamed_example =
    load_from_copied_pipeline-IsNamed two_steps.pipeline (two_steps.pipeline ∷ []) new_canvas

two_steps-IsSavable : IsSavable two_steps two_steps.pipeline
unfolding has str_eq
two_steps-IsSavable = record { label = nightly-IsLabel; free = refl; steps = λ e. cc }

save_pipeline_savable_example :
    (save_pipeline unreadable two_steps).1 ≡ some (request_of two_steps.pipeline)
save_pipeline_savable_example =
    save_pipeline_savable unreadable two_steps two_steps.pipeline refl two_steps-IsSavable

save_pipeline-IsRefused_example : IsRefused (save_pipeline unreadable new_canvas)
unfolding new_canvas
save_pipeline-IsRefused_example =
    save_pipeline-IsRefused unreadable new_canvas
      (λ p e h. h.steps (ap (λ (q : Pipeline). q.spec.steps) (sym (some-injective _ _ e))))

-- A bash step is added to an empty builder, and taken away again.
abbrev added_and_removed :
    Reach
      (λ p. [])
      unreadable
      (remove_step (codes "step-1") (add_step bash (connected (codes "ci") new_canvas)))
added_and_removed =
    next (next (start (codes "ci")) (added bash (connected (codes "ci") new_canvas)))
      (removed (codes "step-1") (add_step bash (connected (codes "ci") new_canvas)))

Reach-run_all_example :
    (steps_of (remove_step (codes "step-1") (add_step bash (connected (codes "ci") new_canvas)))
      ≡ run (remove (codes "step-1")) (run (add bash) []))
    × (strip
          (remove_step
            (codes "step-1")
            (add_step bash (connected (codes "ci") new_canvas))).canvas_steps
        ≡ run (remove (codes "step-1")) (run (add bash) []))
Reach-run_all_example = Reach-run_all (λ p. []) unreadable added_and_removed
