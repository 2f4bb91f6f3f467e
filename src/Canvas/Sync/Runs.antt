-- ===== src/Canvas/Sync/Runs.antt =====
-- The runs of the builder implement the machine on lists of steps.
use jobrunner.Prelude.{
  Answer, ok, failed, JsString, List, [], ◌∷◌, ◌++◌, Option, none, some, Bool, true, false, ◌≡◌,
  refl, sym, ap, ◌∙◌, inl, inr, arith, All, List-cases, str_eq, codes, ◌||◌, if◌then◌else◌,
}
use mathlib.Core.Option
use mathlib.Core.Option.{some-injective}
use jobrunner.Types.Pipeline.{PipelineStep, Pipeline}
use jobrunner.Graph.{create_empty_pipeline}
use jobrunner.Settings.Keeps.{IsKept, handle-IsHandled}
use jobrunner.Canvas.{
  Canvas, ViewMode, builder, yaml, new_canvas, connected, StepType, strip, handle_canvas_drop,
  load_existing_pipelines, load_from_copied_pipeline, handle_namespace_change, select_step,
  close_drawer, handle_drag_start, handle_drag_end, update_pipeline_name, open_settings,
  update_settings, receive_updates, Parsed, object, no_object, thrown, adopt, show_parsed,
  yaml_to_pipeline, switch_to_yaml_view, switch_to_builder_view, handle_yaml_change, SaveRequest,
  submit_checked, submit, save_parsed, save_in, save_pipeline, save_answered,
  update_pipeline_from_canvas,
}
use jobrunner.Canvas.Sync.{IsSynced}
use jobrunner.Canvas.Sync.Commands.{Command, add, remove, update, put, keep, run}
use jobrunner.Canvas.Sync.Refines.{
  steps_of, add_step-run, remove_step-run, update_step-run, drag_command, handle_drag_over-run,
}
use jobrunner.Canvas.Sync.Reach.{
  Step, added, removed, selected, closed, updated, drag_started, drag_ended, dragged_over, dropped,
  renamed, opened_settings, settings, changed_namespace, loaded, loaded_copy, to_yaml, to_builder,
  typed, saved, answered, Reach, start, next, Reach-IsSynced,
}

abbrev pub drop_command : Option StepType → Command
drop_command none = keep
drop_command (some type) = add type

abbrev pub parsed_command : Option Pipeline → Command
parsed_command none = keep
parsed_command (some p) = put p.spec.steps

steps-receive_updates :
    (q : Pipeline) (sent : List Pipeline) (c : Canvas)
    → steps_of c ≡ q.spec.steps
    → All (IsKept q) sent
    → steps_of (receive_updates sent c) ≡ q.spec.steps
unfolding receive_updates update_settings
steps-receive_updates q [] c same _ = same
steps-receive_updates q (p ∷ sent) c same (k, kept) =
    steps-receive_updates q sent (record c { pipeline = p }) k.steps kept

steps-load_existing_pipelines :
    (n : JsString) (a : Answer (List Pipeline)) (c d : Canvas)
    → load_existing_pipelines n a c ≡ some d
    → steps_of d ≡ steps_of c
unfolding load_existing_pipelines
steps-load_existing_pipelines n (failed message) c d e = ap steps_of (sym (some-injective _ _ e))
steps-load_existing_pipelines n (ok pipelines) c d e =
    let (name, free, same) = (Option.map-eq-some_iff _ _).0 e in ap steps_of (sym same)

steps-load_from_copied_pipeline :
    (p : Pipeline) (a : Answer (List Pipeline)) (c d : Canvas)
    → load_from_copied_pipeline p a c ≡ some d
    → steps_of d ≡ p.spec.steps
unfolding load_from_copied_pipeline
steps-load_from_copied_pipeline p (failed message) c d e = ap steps_of (sym (some-injective _ _ e))
steps-load_from_copied_pipeline p (ok pipelines) c d e =
    let (name, free, same) = (Option.map-eq-some_iff _ _).0 e in ap steps_of (sym same)

steps-handle_namespace_change :
    (n : JsString) (c : Canvas) → steps_of (handle_namespace_change n c).0 ≡ steps_of c
unfolding handle_namespace_change
steps-handle_namespace_change n c = elim (List-cases c.canvas_steps) [
  | inl empty ↦ ground arith
  | inr (s, rest, full) ↦ ground arith
]

steps-submit_checked :
    (error : Option JsString) (steps : List PipelineStep) (p : Pipeline) (c : Canvas)
    → steps_of (submit_checked error steps p c).0 ≡ steps_of c
steps-submit_checked (some message) steps p c = refl
steps-submit_checked none [] p c = refl
steps-submit_checked none (s ∷ steps) p c = refl

steps-save_parsed :
    (parsed : Option Pipeline) (c : Canvas) → steps_of (save_parsed parsed c).0 ≡ steps_of c
unfolding save_parsed submit
steps-save_parsed none c = refl
steps-save_parsed (some p) c = steps-submit_checked _ _ p c

steps-adopt : (r : Parsed) (c : Canvas) → steps_of (adopt r c).0 ≡ steps_of c
steps-adopt (object p) c = refl
steps-adopt no_object c = refl
steps-adopt (thrown message) c = refl

steps-show_parsed :
    (parsed : Option Pipeline) (c : Canvas)
    → steps_of (show_parsed parsed c) ≡ run (parsed_command parsed) (steps_of c)
unfolding run
steps-show_parsed none c = refl
steps-show_parsed (some p) c = refl

steps-save_answered :
    (r : SaveRequest) (a : Answer Pipeline) (c : Canvas)
    → steps_of (save_answered r a c).0 ≡ steps_of c
unfolding save_answered
steps-save_answered r (ok p) c = refl
steps-save_answered r (failed message) c = refl

module _ (stringify : Pipeline → JsString) (parse : JsString → Parsed) where
  steps-save_in :
      (mode : ViewMode) (c : Canvas) → IsSynced c → steps_of (save_in parse mode c).0 ≡ steps_of c
  unfolding save_in submit update_pipeline_from_canvas yaml_to_pipeline
  steps-save_in yaml c h = steps-save_parsed _ _ ∙ steps-adopt (parse c.yaml_content) c
  steps-save_in builder c h = steps-submit_checked _ _ _ _ ∙ sym h.steps

  -- What a handler asks of the list of steps.
  abbrev pub command : {c d : Canvas} → Step stringify parse c d → Command
  command (added type c) = add type
  command (removed name c) = remove name
  command (updated name u c) = update name u
  command (dragged_over index c e) = drag_command c.dragged_step_index index
  command (dropped type c) = drop_command type
  command (loaded_copy p a c fits e) = put p.spec.steps
  command (to_builder c) = parsed_command (yaml_to_pipeline parse c.yaml_content c).1
  command _ = keep

  Step-run :
      {c d : Canvas} (s : Step stringify parse c d)
      → IsSynced c
      → steps_of d ≡ run (command s) (steps_of c)
  unfolding run select_step close_drawer handle_drag_start handle_drag_end update_pipeline_name
      open_settings switch_to_yaml_view switch_to_builder_view handle_yaml_change
      update_pipeline_from_canvas handle_canvas_drop save_pipeline yaml_to_pipeline
  Step-run (added type c) h = add_step-run type c h
  Step-run (removed name c) h = remove_step-run name c h
  Step-run (selected name c) h = refl
  Step-run (closed c) h = refl
  Step-run (updated name u c) h = update_step-run name u c h
  Step-run (drag_started index c) h = refl
  Step-run (drag_ended c) h = refl
  Step-run (dragged_over index c {d} e) h = handle_drag_over-run index c d e h
  Step-run (dropped none c) h = refl
  Step-run (dropped (some type) c) h = add_step-run type c h
  Step-run (renamed name c) h = refl
  Step-run (opened_settings c) h = refl
  Step-run (settings ch form c given) h =
      let handled = handle-IsHandled c.pipeline ch form given in
      rw handled.sent (
        steps-receive_updates c.pipeline (handled.before ++ handled.last ∷ []) c refl
          handled.all_kept)
  Step-run (changed_namespace n c) h = steps-handle_namespace_change n c
  Step-run (loaded n a c {d} e) h = steps-load_existing_pipelines n a c d e
  Step-run (loaded_copy p a c {d} fits e) h = steps-load_from_copied_pipeline p a c d e
  Step-run (to_yaml c) h = sym h.steps
  Step-run (to_builder c) h =
      steps-show_parsed (adopt (parse c.yaml_content) c).1 (adopt (parse c.yaml_content) c).0
      ∙ ap (run (parsed_command (adopt (parse c.yaml_content) c).1))
          (steps-adopt (parse c.yaml_content) c)
  Step-run (typed text c) h = steps-adopt (parse text) (record c { yaml_content = text })
  Step-run (saved c) h = steps-save_in c.view_mode c h
  Step-run (answered r a c) h = steps-save_answered r a c

  -- The commands of a run, the last one first, and the steps that they leave.
  abbrev pub commands : {c : Canvas} → Reach stringify parse c → List Command
  commands (start namespace) = []
  commands (next r s) = command s ∷ commands r

abbrev pub run_all : List Command → List PipelineStep
run_all [] = []
run_all (command ∷ earlier) = run command (run_all earlier)

steps-start : (namespace : JsString) → steps_of (connected namespace new_canvas) ≡ []
unfolding connected new_canvas create_empty_pipeline
steps-start namespace = by_test (str_eq namespace [] || str_eq namespace (codes "default"))
  where
    by_test :
        (b : Bool)
        → steps_of (
            if b then new_canvas else record new_canvas {
              pipeline = create_empty_pipeline (codes "new-pipeline") namespace;
            })
          ≡ []
    by_test true = refl
    by_test false = refl

-- The builder implements a machine whose state is a list of steps: whatever handlers run, the
-- pipeline and the canvas have the steps that the commands of the run leave of the empty list, where
-- adding, removing, updating and dragging a step are the operations on lists, a copy or a text that
-- is taken over puts its steps there, and no other handler touches the steps. A copied pipeline that
-- is loaded has steps or meets an empty canvas.
pub Reach-run_all :
    (stringify : Pipeline → JsString) (parse : JsString → Parsed) {c : Canvas}
    (r : Reach stringify parse c)
    → (steps_of c ≡ run_all (commands stringify parse r))
      × (strip c.canvas_steps ≡ run_all (commands stringify parse r))
Reach-run_all stringify parse {c} r =
    let left = by_run r in (left, sym (Reach-IsSynced stringify parse r).steps ∙ left)
  where
    by_run :
        {d : Canvas} (q : Reach stringify parse d)
        → steps_of d ≡ run_all (commands stringify parse q)
    by_run (start namespace) = steps-start namespace
    by_run (next q s) =
        Step-run stringify parse s (Reach-IsSynced stringify parse q)
        ∙ ap (run (command stringify parse s)) (by_run q)
