-- ===== src/Canvas/Sync/Reach.antt =====
-- The runs of the builder: its handlers in any order, and the answers of the cluster when they come.
use jobrunner.Prelude.{
  Answer, ℕ, JsString, List, [], ◌∷◌, All, subst, sym, Option, some, Bool, true, false, ◌≡◌, ◌≢◌,
  refl, ◌∙◌, ◌⊎◌, ◌||◌, if◌then◌else◌, str_eq, codes,
}
use jobrunner.Types.Pipeline.{Pipeline}
use jobrunner.Graph.{create_empty_pipeline}
use jobrunner.Canvas.{
  Canvas, new_canvas, StepType, add_step, remove_step, select_step, close_drawer, StepUpdates,
  update_step, handle_drag_start, handle_drag_end, handle_drag_over, handle_canvas_drop, connected,
  load_existing_pipelines, load_from_copied_pipeline, handle_namespace_change, update_pipeline_name,
  open_settings, update_settings, receive_updates, Parsed, switch_to_yaml_view,
  switch_to_builder_view, handle_yaml_change, SaveRequest, save_pipeline, save_answered,
}
use jobrunner.Settings.{GlobalSettings, Change, handle}
use jobrunner.Settings.Keeps.{IsKept, handle-IsHandled}
use jobrunner.Canvas.Sync.{
  IsSynced, add_step-IsSynced, remove_step-IsSynced, update_step-IsSynced,
  handle_drag_over-IsSynced, handle_canvas_drop-IsSynced, load_existing_pipelines-IsSynced,
  load_from_copied_pipeline-IsSynced, handle_namespace_change-IsSynced,
  switch_to_builder_view-IsSynced, yaml_to_pipeline-IsSynced, save_pipeline-IsSynced,
  save_answered-IsSynced,
}

receive_updates-IsSynced :
    (q : Pipeline) (sent : List Pipeline) (c : Canvas)
    → q.spec.steps ≡ c.pipeline.spec.steps
    → All (IsKept q) sent
    → IsSynced c
    → IsSynced (receive_updates sent c)
unfolding receive_updates update_settings
receive_updates-IsSynced q [] c same _ h = h
receive_updates-IsSynced q (p ∷ sent) c same (k, kept) h =
    receive_updates-IsSynced q sent _ (sym k.steps) kept
      (record { steps = k.steps ∙ same ∙ h.steps; editor = h.editor })

settings-IsSynced :
    (ch : Change) (form : GlobalSettings) (c : Canvas)
    → form.pipeline ≡ some c.pipeline
    → IsSynced c
    → IsSynced (receive_updates (handle ch form).1 c)
settings-IsSynced ch form c given h =
    let handled = handle-IsHandled c.pipeline ch form given in
    receive_updates-IsSynced c.pipeline _ c refl
      (subst (All (IsKept c.pipeline)) (sym handled.sent) handled.all_kept) h

module _ (stringify : Pipeline → JsString) (parse : JsString → Parsed) where
  -- One handler of the builder. `loaded_copy` is refused a pipeline without steps once the user has
  -- added steps. `settings` is a change in the form of the settings, which the builder gives its
  -- pipeline whenever it is rendered.
  pub data Step : Canvas → Canvas → Type 0 where
    added : (type : StepType) (c : Canvas) → Step c (add_step type c)
    removed : (name : JsString) (c : Canvas) → Step c (remove_step name c)
    selected : (name : JsString) (c : Canvas) → Step c (select_step name c)
    closed : (c : Canvas) → Step c (close_drawer c)
    updated : (name : JsString) (u : StepUpdates) (c : Canvas) → Step c (update_step name u c)
    drag_started : (index : ℕ) (c : Canvas) → Step c (handle_drag_start index c)
    drag_ended : (c : Canvas) → Step c (handle_drag_end c)
    dragged_over :
        (index : ℕ) (c : Canvas) {d : Canvas} → handle_drag_over index c ≡ some d → Step c d
    dropped : (type : Option StepType) (c : Canvas) → Step c (handle_canvas_drop type c)
    renamed : (name : JsString) (c : Canvas) → Step c (update_pipeline_name name c)
    opened_settings : (c : Canvas) → Step c (open_settings c)
    settings :
        (ch : Change) (form : GlobalSettings) (c : Canvas)
        → form.pipeline ≡ some c.pipeline
        → Step c (receive_updates (handle ch form).1 c)
    changed_namespace : (n : JsString) (c : Canvas) → Step c (handle_namespace_change n c).0
    loaded :
        (n : JsString) (a : Answer (List Pipeline)) (c : Canvas) {d : Canvas}
        → load_existing_pipelines n a c ≡ some d
        → Step c d
    loaded_copy :
        (p : Pipeline) (a : Answer (List Pipeline)) (c : Canvas) {d : Canvas}
        → (p.spec.steps ≢ []) ⊎ (c.canvas_steps ≡ [])
        → load_from_copied_pipeline p a c ≡ some d
        → Step c d
    to_yaml : (c : Canvas) → Step c (switch_to_yaml_view stringify c)
    to_builder : (c : Canvas) → Step c (switch_to_builder_view parse c)
    typed : (text : JsString) (c : Canvas) → Step c (handle_yaml_change parse text c)
    saved : (c : Canvas) → Step c (save_pipeline parse c).0
    answered : (r : SaveRequest) (a : Answer Pipeline) (c : Canvas) → Step c (save_answered r a c).0

  pub data Reach : Canvas → Type 0 where
    start : (namespace : JsString) → Reach (connected namespace new_canvas)
    next : {c d : Canvas} → Reach c → Step c d → Reach d

  Step-IsSynced : {c d : Canvas} → Step c d → IsSynced c → IsSynced d
  unfolding select_step close_drawer handle_drag_start handle_drag_end update_pipeline_name
      open_settings switch_to_yaml_view handle_yaml_change
  Step-IsSynced (added type c) h = add_step-IsSynced type c h
  Step-IsSynced (removed name c) h = remove_step-IsSynced name c h
  Step-IsSynced (selected name c) h = record { steps = h.steps; editor = λ _. cc }
  Step-IsSynced (closed c) h = record { steps = h.steps; editor = λ e. cc }
  Step-IsSynced (updated name u c) h = update_step-IsSynced name u c h
  Step-IsSynced (drag_started index c) h = record { steps = h.steps; editor = h.editor }
  Step-IsSynced (drag_ended c) h = record { steps = h.steps; editor = h.editor }
  Step-IsSynced (dragged_over index c {d} e) h = handle_drag_over-IsSynced index c d e h
  Step-IsSynced (dropped type c) h = handle_canvas_drop-IsSynced type c h
  Step-IsSynced (renamed name c) h = record { steps = h.steps; editor = h.editor }
  Step-IsSynced (opened_settings c) h = record { steps = h.steps; editor = λ e. cc }
  Step-IsSynced (settings ch form c given) h = settings-IsSynced ch form c given h
  Step-IsSynced (changed_namespace n c) h = handle_namespace_change-IsSynced n c h
  Step-IsSynced (loaded n a c {d} e) h = load_existing_pipelines-IsSynced n a c d e h
  Step-IsSynced (loaded_copy p a c {d} fits e) h =
      load_from_copied_pipeline-IsSynced p a c d fits e h
  Step-IsSynced (to_yaml c) h = record { steps = refl; editor = λ e. cc }
  Step-IsSynced (to_builder c) h = switch_to_builder_view-IsSynced parse c h
  Step-IsSynced (typed text c) h =
      yaml_to_pipeline-IsSynced parse text _ (record { steps = h.steps; editor = h.editor })
  Step-IsSynced (saved c) h = save_pipeline-IsSynced parse c h
  Step-IsSynced (answered r a c) h = save_answered-IsSynced r a c h

start-IsSynced : (namespace : JsString) → IsSynced (connected namespace new_canvas)
unfolding connected new_canvas create_empty_pipeline
start-IsSynced namespace = by_test (str_eq namespace [] || str_eq namespace (codes "default"))
  where
    by_test :
        (b : Bool)
        → IsSynced (
            if b then new_canvas else record new_canvas {
              pipeline = create_empty_pipeline (codes "new-pipeline") namespace;
            })
    by_test true = record { steps = refl; editor = λ e. cc }
    by_test false = record { steps = refl; editor = λ e. cc }

-- After any run of handlers the pipeline holds exactly the steps of the canvas, in their order, and
-- an open step editor has a step selected, so long as a copied pipeline that is loaded has steps or
-- meets an empty canvas.
pub Reach-IsSynced :
    (stringify : Pipeline → JsString) (parse : JsString → Parsed) {c : Canvas}
    → Reach stringify parse c
    → IsSynced c
Reach-IsSynced stringify parse (start namespace) = start-IsSynced namespace
Reach-IsSynced stringify parse (next r s) =
    Step-IsSynced stringify parse s (Reach-IsSynced stringify parse r)
