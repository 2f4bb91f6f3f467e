-- ===== src/Canvas/Sync.antt =====
-- The pipeline of the builder holds the steps that the canvas shows: each handler keeps that.
pub mod Reach
pub mod Commands
pub mod Refines
pub mod Runs
use mathlib.Core.Option
use mathlib.Core.Option.{some-injective}
use jobrunner.Prelude.{
  Answer, ok, failed, ℕ, suc, ◌+◌, JsString, List, [], ◌∷◌, ◌++◌, Option, none, some, Bool, true,
  false, map, ◌≡◌, ◌≢◌, refl, sym, ◌∙◌, ap, ◌⊎◌, inl, inr, arith, Option-cases, Bool-cases,
  List-cases, subst, ◌==◌, get_elem?,
}
use jobrunner.Types.Pipeline.{PipelineStep, Pipeline}
use jobrunner.Canvas.{
  CanvasStep, Canvas, ViewMode, builder, yaml, show_parsed, save_in, save_parsed, submit_checked,
  strip, move_step, load_steps, lay_out_from, lay_out, update_pipeline_from_canvas, StepType,
  add_step, remove_step, select_step, close_drawer, StepUpdates, update_step, handle_drag_start,
  handle_drag_end, handle_drag_over, handle_canvas_drop, load_existing_pipelines,
  load_from_copied_pipeline, handle_namespace_change, update_pipeline_name, Parsed,
  switch_to_yaml_view, yaml_to_pipeline, adopt, object, no_object, thrown, validate_pipeline_name,
  switch_to_builder_view, handle_yaml_change, SaveRequest, submit, save_pipeline, save_answered,
}

pub record IsSynced (c : Canvas) : Type 0 where
  -- The pipeline has the steps of the canvas, in their order.
  pub steps : c.pipeline.spec.steps ≡ strip c.canvas_steps
  -- An open step editor has a step to edit.
  pub editor : c.show_step_editor ≡ true → c.selected_step ≢ none

strip-lay_out_from :
    (index : ℕ) (steps : List PipelineStep) → strip (lay_out_from index steps) ≡ steps
unfolding lay_out_from
strip-lay_out_from index [] = refl
strip-lay_out_from index (s ∷ steps) = ap (λ r. s ∷ r) (strip-lay_out_from (index + 1) steps)

pub strip-lay_out : (steps : List PipelineStep) → strip (lay_out steps) ≡ steps
unfolding lay_out
strip-lay_out steps = strip-lay_out_from 0 steps

pub add_step-IsSynced : (type : StepType) (c : Canvas) → IsSynced c → IsSynced (add_step type c)
unfolding add_step
add_step-IsSynced type c h = record { steps = refl; editor = λ _. cc }

pub remove_step-IsSynced :
    (name : JsString) (c : Canvas) → IsSynced c → IsSynced (remove_step name c)
unfolding remove_step
remove_step-IsSynced name c h = ground (arith, h.editor)

pub update_step-IsSynced :
    (name : JsString) (updates : StepUpdates) (c : Canvas)
    → IsSynced c
    → IsSynced (update_step name updates c)
unfolding update_step
update_step-IsSynced name updates c h = record { steps = refl; editor = h.editor }

-- What `handleDragOver` does: nothing, or one move.
pub handle_drag_over-cases :
    (index : ℕ) (c d : Canvas)
    → handle_drag_over index c ≡ some d
    → (d ≡ c)
      ⊎ ((i : ℕ) × (dragged : CanvasStep) × (c.dragged_step_index ≡ some i)
          × (i ≢ index)
          × (get_elem? c.canvas_steps i ≡ some dragged)
          × (d ≡ move_step i dragged index c))
unfolding handle_drag_over
handle_drag_over-cases index c d e = elim (Option-cases c.dragged_step_index) [
  | inl idle ↦ inl (ground arith)
  | inr (i, held) ↦ elim (Bool-cases (i == index)) [
    | inl same ↦ inl (ground arith)
    | inr other ↦ elim (Option-cases (get_elem? c.canvas_steps i)) [
      | inl past ↦ absurd (ground arith)
      | inr (dragged, there) ↦ inr (i, dragged, held, ground arith, there, ground arith)
    ]
  ]
]

pub move_step-IsSynced :
    (i : ℕ) (dragged : CanvasStep) (index : ℕ) (c : Canvas)
    → IsSynced c
    → IsSynced (move_step i dragged index c)
unfolding update_pipeline_from_canvas
move_step-IsSynced i dragged index c h = record { steps = refl; editor = h.editor }

pub handle_drag_over-IsSynced :
    (index : ℕ) (c d : Canvas) → handle_drag_over index c ≡ some d → IsSynced c → IsSynced d
handle_drag_over-IsSynced index c d e h = elim (handle_drag_over-cases index c d e) [
  | inl same ↦ subst IsSynced (sym same) h
  | inr (i, dragged, held, other, there, moved) ↦
      subst IsSynced (sym moved) (move_step-IsSynced i dragged index c h)
]

pub handle_canvas_drop-IsSynced :
    (type : Option StepType) (c : Canvas) → IsSynced c → IsSynced (handle_canvas_drop type c)
unfolding handle_canvas_drop
handle_canvas_drop-IsSynced none c h = h
handle_canvas_drop-IsSynced (some type) c h = add_step-IsSynced type c h

pub load_existing_pipelines-IsSynced :
    (namespace : JsString) (answer : Answer (List Pipeline)) (c d : Canvas)
    → load_existing_pipelines namespace answer c ≡ some d
    → IsSynced c
    → IsSynced d
unfolding load_existing_pipelines
load_existing_pipelines-IsSynced namespace (failed message) c d e h = subst IsSynced (cc) h
load_existing_pipelines-IsSynced namespace (ok pipelines) c d e h =
    let (name, free, same) = (Option.map-eq-some_iff _ _).0 e in
    subst IsSynced same (record { steps = h.steps; editor = h.editor })

strip-load_steps :
    (steps : List PipelineStep) (old : List CanvasStep)
    → (steps ≢ []) ⊎ (old ≡ [])
    → steps ≡ strip (load_steps steps old)
strip-load_steps [] old (inl some_step) = absurd (some_step refl)
strip-load_steps [] old (inr empty) = rw empty
strip-load_steps (s ∷ steps) old h = sym (strip-lay_out (s ∷ steps))

pub load_from_copied_pipeline-IsSynced :
    (copied : Pipeline) (answer : Answer (List Pipeline)) (c d : Canvas)
    → (copied.spec.steps ≢ []) ⊎ (c.canvas_steps ≡ [])
    → load_from_copied_pipeline copied answer c ≡ some d
    → IsSynced c
    → IsSynced d
unfolding load_from_copied_pipeline
load_from_copied_pipeline-IsSynced copied (failed message) c d fits e h =
    subst IsSynced (some-injective _ _ e)
      (record { steps = strip-load_steps copied.spec.steps c.canvas_steps fits; editor = h.editor })
load_from_copied_pipeline-IsSynced copied (ok pipelines) c d fits e h =
    let (name, free, same) = (Option.map-eq-some_iff _ _).0 e in
    subst IsSynced same
      (record { steps = strip-load_steps copied.spec.steps c.canvas_steps fits; editor = h.editor })

pub handle_namespace_change-IsSynced :
    (namespace : JsString) (c : Canvas)
    → IsSynced c
    → IsSynced (handle_namespace_change namespace c).0
unfolding handle_namespace_change
handle_namespace_change-IsSynced namespace c h = elim (List-cases c.canvas_steps) [
  | inl empty ↦ record { steps = ground arith; editor = ground (arith, h.editor) }
  | inr (s, rest, full) ↦ record { steps = ground arith; editor = ground (arith, h.editor) }
]

submit_checked-IsSynced :
    (error : Option JsString) (steps : List PipelineStep) (p : Pipeline) (c : Canvas)
    → IsSynced c
    → IsSynced (submit_checked error steps p c).0
submit_checked-IsSynced (some message) steps p c h = record { steps = h.steps; editor = h.editor }
submit_checked-IsSynced none [] p c h = record { steps = h.steps; editor = h.editor }
submit_checked-IsSynced none (s ∷ steps) p c h = record { steps = h.steps; editor = h.editor }

submit-IsSynced : (p : Pipeline) (c : Canvas) → IsSynced c → IsSynced (submit p c).0
unfolding submit
submit-IsSynced p c h = submit_checked-IsSynced _ _ p c h

show_parsed-IsSynced :
    (parsed : Option Pipeline) (c : Canvas) → IsSynced c → IsSynced (show_parsed parsed c)
show_parsed-IsSynced none c h = h
show_parsed-IsSynced (some p) c h = record {
  steps = sym (strip-lay_out p.spec.steps);
  editor = h.editor;
}

save_parsed-IsSynced :
    (parsed : Option Pipeline) (c : Canvas) → IsSynced c → IsSynced (save_parsed parsed c).0
unfolding save_parsed
save_parsed-IsSynced none c h = record { steps = h.steps; editor = h.editor }
save_parsed-IsSynced (some p) c h = submit-IsSynced p c h

module _ (parse : JsString → Parsed) where
  pub yaml_to_pipeline-IsSynced :
      (text : JsString) (c : Canvas) → IsSynced c → IsSynced (yaml_to_pipeline parse text c).0
  unfolding yaml_to_pipeline
  yaml_to_pipeline-IsSynced text c h = by_result (parse text)
    where
      by_result : (r : Parsed) → IsSynced (adopt r c).0
      by_result (object p) = record { steps = h.steps; editor = h.editor }
      by_result no_object = record { steps = h.steps; editor = h.editor }
      by_result (thrown message) = record { steps = h.steps; editor = h.editor }

  pub switch_to_builder_view-IsSynced :
      (c : Canvas) → IsSynced c → IsSynced (switch_to_builder_view parse c)
  unfolding switch_to_builder_view
  switch_to_builder_view-IsSynced c h =
      show_parsed-IsSynced (yaml_to_pipeline parse c.yaml_content c).1 _
        (yaml_to_pipeline-IsSynced c.yaml_content c h)

  save_in-IsSynced : (mode : ViewMode) (c : Canvas) → IsSynced c → IsSynced (save_in parse mode c).0
  unfolding save_in
  save_in-IsSynced yaml c h =
      save_parsed-IsSynced (yaml_to_pipeline parse c.yaml_content c).1 _
        (yaml_to_pipeline-IsSynced c.yaml_content c h)
  save_in-IsSynced builder c h =
      let c' : Canvas = update_pipeline_from_canvas c in
      submit-IsSynced c'.pipeline c'
        (unfold update_pipeline_from_canvas in record { steps = refl; editor = h.editor })

  pub save_pipeline-IsSynced : (c : Canvas) → IsSynced c → IsSynced (save_pipeline parse c).0
  unfolding save_pipeline
  save_pipeline-IsSynced c h = save_in-IsSynced c.view_mode c h

pub save_answered-IsSynced :
    (r : SaveRequest) (a : Answer Pipeline) (c : Canvas)
    → IsSynced c
    → IsSynced (save_answered r a c).0
unfolding save_answered
save_answered-IsSynced r (ok p) c h = record { steps = h.steps; editor = h.editor }
save_answered-IsSynced r (failed message) c h = record { steps = h.steps; editor = h.editor }
