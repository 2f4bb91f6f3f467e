-- ===== src/Canvas/Saving.antt =====
-- When `savePipeline` sends a pipeline to the cluster, and which.
use mathlib.Core.Path.{ap₂}
use mathlib.Core.Option.{some-injective}
use jobrunner.Prelude.{
  or_else, subst, JsString, codes, List, [], ◌∷◌, Option, none, some, true, false, ◌≡◌, ◌≢◌, ◌↔◌,
  refl, sym, ap, ◌∙◌, arith, has, inl, inr, Bool-cases, cons_of_ne-nil,
}
use jobrunner.Types.Pipeline.{PipelineStep, Pipeline}
use jobrunner.Graph.StepName.{validate_step_name}
use jobrunner.Graph.StepName.Grammar.{IsLabel, validate_step_name_iff}
use jobrunner.Canvas.{
  Canvas, ViewMode, builder, yaml, set_steps, strip, update_pipeline_from_canvas,
  validate_pipeline_name, Parsed, yaml_to_pipeline, adopt, object, no_object, thrown,
  submit_checked, save_parsed, SaveRequest, submit, save_in, save_pipeline,
}

-- The name is a label, it is free, and there is a step.
pub record IsSavable (c : Canvas) (p : Pipeline) : Type 0 where
  pub label : IsLabel p.metadata.name
  pub free : has c.existing_pipeline_names p.metadata.name ≡ false
  pub steps : p.spec.steps ≢ []

validate_pipeline_name_iff :
    (name : JsString) (c : Canvas)
    → (validate_pipeline_name name c ≡ none)
      ↔ (IsLabel name × (has c.existing_pipeline_names name ≡ false))
unfolding validate_pipeline_name
validate_pipeline_name_iff name c =
    let (valid, error) = validate_step_name_iff name in
    elim (Bool-cases (validate_step_name name).valid) [
      | inl good ↦ let label = valid.0 good in (λ e. (label, ground arith), λ h. ground arith)
      | inr bad ↦ (λ e. absurd (ground arith), λ h. absurd (ground (arith, valid.1 h.0)))
    ]

-- The record that `submit` makes of a canvas whose pipeline is sent.
abbrev pub sending : Canvas → Canvas
sending c = record c { saving = true; error = none }

abbrev pub request_of : Pipeline → SaveRequest
request_of p = record { namespace = or_else p.metadata.namespace (codes "default"); pipeline = p }

submit_savable :
    (p : Pipeline) (c : Canvas) → IsSavable c p → submit p c ≡ (sending c, some (request_of p))
unfolding submit
submit_savable p c h =
    let (s, rest, full) = cons_of_ne-nil p.spec.steps h.steps in
    let valid = (validate_pipeline_name_iff p.metadata.name c).1 (h.label, h.free) in
    ap₂ (λ error steps. submit_checked error steps p c) valid full

-- Nothing is sent, and an error is shown.
abbrev pub IsRefused : Canvas × Option SaveRequest → Type 0
IsRefused r = (r.1 ≡ none) × (r.0.error ≢ none)

submit-IsRefused : (p : Pipeline) (c : Canvas) → ¬ IsSavable c p → IsRefused (submit p c)
unfolding submit
submit-IsRefused p c h = by_checks (validate_pipeline_name p.metadata.name c) p.spec.steps refl refl
  where
    by_checks :
        (error : Option JsString) (steps : List PipelineStep)
        → validate_pipeline_name p.metadata.name c ≡ error
        → p.spec.steps ≡ steps
        → IsRefused (submit_checked error steps p c)
    by_checks (some message) steps e full = (refl, λ r. cc)
    by_checks none [] e full = (refl, λ r. cc)
    by_checks none (s ∷ steps) e full =
        let (label, free) = (validate_pipeline_name_iff p.metadata.name c).0 e in
        absurd (h (record { label = label; free = free; steps = λ r. cc }))

-- The pipeline that a save is about: the steps of the canvas are put in first in the builder view,
-- and the text is the source in the YAML view.
abbrev pub to_save : (JsString → Parsed) → ViewMode → Canvas → Option Pipeline
to_save parse builder c = some (set_steps c.pipeline (strip c.canvas_steps))
to_save parse yaml c = (yaml_to_pipeline parse c.yaml_content c).1

abbrev SameNames : Canvas → Canvas → Type 0
SameNames c c' = c'.existing_pipeline_names ≡ c.existing_pipeline_names

IsSavable-same : (c c' : Canvas) (p : Pipeline) → SameNames c c' → IsSavable c p → IsSavable c' p
IsSavable-same c c' p same h = record {
  label = h.label;
  free = ap (λ names. has names p.metadata.name) same ∙ h.free;
  steps = h.steps;
}

save_parsed_savable :
    (parsed : Option Pipeline) (c c' : Canvas) (p : Pipeline)
    → SameNames c c'
    → parsed ≡ some p
    → IsSavable c p
    → (save_parsed parsed c').1 ≡ some (request_of p)
unfolding save_parsed
save_parsed_savable none c c' p same e h = cc
save_parsed_savable (some q) c c' p same e h =
    let sent = ap (λ r. r.1) (submit_savable p c' (IsSavable-same c c' p same h)) in
    subst (λ x. (submit x c').1 ≡ some (request_of p)) (sym (some-injective _ _ e)) sent

save_parsed-IsRefused :
    (parsed : Option Pipeline) (c c' : Canvas)
    → SameNames c c'
    → ((p : Pipeline) → parsed ≡ some p → ¬ IsSavable c p)
    → IsRefused (save_parsed parsed c')
unfolding save_parsed
save_parsed-IsRefused none c c' same h = (refl, λ e. cc)
save_parsed-IsRefused (some q) c c' same h =
    submit-IsRefused q c' (λ s. h q refl (IsSavable-same c' c q (sym same) s))

adopt-SameNames : (r : Parsed) (c : Canvas) → SameNames c (adopt r c).0
adopt-SameNames (object p) c = refl
adopt-SameNames no_object c = refl
adopt-SameNames (thrown message) c = refl

module _ (parse : JsString → Parsed) where
  save_in_savable :
      (mode : ViewMode) (c : Canvas) (p : Pipeline)
      → to_save parse mode c ≡ some p
      → IsSavable c p
      → (save_in parse mode c).1 ≡ some (request_of p)
  unfolding save_in update_pipeline_from_canvas save_parsed yaml_to_pipeline
  save_in_savable builder c p e h =
      save_parsed_savable _ c (update_pipeline_from_canvas c) p refl e h
  save_in_savable yaml c p e h =
      save_parsed_savable _ c _ p (adopt-SameNames (parse c.yaml_content) c) e h

  save_in-IsRefused :
      (mode : ViewMode) (c : Canvas)
      → ((p : Pipeline) → to_save parse mode c ≡ some p → ¬ IsSavable c p)
      → IsRefused (save_in parse mode c)
  unfolding save_in update_pipeline_from_canvas save_parsed yaml_to_pipeline
  save_in-IsRefused builder c h =
      save_parsed-IsRefused (to_save parse builder c) c (update_pipeline_from_canvas c) refl h
  save_in-IsRefused yaml c h =
      save_parsed-IsRefused _ c _ (adopt-SameNames (parse c.yaml_content) c) h

-- A save sends the pipeline of the view if its name is a label that is not among the names known to
-- be taken and it has a step; it goes to its own namespace, or to default.
pub save_pipeline_savable :
    (parse : JsString → Parsed) (c : Canvas) (p : Pipeline)
    → to_save parse c.view_mode c ≡ some p
    → IsSavable c p
    → (save_pipeline parse c).1 ≡ some (request_of p)
unfolding save_pipeline
save_pipeline_savable parse c p e h = save_in_savable parse c.view_mode c p e h

-- A save of a pipeline whose name is no label or is known to be taken, or that has no step, sends
-- nothing and shows an error; so does a save of a text that does not parse.
pub save_pipeline-IsRefused :
    (parse : JsString → Parsed) (c : Canvas)
    → ((p : Pipeline) → to_save parse c.view_mode c ≡ some p → ¬ IsSavable c p)
    → IsRefused (save_pipeline parse c)
unfolding save_pipeline
save_pipeline-IsRefused parse c h = save_in-IsRefused parse c.view_mode c h
