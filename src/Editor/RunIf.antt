-- ===== src/Editor/RunIf.antt =====
-- ui/src/components/builder/step-editor.ts: what ticking a step does to the condition of the edited
-- one, once the builder has merged it in.
use jobrunner.Prelude.{
  JsString, List, [], ◌∷◌, ◌++◌, some, Bool, true, false, not, ◌&&◌, ◌||◌, ◌≡◌, ◌≢◌, ◌⊎◌, refl, ap,
  ◌∙◌, arith, has, filter, delete, str_eq, str_eq_iff, Bool-cases, inl, inr, if◌then◌else◌,
  has-append, has-delete, subst,
}
use jobrunner.Types.Pipeline.{PipelineStep, RunIfCondition}
use jobrunner.Canvas.{merge}
use jobrunner.Editor.{run_or_empty, toggled_update, update_run_if, toggle_run_if_step}

-- The step after the toggle.
abbrev pub toggled : JsString → PipelineStep → PipelineStep
toggled name step = merge step (toggle_run_if_step name step)

abbrev pub waits_for : PipelineStep → List JsString
waits_for step = (run_or_empty step.run_if).steps

-- A condition lists a step.
abbrev pub IsProper : PipelineStep → Type 0
IsProper step = (run : RunIfCondition) → step.run_if ≡ some run → run.steps ≢ []

toggled_update-waits_for :
    (steps : List JsString) (step : PipelineStep)
    → waits_for (merge step (toggled_update steps step)) ≡ steps
unfolding update_run_if
toggled_update-waits_for [] step = refl
toggled_update-waits_for (s ∷ steps) step = refl

toggled_update-IsProper :
    (steps : List JsString) (step : PipelineStep)
    → IsProper (merge step (toggled_update steps step))
unfolding update_run_if
toggled_update-IsProper [] step run e = cc
toggled_update-IsProper (s ∷ steps) step run e = (λ h. cc)

has-toggled :
    (name : JsString) (current : List JsString) (x : JsString)
    → has
        (if has current name
          then filter (λ s. not (str_eq s name)) current
          else current ++ name ∷ [])
        x
      ≡ (if str_eq name x then not (has current x) else has current x)
unfolding delete has
has-toggled name current x = elim (Bool-cases (has current name)) [
  | inl listed ↦ rw listed (has-delete current name x ∙ out (Bool-cases (str_eq name x)) listed)
  | inr free ↦ rw free (has-append current (name ∷ []) x ∙ into (Bool-cases (str_eq name x)) free)
]
  where
    here : (b : Bool) → has current name ≡ b → str_eq name x ≡ true → has current x ≡ b
    here b h e = subst (λ y. has current y ≡ b) ((str_eq_iff name x).0 e) h

    out :
        (str_eq name x ≡ true) ⊎ (str_eq name x ≡ false)
        → has current name ≡ true
        → (has current x && not (str_eq name x))
          ≡ (if str_eq name x then not (has current x) else has current x)
    out (inl e) h = let there = here true h e in ground arith
    out (inr e) h = ground arith

    into :
        (str_eq name x ≡ true) ⊎ (str_eq name x ≡ false)
        → has current name ≡ false
        → (has current x || has (name ∷ []) x)
          ≡ (if str_eq name x then not (has current x) else has current x)
    into (inl e) h = let there = here false h e in ground arith
    into (inr e) h = ground arith

-- A toggle takes the step into the condition or out of it and leaves the other steps as they are; a
-- condition that is left without steps is removed.
pub toggle_run_if_step_lem :
    (name : JsString) (step : PipelineStep)
    → ((x : JsString)
        → has (waits_for (toggled name step)) x
          ≡ (if str_eq name x then not (has (waits_for step) x) else has (waits_for step) x))
      × IsProper (toggled name step)
unfolding toggle_run_if_step
toggle_run_if_step_lem name step =
    let current = waits_for step in
    let steps =
      if has current name
      then filter (λ s. not (str_eq s name)) current
      else current ++ name ∷ [] in
    let after = toggled_update-waits_for steps step in
    (
      λ x. ap (λ xs. has xs x) after ∙ has-toggled name current x,
      toggled_update-IsProper steps step,
    )
