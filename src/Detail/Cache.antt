-- ===== src/Detail/Cache.antt =====
-- What the drawer of a step shows, from the cache or from the pipeline.
use jobrunner.Prelude.{
  ℕ, ==_iff, JsString, Option, none, some, Bool, true, false, not, ◌||◌, ◌≡◌, refl, ◌∙◌, ap, find,
  str_eq, str_eq_refl, if◌then◌else◌,
}
use jobrunner.Types.Pipeline.{PipelineStep, Pipeline}
use jobrunner.Types.Status.{StepPhase, JobStatus, StepStatus}
use jobrunner.Graph.{find_status}
use jobrunner.Detail.{
  PipelineDetail, is_text, is_none, same_phase, same_text, same_number, same_shown,
  has_status_changed, view_of, refresh_cache, show_step, render_step_details,
}

-- The step of the cache has the name of the cache.
pub record IsCached (s : PipelineDetail) : Type 0 where
  pub named :
      (step : PipelineStep) → s.cached_step ≡ some step → s.cached_step_name ≡ some step.name

same_phase_refl : (a : StepPhase) → same_phase a a ≡ true
same_phase_refl StepPhase.pending = refl
same_phase_refl StepPhase.running = refl
same_phase_refl StepPhase.suspended = refl
same_phase_refl StepPhase.succeeded = refl
same_phase_refl StepPhase.failed = refl
same_phase_refl StepPhase.skipped = refl

same_text_refl : (a : Option JsString) → same_text a a ≡ true
same_text_refl none = refl
same_text_refl (some a) = str_eq_refl a

same_number_refl : (a : Option ℕ) → same_number a a ≡ true
same_number_refl none = refl
same_number_refl (some a) = (==_iff a a).1 refl

-- The cache after a render: its step has the selected name, and its status is the current one as
-- far as the page compares them.
record IsFresh (name : JsString) (status : Option StepStatus) (t : PipelineDetail) : Type 0 where
  step : PipelineStep
  cached : t.cached_step ≡ some step
  same_name : step.name ≡ name
  cached_name : t.cached_step_name ≡ some name
  current : has_status_changed t.cached_status status ≡ false

found_lem :
    (name : JsString) (s : PipelineDetail) (p : Pipeline) (step : PipelineStep)
    → s.pipeline ≡ some p
    → find (λ x. str_eq x.name name) p.spec.steps ≡ some step
    → render_step_details name s ≡ show_step name p (some step) s
unfolding render_step_details
found_lem name s p step at_p found =
    ap
      (λ o. elim o [
        | none ↦ (s, none)
        | some q ↦ show_step name q (find (λ x. str_eq x.name name) q.spec.steps) s
      ])
      at_p
    ∙ ap (λ o. show_step name p o s) found

-- The status with another start of its job.
abbrev pub started : Option JsString → JobStatus → StepStatus → StepStatus
started start job status = record status { job_status = some (record job { start_time = start }) }

same_shown-started :
    (start : Option JsString) (job : JobStatus) (status : StepStatus)
    → status.job_status ≡ some job
    → same_shown status (started start job status) ≡ true
same_shown-started start job status ran =
    rw
      (
        ran,
        same_phase_refl status.phase,
        same_text_refl status.job_name,
        same_number_refl job.succeeded,
        same_number_refl job.failed,
        same_text_refl job.completion_time,
      )
      refl

fresh_test :
    (name : JsString) {step : PipelineStep} {a : StepStatus} (b : StepStatus)
    (shown : Option JsString) (cached : Option PipelineStep) (status : Option StepStatus)
    → shown ≡ some name
    → cached ≡ some step
    → status ≡ some a
    → same_shown a b ≡ true
    → not (is_text shown name) || has_status_changed status (some b) || is_none cached ≡ false
unfolding has_status_changed
fresh_test name b shown cached status e f g same = rw (e, f, g, same, str_eq_refl name) refl

refresh_cache_kept :
    (name : JsString) (step old : PipelineStep) (status new : StepStatus) (s : PipelineDetail)
    → s.cached_step_name ≡ some name
    → s.cached_step ≡ some old
    → s.cached_status ≡ some status
    → same_shown status new ≡ true
    → refresh_cache name step (some new) s ≡ s
unfolding refresh_cache
refresh_cache_kept name step old status new s named cached had same = by_test _ _ quiet
  where
    quiet :
        not (is_text s.cached_step_name name)
          || has_status_changed s.cached_status (some new)
          || is_none s.cached_step
        ≡ false
    quiet =
        fresh_test name new s.cached_step_name s.cached_step s.cached_status named cached had same

    by_test : (t : PipelineDetail) (b : Bool) → b ≡ false → (if b then t else s) ≡ s
    by_test t true e = cc
    by_test t false e = refl

-- The comparison does not see when the job started: once the step is in the cache, a status whose
-- job has another start leaves the drawer with the status that it had.
pub render_step_details-start_time :
    (name : JsString) (s : PipelineDetail) (p : Pipeline) (step old : PipelineStep)
    (status : StepStatus) (job : JobStatus) (start : Option JsString)
    → s.pipeline ≡ some p
    → find (λ x. str_eq x.name name) p.spec.steps ≡ some step
    → find_status p.status name ≡ some (started start job status)
    → s.cached_step_name ≡ some name
    → s.cached_step ≡ some old
    → s.cached_status ≡ some status
    → status.job_status ≡ some job
    → (render_step_details name s).1
      ≡ some (record { step = some old; status = some status; namespace = (view_of s p).namespace })
render_step_details-start_time name s p step old status job start at_p found now named cached had
      ran =
    ap (λ r. r.1) (found_lem name s p step at_p found)
    ∙ rw
        (
          now,
          refresh_cache_kept name step old status (started start job status) s named cached had
              (same_shown-started start job status ran),
          cached,
          had,
        )
        refl
