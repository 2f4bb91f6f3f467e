-- ===== src/Detail/Step/Follow.antt =====
-- How the page of a step follows the job of the step that it is given.
use jobrunner.Prelude.{
  JsString, codes, ◌++◌, Option, none, some, Bool, true, false, ◌≡◌, refl, ap, ◌∙◌, if◌then◌else◌,
}
use jobrunner.Detail.{same_text}
use jobrunner.Detail.Step.{
  StepDetail, Ask, job_of, load_started, load_job, load_logs, load_events, updated, render_logs,
}

module _ (s : StepDetail) where
  abbrev job : Option JsString
  job = job_of s.status

  -- The state with the new job, before it is loaded.
  abbrev retargeted : StepDetail
  retargeted = record s { current_job_name = job; initial_logs_load = true }

  abbrev after : Bool → StepDetail × (Option Ask × Option Ask)
  after same =
      if same
      then (s, (none, none))
      else ((load_logs retargeted).0, ((load_logs retargeted).1, load_events retargeted))

  updated_other :
      same_text job s.current_job_name ≡ false
      → updated s ≡ ((load_logs retargeted).0, ((load_logs retargeted).1, load_events retargeted))
  unfolding updated
  updated_other h = ap after h

  -- The pods and the events of the job.
  abbrev pub asks_for : Option JsString → Option Ask × Option Ask
  asks_for none = (none, none)
  asks_for (some name) = (
    some (record { namespace = s.namespace; selector = codes "job-name=" ++ name }),
    some (record { namespace = s.namespace; selector = codes "involvedObject.name=" ++ name }),
  )

  updated-none :
      (name : JsString)
      → job ≡ none
      → s.current_job_name ≡ some name
      → updated s ≡ (retargeted, (none, none))
  unfolding load_logs load_started load_events
  updated-none name h k =
      updated_other (rw (h, k) refl)
      ∙ ap
          (λ o. (
            (load_job o retargeted).0,
            (
              (load_job o retargeted).1,
              elim o [
                | none ↦ none
                | some n ↦ some (record {
                  namespace = s.namespace;
                  selector = codes "involvedObject.name=" ++ n;
                })
              ],
            ),
          ))
          h

-- A step without a job that is given after one with a job leaves the log, an error and the events of
-- the earlier job on the page, and nothing is asked for that would replace them.
pub updated_no_job :
    (s : StepDetail) (name : JsString)
    → job_of s.status ≡ none
    → s.current_job_name ≡ some name
    → (render_logs (updated s).0 ≡ render_logs s)
      × ((updated s).0.events ≡ s.events)
      × ((updated s).1 ≡ (none, none))
unfolding render_logs
updated_no_job s name h k =
    let same = updated-none s name h k in
    (ap (λ r. render_logs r.0) same, ap (λ r. r.0.events) same, ap (λ r. r.1) same)
