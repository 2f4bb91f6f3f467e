-- ===== src/Detail/Step/Logs.antt =====
-- What a load of the logs leads to.
use jobrunner.Prelude.{
  ℕ, JsString, List, [], ◌∷◌, none, some, Bool, true, false, ◌≡◌, refl, ap, sym, ◌∙◌, Answer, ok,
  failed, str_eq, str_eq_iff, str_eq_refl, if◌then◌else◌,
}
use jobrunner.Client.{PodSummary}
use jobrunner.Detail.Loading.{speaks}
use jobrunner.Detail.Step.{
  StepDetail, job_of, load_started, follow_pod, follow_job, logs_done, logs_failed, pods_listed,
  logs_received, load_logs_with, LogsShown, nothing_yet, problem, logs_shown, render_logs,
}

-- What the answers call for.
abbrev pub log_page : Answer JsString → LogsShown
log_page (ok logs) = logs_shown logs
log_page (failed message) = problem message

abbrev pub logs_page : Answer (List PodSummary) → Answer JsString → LogsShown
logs_page (ok []) new_logs = nothing_yet
logs_page (ok (pod ∷ pods)) new_logs = log_page new_logs
logs_page (failed message) new_logs = problem message

-- The state in which the first load of a job waits.
abbrev waiting : StepDetail → StepDetail
waiting s = record s { logs_loading = true; logs_error = none }

received :
    (new_logs : Answer JsString) (s : StepDetail)
    → speaks new_logs ≡ true
    → render_logs (logs_received new_logs (waiting s)) ≡ log_page new_logs
unfolding logs_received logs_failed logs_done render_logs
received (ok logs) s h = by_test (str_eq logs s.logs) refl
  where
    by_test :
        (same : Bool)
        → str_eq logs s.logs ≡ same
        → render_logs (logs_done (if same then waiting s else record (waiting s) { logs = logs }))
          ≡ logs_shown logs
    by_test true e = ap logs_shown (sym ((str_eq_iff logs s.logs).0 e))
    by_test false e = refl
received (failed (c ∷ message)) s h = refl
received (failed []) s h = absurd (cc)

answered :
    (pods : Answer (List PodSummary)) (new_logs : Answer JsString) (s : StepDetail)
    → speaks pods ≡ true
    → speaks new_logs ≡ true
    → render_logs (follow_pod new_logs (pods_listed pods (waiting s))) ≡ logs_page pods new_logs
unfolding pods_listed logs_failed logs_done render_logs
answered (ok []) new_logs s h k = refl
answered (ok (pod ∷ pods)) new_logs s h k = received new_logs s k
answered (failed (c ∷ message)) new_logs s h k = refl
answered (failed []) new_logs s h k = absurd (cc)

load_started-waiting : (s : StepDetail) → s.initial_logs_load ≡ true → load_started s ≡ waiting s
unfolding load_started
load_started-waiting s h = by_test s.initial_logs_load h
  where
    by_test : (b : Bool) → b ≡ true → (if b then waiting s else s) ≡ waiting s
    by_test true e = refl
    by_test false e = absurd (cc)

load_started_later : (s : StepDetail) → s.initial_logs_load ≡ false → load_started s ≡ s
unfolding load_started
load_started_later s h = by_test s.initial_logs_load h
  where
    by_test : (b : Bool) → b ≡ false → (if b then waiting s else s) ≡ s
    by_test true e = absurd (cc)
    by_test false e = refl

-- The first load of the logs of a job shows what its own answers call for, whatever was shown
-- before: the log of the first pod, that there is none yet, or the error, which has a message.
pub first_load_lem :
    (pods : Answer (List PodSummary)) (new_logs : Answer JsString) (s : StepDetail) (job : JsString)
    → job_of s.status ≡ some job
    → s.initial_logs_load ≡ true
    → speaks pods ≡ true
    → speaks new_logs ≡ true
    → render_logs (load_logs_with pods new_logs s) ≡ logs_page pods new_logs
unfolding load_logs_with
first_load_lem pods new_logs s job h first k l =
    ap (λ o. render_logs (follow_job o pods new_logs s)) h
    ∙ ap (λ t. render_logs (follow_pod new_logs (pods_listed pods t)))
        (load_started-waiting s first)
    ∙ answered pods new_logs s k l

received_same :
    (s : StepDetail) (c : ℕ) (message : JsString)
    → s.logs_error ≡ some (c ∷ message)
    → render_logs (logs_received (ok s.logs) s) ≡ problem (c ∷ message)
unfolding logs_received logs_done render_logs
received_same s c message error = rw (str_eq_refl s.logs, error) refl

-- A later load that finds the log as it was keeps the error of a load in between on the page: it is
-- only cleared together with a change of the log.
pub later_load_same :
    (pod : PodSummary) (pods : List PodSummary) (c : ℕ) (message job : JsString) (s : StepDetail)
    → job_of s.status ≡ some job
    → s.initial_logs_load ≡ false
    → s.logs_error ≡ some (c ∷ message)
    → render_logs (load_logs_with (ok (pod ∷ pods)) (ok s.logs) s) ≡ problem (c ∷ message)
unfolding load_logs_with pods_listed
later_load_same pod pods c message job s h later error =
    ap (λ o. render_logs (follow_job o (ok (pod ∷ pods)) (ok s.logs) s)) h
    ∙ ap (λ t. render_logs (follow_pod (ok s.logs) (pods_listed (ok (pod ∷ pods)) t)))
        (load_started_later s later)
    ∙ received_same s c message error
