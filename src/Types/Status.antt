-- ===== src/Types/Status.antt =====
-- ui/src/types/pipeline.ts: the status that the controller reports.
use jobrunner.Prelude.{ℕ, JsString, Option, List}

pub data PipelinePhase : Type 0 where
  pending running suspended succeeded failed : PipelinePhase

pub data StepPhase : Type 0 where
  pending running suspended succeeded failed skipped : StepPhase

pub data JobConditionType : Type 0 where
  complete failed suspended : JobConditionType

pub data ConditionStatus : Type 0 where
  is_true is_false unknown : ConditionStatus

pub record JobCondition : Type 0 where
  pub type : JobConditionType
  pub status : ConditionStatus
  pub reason : Option JsString
  pub message : Option JsString
  pub last_probe_time : Option JsString
  pub last_transition_time : Option JsString

pub record JobStatus : Type 0 where
  pub active : Option ℕ
  pub succeeded : Option ℕ
  pub failed : Option ℕ
  pub start_time : Option JsString
  pub completion_time : Option JsString
  pub conditions : Option (List JobCondition)

pub record StepStatus : Type 0 where
  pub name : JsString
  pub phase : StepPhase
  pub job_name : Option JsString
  pub job_status : Option JobStatus

pub record Condition : Type 0 where
  pub type : JsString
  pub status : ConditionStatus
  pub reason : Option JsString
  pub message : Option JsString
  pub last_transition_time : Option JsString
  pub observed_generation : Option ℕ

pub record PipelineStatus : Type 0 where
  pub phase : PipelinePhase
  pub start_time : Option JsString
  pub completion_time : Option JsString
  pub steps : List StepStatus
  pub conditions : Option (List Condition)
