-- ===== src/Types/Pipeline.antt =====
-- ui/src/types/pipeline.ts: the Pipeline resource. The literal types of `apiVersion` and `kind`
-- have one value each, which the model keeps as a text.
use jobrunner.Prelude.{ℕ, JsString, Option, List}
use jobrunner.Types.Affinity.{Toleration, Affinity}
use jobrunner.Types.Pod.{
  EnvVar, EnvFromSource, ResourceRequirements, Volume, ClaimSource, EmptyDirSource,
  PodSecurityContext, LocalObjectReference, Container,
}
use jobrunner.Types.Status.{PipelineStatus}

pub record ObjectMeta : Type 0 where
  pub name : JsString
  pub namespace : Option JsString
  pub uid : Option JsString
  pub creation_timestamp : Option JsString
  pub labels : Option (List (JsString × JsString))
  pub annotations : Option (List (JsString × JsString))
  pub resource_version : Option JsString

pub data RestartPolicy : Type 0 where
  never on_failure always : RestartPolicy

pub record PodSpec : Type 0 where
  pub containers : List Container
  pub init_containers : Option (List Container)
  pub restart_policy : RestartPolicy
  pub service_account_name : Option JsString
  pub node_selector : Option (List (JsString × JsString))
  pub tolerations : Option (List Toleration)
  pub affinity : Option Affinity
  pub volumes : Option (List Volume)
  pub security_context : Option PodSecurityContext

pub record PodTemplateSpec : Type 0 where
  pub metadata : Option ObjectMeta
  pub spec : PodSpec

pub record JobSpec : Type 0 where
  pub template : PodTemplateSpec
  pub backoff_limit : Option ℕ
  pub active_deadline_seconds : Option ℕ
  pub ttl_seconds_after_finished : Option ℕ
  pub parallelism : Option ℕ
  pub completions : Option ℕ

-- The values of `RunIfCondition.condition` and of `RunIfCondition.operator`.
pub data RunCondition : Type 0 where
  success fail : RunCondition

pub data RunOperator : Type 0 where
  and or : RunOperator

pub record RunIfCondition : Type 0 where
  pub condition : Option RunCondition
  pub operator : Option RunOperator
  pub steps : List JsString

pub record PipelineStep : Type 0 where
  pub name : JsString
  pub run_if : Option RunIfCondition
  pub job_spec : JobSpec

pub record ConfigMapSource : Type 0 where
  pub name : JsString

pub record SecretSource : Type 0 where
  pub secret_name : JsString

pub record SharedVolumeSpec : Type 0 where
  pub name : Option JsString
  pub mount_path : Option JsString
  pub persistent_volume_claim : Option ClaimSource
  pub empty_dir : Option EmptyDirSource
  pub config_map : Option ConfigMapSource
  pub secret : Option SecretSource

pub record PodTemplateDefaults : Type 0 where
  pub image : Option JsString
  pub env : Option (List EnvVar)
  pub env_from : Option (List EnvFromSource)
  pub node_selector : Option (List (JsString × JsString))
  pub tolerations : Option (List Toleration)
  pub affinity : Option Affinity
  pub security_context : Option PodSecurityContext
  pub image_pull_secrets : Option (List LocalObjectReference)
  pub priority_class_name : Option JsString
  pub runtime_class_name : Option JsString
  pub scheduler_name : Option JsString
  pub labels : Option (List (JsString × JsString))
  pub annotations : Option (List (JsString × JsString))
  pub default_resources : Option ResourceRequirements

pub record PipelineSpec : Type 0 where
  pub steps : List PipelineStep
  pub service_account_name : Option JsString
  pub shared_volume : Option SharedVolumeSpec
  pub pod_template : Option PodTemplateDefaults

pub record Pipeline : Type 0 where
  pub api_version : JsString
  pub kind : JsString
  pub metadata : ObjectMeta
  pub spec : PipelineSpec
  pub status : Option PipelineStatus
