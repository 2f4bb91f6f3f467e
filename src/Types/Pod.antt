-- ===== src/Types/Pod.antt =====
-- ui/src/types/pipeline.ts: containers, their environment, volumes and security contexts.
use jobrunner.Prelude.{ℕ, JsString, Bool, Option, List}

pub record SecretKeySelector : Type 0 where
  pub name : JsString
  pub key : JsString
  pub optional : Option Bool

pub record ConfigMapKeySelector : Type 0 where
  pub name : JsString
  pub key : JsString
  pub optional : Option Bool

pub record ObjectFieldSelector : Type 0 where
  pub field_path : JsString
  pub api_version : Option JsString

pub record EnvVarSource : Type 0 where
  pub secret_key_ref : Option SecretKeySelector
  pub config_map_key_ref : Option ConfigMapKeySelector
  pub field_ref : Option ObjectFieldSelector

pub record EnvVar : Type 0 where
  pub name : JsString
  pub value : Option JsString
  pub value_from : Option EnvVarSource

pub record SecretEnvSource : Type 0 where
  pub name : JsString
  pub optional : Option Bool

pub record ConfigMapEnvSource : Type 0 where
  pub name : JsString
  pub optional : Option Bool

pub record EnvFromSource : Type 0 where
  pub prefix : Option JsString
  pub secret_ref : Option SecretEnvSource
  pub config_map_ref : Option ConfigMapEnvSource

-- `cpu` and `memory` are entries like any other of the two maps.
pub record ResourceRequirements : Type 0 where
  pub requests : Option (List (JsString × JsString))
  pub limits : Option (List (JsString × JsString))

pub record VolumeMount : Type 0 where
  pub name : JsString
  pub mount_path : JsString
  pub sub_path : Option JsString
  pub read_only : Option Bool

pub record KeyToPath : Type 0 where
  pub key : JsString
  pub path : JsString
  pub mode : Option ℕ

pub record ClaimSource : Type 0 where
  pub claim_name : JsString

pub record EmptyDirSource : Type 0 where
  pub medium : Option JsString
  pub size_limit : Option JsString

pub record ConfigMapItems : Type 0 where
  pub name : JsString
  pub items : Option (List KeyToPath)

pub record SecretItems : Type 0 where
  pub secret_name : JsString
  pub items : Option (List KeyToPath)

pub record Volume : Type 0 where
  pub name : JsString
  pub persistent_volume_claim : Option ClaimSource
  pub empty_dir : Option EmptyDirSource
  pub config_map : Option ConfigMapItems
  pub secret : Option SecretItems

pub record PodSecurityContext : Type 0 where
  pub run_as_user : Option ℕ
  pub run_as_group : Option ℕ
  pub run_as_non_root : Option Bool
  pub fs_group : Option ℕ
  pub supplemental_groups : Option (List ℕ)

pub record Capabilities : Type 0 where
  pub add : Option (List JsString)
  pub drop : Option (List JsString)

pub record SecurityContext : Type 0 where
  pub run_as_user : Option ℕ
  pub run_as_group : Option ℕ
  pub run_as_non_root : Option Bool
  pub read_only_root_filesystem : Option Bool
  pub allow_privilege_escalation : Option Bool
  pub privileged : Option Bool
  pub capabilities : Option Capabilities

pub record LocalObjectReference : Type 0 where
  pub name : JsString

pub data Protocol : Type 0 where
  tcp udp sctp : Protocol

pub record ContainerPort : Type 0 where
  pub name : Option JsString
  pub container_port : ℕ
  pub protocol : Option Protocol

pub record Container : Type 0 where
  pub name : JsString
  pub image : Option JsString
  pub command : Option (List JsString)
  pub args : Option (List JsString)
  pub working_dir : Option JsString
  pub env : Option (List EnvVar)
  pub env_from : Option (List EnvFromSource)
  pub resources : Option ResourceRequirements
  pub volume_mounts : Option (List VolumeMount)
  pub security_context : Option SecurityContext
  pub ports : Option (List ContainerPort)
