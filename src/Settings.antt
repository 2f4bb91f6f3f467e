-- ===== src/Settings.antt =====
-- ui/src/components/builder/global-settings.ts: the form of the settings of a whole pipeline. A
-- handler returns the form beside the pipelines that it sends to the builder in `update` events.
use jobrunner.Prelude.{
  ℕ, zero, suc, ◌==◌, JsString, codes, List, [], ◌∷◌, ◌++◌, Option, none, some, Bool, true, false,
  not, ◌&&◌, map, or_else, or_empty, str_eq, if◌then◌else◌, Answer, ok, failed,
}
use jobrunner.Types.Pod.{EnvVar, ClaimSource, EmptyDirSource}
use jobrunner.Types.Pipeline.{SharedVolumeSpec, PodTemplateDefaults, PipelineSpec, Pipeline}
use jobrunner.Client.{Pvc}
pub mod Keeps
pub mod Env
pub mod Volume
pub mod Claims
pub mod Tests

pub record PvcInfo : Type 0 where
  pub name : JsString
  pub storage : Option JsString
  pub phase : JsString

pub record GlobalSettings : Type 0 where
  pub pipeline : Option Pipeline
  pub active_tab : ℕ
  pub available_pvcs : List PvcInfo
  pub loading_pvcs : Bool
  pub last_fetched_namespace : JsString

unfoldable pub new_settings : Option Pipeline → GlobalSettings
new_settings pipeline = record {
  pipeline = pipeline;
  active_tab = 0;
  available_pvcs = [];
  loading_pvcs = false;
  last_fetched_namespace = [];
}

-- `this.pipeline?.metadata.namespace || 'default'`
abbrev pub namespace_of : Option Pipeline → JsString
namespace_of none = codes "default"
namespace_of (some p) = or_else p.metadata.namespace (codes "default")

-- The start of `fetchPVCs`, with the namespace whose claims are asked for.
unfoldable pub fetch_pvcs : JsString → GlobalSettings → GlobalSettings × Option JsString
fetch_pvcs namespace s =
    (record s { loading_pvcs = true; last_fetched_namespace = namespace }, some namespace)

abbrev pub pvc_info : Pvc → PvcInfo
pvc_info pvc = record { name = pvc.metadata.name; storage = pvc.storage; phase = pvc.phase }

-- `fetchPVCs` after its `await`.
unfoldable pub pvcs_fetched : Answer (List Pvc) → GlobalSettings → GlobalSettings
pvcs_fetched (ok pvcs) s = record s { available_pvcs = map pvc_info pvcs; loading_pvcs = false }
pvcs_fetched (failed message) s = record s { available_pvcs = []; loading_pvcs = false }

unfoldable pub updated : GlobalSettings → GlobalSettings × Option JsString
unfolding fetch_pvcs
updated s =
    let namespace = namespace_of s.pipeline in
    if (s.active_tab == 2) && not (str_eq namespace s.last_fetched_namespace)
    then fetch_pvcs namespace s
    else (s, none)

-- `this.pipeline = ...; this.dispatchUpdate()`, under the guard that there is a pipeline.
unfoldable pub changed : (Pipeline → Pipeline) → GlobalSettings → GlobalSettings × List Pipeline
changed f s = elim s.pipeline [
  | none ↦ (s, [])
  | some p ↦ (record s { pipeline = some (f p) }, f p ∷ [])
]

abbrev set_spec : (PipelineSpec → PipelineSpec) → Pipeline → Pipeline
set_spec f p = record p { spec = f p.spec }

-- The field of `updateSpec` with its value.
pub data SpecField : Type 0 where
  service_account_field : Option JsString → SpecField
  shared_volume_field : Option SharedVolumeSpec → SpecField

abbrev pub set_spec_field : SpecField → PipelineSpec → PipelineSpec
set_spec_field (service_account_field name) spec = record spec { service_account_name = name }
set_spec_field (shared_volume_field volume) spec = record spec { shared_volume = volume }

unfoldable pub update_spec : SpecField → GlobalSettings → GlobalSettings × List Pipeline
unfolding changed
update_spec field s = changed (set_spec (set_spec_field field)) s

-- `value || undefined` on a text.
abbrev pub text_or_none : JsString → Option JsString
text_or_none [] = none
text_or_none (c ∷ s) = some (c ∷ s)

-- The field of `updatePodTemplate` with its value.
pub data PodField : Type 0 where
  image_field : JsString → PodField
  priority_class_field : JsString → PodField
  scheduler_field : JsString → PodField
  env_field : Option (List EnvVar) → PodField

abbrev pub set_pod_field : PodField → PodTemplateDefaults → PodTemplateDefaults
set_pod_field (image_field value) pod = record pod { image = text_or_none value }
set_pod_field (priority_class_field value) pod = record pod {
  priority_class_name = text_or_none value;
}
set_pod_field (scheduler_field value) pod = record pod { scheduler_name = text_or_none value }
set_pod_field (env_field value) pod = record pod { env = value }

-- What `...undefined` spreads: no field.
abbrev pub no_defaults : PodTemplateDefaults
no_defaults = record {
  image = none;
  env = none;
  env_from = none;
  node_selector = none;
  tolerations = none;
  affinity = none;
  security_context = none;
  image_pull_secrets = none;
  priority_class_name = none;
  runtime_class_name = none;
  scheduler_name = none;
  labels = none;
  annotations = none;
  default_resources = none;
}

abbrev pub spread_pod : Option PodTemplateDefaults → PodTemplateDefaults
spread_pod none = no_defaults
spread_pod (some pod) = pod

unfoldable pub update_pod_template : PodField → GlobalSettings → GlobalSettings × List Pipeline
unfolding changed
update_pod_template field s =
    changed
      (set_spec λ spec. record spec {
        pod_template = some (set_pod_field field (spread_pod spec.pod_template));
      })
      s

-- The field of `updateSharedVolume` with its value.
pub data VolumeField : Type 0 where
  volume_name_field : JsString → VolumeField
  mount_path_field : JsString → VolumeField
  empty_dir_field : Option EmptyDirSource → VolumeField
  claim_field : Option ClaimSource → VolumeField

abbrev pub set_volume_field : VolumeField → SharedVolumeSpec → SharedVolumeSpec
set_volume_field (volume_name_field name) volume = record volume { name = some name }
set_volume_field (mount_path_field path) volume = record volume { mount_path = some path }
set_volume_field (empty_dir_field source) volume = record volume { empty_dir = source }
set_volume_field (claim_field source) volume = record volume { persistent_volume_claim = source }

-- `this.pipeline.spec.sharedVolume || {}`
abbrev pub volume_or_empty : Option SharedVolumeSpec → SharedVolumeSpec
volume_or_empty none = record {
  name = none;
  mount_path = none;
  persistent_volume_claim = none;
  empty_dir = none;
  config_map = none;
  secret = none;
}
volume_or_empty (some volume) = volume

unfoldable pub update_shared_volume : VolumeField → GlobalSettings → GlobalSettings × List Pipeline
unfolding changed
update_shared_volume field s =
    changed
      (set_spec λ spec. record spec {
        shared_volume = some (set_volume_field field (volume_or_empty spec.shared_volume));
      })
      s

abbrev pub no_dir : EmptyDirSource
no_dir = record { medium = none; size_limit = none }

abbrev pub workspace : SharedVolumeSpec
workspace = record {
  name = some (codes "workspace");
  mount_path = some (codes "/workspace");
  persistent_volume_claim = none;
  empty_dir = some no_dir;
  config_map = none;
  secret = none;
}

unfoldable pub toggle_shared_volume : Bool → GlobalSettings → GlobalSettings × List Pipeline
unfolding update_spec
toggle_shared_volume true s = update_spec (shared_volume_field (some workspace)) s
toggle_shared_volume false s = update_spec (shared_volume_field none) s

-- A handler that changes the volume twice.
abbrev pub then_volume :
    VolumeField → GlobalSettings × List Pipeline → GlobalSettings × List Pipeline
then_volume field out = let next = update_shared_volume field out.0 in (next.0, out.1 ++ next.1)

-- The `change` of the volume type.
unfoldable pub select_volume_type : JsString → GlobalSettings → GlobalSettings × List Pipeline
unfolding update_shared_volume
select_volume_type type s =
    if str_eq type (codes "emptyDir")
    then then_volume (claim_field none) (update_shared_volume (empty_dir_field (some no_dir)) s)
    else then_volume (claim_field (some (record { claim_name = [] })))
        (update_shared_volume (empty_dir_field none) s)

-- `this.pipeline?.spec.podTemplate?.env || []`
abbrev env_of : Option PodTemplateDefaults → List EnvVar
env_of none = []
env_of (some pod) = or_empty pod.env

abbrev pub env_vars : Option Pipeline → List EnvVar
env_vars none = []
env_vars (some p) = env_of p.spec.pod_template

unfoldable pub get_env_vars : GlobalSettings → List EnvVar
get_env_vars s = env_vars s.pipeline

-- `envVars.length > 0 ? envVars : undefined`
abbrev pub some_env : List EnvVar → Option (List EnvVar)
some_env [] = none
some_env (env ∷ vars) = some (env ∷ vars)

unfoldable pub update_env_vars : List EnvVar → GlobalSettings → GlobalSettings × List Pipeline
unfolding update_pod_template
update_env_vars vars s = update_pod_template (env_field (some_env vars)) s

abbrev pub blank_env : EnvVar
blank_env = record { name = []; value = some []; value_from = none }

unfoldable pub add_env_var : GlobalSettings → GlobalSettings × List Pipeline
unfolding get_env_vars update_env_vars
add_env_var s = update_env_vars (get_env_vars s ++ blank_env ∷ []) s

-- `envVars.filter((_, i) => i !== index)`
unfoldable pub without_env : ℕ → List EnvVar → List EnvVar
without_env index [] = []
without_env zero (env ∷ vars) = vars
without_env (suc index) (env ∷ vars) = env ∷ without_env index vars

unfoldable pub remove_env_var : ℕ → GlobalSettings → GlobalSettings × List Pipeline
unfolding get_env_vars update_env_vars without_env
remove_env_var index s = update_env_vars (without_env index (get_env_vars s)) s

pub data EnvField : Type 0 where
  name_field value_field : EnvField

abbrev pub set_env_field : EnvField → JsString → EnvVar → EnvVar
set_env_field name_field value env = record env { name = value }
set_env_field value_field value env = record env { value = some value }

-- `envVars.map((env, i) => (i === index ? { ...env, [field]: value } : env))`
unfoldable pub change_env : ℕ → EnvField → JsString → List EnvVar → List EnvVar
change_env index field value [] = []
change_env zero field value (env ∷ vars) = set_env_field field value env ∷ vars
change_env (suc index) field value (env ∷ vars) = env ∷ change_env index field value vars

unfoldable pub update_env_var :
    ℕ → EnvField → JsString → GlobalSettings → GlobalSettings × List Pipeline
unfolding get_env_vars update_env_vars change_env
update_env_var index field value s =
    update_env_vars (change_env index field value (get_env_vars s)) s

-- The `input` of the namespace.
unfoldable pub type_namespace : JsString → GlobalSettings → GlobalSettings × List Pipeline
unfolding changed
type_namespace value s =
    changed (λ p. record p { metadata = record (p.metadata) { namespace = some value } }) s

-- What the user can do in the form, control by control.
pub data Change : Type 0 where
  namespace_typed : JsString → Change
  service_account_typed : JsString → Change
  pod_text_typed : PodField → Change
  volume_toggled : Bool → Change
  volume_text_typed : VolumeField → Change
  volume_type_selected : JsString → Change
  claim_chosen : JsString → Change
  env_added : Change
  env_removed : ℕ → Change
  env_typed : ℕ → EnvField → JsString → Change

unfoldable pub handle : Change → GlobalSettings → GlobalSettings × List Pipeline
handle (namespace_typed value) s = type_namespace value s
handle (service_account_typed value) s = update_spec (service_account_field (text_or_none value)) s
handle (pod_text_typed field) s = update_pod_template field s
handle (volume_toggled enabled) s = toggle_shared_volume enabled s
handle (volume_text_typed field) s = update_shared_volume field s
handle (volume_type_selected type) s = select_volume_type type s
handle (claim_chosen name) s =
    update_shared_volume (claim_field (some (record { claim_name = name }))) s
handle env_added s = add_env_var s
handle (env_removed index) s = remove_env_var index s
handle (env_typed index field value) s = update_env_var index field value s
