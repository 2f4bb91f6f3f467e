-- ===== src/Client/Calls.antt =====
-- ui/src/lib/k8s-client.ts: the methods of `K8sClient` that ask once and wait for the answer.
use jobrunner.Prelude.{
  JsString, codes, List, [], ◌∷◌, ◌++◌, Option, none, some, Answer, failed, to_decimal, map_answer,
  if◌then◌else◌,
}
use jobrunner.Types.Pipeline.{Pipeline}
use jobrunner.Client.Http.{Method, get, post, put, delete, Request, Response, read_text, request}
use jobrunner.Client.Api.{
  ItemList, Secret, Pvc, StorageClass, KubeEvent, PodSummary, NewPvc, PvcObject, Payload, pipeline,
  pvc, secret, Cluster, ask, pipelines_path, list_path, pipeline_path, core_path, core_item_path,
  LogOptions, log_query, encode_entries, opaque_secret, recover, items_of,
}

-- `void`
abbrev pub Void : Type 0
Void = Unit

abbrev names_or_default : Option (List JsString) → List JsString
names_or_default none = codes "default" ∷ []
names_or_default (some names) = names

-- `result.items.map(ns => ns.metadata.name)`; without `items` that is a TypeError, which is caught.
abbrev pub namespace_names : Answer (ItemList JsString) → List JsString
namespace_names (failed message) = codes "default" ∷ []
namespace_names (Answer.ok list) = names_or_default list.items

-- `value || undefined`
abbrev pub set_text : Option JsString → Option JsString
set_text none = none
set_text (some []) = none
set_text (some (c ∷ s)) = some (c ∷ s)

abbrev pub pvc_object : JsString → NewPvc → PvcObject
pvc_object namespace claim = record {
  api_version = codes "v1";
  kind = codes "PersistentVolumeClaim";
  name = claim.name;
  namespace = namespace;
  access_modes = claim.access_modes;
  volume_mode = claim.volume_mode;
  storage_class_name = set_text claim.storage_class_name;
  storage = claim.storage;
}

module _ {Other : Type 0} (cluster : Cluster Other) where
  abbrev call {ℓ} : {A : Type ℓ} → (JsString → Answer A) → Request Payload → Answer A
  call parse req = request cluster.platform parse cluster.base_url req

  -- A call whose answer is read and dropped.
  abbrev pub send : Method → JsString → Option Payload → Answer Void
  send method path body = map_answer (λ _. tt) (call cluster.parse_other (ask method path [] body))

  unfoldable pub list_pipelines : JsString → Answer (List Pipeline)
  list_pipelines namespace =
      items_of (call cluster.parse_pipelines (ask get (list_path namespace) [] none))

  unfoldable pub get_pipeline : JsString → JsString → Answer Pipeline
  get_pipeline namespace name =
      call cluster.parse_pipeline (ask get (pipeline_path namespace name) [] none)

  unfoldable pub create_pipeline : JsString → Pipeline → Answer Pipeline
  create_pipeline namespace p =
      call cluster.parse_pipeline (ask post (pipelines_path namespace) [] (some (pipeline p)))

  unfoldable pub update_pipeline : JsString → JsString → Pipeline → Answer Pipeline
  update_pipeline namespace name p =
      call cluster.parse_pipeline (ask put (pipeline_path namespace name) [] (some (pipeline p)))

  unfoldable pub delete_pipeline : JsString → JsString → Answer Void
  delete_pipeline namespace name = send delete (pipeline_path namespace name) none

  -- The answer of `getPodLogs`, which asks without the headers of `request`.
  unfoldable pub log_text : Answer Response → Answer JsString
  unfolding read_text
  log_text (failed message) = failed message
  log_text (Answer.ok response) =
      if response.ok
      then (read_text cluster.platform.unusable response.body).0
      else failed (codes "Failed to get logs: " ++ to_decimal response.status)

  unfoldable pub get_pod_logs : JsString → JsString → LogOptions → Answer JsString
  get_pod_logs namespace pod_name options = log_text (
      cluster.platform.fetch (
        ask get
          (cluster.base_url ++ core_item_path namespace (codes "pods") pod_name ++ codes "/log")
          (log_query options) none))

  unfoldable pub get_events : JsString → JsString → Answer (List KubeEvent)
  get_events namespace field_selector = items_of (
      call cluster.parse_events (
        ask get (core_path namespace (codes "events"))
          ((codes "fieldSelector", field_selector) ∷ []) none))

  unfoldable pub list_namespaces : List JsString
  list_namespaces =
      namespace_names (call cluster.parse_names (ask get (codes "/api/v1/namespaces") [] none))

  unfoldable pub get_job : JsString → JsString → Answer Other
  get_job namespace name =
      call cluster.parse_other (
        ask get (codes "/apis/batch/v1/namespaces/" ++ namespace ++ codes "/jobs/" ++ name) [] none)

  unfoldable pub get_pod : JsString → JsString → Answer Other
  get_pod namespace name =
      call cluster.parse_other (ask get (core_item_path namespace (codes "pods") name) [] none)

  unfoldable pub list_pods : JsString → JsString → Answer (List PodSummary)
  list_pods namespace label_selector = items_of (
      call cluster.parse_pods (
        ask get (core_path namespace (codes "pods")) ((codes "labelSelector", label_selector) ∷ [])
          none))

  unfoldable pub list_pvcs : JsString → Answer (List Pvc)
  list_pvcs namespace = recover [] (
      items_of (
        call cluster.parse_pvcs
          (ask get (core_path namespace (codes "persistentvolumeclaims")) [] none)))

  unfoldable pub create_pvc : JsString → NewPvc → Answer Void
  create_pvc namespace claim =
      send post (core_path namespace (codes "persistentvolumeclaims"))
        (some (pvc (pvc_object namespace claim)))

  unfoldable pub delete_pvc : JsString → JsString → Answer Void
  delete_pvc namespace name =
      send delete (core_item_path namespace (codes "persistentvolumeclaims") name) none

  unfoldable pub list_storage_classes : Answer (List StorageClass)
  list_storage_classes = recover [] (
      items_of (
        call cluster.parse_storage_classes
          (ask get (codes "/apis/storage.k8s.io/v1/storageclasses") [] none)))

  unfoldable pub list_secrets : JsString → Answer (List Secret)
  list_secrets namespace = recover [] (
      items_of
        (call cluster.parse_secrets (ask get (core_path namespace (codes "secrets")) [] none)))

  unfoldable pub get_secret : JsString → JsString → Answer Secret
  get_secret namespace name =
      call cluster.parse_secret (ask get (core_item_path namespace (codes "secrets") name) [] none)

  -- The encoded secret is sent; when a value cannot be encoded, nothing is.
  abbrev pub send_secret :
      Method → JsString → JsString → JsString → Option (List (JsString × JsString)) → Answer Void
  send_secret method path namespace name none = failed cluster.invalid_character
  send_secret method path namespace name (some entries) =
      send method path (some (secret (opaque_secret namespace name entries)))

  unfoldable pub create_secret : JsString → JsString → List (JsString × JsString) → Answer Void
  create_secret namespace name entries =
      send_secret post (core_path namespace (codes "secrets")) namespace name
        (encode_entries entries)

  unfoldable pub delete_secret : JsString → JsString → Answer Void
  delete_secret namespace name = send delete (core_item_path namespace (codes "secrets") name) none

  unfoldable pub update_secret : JsString → JsString → List (JsString × JsString) → Answer Void
  update_secret namespace name entries =
      send_secret put (core_item_path namespace (codes "secrets") name) namespace name
        (encode_entries entries)
