-- ===== src/Server/Proxied.antt =====
-- The requests of the client reach the Kubernetes API.
use jobrunner.Prelude.{JsString, codes, ◌++◌}
use jobrunner.Client.{list_path, pipelines_path, pipeline_path, core_path, core_item_path}

-- The paths that the methods of the client ask for.
pub data IsClientPath : JsString → Type 0 where
  pipelines : (namespace : JsString) → IsClientPath (list_path namespace)
  new_pipeline : (namespace : JsString) → IsClientPath (pipelines_path namespace)
  one_pipeline : (namespace name : JsString) → IsClientPath (pipeline_path namespace name)
  core : (namespace kind : JsString) → IsClientPath (core_path namespace kind)
  core_item : (namespace kind name : JsString) → IsClientPath (core_item_path namespace kind name)
  logs :
      (namespace pod : JsString)
      → IsClientPath (core_item_path namespace (codes "pods") pod ++ codes "/log")
  namespaces : IsClientPath (codes "/api/v1/namespaces")
  job :
      (namespace name : JsString)
      → IsClientPath (codes "/apis/batch/v1/namespaces/" ++ namespace ++ codes "/jobs/" ++ name)
  storage_classes : IsClientPath (codes "/apis/storage.k8s.io/v1/storageclasses")
