-- ===== src/Graph/Defaults.antt =====
-- ui/src/lib/graph-layout.ts: `createEmptyPipeline` and `createDefaultStep`.
use jobrunner.Prelude.{JsString, codes, List, [], ◌∷◌, Option, none, some}
use jobrunner.Types.Pod.{Container}
use jobrunner.Types.Pipeline.{ObjectMeta, never, PipelineStep, Pipeline}

abbrev pub empty_meta : JsString → Option JsString → ObjectMeta
empty_meta name namespace = record {
  name = name;
  namespace = namespace;
  uid = none;
  creation_timestamp = none;
  labels = none;
  annotations = none;
  resource_version = none;
}

-- `createEmptyPipeline`; its second argument is 'default' where the source leaves it out.
unfoldable pub create_empty_pipeline : JsString → JsString → Pipeline
create_empty_pipeline name namespace = record {
  api_version = codes "pipeline.yaacov.io/v1";
  kind = codes "Pipeline";
  metadata = empty_meta name (some namespace);
  spec = record {
    steps = [];
    service_account_name = none;
    shared_volume = none;
    pod_template = none;
  };
  status = none;
}

abbrev pub plain_container : JsString → JsString → List JsString → List JsString → Container
plain_container name image command args = record {
  name = name;
  image = some image;
  command = some command;
  args = some args;
  working_dir = none;
  env = none;
  env_from = none;
  resources = none;
  volume_mounts = none;
  security_context = none;
  ports = none;
}

abbrev pub step_of : JsString → Container → PipelineStep
step_of name container = record {
  name = name;
  run_if = none;
  job_spec = record {
    template = record {
      metadata = none;
      spec = record {
        containers = container ∷ [];
        init_containers = none;
        restart_policy = never;
        service_account_name = none;
        node_selector = none;
        tolerations = none;
        affinity = none;
        volumes = none;
        security_context = none;
      };
    };
    backoff_limit = none;
    active_deadline_seconds = none;
    ttl_seconds_after_finished = none;
    parallelism = none;
    completions = none;
  };
}

unfoldable pub create_default_step : JsString → PipelineStep
create_default_step name = step_of name (
    plain_container (codes "main") (codes "registry.access.redhat.com/ubi9/ubi-minimal:latest")
      (codes "sh" ∷ codes "-c" ∷ []) (codes "echo \"Hello from step\"" ∷ []))
