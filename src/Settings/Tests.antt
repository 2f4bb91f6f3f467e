-- ===== src/Settings/Tests.antt =====
-- The form of the settings at concrete inputs.
use jobrunner.Prelude.{codes, [], ◌∷◌, none, some, false}
use jobrunner.Types.Pod.{EnvVar}
use jobrunner.Types.Pipeline.{Pipeline}
use jobrunner.Graph.{empty_meta}
use jobrunner.Settings.{GlobalSettings, no_defaults}

abbrev variable : EnvVar
variable = record { name = codes "REGION"; value = some (codes "eu"); value_from = none }

-- A pipeline with one shared variable and no volume.
abbrev nightly : Pipeline
nightly = record {
  api_version = codes "pipeline.yaacov.io/v1";
  kind = codes "Pipeline";
  metadata = empty_meta (codes "nightly") (some (codes "ci"));
  spec = record {
    steps = [];
    service_account_name = none;
    shared_volume = none;
    pod_template = some (record no_defaults { env = some (variable ∷ []) });
  };
  status = none;
}

-- The form on it, with the tab of the volume open.
abbrev form : GlobalSettings
form = record {
  pipeline = some nightly;
  active_tab = 2;
  available_pvcs = [];
  loading_pvcs = false;
  last_fetched_namespace = [];
}
