-- ===== src/Pipelines/Badge.antt =====
-- ui/src/components/shared/status-badge.ts: the badge of a status. A status is looked up by its text,
-- and any other text gets the badge of Pending.
use jobrunner.Prelude.{
  JsString, codes, List, [], ◌∷◌, Option, none, some, Bool, str_eq, ◌≡◌, refl, find,
}
use jobrunner.Types.Status.{PipelinePhase, PipelineStatus}
use jobrunner.Pipelines.{phase_text, phase_or_pending}

pub data TagColor : Type 0 where
  gray blue green cyan orange red purple teal : TagColor

pub record StatusConfig : Type 0 where
  pub color : TagColor
  pub label : JsString

abbrev pub pending_config : StatusConfig
pending_config = record { color = gray; label = codes "Pending" }

abbrev pub status_config : List StatusConfig
status_config =
    pending_config
    ∷ record { color = cyan; label = codes "Running" }
    ∷ record { color = green; label = codes "Succeeded" }
    ∷ record { color = red; label = codes "Failed" }
    ∷ record { color = gray; label = codes "Skipped" }
    ∷ record { color = orange; label = codes "Suspended" }
    ∷ []

abbrev found_config : Option StatusConfig → StatusConfig
found_config none = pending_config
found_config (some config) = config

-- The keys of the table are its labels.
unfoldable pub get_config : JsString → StatusConfig
get_config status = found_config (find (λ config. str_eq config.label status) status_config)

-- `compact`, the colour, whether the badge pulses, and the label.
pub record Badge : Type 0 where
  pub compact : Bool
  pub color : TagColor
  pub running : Bool
  pub label : JsString

unfoldable pub render_badge : JsString → JsString → Badge
unfolding get_config
render_badge status size = record {
  compact = str_eq size (codes "sm");
  color = (get_config status).color;
  running = str_eq status (codes "Running");
  label = (get_config status).label;
}

get_config-phase_text :
    (phase : PipelinePhase) → (get_config (phase_text phase)).label ≡ phase_text phase
unfolding get_config str_eq
get_config-phase_text PipelinePhase.pending = refl
get_config-phase_text PipelinePhase.running = refl
get_config-phase_text PipelinePhase.suspended = refl
get_config-phase_text PipelinePhase.succeeded = refl
get_config-phase_text PipelinePhase.failed = refl

-- The badge of a pipeline reads its phase, or Pending without a status.
pub render_badge-phase_or_pending :
    (status : Option PipelineStatus) (size : JsString)
    → (render_badge (phase_or_pending status) size).label ≡ phase_or_pending status
unfolding render_badge
render_badge-phase_or_pending none size = get_config-phase_text PipelinePhase.pending
render_badge-phase_or_pending (some status) size = get_config-phase_text status.phase
