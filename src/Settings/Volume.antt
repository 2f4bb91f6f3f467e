-- ===== src/Settings/Volume.antt =====
-- The shared volume of a pipeline: its two sources in the form.
use jobrunner.Prelude.{
  JsString, codes, [], none, some, ◌≡◌, refl, str_eq, Bool-cases, inl, inr, if◌then◌else◌,
}
use jobrunner.Types.Pipeline.{SharedVolumeSpec, Pipeline}
use jobrunner.Settings.{
  GlobalSettings, changed, update_shared_volume, volume_or_empty, no_dir, select_volume_type,
}

-- The source that the form offers under the type.
abbrev with_source : JsString → SharedVolumeSpec → SharedVolumeSpec
with_source type v =
    let temporary = str_eq type (codes "emptyDir") in
    record v {
      empty_dir = if temporary then some no_dir else none;
      persistent_volume_claim = if temporary then none else some (record { claim_name = [] });
    }

-- Choosing a type of volume sends two pipelines. In the last one, which the form keeps, the volume
-- has exactly the source of that type, a temporary directory or a claim without a name yet, and is
-- otherwise as it was.
pub select_volume_type_lem :
    (type : JsString) (s : GlobalSettings) (p : Pipeline)
    → s.pipeline ≡ some p
    → (select_volume_type type s).0.pipeline
      ≡ some (record p {
        spec = record (p.spec) {
          shared_volume = some (with_source type (volume_or_empty p.spec.shared_volume));
        };
      })
unfolding select_volume_type update_shared_volume changed
select_volume_type_lem type s p h = elim (Bool-cases (str_eq type (codes "emptyDir"))) [
  | inl same ↦ rw (same, h) refl
  | inr other ↦ rw (other, h) refl
]
