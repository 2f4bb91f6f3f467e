-- ===== src/Settings/Keeps.antt =====
-- What the form of the settings leaves as it is, and what it hands back to the builder.
use jobrunner.Prelude.{
  JsString, List, [], ◌∷◌, ◌++◌, Option, none, some, true, false, ◌≡◌, refl, All, Bool-cases,
  All-append, str_eq, codes, inl, inr,
}
use jobrunner.Types.Pipeline.{SharedVolumeSpec, PodTemplateDefaults, Pipeline}
use jobrunner.Settings.{
  GlobalSettings, changed, update_spec, update_pod_template, update_shared_volume,
  toggle_shared_volume, select_volume_type, update_env_vars, add_env_var, remove_env_var,
  update_env_var, type_namespace, Change, namespace_typed, service_account_typed, pod_text_typed,
  volume_toggled, volume_text_typed, volume_type_selected, claim_chosen, env_added, env_removed,
  env_typed, handle, VolumeField, claim_field, then_volume,
}

-- `q` is `p` but for the settings.
pub record IsKept (p q : Pipeline) : Type 0 where
  pub steps : q.spec.steps ≡ p.spec.steps
  pub name : q.metadata.name ≡ p.metadata.name
  pub version : q.metadata.resource_version ≡ p.metadata.resource_version
  pub status : q.status ≡ p.status

kept : (p : Pipeline) → IsKept p p
kept p = record { steps = refl; name = refl; version = refl; status = refl }

-- A change of the namespace and of the settings.
abbrev resettled :
    Pipeline
    → Option JsString
    → Option JsString
    → Option SharedVolumeSpec
    → Option PodTemplateDefaults
    → Pipeline
resettled p namespace account volume pod = record p {
  metadata = record (p.metadata) { namespace = namespace };
  spec = record {
    steps = p.spec.steps;
    service_account_name = account;
    shared_volume = volume;
    pod_template = pod;
  };
}

resettled-IsKept :
    {p q : Pipeline} (namespace account : Option JsString) (volume : Option SharedVolumeSpec)
    (pod : Option PodTemplateDefaults)
    → IsKept p q
    → IsKept p (resettled q namespace account volume pod)
resettled-IsKept namespace account volume pod k = record {
  steps = k.steps;
  name = k.name;
  version = k.version;
  status = k.status;
}

last_kept :
    (p q : Pipeline) (before : List Pipeline) → All (IsKept p) (before ++ q ∷ []) → IsKept p q
last_kept p q [] (k, _) = k
last_kept p q (r ∷ before) (_, h) = last_kept p q before h

-- The pipelines that are sent and the one in the form are `p` but for the settings, and the form
-- has the last one that it sent.
pub record IsHandled (p : Pipeline) (out : GlobalSettings × List Pipeline) : Type 0 where
  pub last : Pipeline
  pub before : List Pipeline
  pub sent : out.1 ≡ before ++ last ∷ []
  pub shown : out.0.pipeline ≡ some last
  pub all_kept : All (IsKept p) (before ++ last ∷ [])

module _ (p : Pipeline) where
  changed-IsHandled :
      (f : Pipeline → Pipeline) (s : GlobalSettings)
      → s.pipeline ≡ some p
      → IsKept p (f p)
      → IsHandled p (changed f s)
  unfolding changed
  changed-IsHandled f s h k =
      rw h (record { last = f p; before = []; sent = refl; shown = refl; all_kept = (k, tt) })

  then_volume-IsHandled :
      (field : VolumeField) (out : GlobalSettings × List Pipeline)
      → IsHandled p out
      → IsHandled p (then_volume field out)
  unfolding update_shared_volume changed
  then_volume-IsHandled field out h =
      rw (h.shown, h.sent)
        (record {
          last = _;
          before = h.before ++ h.last ∷ [];
          sent = refl;
          shown = refl;
          all_kept =
              All-append (IsKept p) _ _ h.all_kept
                (resettled-IsKept _ _ _ _ (last_kept p h.last h.before h.all_kept), tt);
        })

  pub handle-IsHandled :
      (ch : Change) (s : GlobalSettings) → s.pipeline ≡ some p → IsHandled p (handle ch s)
  unfolding handle update_spec update_pod_template update_shared_volume toggle_shared_volume
      select_volume_type add_env_var remove_env_var update_env_var update_env_vars type_namespace
  handle-IsHandled (namespace_typed value) s h =
      changed-IsHandled _ s h (resettled-IsKept _ _ _ _ (kept p))
  handle-IsHandled (service_account_typed value) s h =
      changed-IsHandled _ s h (resettled-IsKept _ _ _ _ (kept p))
  handle-IsHandled (pod_text_typed field) s h =
      changed-IsHandled _ s h (resettled-IsKept _ _ _ _ (kept p))
  handle-IsHandled (volume_toggled true) s h =
      changed-IsHandled _ s h (resettled-IsKept _ _ _ _ (kept p))
  handle-IsHandled (volume_toggled false) s h =
      changed-IsHandled _ s h (resettled-IsKept _ _ _ _ (kept p))
  handle-IsHandled (volume_text_typed field) s h =
      changed-IsHandled _ s h (resettled-IsKept _ _ _ _ (kept p))
  handle-IsHandled (volume_type_selected type) s h =
      elim (Bool-cases (str_eq type (codes "emptyDir"))) [
        | inl same ↦ rw same (
            then_volume-IsHandled (claim_field none) _
              (changed-IsHandled _ s h (resettled-IsKept _ _ _ _ (kept p))))
        | inr other ↦ rw other (
            then_volume-IsHandled (claim_field (some (record { claim_name = [] }))) _
              (changed-IsHandled _ s h (resettled-IsKept _ _ _ _ (kept p))))
      ]
  handle-IsHandled (claim_chosen name) s h =
      changed-IsHandled _ s h (resettled-IsKept _ _ _ _ (kept p))
  handle-IsHandled env_added s h = changed-IsHandled _ s h (resettled-IsKept _ _ _ _ (kept p))
  handle-IsHandled (env_removed index) s h =
      changed-IsHandled _ s h (resettled-IsKept _ _ _ _ (kept p))
  handle-IsHandled (env_typed index field value) s h =
      changed-IsHandled _ s h (resettled-IsKept _ _ _ _ (kept p))
