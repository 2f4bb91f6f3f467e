-- ===== src/Editor/EnvFrom.antt =====
-- ui/src/components/builder/step-editor.ts: the secrets whose entries a step takes into its
-- environment.
use jobrunner.Prelude.{
  JsString, List, [], ◌∷◌, ◌++◌, Option, none, some, Bool, true, false, not, ◌&&◌, ◌||◌, ◌≡◌, ◌≢◌,
  refl, ap, ◌∙◌, arith, filter, any, or_empty, str_eq, str_eq_iff, Bool-cases, inl, inr, subst,
}
use jobrunner.Types.Pod.{EnvFromSource, SecretEnvSource, Container}
use jobrunner.Types.Pipeline.{PipelineStep}
use jobrunner.Canvas.{StepUpdates, merge, map_first}
use jobrunner.Editor.{
  head_of, names_secret, get_container, env_from_of, get_env_from, some_sources, is_from,
  from_secret, update_env_from, add_secret_env_from, remove_secret_env_from,
}

-- The step takes the entries of the secret.
abbrev pub takes : JsString → PipelineStep → Bool
takes name step = any (is_from name) (get_env_from step)

or_empty-some_sources : (sources : List EnvFromSource) → or_empty (some_sources sources) ≡ sources
or_empty-some_sources [] = refl
or_empty-some_sources (source ∷ sources) = refl

env_from-map_first :
    (sources : List EnvFromSource) (containers : List Container) (container : Container)
    → head_of containers ≡ some container
    → env_from_of (
        head_of
          (map_first (λ (c : Container). record c { env_from = some_sources sources }) containers))
      ≡ sources
env_from-map_first sources [] container h = cc
env_from-map_first sources (c ∷ containers) container h = or_empty-some_sources sources

-- Once the update is merged in, a step that has a container has the given sources.
get_env_from-update :
    (sources : List EnvFromSource) (step : PipelineStep) (container : Container)
    → get_container step ≡ some container
    → get_env_from (merge step (update_env_from sources step)) ≡ sources
unfolding get_env_from update_env_from
get_env_from-update sources step container h =
    env_from-map_first sources step.job_spec.template.spec.containers container h

names_secret-same :
    (name x : JsString) (source : Option SecretEnvSource)
    → names_secret name source ≡ true
    → names_secret x source ≡ str_eq name x
names_secret-same name x none h = cc
names_secret-same name x (some source) h = ap (λ n. str_eq n x) ((str_eq_iff source.name name).0 h)

any-without :
    (name x : JsString) (sources : List EnvFromSource)
    → any (is_from x) (filter (λ e. not (is_from name e)) sources)
      ≡ (any (is_from x) sources && not (str_eq name x))
any-without name x [] = refl
any-without name x (e ∷ sources) =
    let ih = any-without name x sources in
    elim (Bool-cases (is_from name e)) [
      | inl from ↦
          let shared = names_secret-same name x e.secret_ref from in ground (arith, ih, shared)
      | inr other ↦ elim (Bool-cases (str_eq name x)) [
        | inl same ↦
            let apart : is_from x e ≡ false =
              subst (λ n. is_from n e ≡ false) ((str_eq_iff name x).0 same) other in
            ground (arith, ih, apart)
        | inr differ ↦ ground (arith, ih)
      ]
    ]

remove_secret_env_from-takes :
    (name x : JsString) (step : PipelineStep) (container : Container)
    → get_container step ≡ some container
    → takes x (merge step (remove_secret_env_from name step))
      ≡ (takes x step && not (str_eq name x))
unfolding remove_secret_env_from
remove_secret_env_from-takes name x step container h =
    ap (any (is_from x)) (
      get_env_from-update (filter (λ e. not (is_from name e)) (get_env_from step)) step container h)
    ∙ any-without name x (get_env_from step)

any-behind :
    (name x : JsString) (sources : List EnvFromSource)
    → any (is_from x) (sources ++ from_secret name ∷ [])
      ≡ (any (is_from x) sources || str_eq name x)
any-behind name x [] = ground arith
any-behind name x (e ∷ sources) = ground (arith, any-behind name x sources)

container-map_first :
    (f : Container → Container) (containers : List Container) (container : Container)
    → head_of containers ≡ some container
    → (c : Container) × (head_of (map_first f containers) ≡ some c)
container-map_first f [] container h = cc
container-map_first f (c ∷ containers) container h = (f c, refl)

container-update :
    (sources : List EnvFromSource) (step : PipelineStep) (container : Container)
    → get_container step ≡ some container
    → (c : Container) × (get_container (merge step (update_env_from sources step)) ≡ some c)
unfolding update_env_from
container-update sources step container h =
    container-map_first _ step.job_spec.template.spec.containers container h

taken_back :
    (name x : JsString) (step : PipelineStep)
    → takes name step ≡ false
    → ((takes x step || str_eq name x) && not (str_eq name x)) ≡ takes x step
taken_back name x step new = elim (Bool-cases (str_eq name x)) [
  | inl same ↦
      let apart : takes x step ≡ false =
        subst (λ n. takes n step ≡ false) ((str_eq_iff name x).0 same) new in
      rw (same, apart) refl
  | inr other ↦ rw other (ground arith)
]

-- For a step with a container, adding a secret with a name that the step does not take yet makes it
-- take that secret too and no other one, and removing it again leaves it with the secrets that it
-- took before.
pub env_from_lem :
    (name x : JsString) (step : PipelineStep) (container : Container)
    → name ≢ []
    → takes name step ≡ false
    → get_container step ≡ some container
    → (updates : StepUpdates) × (add_secret_env_from name step ≡ some updates)
      × (takes x (merge step updates) ≡ (takes x step || str_eq name x))
      × (takes x (merge (merge step updates) (remove_secret_env_from name (merge step updates)))
          ≡ takes x step)
unfolding add_secret_env_from
env_from_lem [] x step container named new h = absurd (named refl)
env_from_lem (c ∷ name) x step container named new h =
    let sources = get_env_from step ++ from_secret (c ∷ name) ∷ [] in
    let updates = update_env_from sources step in
    let (still, there) = container-update sources step container h in
    let added : takes x (merge step updates) ≡ (takes x step || str_eq (c ∷ name) x) =
      ap (any (is_from x)) (get_env_from-update sources step container h)
      ∙ any-behind (c ∷ name) x (get_env_from step) in
    (
      updates,
      rw new refl,
      added,
      remove_secret_env_from-takes (c ∷ name) x (merge step updates) still there
          ∙ ap (λ b. b && not (str_eq (c ∷ name) x)) added
          ∙ taken_back (c ∷ name) x step new,
    )
