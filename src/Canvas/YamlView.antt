-- ===== src/Canvas/YamlView.antt =====
-- The round trip through the YAML view, and what a text that does not parse leaves unchanged.
use jobrunner.Prelude.{or_else, JsString, codes, [], ◌∷◌, none, some, ◌≡◌, ◌≢◌, refl, sym, ap}
use jobrunner.Types.Pipeline.{Pipeline}
use jobrunner.Canvas.{
  Canvas, builder, set_steps, strip, lay_out, update_pipeline_from_canvas, Parsed, object,
  no_object, thrown, ParsedPipeline, completed, adopt, show_parsed, yaml_to_pipeline,
  switch_to_yaml_view, switch_to_builder_view,
}
use jobrunner.Canvas.Sync.{IsSynced}

-- A pipeline as `parse` gives it back: every field is there.
abbrev pub parsed_of : Pipeline → ParsedPipeline
parsed_of p = record {
  api_version = some p.api_version;
  kind = some p.kind;
  metadata = some p.metadata;
  spec = some (record {
    steps = some p.spec.steps;
    service_account_name = p.spec.service_account_name;
    shared_volume = p.spec.shared_volume;
    pod_template = p.spec.pod_template;
  });
  status = p.status;
}

or_else-some : (s fallback : JsString) → s ≢ [] → or_else (some s) fallback ≡ s
or_else-some [] fallback h = absurd (h refl)
or_else-some (c ∷ s) fallback h = refl

completed-parsed_of :
    (p : Pipeline) → p.api_version ≢ [] → p.kind ≢ [] → completed (parsed_of p) ≡ p
completed-parsed_of p v k = λ i. record {
  api_version = or_else-some p.api_version (codes "pipeline.yaacov.io/v1") v i;
  kind = or_else-some p.kind (codes "Pipeline") k i;
  metadata = p.metadata;
  spec = p.spec;
  status = p.status;
}

-- The builder as it stands after a switch to the YAML view and back.
abbrev pub there_and_back : (Pipeline → JsString) → (JsString → Parsed) → Canvas → Canvas
there_and_back stringify parse c = switch_to_builder_view parse (switch_to_yaml_view stringify c)

-- If `parse` gives back the pipeline from the text that `stringify` wrote of it, then switching to
-- the YAML view and back keeps the pipeline and its steps; the steps are laid out anew.
pub there_and_back_lem :
    (stringify : Pipeline → JsString) (parse : JsString → Parsed) (c : Canvas)
    → parse (stringify c.pipeline) ≡ object (parsed_of c.pipeline)
    → IsSynced c
    → c.pipeline.api_version ≢ []
    → c.pipeline.kind ≢ []
    → ((there_and_back stringify parse c).pipeline ≡ c.pipeline)
      × ((there_and_back stringify parse c).canvas_steps ≡ lay_out (strip c.canvas_steps))
      × ((there_and_back stringify parse c).view_mode ≡ builder)
      × ((there_and_back stringify parse c).yaml_error ≡ none)
unfolding switch_to_builder_view switch_to_yaml_view update_pipeline_from_canvas
there_and_back_lem stringify parse c round h v k =
    let p : Pipeline = set_steps c.pipeline (strip c.canvas_steps) in
    let same : p ≡ c.pipeline = ap (set_steps c.pipeline) (sym h.steps) in
    rw (same, round, adopt) (completed-parsed_of c.pipeline v k, ap lay_out h.steps, refl, refl)

-- A text that does not parse leaves the builder in the view that it is in, with its pipeline and its
-- steps, and shows the error.
pub switch_to_builder_view_refused :
    (parse : JsString → Parsed) (c : Canvas)
    → ((p : ParsedPipeline) → parse c.yaml_content ≢ object p)
    → (message : JsString) × (switch_to_builder_view parse c
        ≡ record c { yaml_error = some message })
unfolding switch_to_builder_view yaml_to_pipeline
switch_to_builder_view_refused parse c h = by_result (parse c.yaml_content) h
  where
    by_result :
        (r : Parsed)
        → ((p : ParsedPipeline) → r ≢ object p)
        → (message : JsString) × (show_parsed (adopt r c).1 (adopt r c).0
            ≡ record c { yaml_error = some message })
    by_result (object p) h = absurd (h p refl)
    by_result no_object h = (codes "Invalid YAML: must be an object", refl)
    by_result (thrown message) h = (message, refl)
