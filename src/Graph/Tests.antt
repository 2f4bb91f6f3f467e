-- ===== src/Graph/Tests.antt =====
-- The graph of a small pipeline, step names and cycles, at concrete inputs.
use jobrunner.Prelude.{
  JsString, codes, List, [], ◌∷◌, none, some, Bool, true, ◌≡◌, ◌↔◌, ◌≢◌, sym, ◌∙◌, arith,
  str_eq_iff,
}
use jobrunner.Types.Pipeline.{Pipeline, PipelineStep, fail}
use jobrunner.Types.Graph.{PipelineEdge, sequential, failure}
use jobrunner.Graph.{pipeline_to_graph, step_names, create_empty_pipeline, create_default_step}
use jobrunner.Graph.Cycle.{would_create_cycle}
use jobrunner.Graph.Cycle.Walk.{Walk, one, more}
use jobrunner.Graph.Cycle.Adjacency.{links}
use jobrunner.Graph.Cycle.Decides.{NewEdge, would_create_cycle_decides}
use jobrunner.Graph.StepName.{validate_step_name}
use jobrunner.Graph.StepName.Grammar.{IsLabel, validate_step_name_iff}
use jobrunner.Graph.Depends.{HasEdge, DependsFrom}
use jobrunner.Graph.Edges.{pipeline_to_graph-edges_iff}

abbrev edge : JsString → JsString → PipelineEdge
edge source target = record {
  id = source;
  source = source;
  target = target;
  type = sequential;
  edge_data = none;
}

abbrev fetch_step : PipelineStep
fetch_step = create_default_step (codes "fetch")

abbrev repair_step : PipelineStep
repair_step = record (create_default_step (codes "repair")) {
  run_if = some (record { condition = some fail; operator = none; steps = codes "fetch" ∷ [] });
}

abbrev nightly : Pipeline
nightly =
    let p = create_empty_pipeline (codes "nightly") (codes "default") in
    record p { spec = record (p.spec) { steps = fetch_step ∷ repair_step ∷ [] } }

would_create_cycle_decides_example :
    (b : Bool) × (would_create_cycle (edge (codes "a") (codes "b") ∷ []) (codes "b") (codes "a")
      ≡ some b)
    × ((b ≡ true)
        ↔ ∥ (
            (v : JsString) × Walk
              (NewEdge (edge (codes "a") (codes "b") ∷ []) (codes "b") (codes "a"))
              v
              v) ∥₁)
would_create_cycle_decides_example =
    would_create_cycle_decides (edge (codes "a") (codes "b") ∷ []) (codes "b") (codes "a")

abbrev single : List PipelineEdge
single = edge (codes "a") (codes "b") ∷ []

links-single : (u v : JsString) → links single u v ≡ true → (u ≡ codes "a") × (v ≡ codes "b")
links-single u v h = ground (arith, str_eq_iff (codes "a") u, str_eq_iff (codes "b") v)

a-ne-b : codes "a" ≢ codes "b"
a-ne-b h = ground arith

Walk-single :
    {u v : JsString} → Walk (λ x y. links single x y ≡ true) u v → (u ≡ codes "a") × (v ≡ codes "b")
Walk-single (one {u} {v} e) = links-single u v e
Walk-single (more {u} {v} {w} e rest) =
    absurd (a-ne-b (sym (Walk-single rest).0 ∙ (links-single u v e).1))

validate_step_name_iff_example :
    (((validate_step_name (codes "step-1")).valid ≡ true) ↔ IsLabel (codes "step-1"))
    × (((validate_step_name (codes "step-1")).error ≡ none) ↔ IsLabel (codes "step-1"))
validate_step_name_iff_example = validate_step_name_iff (codes "step-1")

pipeline_to_graph-edges_iff_example :
    HasEdge (pipeline_to_graph nightly).edges (codes "fetch") (codes "repair") failure
    ↔ DependsFrom
        (step_names nightly)
        none
        nightly.spec.steps
        (codes "fetch")
        (codes "repair")
        failure
pipeline_to_graph-edges_iff_example =
    pipeline_to_graph-edges_iff nightly (codes "fetch") (codes "repair") failure
