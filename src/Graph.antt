-- ===== src/Graph.antt =====
-- ui/src/lib/graph-layout.ts: a pipeline as a graph, its layout, and new pipelines and steps.
-- `elk.layout` of elkjs is a parameter of `layout_graph`; `none` is a promise that is rejected.
pub mod Cycle
mod Defaults
mod Depends
pub mod Edges
pub mod Ends
pub mod Layout
pub mod Nodes
mod RunEdges
pub mod StepName
pub mod Tests
use jobrunner.Prelude.{
  ℕ, suc, ◌+◌, ◌*◌, JsString, codes, List, [], ◌∷◌, ◌++◌, Option, none, some, map, filter, find,
  if◌then◌else◌, str_eq, has, set_of,
}
use mathlib.Core.Option
use jobrunner.Types.Pod.{Container}
use jobrunner.Types.Pipeline.{
  ObjectMeta, never, PipelineStep, RunIfCondition, RunCondition, RunOperator, Pipeline,
}
use jobrunner.Types.Status.{StepStatus, PipelineStatus}
unfoldable pub use Defaults.*
use jobrunner.Types.Graph.{Position, PipelineNode, EdgeType, EdgeData, PipelineEdge, PipelineGraph}

-- `pipeline.status?.steps?.find(s => s.name === step.name)`
unfoldable pub find_status : Option PipelineStatus → JsString → Option StepStatus
find_status none name = none
find_status (some status) name = find (λ s. str_eq s.name name) status.steps

-- The first loop of `pipelineToGraph`, from the step of number `index` on.
unfoldable pub nodes_from : Option PipelineStatus → ℕ → List PipelineStep → List PipelineNode
unfolding find_status
nodes_from status index [] = []
nodes_from status index (step ∷ steps) =
    record {
      id = step.name;
      step = step;
      status = find_status status step.name;
      position = record { x = 0; y = index * 120 };
    }
    ∷ nodes_from status (index + 1) steps

abbrev pub edge_id : JsString → JsString → JsString
edge_id source target = source ++ codes "->" ++ target

-- `step.runIf!.condition === 'fail' ? 'failure' : 'success'`
abbrev pub run_edge_type : Option RunCondition → EdgeType
run_edge_type (some RunCondition.fail) = EdgeType.failure
run_edge_type _ = EdgeType.success

abbrev pub run_edge : RunIfCondition → JsString → JsString → PipelineEdge
run_edge run name dep_step = record {
  id = edge_id dep_step name;
  source = dep_step;
  target = name;
  type = run_edge_type run.condition;
  edge_data = some (record {
    condition = some (Option.get_or run.condition RunCondition.success);
    operator = some (Option.get_or run.operator RunOperator.and);
  });
}

abbrev pub sequential_edge : JsString → JsString → PipelineEdge
sequential_edge prev name = record {
  id = edge_id prev name;
  source = prev;
  target = name;
  type = EdgeType.sequential;
  edge_data = none;
}

-- The body of the second loop. `prev` is the step before, none at index 0.
unfoldable pub step_edges : List JsString → Option PipelineStep → PipelineStep → List PipelineEdge
step_edges step_names prev step = elim step.run_if [
  | some run ↦ map (run_edge run step.name) (filter (has step_names) run.steps)
  | none ↦ elim prev [ none ↦ [] | some p ↦ sequential_edge p.name step.name ∷ [] ]
]

unfoldable pub edges_from :
    List JsString → Option PipelineStep → List PipelineStep → List PipelineEdge
unfolding step_edges
edges_from step_names prev [] = []
edges_from step_names prev (step ∷ steps) =
    step_edges step_names prev step ++ edges_from step_names (some step) steps

abbrev pub step_names : Pipeline → List JsString
step_names pipeline = map (λ s. s.name) pipeline.spec.steps

unfoldable pub pipeline_to_graph : Pipeline → PipelineGraph
unfolding nodes_from edges_from
pipeline_to_graph pipeline = record {
  nodes = nodes_from pipeline.status 0 pipeline.spec.steps;
  edges = edges_from (set_of (step_names pipeline)) none pipeline.spec.steps;
}

-- What `layoutGraph` hands to ELK, and what it reads of the answer.
pub record ElkChild : Type 0 where
  pub id : JsString
  pub width : ℕ
  pub height : ℕ

pub record ElkEdge : Type 0 where
  pub id : JsString
  pub sources : List JsString
  pub targets : List JsString

pub record ElkGraph : Type 0 where
  pub id : JsString
  pub layout_options : List (JsString × JsString)
  pub children : List ElkChild
  pub edges : List ElkEdge

pub record ElkPlaced : Type 0 where
  pub id : JsString
  pub x : Option ℕ
  pub y : Option ℕ

abbrev pub layout_options : List (JsString × JsString)
layout_options =
    (codes "elk.algorithm", codes "layered")
    ∷ (codes "elk.direction", codes "DOWN")
    ∷ (codes "elk.spacing.nodeNode", codes "25")
    ∷ (codes "elk.layered.spacing.nodeNodeBetweenLayers", codes "35")
    ∷ (codes "elk.layered.nodePlacement.strategy", codes "SIMPLE")
    ∷ (codes "elk.edgeRouting", codes "ORTHOGONAL")
    ∷ []

unfoldable pub elk_graph : PipelineGraph → ElkGraph
elk_graph graph = record {
  id = codes "root";
  layout_options = layout_options;
  children = map (λ node. record { id = node.id; width = 240; height = 100 }) graph.nodes;
  edges =
      map (λ edge. record { id = edge.id; sources = edge.source ∷ []; targets = edge.target ∷ [] })
        graph.edges;
}

-- The body of the last loop of `layoutGraph`; `none` is a missing `children`.
unfoldable pub place : Option (List ElkPlaced) → PipelineNode → PipelineNode
place none node = node
place (some children) node = elim (find (λ n. str_eq n.id node.id) children) [
  | none ↦ node
  | some n ↦ record node { position = record { x = Option.get_or n.x 0; y = Option.get_or n.y 0 } }
]

unfoldable pub layout_graph :
    (ElkGraph → Option (Option (List ElkPlaced))) → PipelineGraph → Option PipelineGraph
unfolding place elk_graph
layout_graph elk graph =
    Option.map
      (λ children. record { nodes = map (place children) graph.nodes; edges = graph.edges })
      (elk (elk_graph graph))
