-- ===== src/Graph/Nodes.antt =====
-- The nodes of `pipelineToGraph`: one for each step, in order.
use jobrunner.Prelude.{
  ℕ, zero, suc, ◌+◌, ◌*◌, List, [], ◌∷◌, Option, none, some, ◌≡◌, refl, arith, get_elem?,
}
use jobrunner.Types.Pipeline.{PipelineStep, Pipeline}
use jobrunner.Types.Status.{PipelineStatus}
use jobrunner.Types.Graph.{PipelineNode}
use jobrunner.Graph.{find_status, nodes_from, pipeline_to_graph}

-- The node of step number `i`.
abbrev pub node_at : Option PipelineStatus → ℕ → PipelineStep → PipelineNode
node_at status i step = record {
  id = step.name;
  step = step;
  status = find_status status step.name;
  position = record { x = 0; y = 120 * i };
}

abbrev pub nodes_at : Option PipelineStatus → List PipelineStep → ℕ → Option PipelineNode
nodes_at status steps i = elim (get_elem? steps i) [
  | none ↦ none
  | some s ↦ some (node_at status i s)
]

get_elem?-nodes_from :
    (status : Option PipelineStatus) (index : ℕ) (steps : List PipelineStep) (i : ℕ)
    → get_elem? (nodes_from status index steps) i
      ≡ elim (get_elem? steps i) [ none ↦ none | some s ↦ some (node_at status (index + i) s) ]
unfolding nodes_from
get_elem?-nodes_from status index [] i = refl
get_elem?-nodes_from status index (step ∷ steps) zero = ground arith
get_elem?-nodes_from status index (step ∷ steps) (suc i) =
    rw (get_elem?-nodes_from status (index + 1) steps i) (ground arith)

-- Node number `i` stands for step number `i`, bears its name, carries its entry in the status and
-- lies 120 units below the one before; past the last step there is no node.
pub pipeline_to_graph-nodes :
    (pipeline : Pipeline) (i : ℕ)
    → get_elem? (pipeline_to_graph pipeline).nodes i
      ≡ nodes_at pipeline.status pipeline.spec.steps i
unfolding pipeline_to_graph
pipeline_to_graph-nodes pipeline i =
    rw (get_elem?-nodes_from pipeline.status 0 pipeline.spec.steps i) (ground arith)
