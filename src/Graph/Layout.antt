-- ===== src/Graph/Layout.antt =====
-- What `layoutGraph` keeps, whatever ELK answers.
use mathlib.Core.Option
use jobrunner.Prelude.{List, [], ◌∷◌, Option, none, some, map, find, ◌≡◌, refl, str_eq, arith}
use jobrunner.Types.Graph.{Position, PipelineNode, PipelineGraph}
use jobrunner.Graph.{ElkGraph, ElkPlaced, place, elk_graph, layout_graph}

-- The node without its position.
abbrev pub fixed : PipelineNode → PipelineNode
fixed node = record node { position = record { x = 0; y = 0 } }

abbrev pub found_at : List ElkPlaced → PipelineNode → Option ElkPlaced
found_at children node = find (λ n. str_eq n.id node.id) children

-- The position that the answer of ELK gives to a node: the first child of that id, 0 for a
-- coordinate that it leaves out, and the old position where there is no such child.
abbrev pub given_position : Option (List ElkPlaced) → PipelineNode → Position
given_position none node = node.position
given_position (some children) node = elim (found_at children node) [
  | none ↦ node.position
  | some n ↦ record { x = Option.get_or n.x 0; y = Option.get_or n.y 0 }
]

fixed-place :
    (answer : Option (List ElkPlaced)) (node : PipelineNode)
    → fixed (place answer node) ≡ fixed node
unfolding place
fixed-place none node = refl
fixed-place (some children) node = ground arith

place_position :
    (answer : Option (List ElkPlaced)) (node : PipelineNode)
    → (place answer node).position ≡ given_position answer node
unfolding place
place_position none node = refl
place_position (some children) node = ground arith

map-place-fixed :
    (answer : Option (List ElkPlaced)) (nodes : List PipelineNode)
    → map fixed (map (place answer) nodes) ≡ map fixed nodes
map-place-fixed answer [] = refl
map-place-fixed answer (n ∷ ns) = cc (fixed-place answer n, map-place-fixed answer ns)

map-place_position :
    (answer : Option (List ElkPlaced)) (nodes : List PipelineNode)
    → map (λ n. n.position) (map (place answer) nodes) ≡ map (given_position answer) nodes
map-place_position answer [] = refl
map-place_position answer (n ∷ ns) = cc (place_position answer n, map-place_position answer ns)

-- Whatever places ELK answers, the layout succeeds, and the laid out graph has the same edges and
-- the same nodes in the same order but for their positions; each position is the one that the
-- answer gives.
pub layout_graph_lem :
    (elk : ElkGraph → Option (Option (List ElkPlaced))) (graph : PipelineGraph)
    (answer : Option (List ElkPlaced))
    → elk (elk_graph graph) ≡ some answer
    → (laid_out : PipelineGraph) × (layout_graph elk graph ≡ some laid_out)
      × (laid_out.edges ≡ graph.edges)
      × (map fixed laid_out.nodes ≡ map fixed graph.nodes)
      × (map (λ n. n.position) laid_out.nodes ≡ map (given_position answer) graph.nodes)
unfolding layout_graph
layout_graph_lem elk graph answer e = (
  record { nodes = map (place answer) graph.nodes; edges = graph.edges },
  rw e,
  refl,
  map-place-fixed answer graph.nodes,
  map-place_position answer graph.nodes,
)
