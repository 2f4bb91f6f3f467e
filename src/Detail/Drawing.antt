-- ===== src/Detail/Drawing.antt =====
-- `renderGraph` of ui/src/components/monitor/pipeline-detail.ts: the size of the canvas, and where
-- the arrows of the edges begin and end. The path between, its control points and the markup are
-- not modelled; an offset is an exact fraction, which the code rounds to a double.
pub mod Bounds
pub mod Spread
pub mod Complete
use jobrunner.Prelude.{
  ℕ, zero, suc, ◌+◌, ◌-◌, ◌*◌, ◌≤◌, ◌<◌, min, max, JsString, codes, List, [], ◌∷◌, ◌++◌, Option,
  none, some, Bool, true, false, length, filter, map, str_eq, ltb, leb, ◌==◌, if◌then◌else◌,
}
use jobrunner.Types.Graph.{Position, PipelineNode, EdgeType, PipelineEdge, PipelineGraph}

abbrev pub node_width : ℕ
node_width = 240

abbrev pub node_height : ℕ
node_height = 100

-- The loop for `maxX` and `maxY`, from what they are so far.
unfoldable pub corner_from : ℕ → ℕ → List PipelineNode → Position
corner_from x y [] = record { x = x; y = y }
corner_from x y (node ∷ nodes) =
    corner_from (max x (node.position.x + node_width)) (max y (node.position.y + node_height)) nodes

unfoldable pub canvas_size : PipelineGraph → Position
unfolding corner_from
canvas_size graph =
    let corner = corner_from 0 0 graph.nodes in record { x = corner.x + 20; y = corner.y + 20 }

-- `nodePositions.get(id)`: a later node of the same id replaces an earlier one.
unfoldable pub node_position : List PipelineNode → JsString → Option Position
node_position [] id = none
node_position (node ∷ nodes) id =
    let later = node_position nodes id in
    elim later [
      | some position ↦ some position
      | none ↦ if str_eq node.id id then some node.position else none
    ]

-- The edges in the order of the graph, each with its number, which tells it from an equal one.
unfoldable pub numbered_from : ℕ → List PipelineEdge → List (ℕ × PipelineEdge)
numbered_from i [] = []
numbered_from i (edge ∷ edges) = (i, edge) ∷ numbered_from (i + 1) edges

-- `outgoingEdges.get(source)` and `incomingEdges.get(target)`.
unfoldable pub outgoing : List (ℕ × PipelineEdge) → JsString → List (ℕ × PipelineEdge)
outgoing edges source = filter (λ e. str_eq e.1.source source) edges

unfoldable pub incoming : List (ℕ × PipelineEdge) → JsString → List (ℕ × PipelineEdge)
incoming edges target = filter (λ e. str_eq e.1.target target) edges

-- `indexOf` of an edge that is in the list.
unfoldable pub index_of : ℕ → List (ℕ × PipelineEdge) → ℕ
index_of number [] = 0
index_of number (e ∷ edges) =
    let rest = index_of number edges in if e.0 == number then 0 else rest + 1

-- An amount of pixels as a fraction.
pub record Fraction : Type 0 where
  pub num : ℕ
  pub den : ℕ

abbrev pub spread_of : ℕ → ℕ
spread_of count = min 120 ((count - 1) * 25)

-- `sourceOffsetX` of edge number `index` of `count`: `120 - spread / 2 + index * spread / (count - 1)`
-- over the denominator `2 * (count - 1)`, or the center.
unfoldable pub offset : ℕ → ℕ → Fraction
offset index count =
    if ltb 1 count
    then record {
      num = (node_width - spread_of count) * (count - 1) + index * (2 * spread_of count);
      den = 2 * (count - 1);
    }
    else record { num = 120; den = 1 }

-- A whole number of pixels: `y - 2` can be negative.
pub data ℤ : Type 0 where
  pos negsuc : ℕ → ℤ

abbrev pub minus_two : ℕ → ℤ
minus_two zero = negsuc 1
minus_two (suc zero) = negsuc 0
minus_two (suc (suc n)) = pos n

-- An arrow: the corner of its source with the offset in it, the same for its target, and the two
-- heights. `x1` is `from_x` with the offset `from_offset`, and `x2` likewise.
pub record Arrow : Type 0 where
  pub from_x : ℕ
  pub from_offset : Fraction
  pub y1 : ℕ
  pub to_x : ℕ
  pub to_offset : Fraction
  pub y2 : ℤ
  pub edge_class : JsString
  pub marker_id : JsString

abbrev pub edge_class_of : EdgeType → JsString
edge_class_of EdgeType.failure = codes "failure"
edge_class_of EdgeType.success = codes "success"
edge_class_of EdgeType.sequential = []

abbrev pub marker_id_of : EdgeType → JsString
marker_id_of EdgeType.failure = codes "arrow-failure"
marker_id_of EdgeType.success = codes "arrow-success"
marker_id_of EdgeType.sequential = codes "arrow"

abbrev pub arrow_between : List (ℕ × PipelineEdge) → ℕ → PipelineEdge → Position → Position → Arrow
arrow_between edges number edge source target =
    let from = outgoing edges edge.source in
    let to = incoming edges edge.target in
    record {
      from_x = source.x;
      from_offset = offset (index_of number from) (length from);
      y1 = source.y + node_height;
      to_x = target.x;
      to_offset = offset (index_of number to) (length to);
      y2 = minus_two target.y;
      edge_class = edge_class_of edge.type;
      marker_id = marker_id_of edge.type;
    }

-- The arrow of an edge, or nothing where one of its nodes is missing.
abbrev pub arrow_of :
    List (ℕ × PipelineEdge) → ℕ × PipelineEdge → Option Position → Option Position → Option Arrow
arrow_of edges e (some source) (some target) = some (arrow_between edges e.0 e.1 source target)
arrow_of edges e _ _ = none

unfoldable pub draw_edge :
    List PipelineNode → List (ℕ × PipelineEdge) → ℕ × PipelineEdge → Option Arrow
unfolding node_position offset outgoing incoming index_of
draw_edge nodes edges e =
    arrow_of edges e (node_position nodes e.1.source) (node_position nodes e.1.target)

unfoldable pub draw_edges : PipelineGraph → List (Option Arrow)
unfolding draw_edge numbered_from
draw_edges graph =
    let edges = numbered_from 0 graph.edges in map (draw_edge graph.nodes edges) edges
